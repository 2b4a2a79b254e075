-- ===== src/DoubleList/Find.antt =====
-- container/TDoubleList.h: searching by data, both ways from the current element.
use pwxlib.Base.{ℕ, zero, suc, Bool, true, false, not, ◌||◌, ◌==◌, if◌then◌else◌, ltb}
use pwxlib.SingleList.{Ptr}
use pwxlib.DoubleList.{Node, World, Run, done, undefined, ◌>>=◌, deref}
use pwxlib.DoubleList.Element.{get_next, get_prev}
use pwxlib.DoubleList.Numbers.{next_of, prev_of, curr, set_curr, empty}

abbrev has_data : Ptr → Node → Bool
has_data d n = n.data_ptr == d

abbrev test_at : (Node → Bool) → Ptr → World → Run Bool
test_at test p w = do n ← deref p w; done (test n)

-- The loops of `protFind()`: `to` gives the next element, and the walk ends at `stop`.
unfoldable pub find_on : ℕ → (Node → Bool) → (Node → Ptr) → Ptr → Ptr → World → Run (Ptr × World)
find_on zero test to stop x_curr w = undefined
find_on (suc fuel) test to stop x_curr w = if x_curr == 0 then done (0, w) else (do
  n ← deref x_curr w
  (if test n
      then done (x_curr, set_curr x_curr w)
      else if x_curr == stop
      then done (0, w)
      else find_on fuel test to stop (to n) w))

-- Both walks from the current element.
unfoldable pub find_both : ℕ → (Node → Bool) → Ptr → World → Run (Ptr × World)
find_both fuel test old_curr w = do
  q ← next_of old_curr w
  (result, w₁) ← find_on fuel test get_next w.tail q w
  (if not (result == 0)
      then done (result, w₁)
      else (do p ← prev_of old_curr w₁; find_on fuel test get_prev w₁.head p w₁))

-- The current element failed: the head, the tail, and then the walks.
unfoldable pub find_others : ℕ → (Node → Bool) → Ptr → World → Run (Ptr × World)
find_others fuel test x_curr w = if not (ltb 1 w.e_count) then done (0, w) else (do
  at_head ← (if w.head == x_curr then done false else test_at test w.head w)
  (if at_head then done (w.head, set_curr w.head w) else (do
    at_tail ← (if w.tail == x_curr then done false else test_at test w.tail w)
    (if at_tail then done (w.tail, set_curr w.tail w) else find_both fuel test x_curr w))))

unfoldable pub prot_find : ℕ → Ptr → World → Run (Ptr × World)
prot_find fuel d w = if empty w then done (0, w) else (do
  here ← (if curr w == 0 then done false else test_at (has_data d) (curr w) w)
  (if here then done (curr w, w) else find_others fuel (has_data d) (curr w) w))

-- The loops of `privFindPrev()`: the upward one, which returns the element before the one found,
unfoldable pub find_prev_up : ℕ → Ptr → Ptr → Ptr → World → Run (Bool × Ptr × World)
find_prev_up zero d x_prev x_curr w = undefined
find_prev_up (suc fuel) d x_prev x_curr w =
    if x_prev == 0 || x_prev == w.tail then done (false, 0, w) else (do
      n ← deref x_curr w
      (if n.data_ptr == d
          then done (true, x_prev, set_curr x_curr w)
          else find_prev_up fuel d x_curr (get_next n) w))

-- and the downward one, which leaves `xPrev` behind the element it looks at.
unfoldable pub find_prev_down : ℕ → Ptr → Ptr → Ptr → World → Run (Ptr × World)
find_prev_down zero d x_prev x_curr w = undefined
find_prev_down (suc fuel) d x_prev x_curr w =
    if x_curr == 0 || x_curr == w.head then done (0, w) else (do
      n ← deref x_curr w
      (if n.data_ptr == d
          then done (x_prev, set_curr x_curr w)
          else find_prev_down fuel d x_curr (get_prev n) w))

unfoldable pub priv_find_prev : ℕ → Ptr → World → Run (Ptr × World)
priv_find_prev fuel d w = do
  q ← next_of (curr w) w
  (found, result, w₁) ← find_prev_up fuel d (curr w) q w
  (if found
      then done (result, w₁)
      else (do p ← prev_of (curr w₁) w₁; find_prev_down fuel d p (curr w₁) w₁))
