-- ===== src/SingleList/Find.antt =====
-- container/TSingleList.h: searching by data, and container/TSingleElement.h: comparing.
pub mod Found
use pwxlib.Base.{ℕ, zero, suc, Bool, true, false, not, ◌&&◌, ◌||◌, ◌==◌, if◌then◌else◌, ltb}
use pwxlib.SingleList.{Ptr, Node, World, Run, done, undefined, ◌>>=◌, deref}
use pwxlib.SingleList.Element.{get_next}
use pwxlib.SingleList.Numbers.{next_of, set_curr, curr, empty, size}

-- The result of `compare()`: -1, 0 and 1.
pub data Comparison : Type 0 where
  less : Comparison
  same : Comparison
  more : Comparison

abbrev pub is_same : Comparison → Bool
is_same same = true
is_same less = false
is_same more = false

abbrev pub is_less : Comparison → Bool
is_less less = true
is_less same = false
is_less more = false

-- What the operators of `data_t` say of the data at two addresses.
pub record Values : Type 0 where
  pub equal : Ptr → Ptr → Bool
  pub greater : Ptr → Ptr → Bool
  pub almost_equal : Ptr → Ptr → Bool
  pub is_float : Bool

module _ (v : Values) where
  abbrev order_values : Ptr → Ptr → Comparison
  order_values a b =
      if v.is_float && v.almost_equal a b
      then same
      else if v.greater a b
      then more
      else if v.greater b a
      then less
      else same

  -- `compare( data_t const& )`.
  unfoldable pub compare_data : Node → Ptr → Comparison
  compare_data n d =
      if n.data_ptr == d
      then same
      else if n.is_destroyed || n.data_ptr == 0
      then less
      else order_values n.data_ptr d

  -- `compare( const elem_t* )` of the element at `p` with the one at `q`.
  unfoldable pub compare_nodes : Node → Node → Comparison
  compare_nodes n m =
      if n.is_destroyed && m.is_destroyed
      then same
      else if n.is_destroyed
      then less
      else if m.is_destroyed
      then more
      else if not (n.data_ptr == 0) && not (m.data_ptr == 0)
      then order_values n.data_ptr m.data_ptr
      else if not (n.data_ptr == 0)
      then more
      else if not (m.data_ptr == 0)
      then less
      else same

  unfoldable pub compare_elem : Ptr → Ptr → World → Run Comparison
  compare_elem p q w = do
    n ← deref p w
    (if q == 0
        then done more
        else if q == p
        then done same
        else (do m ← deref q w; done (compare_nodes n m)))

  -- `operator==( data_t const& )`.
  unfoldable pub equals_data : Ptr → Node → Bool
  equals_data d n = if v.is_float then v.almost_equal n.data_ptr d else v.equal n.data_ptr d

abbrev pub has_data : Ptr → Node → Bool
has_data d n = n.data_ptr == d

abbrev pub test_at : (Node → Bool) → Ptr → World → Run Bool
test_at test p w = do n ← deref p w; done (test n)

-- The walk of both searches, from `x_curr` on.
unfoldable pub find_on : ℕ → (Node → Bool) → Ptr → World → Run (Ptr × World)
find_on zero test x_curr w = undefined
find_on (suc fuel) test x_curr w = if x_curr == 0 then done (0, w) else (do
  n ← deref x_curr w
  (if test n
      then done (x_curr, set_curr x_curr w)
      else if x_curr == w.tail
      then done (0, w)
      else find_on fuel test (get_next n) w))

-- The current element failed: the head, the tail, and then the walk.
unfoldable pub find_others : ℕ → (Node → Bool) → (Node → Bool) → Ptr → World → Run (Ptr × World)
find_others fuel test walk x_curr w = if not (ltb 1 (size w)) then done (0, w) else (do
  at_head ← (if w.head == x_curr then done false else test_at test w.head w)
  (if at_head then done (w.head, set_curr w.head w) else (do
    at_tail ← (if w.tail == x_curr then done false else test_at test w.tail w)
    (if at_tail
        then done (w.tail, set_curr w.tail w)
        else (do q ← next_of w.head w; find_on fuel walk q w)))))

unfoldable pub find_with : ℕ → (Node → Bool) → (Node → Bool) → Bool → World → Run (Ptr × World)
find_with fuel test walk null_allowed w = if empty w then done (0, w) else (do
  here ← (if null_allowed && curr w == 0 then done false else test_at test (curr w) w)
  (if here then done (curr w, w) else find_others fuel test walk (curr w) w))

unfoldable pub prot_find : ℕ → Ptr → World → Run (Ptr × World)
prot_find fuel d w = find_with fuel (has_data d) (has_data d) true w

unfoldable pub prot_find_data : Values → ℕ → Ptr → World → Run (Ptr × World)
prot_find_data v fuel d w =
    find_with fuel (equals_data v d) (λ n. is_same (compare_data v n d)) false w

-- The loop of `privFindPrev()`.
unfoldable pub find_prev_on : ℕ → Ptr → Ptr → Ptr → World → Run (Ptr × World)
find_prev_on zero d x_prev x_curr w = undefined
find_prev_on (suc fuel) d x_prev x_curr w =
    if x_prev == 0 || x_prev == w.tail then done (0, w) else (do
      n ← deref x_curr w
      (if n.data_ptr == d
          then done (x_prev, set_curr x_curr w)
          else find_prev_on fuel d x_curr (get_next n) w))

unfoldable pub priv_find_prev : ℕ → Ptr → World → Run (Ptr × World)
priv_find_prev fuel d w = do q ← next_of w.head w; find_prev_on fuel d w.head q w
