-- ===== src/SingleList/Sorted.antt =====
-- container/TSingleList.h: where `insert_sorted` puts an element.
pub mod Front
use pwxlib.Base.{ℕ, zero, suc, Bool, true, false, not, ◌&&◌, ◌||◌, ◌==◌, if◌then◌else◌}
use pwxlib.SingleList.{Ptr, World, Run, done, thrown, undefined, source_destroyed, ◌>>=◌, deref}
use pwxlib.SingleList.Element.{get_next}
use pwxlib.SingleList.Numbers.{curr, set_curr, empty}
use pwxlib.SingleList.Insert.{allocate, prot_insert}
use pwxlib.SingleList.Find.{Values, compare_data, is_less}

module _ (v : Values) where
  abbrev pub below : Ptr → Ptr → World → Run Bool
  below p d w = do n ← deref p w; done (is_less (compare_data v n d))

  abbrev pub below_unless_null : Bool → Ptr → Ptr → World → Run Bool
  below_unless_null b p d w = if p == 0 then done b else below p d w

  -- The loop of `protFindGreaterNext()`.
  unfoldable pub greater_next_on : ℕ → Ptr → Ptr → Ptr → World → Run (Ptr × World)
  greater_next_on zero d x_curr x_next w = undefined
  greater_next_on (suc fuel) d x_curr x_next w =
      if x_curr == 0 || x_next == 0 then done (0, w) else (do
        n ← deref x_curr w
        smaller ← below (get_next n) d w
        (if not smaller
            then done (get_next n, set_curr x_curr w)
            else if x_curr == w.tail
            then done (0, set_curr w.tail w)
            else greater_next_on fuel d (get_next n) (get_next n) w))

  -- The current element and its neighbour do not enclose the data: the ends, and then the walk.
  unfoldable pub greater_next_others : ℕ → Ptr → Bool → Ptr → Ptr → World → Run (Ptr × World)
  greater_next_others fuel d curr_below x_curr x_next w = do
    head_below ← below_unless_null true w.head d w
    (if not head_below then done (w.head, set_curr w.head w) else (do
      tail_below ← below_unless_null false w.tail d w
      (if tail_below then done (0, set_curr w.tail w) else (do
        h ← deref w.head w
        greater_next_on fuel d (if curr_below then x_curr else get_next h) x_next w))))

  unfoldable pub prot_find_greater_next : ℕ → Ptr → World → Run (Ptr × World)
  prot_find_greater_next fuel d w = if empty w then done (0, w) else (do
    n ← deref (curr w) w
    let x_next = get_next n
    let curr_below = is_less (compare_data v n d)
    next_below ← (if curr_below then below_unless_null false x_next d w else done true)
    (if curr_below && not next_below
        then done (x_next, w)
        else greater_next_others fuel d curr_below (curr w) x_next w))

  unfoldable pub insert_sorted : ℕ → Ptr → World → Run (ℕ × World)
  insert_sorted fuel d w = do
    let w₁ = allocate d true w
    (prev, w₂) ← prot_find_greater_next fuel d w₁
    prot_insert fuel prev w.next_free w₂

  unfoldable pub insert_elem_sorted : ℕ → Ptr → World → Run (ℕ × World)
  insert_elem_sorted fuel src w = do
    n ← deref src w
    (if n.is_destroyed then thrown source_destroyed w else (do
      let w₁ = allocate n.data_ptr n.thread_safe w
      (prev, w₂) ← prot_find_greater_next fuel n.data_ptr w₁
      prot_insert fuel prev w.next_free w₂))
