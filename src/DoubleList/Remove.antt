-- ===== src/DoubleList/Remove.antt =====
-- container/TDoubleList.h: removal of elements.
use pwxlib.Base.{ℕ, true, ◌||◌, ◌==◌, if◌then◌else◌, pred_u32}
use pwxlib.SingleList.{Ptr}
use pwxlib.DoubleList.{World, Run, done, ◌>>=◌, deref}
use pwxlib.DoubleList.Element.{remove}
use pwxlib.DoubleList.Numbers.{next_of, prev_of, set_head, set_tail, set_curr}

module _ (fuel : ℕ) where
  -- The ends of the list move away from the element that goes.
  unfoldable pub leave_ends : Ptr → World → Run World
  leave_ends elem w =
      if w.head == elem
      then (do q ← next_of w.head w; set_head fuel q w)
      else if w.tail == elem
      then (do q ← prev_of w.tail w; done (set_tail q w))
      else done (record w { do_renumber = true })

  -- The count goes down, and the last element to leave resets the ends.
  unfoldable pub count_down : World → Run World
  count_down w = do
    let w₁ = record w { e_count = pred_u32 w.e_count }
    (if w.e_count == 1
        then (do w₂ ← set_head fuel 0 (set_curr 0 w₁); done (set_tail 0 w₂))
        else done w₁)

  -- The element removed, null when there is none, and the state.
  unfoldable pub priv_remove : Ptr → World → Run (Ptr × World)
  priv_remove elem w = if elem == 0 then done (0, w) else (do
    n ← deref elem w
    (if n.is_removed || n.is_destroyed
        then done (0, w)
        else (do w₁ ← leave_ends elem w; w₂ ← remove elem w₁; w₃ ← count_down w₂; done (elem, w₃))))

  -- `found` is what `protFind( data )` gave, for data that is not null.
  unfoldable pub remove_found : Ptr → Ptr → World → Run (Ptr × World)
  remove_found d found w = priv_remove (if d == 0 then 0 else found) w

  abbrev remove_unless_null : Ptr → World → Run (Ptr × World)
  remove_unless_null to_remove w = if to_remove == 0 then done (0, w) else priv_remove to_remove w

  unfoldable pub remove_after_found : Ptr → Ptr → World → Run (Ptr × World)
  remove_after_found prev found w = do
    to_remove ← (if prev == 0 then done w.head else if found == 0 then done 0 else next_of found w)
    remove_unless_null to_remove w

  unfoldable pub priv_remove_after_element : Ptr → World → Run (Ptr × World)
  priv_remove_after_element prev w = do
    q ← (if prev == 0 then done w.head else next_of prev w)
    priv_remove q w

  unfoldable pub remove_before_found : Ptr → Ptr → World → Run (Ptr × World)
  remove_before_found next found w = do
    to_remove ← (if next == 0 then done w.tail else if found == 0 then done 0 else prev_of found w)
    remove_unless_null to_remove w

  unfoldable pub priv_remove_before_elem : Ptr → World → Run (Ptr × World)
  priv_remove_before_elem next w = do
    q ← (if next == 0 then done w.tail else prev_of next w)
    priv_remove q w

  unfoldable pub pop_back : World → Run (Ptr × World)
  pop_back w = priv_remove w.tail w
