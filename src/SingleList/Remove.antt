-- ===== src/SingleList/Remove.antt =====
-- container/TSingleList.h: removal and deletion of elements.
pub mod Holds
pub mod Undone
pub mod Last
use pwxlib.Base.{
  ℕ, zero, suc, Bool, true, false, not, ◌&&◌, ◌||◌, none, ◌==◌, if◌then◌else◌, pred_u32,
}
use pwxlib.SingleList.{
  Ptr, Node, World, Run, done, thrown, undefined, delete_inserted, ◌>>=◌, deref, modify, write,
}
use pwxlib.SingleList.Element.{leave_store, remove, remove_next}
use pwxlib.SingleList.Numbers.{next_of, set_head, set_tail, set_curr}

abbrev renumber_later : World → World
renumber_later w = record w { do_renumber = true }

-- `delete`, which the destructor of `VElement` precedes.
unfoldable pub free : Ptr → World → Run World
free p w = do
  n ← deref p w
  let w₁ = leave_store p n.in_store w
  done (record w₁ { heap = write p none w₁.heap })

unfoldable pub prot_delete : Ptr → World → Run (ℕ × World)
prot_delete removed w = if removed == 0 then done (w.e_count, w) else (do
  n ← deref removed w
  (if not n.is_removed
      then thrown delete_inserted w
      else if n.is_destroyed
      then done (w.e_count, w)
      else (do w₁ ← free removed w; done (w₁.e_count, w₁))))

unfoldable pub remove_behind : Ptr → World → Run (Ptr × World)
remove_behind prev w = do
  q ← next_of prev w
  (removed, w₁) ← remove_next prev w
  let was_tail = w.tail == q && w₁.tail == removed
  done (removed, (if was_tail then set_tail prev w₁ else renumber_later w₁))

module _ (fuel : ℕ) where
  unfoldable pub remove_head : World → Run (Ptr × World)
  remove_head w = if w.head == 0 then done (0, w) else (do
    q ← next_of w.head w
    w₁ ← set_head fuel q w
    w₂ ← remove w.head w₁
    done (w.head, w₂))

  -- The count goes down, and the last element to leave resets the ends.
  unfoldable pub count_down : World → Run World
  count_down w = do
    let w₁ = record w { e_count = pred_u32 w.e_count }
    (if w.e_count == 1
        then (do w₂ ← set_head fuel 0 w₁; done (set_curr 0 (set_tail 0 w₂)))
        else done w₁)

  unfoldable pub priv_remove_after_element : Ptr → World → Run (Ptr × World)
  priv_remove_after_element prev w = do
    (removed, w₁) ← (if prev == 0 then remove_head w else remove_behind prev w)
    w₂ ← (if removed == 0 then done w₁ else count_down w₁)
    done (removed, w₂)

  -- `found` is what `protFind( prev )` gave.
  unfoldable pub remove_after_found : Ptr → Ptr → World → Run (Ptr × World)
  remove_after_found prev found w =
      if prev == 0 then priv_remove_after_element 0 w else if found == 0 then done (0, w) else (do
        n ← deref found w
        (if not n.is_removed && not n.is_destroyed
            then priv_remove_after_element found w
            else done (0, w)))

  unfoldable pub free_live : Ptr → World → Run World
  free_live p w = do n ← deref p w; (if n.is_destroyed then done w else free p w)

  -- The loop of `privClear()` that deletes what follows the old head.
  unfoldable pub delete_chain : ℕ → Ptr → World → Run World
  delete_chain zero x_head w = undefined
  delete_chain (suc left) x_head w = do
    (x_next, w₁) ← remove_next x_head w
    (if x_next == 0
        then free_live x_head w₁
        else (do w₂ ← free_live x_next w₁; delete_chain left x_head w₂))

  abbrev unguarded : Node → Node
  unguarded n = record n { thread_safe = false }

  unfoldable pub clear_from : Ptr → World → Run World
  clear_from x_head w = do
    w₁ ← set_head fuel 0 (record w { e_count = 0; curr_ptr = 0 })
    w₂ ← modify unguarded x_head (set_curr 0 (set_tail 0 w₁))
    delete_chain fuel x_head w₂

  -- `privClear()`. It waits for as long as the head is removed or destroyed.
  unfoldable pub clear : World → Run World
  clear w = if w.e_count == 0 || w.head == 0 then done w else (do
    n ← deref w.head w
    (if n.is_removed || n.is_destroyed then undefined else clear_from w.head w))
