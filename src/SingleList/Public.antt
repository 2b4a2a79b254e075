-- ===== src/SingleList/Public.antt =====
-- container/TSingleList.h: the public methods.
use pwxlib.Base.{ℕ, zero, suc, Bool, false, ◌==◌, if◌then◌else◌, ltb}
use pwxlib.SingleList.{Ptr, Node, World, Run, done, undefined, ◌>>=◌, deref, modify}
use pwxlib.SingleList.Element.{get_next}
use pwxlib.SingleList.Insert.{
  priv_ins_data_behind_elem, priv_ins_elem_behind_elem, ins_data_behind_found,
  ins_elem_behind_found,
}
use pwxlib.SingleList.Remove.{prot_delete, priv_remove_after_element, remove_after_found, clear}
use pwxlib.SingleList.Find.{prot_find, priv_find_prev}
use pwxlib.SingleList.Index.{negsuc, priv_get_element_by_index}

abbrev maybe_find : ℕ → Ptr → World → Run (Ptr × World)
maybe_find fuel prev w = if prev == 0 then done (0, w) else prot_find fuel prev w

module _ (fuel : ℕ) where
  unfoldable pub push_back : Ptr → World → Run (ℕ × World)
  push_back d w = priv_ins_data_behind_elem fuel w.tail d w

  unfoldable pub push_front : Ptr → World → Run (ℕ × World)
  push_front d w = priv_ins_data_behind_elem fuel 0 d w

  unfoldable pub ins_next : Ptr → Ptr → World → Run (ℕ × World)
  ins_next prev d w = do
    (found, w₁) ← maybe_find fuel prev w
    ins_data_behind_found fuel prev found d w₁

  unfoldable pub ins_next_copy : Ptr → Ptr → World → Run (ℕ × World)
  ins_next_copy prev src w = do
    (found, w₁) ← maybe_find fuel prev w
    ins_elem_behind_found fuel prev found src w₁

  unfoldable pub rem_next : Ptr → World → Run (Ptr × World)
  rem_next prev w = do (found, w₁) ← maybe_find fuel prev w; remove_after_found fuel prev found w₁

  unfoldable pub rem_next_elem : Ptr → World → Run (Ptr × World)
  rem_next_elem prev w = priv_remove_after_element fuel prev w

  unfoldable pub del_next : Ptr → World → Run (ℕ × World)
  del_next prev w = do (e, w₁) ← rem_next prev w; prot_delete e w₁

  unfoldable pub del_next_elem : Ptr → World → Run (ℕ × World)
  del_next_elem prev w = do (e, w₁) ← rem_next_elem prev w; prot_delete e w₁

  unfoldable pub pop_front : World → Run (Ptr × World)
  pop_front w = rem_next 0 w

  unfoldable pub pop_back : World → Run (Ptr × World)
  pop_back w =
      if ltb 1 w.e_count
      then (do
        (e, w₁) ← priv_get_element_by_index fuel (negsuc 1) w
        priv_remove_after_element fuel e w₁)
      else rem_next 0 w

  abbrev unguarded : Node → Node
  unguarded n = record n { thread_safe = false }

  -- The loop of `operator+=` over another list, which ends at `rhs_tail`.
  unfoldable pub append_on : ℕ → Ptr → Ptr → World → Run World
  append_on zero rhs_curr rhs_tail w = undefined
  append_on (suc left) rhs_curr rhs_tail w = if rhs_curr == 0 then done w else (do
    (n, w₁) ← priv_ins_elem_behind_elem fuel w.tail rhs_curr w
    w₂ ← (if w.list_safe then done w₁ else modify unguarded w₁.tail w₁)
    r ← deref rhs_curr w₂
    (if rhs_curr == rhs_tail then done w₂ else append_on left (get_next r) rhs_tail w₂))

  unfoldable pub append : Ptr → Ptr → World → Run World
  append rhs_head rhs_tail w = append_on fuel rhs_head rhs_tail w

  unfoldable pub subtract_one : Ptr → World → Run World
  subtract_one d w = do
    h ← deref w.head w
    (if h.data_ptr == d then (do (n, w₁) ← del_next_elem 0 w; done w₁) else (do
      (prev, w₁) ← priv_find_prev fuel d w
      (if prev == 0 then done w₁ else (do (n, w₂) ← del_next_elem prev w₁; done w₂))))

  -- The loop of `operator-=`.
  unfoldable pub subtract_on : ℕ → Ptr → Ptr → World → Run World
  subtract_on zero rhs_curr rhs_tail w = undefined
  subtract_on (suc left) rhs_curr rhs_tail w = if rhs_curr == 0 then done w else (do
    n ← deref rhs_curr w
    w₁ ← subtract_one n.data_ptr w
    r ← deref rhs_curr w₁
    (if rhs_curr == rhs_tail then done w₁ else subtract_on left (get_next r) rhs_tail w₁))

  unfoldable pub subtract : Ptr → Ptr → World → Run World
  subtract rhs_head rhs_tail w = subtract_on fuel rhs_head rhs_tail w

  -- `operator=` from another list; `safe` is `rhs.beThreadSafe()`.
  unfoldable pub assign : Bool → Ptr → Ptr → World → Run World
  assign safe rhs_head rhs_tail w = do
    w₁ ← clear fuel w
    append rhs_head rhs_tail (record w₁ { list_safe = safe })
