-- ===== src/SingleList/Insert.antt =====
-- container/TSingleList.h: insertion of new elements.
pub mod Grown
pub mod Holds
pub mod Tail
use pwxlib.Base.{ℕ, ◌+◌, Bool, true, false, not, ◌&&◌, ◌||◌, some, ◌==◌, if◌then◌else◌, succ_u32}
use pwxlib.SingleList.{
  Ptr, Node, World, Run, done, thrown, not_found, source_destroyed, ◌>>=◌, deref, write,
}
use pwxlib.SingleList.Element.{insert_before, insert_next}
use pwxlib.SingleList.Numbers.{set_nr, set_head, set_tail, set_curr, empty}

abbrev pub created : Ptr → Bool → Node
created d safe = record {
  data_ptr = d;
  next = 0;
  old_next = 0;
  e_nr = 0;
  is_removed = true;
  is_destroyed = false;
  thread_safe = safe;
  in_store = false;
}

-- `new elem_t( … )`, which stays thread-safe only if the list is.
unfoldable pub allocate : Ptr → Bool → World → World
allocate d safe w = record w {
  heap = write w.next_free (some (created d (safe && w.list_safe))) w.heap;
  next_free = w.next_free + 1;
}

abbrev pub count_up : World → World
count_up w = record w { e_count = succ_u32 w.e_count }

abbrev pub counted : World → Run (ℕ × World)
counted w = done (w.e_count, w)

unfoldable pub insert_behind : Ptr → Ptr → World → Run World
insert_behind ins_prev ins_elem w = insert_next ins_prev ins_elem (record w { do_renumber = true })

module _ (fuel : ℕ) where
  unfoldable pub insert_first : Ptr → World → Run World
  insert_first ins_elem w = do
    w₁ ← set_head fuel ins_elem w
    insert_before ins_elem 0 (set_tail ins_elem w₁)

  unfoldable pub insert_at_head : Ptr → World → Run World
  insert_at_head ins_elem w = do w₁ ← insert_before ins_elem w.head w; set_head fuel ins_elem w₁

  unfoldable pub insert_at_tail : Ptr → World → Run World
  insert_at_tail ins_elem w = do
    t ← deref w.tail w
    w₁ ← set_nr (succ_u32 t.e_nr) ins_elem w
    w₂ ← insert_next w₁.tail ins_elem w₁
    done (set_tail ins_elem w₂)

  -- The branches for a null predecessor, the tail, and an empty list.
  unfoldable pub insert_at_end : Ptr → Ptr → World → Run World
  insert_at_end ins_prev ins_elem w =
      if empty w
      then insert_first ins_elem w
      else if ins_prev == 0
      then insert_at_head ins_elem w
      else (do
        p ← deref ins_prev w
        (if ins_prev == w.tail || p.is_destroyed
            then insert_at_tail ins_elem w
            else insert_behind ins_prev ins_elem w))

  -- The count afterwards, and the state.
  unfoldable pub prot_insert : Ptr → Ptr → World → Run (ℕ × World)
  prot_insert ins_prev ins_elem w = do
    let w₀ = set_curr ins_elem w
    w₁ ←
        (if not (empty w₀) && not (ins_prev == 0) && not (w₀.tail == ins_prev)
          then insert_behind ins_prev ins_elem w₀
          else insert_at_end ins_prev ins_elem w₀)
    counted (count_up w₁)

  unfoldable pub priv_ins_data_behind_elem : Ptr → Ptr → World → Run (ℕ × World)
  priv_ins_data_behind_elem prev d w = prot_insert prev w.next_free (allocate d true w)

  unfoldable pub priv_ins_elem_behind_elem : Ptr → Ptr → World → Run (ℕ × World)
  priv_ins_elem_behind_elem prev src w = do
    n ← deref src w
    (if n.is_destroyed
        then thrown source_destroyed w
        else prot_insert prev w.next_free (allocate n.data_ptr n.thread_safe w))

  -- `found` is what `protFind( prev )` gave.
  unfoldable pub ins_data_behind_found : Ptr → Ptr → Ptr → World → Run (ℕ × World)
  ins_data_behind_found prev found d w =
      if not (prev == 0) && found == 0
      then thrown not_found w
      else priv_ins_data_behind_elem found d w

  unfoldable pub ins_elem_behind_found : Ptr → Ptr → Ptr → World → Run (ℕ × World)
  ins_elem_behind_found prev found src w =
      if not (prev == 0) && found == 0
      then thrown not_found w
      else priv_ins_elem_behind_elem found src w
