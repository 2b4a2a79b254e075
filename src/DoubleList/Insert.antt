-- ===== src/DoubleList/Insert.antt =====
-- container/TDoubleList.h: insertion of new elements.
use pwxlib.Base.{ℕ, ◌+◌, Bool, true, false, not, ◌&&◌, some, ◌==◌, if◌then◌else◌, succ_u32}
use pwxlib.SingleList.{Ptr}
use pwxlib.DoubleList.{
  Node, World, Run, done, thrown, not_found, source_destroyed, ◌>>=◌, deref, write,
}
use pwxlib.DoubleList.Element.{insert_before, insert_next, insert_prev}
use pwxlib.DoubleList.Numbers.{prev_of, set_nr, set_head, set_tail, set_curr, empty}

abbrev pub created : Ptr → Bool → Node
created d safe = record {
  data_ptr = d;
  next = 0;
  prev = 0;
  old_next = 0;
  old_prev = 0;
  e_nr = 0;
  is_removed = true;
  is_destroyed = false;
  thread_safe = safe;
  in_store = false;
}

-- `new elem_t( … )`, which stays thread-safe only if the list is.
unfoldable pub allocate : Ptr → Bool → World → World
allocate d safe w = record w {
  heap = write w.next_free (some (created d (safe && w.list_safe))) w.heap;
  next_free = w.next_free + 1;
}

unfoldable pub insert_behind : Ptr → Ptr → World → Run World
insert_behind ins_prev ins_elem w = insert_next ins_prev ins_elem (record w { do_renumber = true })

module _ (fuel : ℕ) where
  unfoldable pub insert_first : Ptr → World → Run World
  insert_first ins_elem w = do
    w₁ ← insert_before ins_elem 0 w
    w₂ ← set_head fuel ins_elem w₁
    done (set_tail ins_elem w₂)

  unfoldable pub insert_at_head : Ptr → World → Run World
  insert_at_head ins_elem w = do w₁ ← insert_prev w.head ins_elem w; set_head fuel ins_elem w₁

  unfoldable pub insert_at_tail : Ptr → World → Run World
  insert_at_tail ins_elem w = do
    t ← deref w.tail w
    w₁ ← set_nr (succ_u32 t.e_nr) ins_elem w
    w₂ ← insert_next w₁.tail ins_elem w₁
    done (set_tail ins_elem w₂)

  -- The branches for an empty list, a null predecessor and the tail.
  unfoldable pub insert_at_end : Ptr → Ptr → World → Run World
  insert_at_end ins_prev ins_elem w =
      if empty w
      then insert_first ins_elem w
      else if ins_prev == 0
      then insert_at_head ins_elem w
      else if ins_prev == w.tail
      then insert_at_tail ins_elem w
      else insert_behind ins_prev ins_elem w

  abbrev counted : World → Run (ℕ × World)
  counted w = done (succ_u32 w.e_count, record w { e_count = succ_u32 w.e_count })

  -- The count afterwards, and the state.
  unfoldable pub prot_insert : Ptr → Ptr → World → Run (ℕ × World)
  prot_insert ins_prev ins_elem w = do
    let w₀ = set_curr ins_elem w
    w₁ ←
        (if not (empty w₀) && not (ins_prev == 0) && not (w₀.tail == ins_prev)
          then insert_behind ins_prev ins_elem w₀
          else insert_at_end ins_prev ins_elem w₀)
    counted w₁

  -- What the new element comes behind: for null, at the end of the list.
  abbrev before : Ptr → World → Run Ptr
  before next w = if next == 0 then done w.tail else prev_of next w

  unfoldable pub priv_ins_data_before_elem : Ptr → Ptr → World → Run (ℕ × World)
  priv_ins_data_before_elem next d w = do
    let w₁ = allocate d true w
    prev ← before next w₁
    prot_insert prev w.next_free w₁

  unfoldable pub priv_ins_elem_before_elem : Ptr → Ptr → World → Run (ℕ × World)
  priv_ins_elem_before_elem next src w = do
    n ← deref src w
    (if n.is_destroyed then thrown source_destroyed w else (do
      let w₁ = allocate n.data_ptr n.thread_safe w
      prev ← before next w₁
      prot_insert prev w.next_free w₁))

  -- `found` is what `protFind( next )` gave.
  unfoldable pub ins_data_before_found : Ptr → Ptr → Ptr → World → Run (ℕ × World)
  ins_data_before_found next found d w =
      if not (next == 0) && found == 0
      then thrown not_found w
      else priv_ins_data_before_elem found d w

  unfoldable pub ins_elem_before_found : Ptr → Ptr → Ptr → World → Run (ℕ × World)
  ins_elem_before_found next found src w =
      if not (next == 0) && found == 0
      then thrown not_found w
      else priv_ins_elem_before_elem found src w
