-- ===== src/SingleList/Index.antt =====
-- container/TSingleList.h: elements by their index.
pub mod Bounds
pub mod Walk
pub mod Place
use pwxlib.Base.{
  ℕ, zero, suc, ◌+◌, ◌-◌, ◌%◌, not, ◌&&◌, ◌||◌, ◌==◌, if◌then◌else◌, ltb, leb, succ_u32,
}
use pwxlib.SingleList.{Ptr, World, Run, done, thrown, undefined, out_of_range, ◌>>=◌, deref}
use pwxlib.SingleList.Numbers.{next_of, curr, set_curr, empty, renumber}

-- An `int32_t`: `negsuc n` is `-n - 1`.
pub data ℤ : Type 0 where
  pos : ℕ → ℤ
  negsuc : ℕ → ℤ

abbrev pub in_count : ℕ → ℕ → ℕ
in_count i count = if leb count i then i % count else i

-- The place in a list of `count` elements that an index names; one below 0 counts from the end.
unfoldable pub wrap_index : ℤ → ℕ → ℕ
wrap_index (pos n) count = in_count (n % count) count
wrap_index (negsuc n) count = in_count (count - (n + 1) % count) count

abbrev pub nr_at : Ptr → World → Run ℕ
nr_at p w = if p == 0 then done 0 else (do n ← deref p w; done n.e_nr)

-- The loop of `privGetElementByIndex()`, at `x_curr` with number `x_nr`.
unfoldable pub walk_to : ℕ → ℕ → Ptr → ℕ → World → Run Ptr
walk_to zero x_idx x_curr x_nr w = undefined
walk_to (suc fuel) x_idx x_curr x_nr w =
    if x_curr == 0 || not (ltb x_nr x_idx) then done x_curr else (do
      q ← (if w.tail == x_curr then done w.head else next_of x_curr w)
      walk_to fuel x_idx (if q == 0 && not (empty w) then w.head else q) (succ_u32 x_nr) w)

module _ (fuel : ℕ) where
  unfoldable pub start_walk : ℕ → Ptr → ℕ → World → Run (Ptr × World)
  start_walk x_idx x_curr x_nr w = do
    let from_head = ltb x_idx x_nr
    q ← next_of (if from_head then w.head else x_curr) w
    r ← walk_to fuel x_idx q (if from_head then 1 else succ_u32 x_nr) w
    done (r, set_curr r w)

  -- `x_idx` is the place looked for, `x_nr` the number that the current element shows.
  unfoldable pub get_place : ℕ → Ptr → ℕ → World → Run (Ptr × World)
  get_place x_idx x_curr x_nr w =
      if x_idx == x_nr
      then done (x_curr, w)
      else if x_idx == 0
      then done (w.head, w)
      else if x_idx == w.e_count - 1
      then done (w.tail, w)
      else if x_idx == succ_u32 x_nr
      then (do q ← next_of x_curr w; done (q, set_curr q w))
      else start_walk x_idx x_curr x_nr w

  unfoldable pub priv_get_element_by_index : ℤ → World → Run (Ptr × World)
  priv_get_element_by_index index w = if empty w then done (0, w) else (do
    w₁ ← renumber fuel w
    x_nr ← nr_at (curr w₁) w₁
    get_place (wrap_index index w₁.e_count) (curr w₁) x_nr w₁)

  -- The address of the data, and the state.
  unfoldable pub get_data : ℤ → World → Run (Ptr × World)
  get_data index w = do
    (e, w₁) ← priv_get_element_by_index index w
    (if e == 0 then thrown out_of_range w₁ else (do n ← deref e w₁; done (n.data_ptr, w₁)))
