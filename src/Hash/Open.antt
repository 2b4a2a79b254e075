-- ===== src/Hash/Open.antt =====
-- container/TOpenHash.h: probing, insertion by Robin Hood, removal and lookup. A loop that may not
-- end runs on fuel, and `none` is a run that does not return within it.
pub mod Path
pub mod Lookup
pub mod Change
pub mod Remove
pub mod Round
pub mod Insert
pub mod Total
pub mod Ensures
pub mod Abstract
pub use pwxlib.Base.{◌>>=◌}
use pwxlib.Base.{
  ℕ, zero, suc, ◌+◌, ◌-◌, ◌%◌, Bool, true, false, not, ◌&&◌, ◌||◌, List, [], ◌∷◌, Option, none,
  some, ◌==◌, ltb, leb, if◌then◌else◌, u32_mod, succ_u32, pred_u32,
}
use pwxlib.Hash.{
  Key, Elem, Slot, Table, prot_is_empty, prot_is_vacated, prot_is_unused, table_get, table_set,
  table_vacate, table_key_equals,
}
use pwxlib.Hash.Stepping.{Hashing, priv_get_stepping}

-- The step after probing came back to its first place too early.
unfoldable pub longer_step : ℕ → ℕ → ℕ
longer_step tab step =
    let s = (step + (if step % 2 == 1 then 2 else 3)) % u32_mod in if leb tab s then 3 else s

-- Position and step after probe `i` of a table with `tab` places, the first probe being `base`.
unfoldable pub next_place : ℕ → ℕ → ℕ → ℕ × ℕ → ℕ × ℕ
unfolding longer_step
next_place tab base i (pos, step) =
    let p = (pos + step) % u32_mod % tab in
    if ltb (i + 1) tab && p == base
    then (let s = longer_step tab step in ((p + s) % u32_mod % tab, s))
    else (p, step)

-- `*hops`, where the caller passes a pointer.
abbrev pub raise : Option ℕ → Option ℕ
raise none = none
raise (some h) = some (h + 1)

-- What the call left in `elem->hops`.
abbrev pub counted : Option ℕ → ℕ
counted none = 0
counted (some n) = n

module _ {K V : Type 0} where
  -- `( *hops > 1 ) && ( table_get( pos )->hops < ( *hops - 1 ) )`, at a place with an element.
  abbrev pub richer : Option ℕ → List (Elem K V) → Bool
  richer (some h) (e ∷ es) = ltb 1 h && ltb e.hops (h - 1)
  richer _ _ = false

  -- `result->remove()`, which takes the element out of its container.
  abbrev pub unlinked : Elem K V → Elem K V
  unlinked e = record e { linked = false; hops = 0 }

  unfoldable pub priv_remove_idx : Table K V → ℕ → Option (Elem K V) × Table K V
  priv_remove_idx t i =
      if ltb i t.hash_size
      then elim (table_get t i) [
        | [] ↦ (none, t)
        | e ∷ es ↦ (
          some (unlinked e),
          (let t' = table_vacate t i in record t' { e_count = pred_u32 t'.e_count }),
        )
      ]
      else (none, t)

  -- `if ( !protIsUnused( idx ) ) oldElem = this->privRemoveIdx( idx );`
  unfoldable pub evict : Table K V → ℕ → Option (Elem K V) × Table K V
  evict t i = if prot_is_unused t i then (none, t) else priv_remove_idx t i

  -- `table_set( idx, elem ); elem->insertAsFirst(); eCount.fetch_add( 1, memOrdStore );`
  unfoldable pub take_place : Table K V → ℕ → Elem K V → Table K V
  take_place t i e =
      let t' = table_set t i (record e { linked = true } ∷ []) in
      record t' { e_count = succ_u32 t'.e_count }

module _ {K V : Type 0} ⦃key : Key K⦄ where
  -- The condition that ends the probing.
  unfoldable pub settles : Table K V → K → Bool → Option ℕ → ℕ → Bool
  settles t k allow hops pos =
      prot_is_empty t pos
      || (prot_is_vacated t pos && allow)
      || table_key_equals t pos k
      || (allow && not (prot_is_vacated t pos) && richer hops (table_get t pos))

  -- The loop from probe `i` on, with `left` rounds left.
  unfoldable pub probe : Table K V → K → Bool → ℕ → (left i : ℕ) → ℕ × ℕ → Option ℕ → ℕ × Option ℕ
  probe t k allow base zero i place hops = (place.0, hops)
  probe t k allow base (suc left) i place hops =
      let rest =
        probe t k allow base left (i + 1) (next_place t.hash_size base i place) (raise hops) in
      if settles t k allow hops place.0 then (place.0, hops) else rest

  module _ (H : Hashing) where
    abbrev pub idx_base : Table K V → K → ℕ
    idx_base t k = H.scale (key.hash k) t.hash_size

    abbrev pub stepping : Table K V → K → Option ℕ
    stepping t k = priv_get_stepping H t.method t.hash_size t.hash_size (key.hash k)

    unfoldable pub priv_get_index : Table K V → K → Bool → Option ℕ → Option (ℕ × Option ℕ)
    priv_get_index t k allow hops = do
      step ← stepping t k
      some (probe t k allow (idx_base t k) t.hash_size 0 (idx_base t k, step) hops)

    -- One round of `privInsert`: the element takes its place, and what stood there is handed on.
    unfoldable pub settle : Table K V → Elem K V → Option (Option (Elem K V) × Table K V)
    settle t e = do
      (pos, hops) ← priv_get_index t e.key true (some e.hops)
      let (old, t₁) = evict t pos
      some (old, take_place t₁ pos (record e { hops = counted hops }))

    unfoldable pub priv_insert : ℕ → Table K V → Elem K V → Option (Table K V)
    priv_insert zero t e = none
    priv_insert (suc k) t e = do
      (old, t') ← settle t e
      elim old [ none ↦ some t' | some o ↦ priv_insert k t' (record o { hops = 0 }) ]

    -- The loop over the chain, which has one element at most in this table.
    abbrev pub find_in : K → List (Elem K V) → Option (Elem K V)
    find_in k [] = none
    find_in k (e ∷ es) = if key.equal e.key k then some e else find_in k es

    unfoldable pub priv_get : Table K V → K → Option (Option (Elem K V))
    priv_get t k = do (pos, _) ← priv_get_index t k false none; some (find_in k (table_get t pos))

    unfoldable pub priv_remove_key : Table K V → K → Option (Option (Elem K V) × Table K V)
    priv_remove_key t k = do (pos, _) ← priv_get_index t k false none; some (priv_remove_idx t pos)
