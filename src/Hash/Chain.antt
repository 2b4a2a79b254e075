-- ===== src/Hash/Chain.antt =====
-- container/TChainHash.h: a hash whose places hold chains of any length.
pub mod Map
pub mod Remove
pub mod Effect
pub mod Insert
use pwxlib.Base.{
  ℕ, ◌+◌, ◌%◌, Bool, true, false, not, ◌&&◌, List, [], ◌∷◌, ◌++◌, length, Option, none, some,
  if◌then◌else◌, ltb, succ_u32, pred_u32,
}
use pwxlib.Hash.{Key, Elem, Slot, Table, HashMethod, division, multiplication, table_get, table_set}
use pwxlib.Hash.Stepping.{Hashing}
use pwxlib.Hash.Open.{unlinked}

module _ {K V : Type 0} where
  -- The chain after `insertNext` at its end; `hops` counts the elements passed.
  abbrev pub appended : List (Elem K V) → Elem K V → List (Elem K V)
  appended [] e = record e { linked = true } ∷ []
  appended (f ∷ es) e = (f ∷ es) ++ (record e { hops = length (f ∷ es); linked = true } ∷ [])

  unfoldable pub priv_remove_idx : Table K V → ℕ → Option (Elem K V) × Table K V
  priv_remove_idx t i =
      if ltb i t.hash_size
      then elim (table_get t i) [
        | [] ↦ (none, t)
        | e ∷ es ↦ (
          some (unlinked e),
          (let t' = table_set t i es in record t' { e_count = pred_u32 t'.e_count }),
        )
      ]
      else (none, t)

module _ {K V : Type 0} ⦃key : Key K⦄ where
  -- `while ( xCurr && ( *xCurr != key ) ) xCurr = xCurr->getNext();`
  abbrev pub find_in : K → List (Elem K V) → Option (Elem K V)
  find_in k [] = none
  find_in k (e ∷ es) = if key.equal e.key k then some e else find_in k es

  -- The chain without the first element of the key.
  abbrev pub drop_in : K → List (Elem K V) → List (Elem K V)
  drop_in k [] = []
  drop_in k (e ∷ es) = if key.equal e.key k then es else e ∷ drop_in k es

  -- What is done with the element that the loop found in chain `i`; one that is not `inserted()`
  -- stays.
  abbrev pub take_out : Table K V → ℕ → K → Option (Elem K V) → Option (Elem K V) × Table K V
  take_out t i k none = (none, t)
  take_out t i k (some e) =
      if e.linked
      then (
        some (unlinked e),
        (let t' = table_set t i (drop_in k (table_get t i)) in
            record t' { e_count = pred_u32 t'.e_count }),
      )
      else (none, t)

  module _ (H : Hashing) where
    unfoldable pub priv_get_index : Table K V → K → ℕ
    priv_get_index t k = elim (t.method) [
      | division ↦ key.hash k % t.hash_size
      | multiplication ↦ H.scale (key.hash k) t.hash_size
    ]

    unfoldable pub priv_insert : Table K V → Elem K V → Table K V
    priv_insert t e =
        let i = priv_get_index t e.key in
        let t' = table_set t i (appended (table_get t i) e) in
        record t' { e_count = succ_u32 t'.e_count }

    unfoldable pub priv_get : Table K V → K → Option (Elem K V)
    priv_get t k = find_in k (table_get t (priv_get_index t k))

    unfoldable pub priv_remove_key : Table K V → K → Option (Elem K V) × Table K V
    unfolding priv_get_index
    priv_remove_key t k = let i = priv_get_index t k in take_out t i k (find_in k (table_get t i))
