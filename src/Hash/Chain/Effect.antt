-- ===== src/Hash/Chain/Effect.antt =====
-- container/TChainHash.h: all that `privInsert` and `privRemoveKey` do to the finite map.
use pwxlib.Base.{
  ◌≡◌, refl, sym, ap, ◌∙◌, Option, none, some, if◌then◌else◌, Bool-cases, Option-cases, inl, inr,
  succ_u32, pred_u32,
}
use pwxlib.Hash.{Key, Elem, Table, table_get, table_set, put}
use pwxlib.Hash.Stepping.{Hashing}
use pwxlib.Hash.Open.{unlinked}
use pwxlib.Hash.Chain.{find_in, priv_get_index, priv_insert, priv_get, priv_remove_key}
use pwxlib.Hash.Chain.Map.{IsMap, or_new, or_new-none, chained, get-priv_insert}
use pwxlib.Hash.Chain.Insert.{insert-IsMap}
use pwxlib.Hash.Chain.Remove.{
  dropped, remove_some, get-priv_remove_key, priv_remove_key-absent, remove_key-IsMap,
}

module _ {K V : Type 0} ⦃key : Key K⦄ where
  -- What a removal gives back for what was found.
  abbrev pub taken_out : Option (Elem K V) → Option (Elem K V)
  taken_out none = none
  taken_out (some e) = some (unlinked e)

  abbrev pub lowered : Option (Elem K V) → Table K V → Table K V
  lowered none t = t
  lowered (some e) t = record t { e_count = pred_u32 t.e_count }

  module _ (H : Hashing) (t : Table K V) (m : IsMap H t) where
    insert-count : (e : Elem K V) → (priv_insert H t e).e_count ≡ succ_u32 t.e_count
    unfolding priv_insert table_set put
    insert-count e = let live = m.live in rw live refl

    get-fresh :
        (e : Elem K V) (k : K) (n : Elem K V)
        → priv_get H t e.key ≡ none
        → or_new (priv_get H t k) (if key.equal e.key k then some n else none)
          ≡ (if key.equal e.key k then some n else priv_get H t k)
    get-fresh e k n absent = elim (Bool-cases (key.equal e.key k)) [
      | inl same ↦
          let here : priv_get H t k ≡ none =
            ap (priv_get H t) (sym ((key.equal_iff _ _).0 same)) ∙ absent in
          rw (same, here) refl
      | inr other ↦ rw other (sym (or_new-none _))
    ]

    -- `privInsert` of an element of an absent key into a well-formed chained hash keeps it
    -- well-formed; then `privGet` gives the element at its key, linked and with its hops, and at
    -- each other key what it gave before, and the count is one more.
    pub priv_insert-IsMap :
        (e : Elem K V) (k : K)
        → priv_get H t e.key ≡ none
        → IsMap H (priv_insert H t e)
          × (priv_get H (priv_insert H t e) k ≡ (
              if key.equal e.key k
              then some (chained (table_get t (priv_get_index H t e.key)) e)
              else priv_get H t k))
          × ((priv_insert H t e).e_count ≡ succ_u32 t.e_count)
    priv_insert-IsMap e k absent = (
      insert-IsMap H t m e absent,
      get-priv_insert H t e k m.live ∙ get-fresh e k _ absent,
      insert-count e,
    )

    drop-count : (k : K) → (dropped H t k).e_count ≡ pred_u32 t.e_count
    unfolding table_set put
    drop-count k = let live = m.live in rw live refl

    same_lookup :
        (k k' : K)
        → priv_get H t k ≡ none
        → priv_get H t k' ≡ (if key.equal k k' then none else priv_get H t k')
    same_lookup k k' absent = elim (Bool-cases (key.equal k k')) [
      | inl same ↦
          let e : k ≡ k' = (key.equal_iff _ _).0 same in
          rw same (ap (priv_get H t) (sym e) ∙ absent)
      | inr other ↦ rw other refl
    ]

    found_in :
        (k : K) (e : Elem K V)
        → priv_get H t k ≡ some e
        → find_in k (table_get t (priv_get_index H t k)) ≡ some e
    unfolding priv_get
    found_in k e found = found

    -- `privRemoveKey` keeps a chained hash well-formed; it gives what `privGet` finds at the key,
    -- unlinked, and afterwards `privGet` finds nothing there, and at each other key what it found
    -- before; the count is one less, or the same if nothing was found.
    pub priv_remove_key-IsMap :
        (k k' : K)
        → IsMap H (priv_remove_key H t k).1
          × ((priv_remove_key H t k).0 ≡ taken_out (priv_get H t k))
          × (priv_get H (priv_remove_key H t k).1 k'
              ≡ (if key.equal k k' then none else priv_get H t k'))
          × ((priv_remove_key H t k).1.e_count ≡ (lowered (priv_get H t k) t).e_count)
    priv_remove_key-IsMap k k' = elim (Option-cases (priv_get H t k)) [
      | inl absent ↦
          let nothing = priv_remove_key-absent H t m k absent in
          rw (nothing, absent) (m, refl, same_lookup k k' absent, refl)
      | inr (e, found) ↦
          let (out, after) = get-priv_remove_key H t m k k' e found in
          let run = remove_some H t m k e (found_in k e found) in
          (remove_key-IsMap H t m k, (rw found out), after, (rw (found, run) (drop-count k)))
    ]
