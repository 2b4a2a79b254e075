-- ===== src/Hash/Chain/Remove.antt =====
-- Removal by key from the chained hash, and that both operations keep the map well-formed.
use pwxlib.Base.{
  ℕ, ◌≡◌, ◌⊎◌, refl, sym, ap, ◌∙◌, true, false, List, [], ◌∷◌, ◌++◌, none, some, if◌then◌else◌,
  ◌==◌, pred_u32, Bool-cases, Option-cases, inl, inr, arith, ==_iff,
}
use pwxlib.Hash.{Key, Elem, Table, table_get, table_set, put}
use pwxlib.Hash.Stepping.{Hashing}
use pwxlib.Hash.Open.{unlinked}
use pwxlib.Hash.Open.Lookup.{none≢some}
use pwxlib.Hash.Chain.{take_out, find_in, drop_in, priv_get_index, priv_get, priv_remove_key}
use pwxlib.Hash.Chain.Map.{find_in-append, get_set, table_get-set, IsMap}

module _ {K V : Type 0} ⦃key : Key K⦄ where
  find_in-drop_in :
      (k k' : K) (es : List (Elem K V))
      → key.equal k k' ≡ false
      → find_in k' (drop_in k es) ≡ find_in k' es
  find_in-drop_in k k' [] h = refl
  find_in-drop_in k k' (e ∷ es) h = ground (
    arith,
    find_in-drop_in k k' es h,
    key.equal_iff e.key k,
    key.equal_iff e.key k',
    key.equal_iff k k',
  )

  drop_in-none : (k : K) (es : List (Elem K V)) → find_in k es ≡ none → drop_in k es ≡ es
  drop_in-none k [] h = refl
  drop_in-none k (e ∷ es) h = ground (arith, drop_in-none k es)

  drop_in_comm :
      (k k' : K) (es : List (Elem K V))
      → key.equal k k' ≡ false
      → drop_in k' (drop_in k es) ≡ drop_in k (drop_in k' es)
  drop_in_comm k k' [] h = refl
  drop_in_comm k k' (e ∷ es) h = ground (
    arith,
    drop_in_comm k k' es h,
    key.equal_iff e.key k,
    key.equal_iff e.key k',
    key.equal_iff k k',
  )

  abbrev Once : List (Elem K V) → Type 0
  Once es = (k : K) → find_in k (drop_in k es) ≡ none

  Once-drop_in : (k : K) (es : List (Elem K V)) → Once es → Once (drop_in k es)
  Once-drop_in k es h k' = elim (Bool-cases (key.equal k k')) [
    | inl same ↦
        let e : k ≡ k' = (key.equal_iff _ _).0 same in
        rw (← e) (ap (find_in k) (drop_in-none k (drop_in k es) (h k)) ∙ h k)
    | inr ne ↦
        ap (find_in k') (drop_in_comm k k' es ne) ∙ find_in-drop_in k k' (drop_in k' es) ne ∙ h k'
  ]

  pub drop_in-append :
      (k : K) (es : List (Elem K V)) (e : Elem K V)
      → (find_in k es ≡ none) ⊎ (key.equal e.key k ≡ false)
      → find_in k (drop_in k es) ≡ none
      → find_in k (drop_in k (es ++ (e ∷ []))) ≡ none
  drop_in-append k [] e h o = ground arith
  drop_in-append k (f ∷ es) e h o = ground (arith, drop_in-append k es e, find_in-append k es e)

  found_before :
      (k k' : K) (es : List (Elem K V)) (e : Elem K V)
      → find_in k (drop_in k es) ≡ none
      → find_in k' (drop_in k es) ≡ some e
      → find_in k' es ≡ some e
  found_before k k' es e o h = elim (Bool-cases (key.equal k k')) [
    | inl same ↦
        let eq : k ≡ k' = (key.equal_iff _ _).0 same in absurd (none≢some (sym o ∙ rw (← eq) at h))
    | inr ne ↦ sym (find_in-drop_in k k' es ne) ∙ h
  ]

  pub set_live :
      (t : Table K V) (i : ℕ) (es : List (Elem K V))
      → t.is_destroyed ≡ false
      → (table_set t i es).is_destroyed ≡ false
  unfolding table_set put
  set_live t i es h = ground arith

  abbrev pub dropped : Hashing → Table K V → K → Table K V
  dropped H t k =
      let t' =
        table_set t (priv_get_index H t k) (drop_in k (table_get t (priv_get_index H t k))) in
      record t' { e_count = pred_u32 t'.e_count }

  module _ (H : Hashing) (t : Table K V) (m : IsMap H t) where
    open m use {live, once, inserted}

    pub remove_some :
        (k : K) (e : Elem K V)
        → find_in k (table_get t (priv_get_index H t k)) ≡ some e
        → priv_remove_key H t k ≡ (some (unlinked e), dropped H t k)
    unfolding priv_remove_key
    remove_some k e h =
        ap (take_out t (priv_get_index H t k) k) h ∙ rw (inserted (priv_get_index H t k) k e h) refl

    get-dropped :
        (k k' : K)
        → priv_get H (dropped H t k) k' ≡ (if key.equal k k' then none else priv_get H t k')
    unfolding priv_get
    get-dropped k k' =
        let i = priv_get_index H t k in
        get_set H t i _ _ k' live ∙ elim (Bool-cases (key.equal k k')) [
          | inl same ↦
              let e : k ≡ k' = (key.equal_iff _ _).0 same in
              let here : (priv_get_index H t k' == i) ≡ true =
                (==_iff _ _).1 (ap (priv_get_index H t) (sym e)) in
              rw (here, same, ← e) (once i k)
          | inr ne ↦ elim (Bool-cases (priv_get_index H t k' == i)) [
            | inl same ↦
                let here : priv_get_index H t k' ≡ i = (==_iff _ _).0 same in
                rw (same, ne, here) (find_in-drop_in k k' (table_get t i) ne)
            | inr other ↦ rw (other, ne) refl
          ]
        ]

    -- In a well-formed chained hash, `privRemoveKey` of a present key returns the element found
    -- there, unlinked; afterwards `privGet` finds nothing at that key, and at each other key what
    -- it found before.
    pub get-priv_remove_key :
        (k k' : K) (e : Elem K V)
        → priv_get H t k ≡ some e
        → ((priv_remove_key H t k).0 ≡ some (unlinked e))
          × (priv_get H (priv_remove_key H t k).1 k'
              ≡ (if key.equal k k' then none else priv_get H t k'))
    unfolding priv_get
    get-priv_remove_key k k' e h = rw (remove_some k e h) (refl, get-dropped k k')

    pub priv_remove_key-absent : (k : K) → priv_get H t k ≡ none → priv_remove_key H t k ≡ (none, t)
    unfolding priv_get priv_remove_key
    priv_remove_key-absent k h = ap (take_out t (priv_get_index H t k) k) h

    dropped-IsMap : (k : K) → IsMap H (dropped H t k)
    dropped-IsMap k =
        let i' = priv_get_index H t k in
        let t' = table_set t i' (drop_in k (table_get t i')) in
        record {
          live = set_live t i' _ live;
          once = λ i k'.
              ap (λ es. find_in k' (drop_in k' es))
                (table_get-set t i' i _ (pred_u32 t'.e_count) live)
              ∙ elim (Bool-cases (i == i')) [
                | inl same ↦ rw same (Once-drop_in k _ (once i') k')
                | inr ne ↦ rw ne (once i k')
              ];
          inserted = λ i k' e h.
              let h' =
                sym (ap (find_in k') (table_get-set t i' i _ (pred_u32 t'.e_count) live)) ∙ h in
              elim (Bool-cases (i == i')) [
                | inl same ↦
                    let here : i ≡ i' = (==_iff _ _).0 same in
                    inserted i k' e (rw here (found_before k k' _ e (once i' k) (rw same at h')))
                | inr ne ↦ inserted i k' e (rw ne at h')
              ];
        }

    -- `privRemoveKey` keeps a chained hash well-formed, for present keys and for absent ones.
    pub remove_key-IsMap : (k : K) → IsMap H (priv_remove_key H t k).1
    unfolding priv_remove_key
    remove_key-IsMap k = elim (Option-cases (find_in k (table_get t (priv_get_index H t k)))) [
      | inl absent ↦ rw (ap (take_out t (priv_get_index H t k) k) absent) m
      | inr (e, h) ↦ rw (remove_some k e h) (dropped-IsMap k)
    ]
