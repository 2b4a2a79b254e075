-- ===== src/Hash/Open/Lookup.antt =====
-- Where the elements of an open hash stand, and that lookup finds exactly them.
use pwxlib.Base.{
  ℕ, ◌<◌, ◌≤◌, ◌≡◌, ◌≢◌, ◌⊎◌, refl, Bool, true, false, List, [], ◌∷◌, Option, none, some, arith, ap,
  ◌∙◌, sym, Option-cases, inl, inr,
}
use mathlib.Core.Bool.{false≢true}
use native.Mathlib.Decide.{dec_lt}
use pwxlib.Hash.{
  Key, Elem, Slot, vacated, chain, Table, is_null, elems, head_has, prot_is_empty, prot_is_vacated,
  table_get, table_key_equals,
}
use pwxlib.Hash.Stepping.{Hashing}
use pwxlib.Hash.Open.{settles, stepping, idx_base, priv_get_index, priv_get, find_in}
use pwxlib.Hash.Open.Path.{path, hops_at, place_at, Stops, probe-Stops}

pub none≢some : {A : Type 0} {a : A} → none ≢ some a
none≢some h = cc

hops_at-zero : (h : Option ℕ) → hops_at h 0 ≡ h
hops_at-zero none = refl
hops_at-zero (some h) = ap some (omega arith)

module _ {K V : Type 0} ⦃key : Key K⦄ where
  -- At this place stands `e`, first of its chain.
  abbrev pub At : Table K V → ℕ → Elem K V → Type 0
  At t p e = t.slots p ≡ chain (e ∷ [])

  pub key-settles :
      (t : Table K V) (k : K) (allow : Bool) (h : Option ℕ) (p : ℕ) (e : Elem K V)
      → t.is_destroyed ≡ false
      → At t p e
      → e.key ≡ k
      → settles t k allow h p ≡ true
  unfolding settles prot_is_empty prot_is_vacated table_key_equals
  key-settles t k allow h p e live at same = ground (arith, key.equal_iff e.key k)

  -- What ends a lookup at a place.
  pub settles-lookup :
      (t : Table K V) (k : K) (h : Option ℕ) (p : ℕ)
      → t.is_destroyed ≡ false
      → settles t k false h p ≡ true
      → (is_null (t.slots p) ≡ true) ⊎ (head_has k (elems (t.slots p)) ≡ true)
  unfolding settles prot_is_empty prot_is_vacated table_key_equals
  settles-lookup t k h p live e = ground arith

  pub clear-nonnull :
      (t : Table K V) (k : K) (allow : Bool) (h : Option ℕ) (p : ℕ)
      → t.is_destroyed ≡ false
      → settles t k allow h p ≡ false
      → is_null (t.slots p) ≡ false
  unfolding settles prot_is_empty
  clear-nonnull t k allow h p live e = ground arith

  module _ (H : Hashing) where
    -- The probing of `e.key` comes to `p`, and no place before that is empty.
    pub record Reached (t : Table K V) (k : K) (p : ℕ) : Type 0 where
      pub step : ℕ
      pub steps : stepping H t k ≡ some step
      pub probes : ℕ
      pub bound : probes ≤ t.hash_size
      pub place : place_at t (idx_base H t k) step probes ≡ p
      pub nonnull :
          (j : ℕ) → j < probes → is_null (t.slots (place_at t (idx_base H t k) step j)) ≡ false

    pub record IsPlaced (t : Table K V) : Type 0 where
      pub live : t.is_destroyed ≡ false
      pub sized : 0 < t.hash_size
      pub single :
          (p : ℕ) (e : Elem K V) (es : List (Elem K V)) → t.slots p ≡ chain (e ∷ es) → es ≡ []
      pub reached : (p : ℕ) (e : Elem K V) → At t p e → Reached t e.key p
      pub unique : (p q : ℕ) (e f : Elem K V) → At t p e → At t q f → e.key ≡ f.key → p ≡ q

    pub get_index-Stops :
        (t : Table K V) (k : K) (allow : Bool) (hops : Option ℕ) (step : ℕ)
        → stepping H t k ≡ some step
        → (m : ℕ) × Stops t k allow (idx_base H t k) step hops m
          × (priv_get_index H t k allow hops
              ≡ some (place_at t (idx_base H t k) step m, hops_at hops m))
    unfolding priv_get_index path
    get_index-Stops t k allow hops step e =
        let (m, s, e') =
          probe-Stops t k allow (idx_base H t k) step hops t.hash_size 0 (omega arith)
            (λ j h. absurd (omega arith)) in
        (m, s, rw e (ap some (rw (hops_at-zero hops) at e')))

    module _ (t : Table K V) (placed : IsPlaced t) where
      open placed use {live, single, reached, unique}

      pub chain-At :
          (p : ℕ) (k : K)
          → head_has k (elems (t.slots p)) ≡ true
          → (e : Elem K V) × At t p e × (e.key ≡ k)
      chain-At p k h = go (t.slots p) refl h
        where
          go :
              (x : Slot K V)
              → t.slots p ≡ x
              → head_has k (elems x) ≡ true
              → (e : Elem K V) × At t p e × (e.key ≡ k)
          go vacated q h' = absurd (false≢true h')
          go (chain []) q h' = absurd (false≢true h')
          go (chain (e ∷ es)) q h' =
              (e, q ∙ ap (λ l. chain (e ∷ l)) (single p e es q), (key.equal_iff e.key k).0 h')

      -- The probing of a stored key ends where its element stands.
      pub index-At :
          (p : ℕ) (e : Elem K V) → At t p e → priv_get_index H t e.key false none ≡ some (p, none)
      index-At p e at =
          let r = reached p e at in
          let base = idx_base H t e.key in
          let (m, s, run) = get_index-Stops t e.key false none r.step r.steps in
          let here : place_at t base r.step m ≡ p = elim (dec_lt r.probes m) [
            | yes late ↦ absurd (
                false≢true (
                  sym (s.before r.probes late)
                  ∙ key-settles t e.key false none _ e live (rw r.place at) refl))
            | no early ↦ elim (dec_lt m r.probes) [
              | yes soon ↦
                  elim (settles-lookup t e.key none _ live (s.found (omega (arith, r.bound)))) [
                    | inl empty ↦ absurd (false≢true (sym (r.nonnull m soon) ∙ empty))
                    | inr has ↦
                        let (f, at', same) = chain-At _ e.key has in unique _ p f e at' at same
                  ]
              | no late ↦
                  let same : m ≡ r.probes = omega arith in
                  ap (place_at t base r.step) same ∙ r.place
            ]
          ] in
          run ∙ ap (λ q. some (q, none)) here

      -- Lookup by the key of a stored element finds that element.
      pub get-At : (p : ℕ) (e : Elem K V) → At t p e → priv_get H t e.key ≡ some (some e)
      unfolding priv_get table_get
      get-At p e at = rw (index-At p e at) (ground (arith, key.equal_iff e.key e.key))

      find_in-At :
          (p : ℕ) (k : K) (e : Elem K V)
          → find_in H k (elems (t.slots p)) ≡ some e
          → At t p e × (e.key ≡ k)
      find_in-At p k e h = go (t.slots p) refl h
        where
          go :
              (x : Slot K V)
              → t.slots p ≡ x
              → find_in H k (elems x) ≡ some e
              → At t p e × (e.key ≡ k)
          go vacated q h' = cc
          go (chain []) q h' = cc
          go (chain (f ∷ es)) q h' =
              let alone : es ≡ [] = single p f es q in ground (arith, key.equal_iff f.key k)

      -- What a lookup finds is stored, and has the key.
      pub At-get :
          (k : K) (e : Elem K V) → priv_get H t k ≡ some (some e) → (p : ℕ) × At t p e × (e.key ≡ k)
      unfolding priv_get table_get
      At-get k e h = elim (Option-cases (priv_get_index H t k false none)) [
        | inl stuck ↦ absurd (none≢some (rw stuck at h))
        | inr (r, run) ↦
            let found : find_in H k (elems (t.slots r.0)) ≡ some e = ground (arith, rw run at h) in
            (r.0, (find_in-At r.0 k e found).0, (find_in-At r.0 k e found).1)
      ]
