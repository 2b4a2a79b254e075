-- ===== src/Hash/Open/Abstract.antt =====
-- The open hash as a finite map: what `privGet` and `privRemoveKey` do to the stored pairs.
use pwxlib.Base.{
  ℕ, ◌≡◌, ◌≢◌, ◌↔◌, refl, false, Option, none, some, ◌==◌, arith, ap, ◌∙◌, sym, Bool-cases, inl,
  inr, pred_u32,
}
use pwxlib.Hash.{Key, Elem, vacated, Table, table_get}
use pwxlib.Hash.Stepping.{Hashing}
use pwxlib.Hash.Open.{idx_base, priv_get, priv_remove_key, find_in, stepping, unlinked}
use pwxlib.Hash.Open.Path.{place_at}
use pwxlib.Hash.Open.Lookup.{At, IsPlaced, get-At, At-get, get_index-Stops}
use pwxlib.Hash.Open.Change.{changed, written, vacate-IsPlaced}
use pwxlib.Hash.Open.Remove.{remove_key-At}
use pwxlib.Hash.Open.Insert.{Stores}

module _ {K V : Type 0} ⦃key : Key K⦄ (H : Hashing) (t : Table K V) (placed : IsPlaced H t) where
  get_returns :
      (k : K) (step : ℕ)
      → stepping H t k ≡ some step
      → (o : Option (Elem K V)) × (priv_get H t k ≡ some o)
  unfolding priv_get
  get_returns k step steps =
      let (m, s, run) = get_index-Stops H t k false none step steps in
      (find_in H k (table_get t (place_at t (idx_base H t k) step m)), rw run refl)

  get-Stores :
      (k : K) (v : V)
      → Stores t k v
      → (e : Elem K V) × (priv_get H t k ≡ some (some e)) × (e.val ≡ v)
  get-Stores k v s =
      (s.elem', rw (← s.offers.0) (get-At H t placed s.place s.elem' s.at), s.offers.1)

  some_eq : {A : Type 0} {a b : A} → some a ≡ some b → a ≡ b
  some_eq h = cc

  -- In a well-placed open hash `privGet` of a key that has a stepping returns, and it finds an
  -- element with a value exactly if the table stores the pair.
  pub get_Stores :
      (k : K) (step : ℕ)
      → stepping H t k ≡ some step
      → (o : Option (Elem K V)) × (priv_get H t k ≡ some o)
        × ((v : V) → ((e : Elem K V) × (o ≡ some e) × (e.val ≡ v)) ↔ Stores t k v)
  get_Stores k step steps =
      let (o, run) = get_returns k step steps in
      (
        o,
        run,
        λ v. (
          λ x.
              let (e, found, has) = x in
              let (p, at, same) = At-get H t placed k e (run ∙ ap some found) in
              record { place = p; elem' = e; at = at; offers = (same, has) },
          λ s. let (e, found, has) = get-Stores k v s in (e, some_eq (sym run ∙ found), has),
        ),
      )

  vacate-Stores :
      (p n : ℕ) (e : Elem K V)
      → At t p e
      → (k : K) (v : V)
      → Stores (changed t (written t p vacated) n) k v ↔ (Stores t k v × (k ≢ e.key))
  vacate-Stores p n e at k v = (
    λ s.
        let at' : At t s.place s.elem' = ground (arith, s.at) in
        (
          record { place = s.place; elem' = s.elem'; at = at'; offers = s.offers },
          λ same.
              let here : s.place ≡ p =
                placed.unique s.place p s.elem' e at' at (s.offers.0 ∙ same) in
              absurd (ground (arith, s.at, here)),
        ),
    λ x.
        let (s, ne) = x in
        elim (Bool-cases (s.place == p)) [
          | inl here ↦
              let same : s.elem' ≡ e = ground (arith, s.at, at) in
              absurd (ne (sym s.offers.0 ∙ ap Elem.key same))
          | inr other ↦ record {
            place = s.place;
            elem' = s.elem';
            at = ground (arith, s.at);
            offers = s.offers;
          }
        ],
  )

  -- In a well-placed open hash that stores a pair, `privRemoveKey` of its key returns the unlinked
  -- element of that value; the table stays well-placed, its count is one lower modulo 2 ^ 32, and
  -- it stores the other pairs, those of other keys.
  pub remove_Stores :
      (k : K) (v : V)
      → Stores t k v
      → (e : Elem K V) × (t' : Table K V) × (priv_remove_key H t k ≡ some (some e, t'))
        × (e.val ≡ v)
        × (e.linked ≡ false)
        × IsPlaced H t'
        × (t'.e_count ≡ pred_u32 t.e_count)
        × ((k' : K) (v' : V) → Stores t' k' v' ↔ (Stores t k' v' × (k' ≢ k)))
  remove_Stores k v s = (
    unlinked s.elem',
    changed t (written t s.place vacated) (pred_u32 t.e_count),
    rw (← s.offers.0) (remove_key-At H t placed s.place s.elem' s.at),
    s.offers.1,
    refl,
    vacate-IsPlaced H t placed s.place (pred_u32 t.e_count),
    refl,
    rw (← s.offers.0) (vacate-Stores s.place (pred_u32 t.e_count) s.elem' s.at),
  )
