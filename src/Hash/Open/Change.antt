-- ===== src/Hash/Open/Change.antt =====
-- Writing an element or the sentry to one place keeps the others where their probing finds them.
use mathlib.Core.Path.{subst₂}
use pwxlib.Base.{
  ℕ, ◌≡◌, ◌≢◌, refl, false, [], ◌∷◌, ◌==◌, arith, Bool-cases, inl, inr, if◌then◌else◌,
}
use pwxlib.Hash.{Key, Elem, Slot, vacated, chain, Table, is_null}
use pwxlib.Hash.Stepping.{Hashing}
use pwxlib.Hash.Open.Lookup.{At, Reached, IsPlaced}

module _ {K V : Type 0} where
  abbrev pub changed : Table K V → (ℕ → Slot K V) → ℕ → Table K V
  changed t σ n = record t { slots = σ; e_count = n }

  abbrev pub written : Table K V → ℕ → Slot K V → ℕ → Slot K V
  written t p x j = if j == p then x else t.slots j

  written-nonnull :
      (t : Table K V) (p : ℕ) (x : Slot K V) (j : ℕ)
      → is_null x ≡ false
      → is_null (t.slots j) ≡ false
      → is_null (written t p x j) ≡ false
  written-nonnull t p x j h h' = ground arith

module _ {K V : Type 0} ⦃key : Key K⦄ (H : Hashing) (t : Table K V) (placed : IsPlaced H t)
    (p n : ℕ) where
  open placed use {live, sized, single, reached, unique}

  Reached-written :
      (x : Slot K V) (k : K) (q : ℕ)
      → is_null x ≡ false
      → Reached H t k q
      → Reached H (changed t (written t p x) n) k q
  Reached-written x k q h r = record {
    step = r.step;
    steps = r.steps;
    probes = r.probes;
    bound = r.bound;
    place = r.place;
    nonnull = λ j l. written-nonnull t p x _ h (r.nonnull j l);
  }

  pub vacate-IsPlaced : IsPlaced H (changed t (written t p vacated) n)
  vacate-IsPlaced = record {
    live = live;
    sized = sized;
    single = λ q e es h. single q e es (ground arith);
    reached = λ q e h. Reached-written vacated e.key q refl (reached q e (ground arith));
    unique = λ q r e f h h' s. unique q r e f (ground arith) (ground arith) s;
  }

  Reached-occupy :
      (e : Elem K V)
      → Reached H t e.key p
      → (q : ℕ) (f : Elem K V) → At (changed t (written t p (chain (e ∷ []))) n) q f
      → Reached H (changed t (written t p (chain (e ∷ []))) n) f.key q
  Reached-occupy e r q f h = elim (Bool-cases (q == p)) [
    | inl same ↦
        let here : p ≡ q = ground arith in
        let new : e.key ≡ f.key = ground arith in
        subst₂ (λ k x. Reached H (changed t (written t p (chain (e ∷ []))) n) k x) new here
          (Reached-written (chain (e ∷ [])) e.key p refl r)
    | inr ne ↦ Reached-written (chain (e ∷ [])) f.key q refl (reached q f (ground arith))
  ]

  pub occupy-IsPlaced :
      (e : Elem K V)
      → Reached H t e.key p
      → ((q : ℕ) (f : Elem K V) → At t q f → f.key ≢ e.key)
      → IsPlaced H (changed t (written t p (chain (e ∷ []))) n)
  occupy-IsPlaced e r absent = record {
    live = live;
    sized = sized;
    single = λ q f es h. ground (arith, single q f es);
    reached = λ q f h. Reached-occupy e r q f h;
    unique = λ q q' f g h h' s. ground (arith, unique q q' f g, absent q f, absent q' g);
  }
