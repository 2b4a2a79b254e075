-- ===== src/Hash/Open/Path.antt =====
-- The places that the probing of a key visits, and where it stops.
use pwxlib.Base.{
  ℕ, zero, suc, ◌+◌, ◌<◌, ◌≤◌, ◌≡◌, refl, Bool, true, false, Option, none, some, ◌==◌, arith, ap,
  Bool-cases, inl, inr, ==_iff,
}
use native.Mathlib.Numerals.{add-one}
use pwxlib.Hash.{Key, Table}
use pwxlib.Hash.Open.{next_place, raise, settles, probe}

-- Position and step of probe `n`.
unfoldable pub path : ℕ → ℕ → ℕ → ℕ → ℕ × ℕ
path tab base step zero = (base, step)
path tab base step (suc n) = next_place tab base n (path tab base step n)

abbrev pub hops_at : Option ℕ → ℕ → Option ℕ
hops_at none n = none
hops_at (some h) n = some (h + n)

hops_at-raise : (h : Option ℕ) (n : ℕ) → raise (hops_at h n) ≡ hops_at h (n + 1)
hops_at-raise none n = refl
hops_at-raise (some h) n = ap some (omega arith)

pub next_place-lt : (tab base i : ℕ) (p : ℕ × ℕ) → 0 < tab → (next_place tab base i p).0 < tab
unfolding next_place
next_place-lt tab base i p h = grind arith

pub path-lt : (tab base step n : ℕ) → base < tab → (path tab base step n).0 < tab
unfolding path
path-lt tab base step zero h = h
path-lt tab base step (suc n) h = next_place-lt tab base n _ (omega arith)

abbrev pub place_at : {K V : Type 0} → Table K V → ℕ → ℕ → ℕ → ℕ
place_at t base step n = (path t.hash_size base step n).0

module _ {K V : Type 0} ⦃key : Key K⦄ (t : Table K V) (k : K) (allow : Bool) (base step : ℕ)
    (hops : Option ℕ) where
  -- Probe `m` is the first that settles, or the loop ran through.
  pub record Stops (m : ℕ) : Type 0 where
    pub bound : m ≤ t.hash_size
    pub before :
        (j : ℕ) → j < m → settles t k allow (hops_at hops j) (place_at t base step j) ≡ false
    pub found : m < t.hash_size → settles t k allow (hops_at hops m) (place_at t base step m) ≡ true

  longer :
      (i : ℕ)
      → ((j : ℕ) → j < i → settles t k allow (hops_at hops j) (place_at t base step j) ≡ false)
      → settles t k allow (hops_at hops i) (place_at t base step i) ≡ false
      → (j : ℕ) → j < suc i
      → settles t k allow (hops_at hops j) (place_at t base step j) ≡ false
  longer i clear on j h = elim (Bool-cases (j == i)) [
    | inl same ↦ let e : j ≡ i = (==_iff _ _).0 same in rw e on
    | inr ne ↦ clear j (ground arith)
  ]

  pub probe-Stops :
      (left i : ℕ)
      → i + left ≡ t.hash_size
      → ((j : ℕ) → j < i → settles t k allow (hops_at hops j) (place_at t base step j) ≡ false)
      → (m : ℕ) × Stops m
        × (probe t k allow base left i (path t.hash_size base step i) (hops_at hops i)
            ≡ (place_at t base step m, hops_at hops m))
  unfolding probe path
  probe-Stops zero i e clear =
      (i, record { bound = omega arith; before = clear; found = λ h. absurd (omega arith) }, refl)
  probe-Stops (suc left) i e clear =
      elim (Bool-cases (settles t k allow (hops_at hops i) (place_at t base step i))) [
        | inl stop ↦ (i, record { bound = omega arith; before = clear; found = λ h. stop }, rw stop)
        | inr on ↦
            let (m, s, e') = probe-Stops left (suc i) (omega arith) (longer i clear on) in
            (m, s, rw (on, hops_at-raise hops i, add-one) e')
      ]
