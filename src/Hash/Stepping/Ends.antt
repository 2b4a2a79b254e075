-- ===== src/Hash/Stepping/Ends.antt =====
-- The loop of `privGetStepping` ends for every table of at least ten places.
use pwxlib.Base.{
  ℕ, zero, suc, ◌+◌, ◌*◌, ◌%◌, ◌<◌, ◌≤◌, ◌≡◌, ◌≢◌, true, false, some, ◌==◌, ltb, u32_mod, arith,
  Bool-cases, inl, inr, ◌⊎◌, ◌∙◌,
}
use native.Mathlib.Decide.{dec_lt}
use native.Mathlib.Nat.{mod-eq_of_lt, mod-eq-sub-mod}
use pwxlib.Hash.{HashMethod, division, multiplication}
use pwxlib.Hash.Stepping.{
  is_fraction, Hashing, priv_get_stepping, sec_size, skip_fraction, skip_divisor, wrap_step, adapt,
  first_step,
}

-- A stepping that is less than the table size, at least 2, and of the other parity.
pub record Fits (tab s : ℕ) : Type 0 where
  pub low : 2 ≤ s
  pub high : s < tab
  pub parity : s % 2 ≢ tab % 2

module _ (tab : ℕ) (big : 10 ≤ tab) (small : tab * 8 < u32_mod) where
  -- A fraction of the table is at most the table size less 2.
  fraction-lt : (s : ℕ) → is_fraction tab s ≡ true → s + 2 ≤ tab
  unfolding is_fraction
  fraction-lt s h = ground arith

  divisor-lt : (s : ℕ) → Fits tab s → tab % s ≡ 0 → s + 2 < tab
  divisor-lt s f h = elim (dec_lt tab (s + s)) [
    | yes p ↦ absurd (grind (arith, mod-eq-sub-mod, mod-eq_of_lt))
    | no p ↦ omega arith
  ]

  skip_fraction-Fits :
      (s : ℕ)
      → Fits tab s
      → Fits tab (skip_fraction tab s)
        × ((is_fraction tab s ≡ true) → skip_fraction tab s ≡ s + 2)
        × (s ≤ skip_fraction tab s)
  unfolding skip_fraction
  skip_fraction-Fits s f = ground (arith, fraction-lt s)

  skip_divisor-Fits :
      (s : ℕ)
      → Fits tab s
      → Fits tab (skip_divisor tab s)
        × ((tab % s == 0) ≡ true → skip_divisor tab s ≡ s + 2)
        × (s ≤ skip_divisor tab s)
  unfolding skip_divisor
  skip_divisor-Fits s f = ground (arith, divisor-lt s f)

  wrap_step-Fits : (s : ℕ) → Fits tab s → wrap_step tab s ≡ s
  unfolding wrap_step
  wrap_step-Fits s f = ground arith

  -- The first two tests of a round leave the stepping, or raise it by 2 or 4 and go on.
  round :
      (k s : ℕ)
      → Fits tab s
      → ((adapt (suc k) tab s ≡ some s) × (is_fraction tab s ≡ false) × (tab % s ≢ 0))
        ⊎ ((s' : ℕ) × (adapt (suc k) tab s ≡ adapt k tab s') × Fits tab s' × (s + 2 ≤ s'))
  unfolding adapt
  round k s f =
      let (f₁, fst, up₁) = skip_fraction-Fits s f in
      let s₁ = skip_fraction tab s in
      let (f₂, snd, up₂) = skip_divisor-Fits s₁ f₁ in
      let s₂ = skip_divisor tab s₁ in
      let same = wrap_step-Fits s₂ f₂ in
      let pos : (s₁ == 0) ≡ false = ground (arith, f₁.low) in
      let below : ltb tab s₂ ≡ false = ground (arith, f₂.high) in
      elim (Bool-cases (is_fraction tab s)) [
        | inl yes₁ ↦ inr (s₂, rw (pos, yes₁, same), f₂, omega (arith, fst yes₁))
        | inr no₁ ↦ elim (Bool-cases (tab % s₁ == 0)) [
          | inl yes₂ ↦ inr (s₂, rw (pos, no₁, yes₂, same), f₂, omega (arith, snd yes₂))
          | inr no₂ ↦
              let stays₁ : s₁ ≡ s = unfold skip_fraction in rw no₁ in
              let stays₂ : s₂ ≡ s₁ = unfold skip_divisor in rw no₂ in
              inl (rw (pos, no₁, no₂, below, same, stays₂, stays₁), no₁, ground (arith, stays₁))
        ]
      ]

  -- The loop ends with a stepping that fits, divides nothing and is no fraction.
  pub adapt_ends :
      (k s : ℕ)
      → Fits tab s
      → tab < k + s
      → (r : ℕ) × (adapt k tab s ≡ some r)
        × Fits tab r
        × (is_fraction tab r ≡ false)
        × (tab % r ≢ 0)
  adapt_ends zero s f fuel = absurd (omega (arith, f.high))
  adapt_ends (suc k) s f fuel = elim (round k s f) [
    | inl (e, no₁, no₂) ↦ (s, e, f, no₁, no₂)
    | inr (s', e, f', up) ↦
        let (r, e', fits, whole, rest) = adapt_ends k s' f' (omega arith) in
        (r, e ∙ e', fits, whole, rest)
  ]

  first_step-Fits : (raw : ℕ) → raw < sec_size tab → Fits tab (first_step tab raw)
  unfolding first_step sec_size
  first_step-Fits raw h = ground arith

  sec_size-pos : 0 < sec_size tab
  unfolding sec_size
  sec_size-pos = ground arith

  from_raw :
      (raw : ℕ)
      → raw < sec_size tab
      → (r : ℕ) × (adapt tab tab (first_step tab raw) ≡ some r)
        × (2 ≤ r)
        × (r < tab)
        × (r % 2 ≢ tab % 2)
        × (tab % r ≢ 0)
  from_raw raw h =
      let f = first_step-Fits raw h in
      let (r, e, f', _, d) = adapt_ends tab _ f (omega (arith, f.low)) in
      (r, e, f'.low, f'.high, f'.parity, d)

-- For a table of at least 10 places, where eight times the size is below 2 ^ 32, and for every key
-- and method, the loop of `privGetStepping` ends within as many rounds as there are places, and
-- its step is from 2 to below the size, of the other parity than the size, and no divisor of it.
pub priv_get_stepping_ends :
    (H : Hashing) (m : HashMethod) (tab pri : ℕ)
    → 10 ≤ tab
    → tab * 8 < u32_mod
    → (r : ℕ) × (priv_get_stepping H m tab tab pri ≡ some r)
      × (2 ≤ r)
      × (r < tab)
      × (r % 2 ≢ tab % 2)
      × (tab % r ≢ 0)
unfolding priv_get_stepping
priv_get_stepping_ends H division tab pri big small =
    from_raw tab big small _ (grind (arith, sec_size-pos tab big small))
priv_get_stepping_ends H multiplication tab pri big small =
    from_raw tab big small _ (H.scale-lt _ _ (sec_size-pos tab big small))
