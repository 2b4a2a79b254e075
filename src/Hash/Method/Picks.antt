-- ===== src/Hash/Method/Picks.antt =====
-- The hash method of a table size: that the loops on the bounds end, and what is chosen.
use pwxlib.Base.{
  ℕ, zero, suc, ◌+◌, ◌*◌, ◌/◌, ◌%◌, ◌^◌, ◌<◌, ◌≤◌, ◌≡◌, ◌≢◌, ◌↔◌, ◌⊎◌, refl, Bool, true, false,
  ◌&&◌, none, some, ◌==◌, ltb, if◌then◌else◌, u32_mod, arith, Bool-cases, inl, inr, ◌∙◌,
}
use mathlib.Core.Bool.{false≢true}
use pwxlib.Hash.{HashMethod, division, multiplication}
use pwxlib.Hash.Method.{
  lower_loop, upper_loop, far_from_powers, count_divisors, priv_set_hash_method,
}

-- The size lies between two neighbouring powers of two, the lower of which divides 2 ^ 31.
abbrev pub Encloses : ℕ → ℕ × ℕ → Type 0
Encloses n b = (b.1 ≡ 2 * b.0) × (b.0 ≤ n) × (n ≤ b.1) × ((k : ℕ) × (b.0 * 2 ^ k ≡ 2 ^ 31))

pow_suc : (j : ℕ) → 2 ^ suc j ≡ 2 * 2 ^ j
pow_suc j = grind arith

pow_pos : (j : ℕ) → 1 ≤ 2 ^ j
pow_pos zero = omega arith
pow_pos (suc j) = omega (arith, pow_pos j, pow_suc j)

shift : (l a c : ℕ) → l * (2 * a) ≡ c → 2 * l * a ≡ c
shift l a c e = grind (arith, e)

two_le : (l a c : ℕ) → 1 ≤ a → l * (2 * a) ≡ c → 2 * l ≤ c
two_le l a c h e = grind (arith, e, h)

half : (a : ℕ) → 2 * a / 2 ≡ a
half a = omega arith

lower_ends :
    (fuel j n : ℕ)
    → 0 < n
    → j < fuel
    → (l : ℕ) × (lower_loop fuel n (2 ^ j, 2 * 2 ^ j) ≡ some (l, 2 * l))
      × (l ≤ n)
      × (m : ℕ) × (m ≤ j)
      × (l * 2 ^ m ≡ 2 ^ j)
unfolding lower_loop
lower_ends zero j n pos h = absurd (omega arith)
lower_ends (suc fuel) zero n pos h = (1, ground arith, omega arith, 0, omega arith, refl)
lower_ends (suc fuel) (suc j) n pos h = elim (Bool-cases (ltb n (2 * 2 ^ j))) [
  | inl more ↦
      let (l, run, le, m, b, e) = lower_ends fuel j n pos (omega arith) in
      (
        l,
        rw (pow_suc j, half, more) run,
        le,
        suc m,
        omega (arith, b),
        rw (pow_suc j, pow_suc m) (grind (arith, e)),
      )
  | inr stop ↦ (
    2 * 2 ^ j,
    rw (pow_suc j, stop) refl,
    ground arith,
    0,
    omega arith,
    rw (pow_suc j) (omega arith),
  )
]

upper_ends :
    (fuel k l n : ℕ)
    → k < fuel
    → l * 2 ^ suc k ≡ 2 ^ 31
    → l ≤ n
    → n ≤ 2 ^ 31
    → (b : ℕ × ℕ) × (upper_loop fuel n (l, 2 * l) ≡ some b) × Encloses n b
unfolding upper_loop
upper_ends zero k l n f e le top = absurd (omega arith)
upper_ends (suc fuel) zero l n f e le top =
    ((l, 2 * l), ground arith, (refl, le, omega arith, (1, e)))
upper_ends (suc fuel) (suc k) l n f e le top = elim (Bool-cases (ltb (2 * l) n)) [
  | inl more ↦
      let e' : 2 * l * 2 ^ suc k ≡ 2 ^ 31 =
        shift l (2 ^ suc k) (2 ^ 31) (rw (pow_suc (suc k)) at e) in
      let small : 2 * l * 2 < u32_mod =
        omega (arith, two_le (2 * l) (2 ^ k) (2 ^ 31) (pow_pos k) (rw (pow_suc k) at e')) in
      let wraps : 2 * l * 2 % u32_mod ≡ 2 * (2 * l) = omega arith in
      let (b, run, enc) = upper_ends fuel k (2 * l) n (omega arith) e' (ground arith) top in
      (b, rw (more, wraps) run, enc)
  | inr stop ↦ ((l, 2 * l), rw stop refl, (refl, le, ground arith, (suc (suc k), e)))
]

-- Above `2 ^ 31` the upper bound wraps to 0 and stays below the size.
upper_stuck :
    (fuel l u n : ℕ)
    → 2 ^ 31 < n
    → (u ≡ 0) ⊎ ((k : ℕ) × (u * 2 ^ k ≡ 2 ^ 31))
    → upper_loop fuel n (l, u) ≡ none
unfolding upper_loop
upper_stuck zero l u n big h = refl
upper_stuck (suc fuel) l u n big (inl e) =
    let stuck = upper_stuck fuel 0 0 n big (inl refl) in rw e (ground (arith, stuck))
upper_stuck (suc fuel) l u n big (inr (zero, e)) =
    let top : u ≡ 2 ^ 31 = omega (arith, e) in
    rw top (ground (arith, upper_stuck fuel (2 ^ 31) 0 n big (inl refl)))
upper_stuck (suc fuel) l u n big (inr (suc k, e)) =
    let below : ltb u n ≡ true =
      ground (arith, two_le u (2 ^ k) (2 ^ 31) (pow_pos k) (rw (pow_suc k) at e)) in
    let small = two_le u (2 ^ k) (2 ^ 31) (pow_pos k) (rw (pow_suc k) at e) in
    let wraps : u * 2 % u32_mod ≡ 2 * u = omega (arith, small) in
    rw (below, wraps)
      (upper_stuck fuel u (2 * u) n big (inr (k, shift u (2 ^ k) (2 ^ 31) (rw (pow_suc k) at e))))

pow_add : (j m : ℕ) → 2 ^ (m + j) ≡ 2 ^ j * 2 ^ m
pow_add zero m = let e : m + 0 ≡ m = omega arith in rw e (omega arith)
pow_add (suc j) m =
    let step : m + suc j ≡ suc (m + j) = omega arith in
    rw (step, pow_suc (m + j), pow_add j m, pow_suc j) (grind arith)

pow_later : (m : ℕ) → 2 * 2 ^ (m + 24) ≡ 2 ^ 25 * 2 ^ m
pow_later m = omega (arith, pow_add 24 m)

scaled : (l m : ℕ) → l * 2 ^ m ≡ 2 ^ 6 → l * 2 ^ suc (m + 24) ≡ 2 ^ 31
scaled l m e =
    let s : 2 ^ suc (m + 24) ≡ 2 ^ 25 * 2 ^ m = pow_suc (m + 24) ∙ pow_later m in
    rw s (grind (arith, e))

-- The size of an odd table lies between two neighbouring powers of two, and the loops find them.
bounds_end :
    (fuel n : ℕ)
    → 0 < n
    → n ≤ 2 ^ 31
    → 30 < fuel
    → (a : ℕ × ℕ) × (b : ℕ × ℕ) × (lower_loop fuel n (64, 128) ≡ some a)
      × (upper_loop fuel n a ≡ some b)
      × Encloses n b
bounds_end fuel n pos top f =
    let (l, run, le, m, small, e) = lower_ends fuel 6 n pos (omega arith) in
    let (b, run', enc) =
      upper_ends fuel (m + 24) l n (omega (arith, small)) (scaled l m e) le top in
    ((l, 2 * l), b, run, run', enc)

abbrev pick : Bool → HashMethod
pick c = if c then division else multiplication

mult≢div : multiplication ≢ division
mult≢div h = cc

pick-division : (c : Bool) → pick c ≡ division → c ≡ true
pick-division true h = refl
pick-division false h = absurd (mult≢div h)

both : (a b : Bool) → (a && b) ≡ true → (a ≡ true) × (b ≡ true)
both true b h = (refl, h)
both false b h = absurd (false≢true h)

-- For a table size from 1 to 2 ^ 31, `privSetHashMethod` returns; division is chosen exactly if
-- the size is odd, far enough from two neighbouring powers of two that enclose it, the lower of
-- which divides 2 ^ 31, and divided by at most one of the small odd divisors.
pub set_method_total :
    (fuel n : ℕ)
    → 0 < n
    → n ≤ 2 ^ 31
    → 30 < fuel
    → (m : HashMethod) × (b : ℕ × ℕ) × (priv_set_hash_method fuel n ≡ some m)
      × Encloses n b
      × ((m ≡ division)
          ↔ ((n % 2 ≡ 1) × (far_from_powers n b ≡ true) × (count_divisors 9 3 n 0 < 2)))
unfolding priv_set_hash_method
set_method_total fuel n pos top f =
    let (a, b, run, run', enc) = bounds_end fuel n pos top f in
    elim (Bool-cases (n % 2 == 0)) [
      | inl even ↦ (
        multiplication,
        b,
        rw even refl,
        enc,
        (λ h. absurd (mult≢div h), λ x. absurd (ground (arith, x.0))),
      )
      | inr odd ↦ (
        pick (far_from_powers n b && ltb (count_divisors 9 3 n 0) 2),
        b,
        rw (odd, run, run') refl,
        enc,
        (
          λ h. let (far, few) = both _ _ (pick-division _ h) in (ground arith, far, ground arith),
          λ x.
              let few : ltb (count_divisors 9 3 n 0) 2 ≡ true = ground (arith, x.2) in
              rw (x.1, few) refl,
        ),
      )
    ]

-- For an odd table size above 2 ^ 31, the loop of `privSetHashMethod` on the upper bound never
-- ends: no number of rounds is enough.
pub set_method_stuck : (fuel n : ℕ) → 2 ^ 31 < n → n % 2 ≡ 1 → priv_set_hash_method fuel n ≡ none
unfolding priv_set_hash_method lower_loop
set_method_stuck zero n big odd = ground arith
set_method_stuck (suc fuel) n big odd =
    let e : (n % 2 == 0) ≡ false = ground arith in
    let low : ltb n 64 ≡ false = ground arith in
    rw (e, low) (rw (upper_stuck (suc fuel) 64 128 n big (inr (24, refl))) refl)
