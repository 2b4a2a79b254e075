-- ===== src/Hash/Stepping.antt =====
-- `TOpenHash::privGetStepping`: the distance between two probes of a key.
pub mod Ends
pub mod Tiny
use pwxlib.Base.{
  ℕ, zero, suc, ◌+◌, ◌-◌, ◌*◌, ◌/◌, ◌%◌, ◌<◌, Bool, true, false, ◌||◌, Option, none, some, ◌==◌,
  ltb, if◌then◌else◌, u32_mod,
}
use pwxlib.Hash.{HashMethod, division, multiplication}

-- `stepping == ( tabSize * n / ( n + 1 ) )` for some `n` from 3 to 8.
unfoldable pub is_fraction : ℕ → ℕ → Bool
is_fraction tab s =
    s == tab * 3 % u32_mod / 4
    || s == tab * 4 % u32_mod / 5
    || s == tab * 5 % u32_mod / 6
    || s == tab * 6 % u32_mod / 7
    || s == tab * 7 % u32_mod / 8
    || s == tab * 8 % u32_mod / 9

-- One round of the loop that leaves dangerous fractions of the table size: the three tests.
unfoldable pub skip_fraction : ℕ → ℕ → ℕ
skip_fraction tab s = if is_fraction tab s then s + 2 else s

unfoldable pub skip_divisor : ℕ → ℕ → ℕ
skip_divisor tab s = if tab % s == 0 then s + 2 else s

unfoldable pub wrap_step : ℕ → ℕ → ℕ
wrap_step tab s = if ltb tab s then s % tab else s

-- The loop with fuel; `none` is a division by zero, or no end within the fuel.
unfoldable pub adapt : ℕ → ℕ → ℕ → Option ℕ
adapt zero tab s = none
adapt (suc k) tab s =
    let s₁ = skip_fraction tab s in
    let s₂ = skip_divisor tab s₁ in
    let s₃ = wrap_step tab s₂ in
    let rest = adapt k tab s₃ in
    if s₁ == 0
    then none
    else if is_fraction tab s || tab % s₁ == 0 || ltb tab s₂
    then rest
    else some s₃

-- What the stepping is before the loop, from the value that the second hash gives.
unfoldable pub first_step : ℕ → ℕ → ℕ
first_step tab raw =
    let s = if ltb raw 3 then (if tab % 2 == 1 then 2 else 3) else raw in
    if tab % 2 == s % 2 then s + 1 else s

-- `secSize`, a `uint32_t`.
unfoldable pub sec_size : ℕ → ℕ
sec_size tab = (tab + u32_mod - (if tab % 2 == 1 then 2 else 1)) % u32_mod

-- The methods take from floating point only the part `floor( ( x - floor( x ) ) * n )` of a hash
-- times 0.618: a place among `n`. `second` is the hash of a hash (`protGetSecHash`).
pub record Hashing : Type 0 where
  pub scale : ℕ → ℕ → ℕ
  pub scale-lt : (h n : ℕ) → 0 < n → scale h n < n
  pub second : ℕ → ℕ

-- `fuel` bounds the loop.
unfoldable pub priv_get_stepping : Hashing → HashMethod → ℕ → ℕ → ℕ → Option ℕ
priv_get_stepping H m fuel tab pri = adapt fuel tab (
    first_step tab (elim m [
      | division ↦ H.second pri % sec_size tab
      | multiplication ↦ H.scale (H.second pri) (sec_size tab)
    ]))
