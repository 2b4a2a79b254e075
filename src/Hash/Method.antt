-- ===== src/Hash/Method.antt =====
-- `VTHashBase::privSetHashMethod`: which hash method a table size gets.
pub mod Picks
use pwxlib.Base.{
  ℕ, zero, suc, ◌+◌, ◌-◌, ◌*◌, ◌/◌, ◌%◌, ◌^◌, ◌<◌, ◌≤◌, ◌≡◌, ◌≢◌, ◌⊎◌, refl, Bool, true, false, not,
  ◌&&◌, Option, none, some, ◌==◌, ltb, leb, if◌then◌else◌, u32_mod, arith, Bool-cases, inl, inr, ap,
  ◌∙◌,
}
use mathlib.Core.Bool.{false≢true}
use pwxlib.Hash.{HashMethod, division, multiplication}
use pwxlib.Hash.Open.{◌>>=◌}

-- `while ( lowerBound > targetSize )`, on fuel; the pair is of `lowerBound` and `upperBound`.
unfoldable pub lower_loop : ℕ → ℕ → ℕ × ℕ → Option (ℕ × ℕ)
lower_loop zero n b = none
lower_loop (suc k) n (l, u) =
    let rest = lower_loop k n (l / 2, l) in if ltb n l then rest else some (l, u)

-- `while ( upperBound < targetSize )`, on fuel.
unfoldable pub upper_loop : ℕ → ℕ → ℕ × ℕ → Option (ℕ × ℕ)
upper_loop zero n b = none
upper_loop (suc k) n (l, u) =
    let rest = upper_loop k n (u, u * 2 % u32_mod) in if ltb u n then rest else some (l, u)

abbrev min_of : ℕ → ℕ → ℕ
min_of a b = if ltb b a then b else a

-- The test on the distance to the powers of two.
unfoldable pub far_from_powers : ℕ → ℕ × ℕ → Bool
far_from_powers n (l, u) =
    let middle = (l + u) % u32_mod / 2 in
    let mid_dist = if ltb n middle then middle - n else n - middle in
    ltb mid_dist (min_of ((n - l) / 2) ((u - n) / 2))

-- The loop over the odd divisors from `d` on, `rounds` of them; 15 is left out.
unfoldable pub count_divisors : (rounds d n divided : ℕ) → ℕ
count_divisors zero d n divided = divided
count_divisors (suc r) d n divided =
    let next = if not (d == 15) && n % d == 0 then divided + 1 else divided in
    let rest = count_divisors r (d + 2) n next in
    if ltb divided 2 && ltb d 20 then rest else divided

-- `fuel` bounds each of the two loops on the bounds; nine divisors are below 20.
unfoldable pub priv_set_hash_method : ℕ → ℕ → Option HashMethod
priv_set_hash_method fuel n = if n % 2 == 0 then some multiplication else (do
  b ← lower_loop fuel n (64, 128)
  b' ← upper_loop fuel n b
  some
      (if far_from_powers n b' && ltb (count_divisors 9 3 n 0) 2 then division else multiplication))
