-- ===== src/Hash/Stepping/Tiny.antt =====
-- Tables of fewer than five places: the loop of `privGetStepping` comes back to a step it had.
use pwxlib.Base.{ℕ, zero, suc, ◌%◌, ◌≡◌, ◌∙◌, ◌<◌, refl, none, arith}
use pwxlib.Hash.{HashMethod, division, multiplication}
use pwxlib.Hash.Stepping.{
  Hashing, priv_get_stepping, adapt, first_step, is_fraction, skip_fraction, skip_divisor,
  wrap_step, sec_size,
}

adapt4 : (k : ℕ) → (adapt k 4 1 ≡ none) × (adapt k 4 3 ≡ none)
unfolding adapt is_fraction skip_fraction skip_divisor wrap_step
adapt4 zero = (refl, refl)
adapt4 (suc k) = let (a, b) = adapt4 k in (b, a)

adapt3 : (k : ℕ) → (adapt k 3 1 ≡ none) × (adapt k 3 2 ≡ none) × (adapt k 3 3 ≡ none)
unfolding adapt is_fraction skip_fraction skip_divisor wrap_step
adapt3 zero = (refl, refl, refl)
adapt3 (suc k) = let (a, b, c) = adapt3 k in (c, a, b)

adapt2 : (k : ℕ) → (adapt k 2 1 ≡ none) × (adapt k 2 3 ≡ none)
unfolding adapt is_fraction skip_fraction skip_divisor wrap_step
adapt2 zero = (refl, refl)
adapt2 (suc k) = let (a, b) = adapt2 k in (a, a)

adapt1-zero : (k : ℕ) → adapt k 1 0 ≡ none
unfolding adapt is_fraction skip_fraction skip_divisor wrap_step
adapt1-zero zero = refl
adapt1-zero (suc k) = adapt1-zero k

-- With one place every step wraps to 0.
adapt1 : (k s : ℕ) → adapt k 1 s ≡ none
unfolding adapt is_fraction skip_fraction skip_divisor wrap_step
adapt1 zero s = refl
adapt1 (suc k) s = grind (arith, adapt1-zero k)

sec_size-small : sec_size 2 ≡ 1
unfolding sec_size
sec_size-small = refl

first_step2 : (r : ℕ) → r < 1 → first_step 2 r ≡ 3
unfolding first_step
first_step2 r h = ground arith

first_step3 : (r : ℕ) → r < 1 → first_step 3 r ≡ 2
unfolding first_step
first_step3 r h = ground arith

first_step4 : (r : ℕ) → r < 3 → first_step 4 r ≡ 3
unfolding first_step
first_step4 r h = ground arith

-- What the second hash gives is smaller than `secSize`.
raw : Hashing → HashMethod → ℕ → ℕ → ℕ
raw H division tab pri = H.second pri % sec_size tab
raw H multiplication tab pri = H.scale (H.second pri) (sec_size tab)

raw-lt :
    (H : Hashing) (m : HashMethod) (tab pri : ℕ) → 0 < sec_size tab → raw H m tab pri < sec_size tab
unfolding raw
raw-lt H division tab pri h = omega arith
raw-lt H multiplication tab pri h = H.scale-lt _ _ h

from_raw :
    (H : Hashing) (m : HashMethod) (k tab pri : ℕ)
    → priv_get_stepping H m k tab pri ≡ adapt k tab (first_step tab (raw H m tab pri))
unfolding priv_get_stepping raw
from_raw H division k tab pri = refl
from_raw H multiplication k tab pri = refl

-- For a table of one to four places, the loop of `privGetStepping` never ends, whatever the key
-- and the method: no number of rounds is enough.
pub tiny_never_ends :
    (H : Hashing) (m : HashMethod) (k tab pri : ℕ)
    → 0 < tab
    → tab < 5
    → priv_get_stepping H m k tab pri ≡ none
unfolding sec_size
tiny_never_ends H m k tab pri pos lt = from_raw H m k tab pri ∙ go tab pos lt
  where
    go : (n : ℕ) → 0 < n → n < 5 → adapt k n (first_step n (raw H m n pri)) ≡ none
    go zero p l = absurd (omega arith)
    go (suc zero) p l = adapt1 k _
    go (suc (suc zero)) p l = rw (first_step2 _ (raw-lt H m 2 pri (omega arith))) (adapt2 k).1
    go (suc (suc (suc zero))) p l = rw (first_step3 _ (raw-lt H m 3 pri (omega arith))) (adapt3 k).1
    go (suc (suc (suc (suc zero)))) p l =
        rw (first_step4 _ (raw-lt H m 4 pri (omega arith))) (adapt4 k).1
    go (suc (suc (suc (suc (suc n))))) p l = absurd (omega arith)
