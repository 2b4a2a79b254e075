-- ===== src/SingleList/Index/Bounds.antt =====
-- container/TSingleList.h: the place that an index names lies in the list.
use native.Mathlib.Nat.{mod-lt, mod_self, add-mod-mod}
use pwxlib.Base.{
  ℕ, ◌+◌, ◌-◌, ◌%◌, ◌<◌, ◌≡◌, refl, sym, ap, ◌∙◌, true, false, arith, leb, Bool-cases, inl, inr,
}
use pwxlib.SingleList.Index.{ℤ, pos, negsuc, in_count, wrap_index}
use pwxlib.SingleList.Edit.{if_so, if_not}

-- The place `j` is the index modulo the count, as for integers.
abbrev pub Congruent : ℤ → ℕ → ℕ → Type 0
Congruent (pos n) j count = j ≡ n % count
Congruent (negsuc n) j count = (j + (n + 1)) % count ≡ 0

pub in_count_small : (i count : ℕ) → i < count → in_count i count ≡ i
in_count_small i count h =
    let small : leb count i ≡ false = ground (arith, h) in if_not _ _ small refl

in_count_full : (count : ℕ) → in_count count count ≡ 0
in_count_full count =
    let full : leb count count ≡ true = ground arith in if_so _ _ full (mod_self count)

-- For a list that is not empty: the place that an index names is less than the count and congruent
-- to the index modulo the count, for negative indices too.
pub wrap_index-Congruent :
    (index : ℤ) (count : ℕ)
    → 0 < count
    → (wrap_index index count < count) × Congruent index (wrap_index index count) count
unfolding wrap_index
wrap_index-Congruent (pos n) count some_in =
    let small = mod-lt n some_in in
    let e = in_count_small (n % count) count small in (rw (e) small, e)
wrap_index-Congruent (negsuc n) count some_in =
    let r = (n + 1) % count in
    let small : r < count = mod-lt (n + 1) some_in in
    elim (Bool-cases (leb r 0)) [
      | inl none_over ↦
          let z : r ≡ 0 = ground arith in
          let plain : 0 + (n + 1) ≡ n + 1 = omega arith in
          let full : count - r ≡ count = omega (arith, z) in
          let e : in_count (count - r) count ≡ 0 =
            ap (λ k. in_count k count) full ∙ in_count_full count in
          (rw (e) some_in, ap (λ j. (j + (n + 1)) % count) e ∙ ap (λ j. j % count) plain ∙ z)
      | inr over ↦
          let less : count - r < count = ground arith in
          let e = in_count_small (count - r) count less in
          let whole : (count - r) + r ≡ count = omega (arith, small) in
          (
            rw (e) less,
            ap (λ j. (j + (n + 1)) % count) e
                ∙ sym (add-mod-mod (count - r) (n + 1) count)
                ∙ ap (λ j. j % count) whole
                ∙ mod_self count,
          )
    ]
