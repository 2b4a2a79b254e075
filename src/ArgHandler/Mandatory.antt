-- ===== src/ArgHandler/Mandatory.antt =====
-- arg_handler/CArgHandler: the walks over the two hashes, that look for mandatory arguments and that
-- reset the targets. Their bound is the number of elements, and they count places.
use pwxlib.Base.{
  ℕ, zero, suc, ◌+◌, ◌≤◌, ◌<◌, ◌≡◌, refl, ap, ◌∙◌, true, List, [], ◌∷◌, ◌++◌, some, Bool-cases, inl,
  inr, arith, length, length-append, ◌==◌, ==_iff,
}
use pwxlib.Hash.{Key, Elem, Table}
use pwxlib.Hash.Stepping.{Hashing}
use pwxlib.Hash.Public.{get_by_index}
use pwxlib.ArgHandler.{Text, Handler, Target}
use pwxlib.ArgHandler.Parse.{
  walk_chain, walk_places, check_short, check_long, check_mandatory, is_missing, reset_elem,
  reset_pos, reset_targets,
}
use pwxlib.ArgHandler.Lookup.{AtRest, Ready}
use pwxlib.ArgHandler.Frame.{Framed}
use pwxlib.ArgHandler.Total.{
  walk_chain-Framed, walk_places-Framed, check_short-Framed, check_long-Framed, size-AtRest,
}

module _ {V : Type 0} where
  walk_nothing :
      (f : Handler V → Elem Text ℕ → Handler V) (t : Table Text ℕ) (n i : ℕ) (h : Handler V)
      → ((k : ℕ) → k < i + n → get_by_index t k ≡ [])
      → walk_places f t n i h ≡ h
  unfolding walk_places
  walk_nothing f t zero i h empty = refl
  walk_nothing f t (suc n) i h empty =
      rw (empty i (omega arith)) (walk_nothing f t n (i + 1) h (λ k b. empty k (omega (arith, b))))

  Framed-longer : {h h' : Handler V} → Framed h h' → length h.errlist ≤ length h'.errlist
  Framed-longer {h} f = omega (arith, ap length f.grown, length-append h.errlist f.added)

  check_short-targets : (h : Handler V) (e : Elem Text ℕ) → (check_short h e).targets ≡ h.targets
  check_short-targets h e = elim (Bool-cases (is_missing (h.targets e.val))) [
    | inl m ↦ rw m refl
    | inr m ↦ rw m refl
  ]

  walk_chain-targets :
      (es : List (Elem Text ℕ)) (h : Handler V) → (walk_chain check_short es h).targets ≡ h.targets
  walk_chain-targets [] h = refl
  walk_chain-targets (e ∷ es) h = walk_chain-targets es (check_short h e) ∙ check_short-targets h e

  chain_finds :
      (before after : List (Elem Text ℕ)) (e : Elem Text ℕ) (h : Handler V)
      → is_missing (h.targets e.val) ≡ true
      → length h.errlist < length (walk_chain check_short (before ++ (e ∷ after)) h).errlist
  chain_finds [] after e h m =
      let more : length (check_short h e).errlist ≡ length h.errlist + 1 =
        (rw m (length-append h.errlist _)) in
      let later =
        Framed-longer (walk_chain-Framed check_short check_short-Framed after (check_short h e)) in
      omega (arith, more, later)
  chain_finds (x ∷ before) after e h m =
      let still : is_missing ((check_short h x).targets e.val) ≡ true =
        ap (λ (ts : ℕ → Target V). is_missing (ts e.val)) (check_short-targets h x) ∙ m in
      omega (
        arith,
        chain_finds before after e (check_short h x) still,
        Framed-longer (check_short-Framed h x),
      )

  places_find :
      (t : Table Text ℕ) (k : ℕ) (before after : List (Elem Text ℕ)) (e : Elem Text ℕ)
      → get_by_index t k ≡ before ++ (e ∷ after)
      → (n i : ℕ) (h : Handler V) → i ≤ k
      → k < i + n
      → is_missing (h.targets e.val) ≡ true
      → length h.errlist < length (walk_places check_short t n i h).errlist
  unfolding walk_places
  places_find t k before after e c zero i h lo hi m = absurd (omega (arith, lo, hi))
  places_find t k before after e c (suc n) i h lo hi m =
      let h₁ = walk_chain check_short (get_by_index t i) h in
      elim (Bool-cases (i == k)) [
        | inl same ↦
            let here : get_by_index t i ≡ before ++ (e ∷ after) =
              ap (get_by_index t) ((==_iff i k).0 same) ∙ c in
            let first : length h.errlist < length h₁.errlist =
              (rw here (chain_finds before after e h m)) in
            omega (
              arith,
              first,
              Framed-longer (walk_places-Framed check_short check_short-Framed t n (i + 1) h₁),
            )
        | inr other ↦
            let still : is_missing (h₁.targets e.val) ≡ true =
              ap (λ (ts : ℕ → Target V). is_missing (ts e.val))
                (walk_chain-targets (get_by_index t i) h)
              ∙ m in
            omega (
              arith,
              places_find t k before after e c n (i + 1) h₁ (ground (arith, lo, other))
                  (omega (arith, hi)) still,
              Framed-longer (walk_chain-Framed check_short check_short-Framed (get_by_index t i) h),
            )
      ]

  module _ ⦃key : Key Text⦄ (H : Hashing) where
    -- Step 4 of `parseArgs`, where the two hashes are well-formed maps at rest: a mandatory
    -- argument with a short name that was not processed and stands at a place below the number of
    -- elements gives an error.
    pub check_mandatory-finds :
        (h : Handler V) (k : ℕ) (before after : List (Elem Text ℕ)) (e : Elem Text ℕ)
        → Ready H h
        → k < h.short_args.e_count
        → get_by_index h.short_args k ≡ before ++ (e ∷ after)
        → is_missing (h.targets e.val) ≡ true
        → (h' : Handler V) × (check_mandatory h ≡ some h') × (length h.errlist < length h'.errlist)
    unfolding check_mandatory
    check_mandatory-finds h k before after e r b c m =
        let h₁ = walk_places check_short h.short_args h.short_args.e_count 0 h in
        let f₁ =
          walk_places-Framed check_short check_short-Framed h.short_args h.short_args.e_count 0 h in
        let long₁ : AtRest H h₁.long_args = rw f₁.long r.long in
        let h₂ = walk_places check_long h₁.long_args h₁.long_args.e_count 0 h₁ in
        let f₂ =
          walk_places-Framed check_long check_long-Framed h₁.long_args h₁.long_args.e_count 0 h₁ in
        let found =
          places_find h.short_args k before after e c h.short_args.e_count 0 h (omega arith)
            (omega (arith, b)) m in
        (
          h₂,
          (rw (size-AtRest H h.short_args r.short, size-AtRest H h₁.long_args long₁) refl),
          omega (arith, found, Framed-longer f₂),
        )

    -- Where no place below the number of elements has an element, in both hashes, which are
    -- well-formed maps at rest: step 4 of `parseArgs` finds no mandatory argument missing, and
    -- `resetTargets` resets the positional targets only.
    pub walks-pass_over :
        (h : Handler V)
        → Ready H h
        → ((k : ℕ) → k < h.short_args.e_count → get_by_index h.short_args k ≡ [])
        → ((k : ℕ) → k < h.long_args.e_count → get_by_index h.long_args k ≡ [])
        → (check_mandatory h ≡ some h) × (reset_targets h ≡ some (reset_pos h.pos_queue h))
    unfolding check_mandatory reset_targets
    walks-pass_over h r short long =
        let in_short = size-AtRest H h.short_args r.short in
        let below_short =
          λ (k : ℕ) (b : k < 0 + h.short_args.e_count). short k (omega (arith, b)) in
        let below_long = λ (k : ℕ) (b : k < 0 + h.long_args.e_count). long k (omega (arith, b)) in
        let in_long = size-AtRest H h.long_args r.long in
        let check₁ = walk_nothing check_short h.short_args h.short_args.e_count 0 h below_short in
        let check₂ = walk_nothing check_long h.long_args h.long_args.e_count 0 h below_long in
        let reset₁ = walk_nothing reset_elem h.short_args h.short_args.e_count 0 h below_short in
        let reset₂ = walk_nothing reset_elem h.long_args h.long_args.e_count 0 h below_long in
        (
          (rw (in_short, check₁, in_long, check₂) refl),
          (rw (in_short, reset₁, in_long, reset₂) refl),
        )
