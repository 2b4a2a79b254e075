-- ===== src/ArgHandler/Added.antt =====
-- arg_handler/CArgHandler::internalAddArg: the names of a new argument are found afterwards, and names
-- that are known are refused.
use pwxlib.Base.{
  ℕ, ◌≡◌, refl, ap, ◌∙◌, sym, Bool, true, false, not, ◌&&◌, ◌||◌, [], ◌∷◌, Option, none, some,
  Bool-cases, inl, inr, ◌⊎◌, arith, if◌then◌else◌,
}
use mathlib.Core.Bool.{false≢true}
use pwxlib.Hash.{Key, Table}
use pwxlib.Hash.Stepping.{Hashing}
use pwxlib.Hash.Public.{Growth}
use pwxlib.ArgHandler.{
  Text, is_empty, Handler, TargetType, ArgType, Template, new_target, put_target,
}
use pwxlib.ArgHandler.Register.{can_set, internal_add_arg, insert_arg, longest_lens, get_target}
use pwxlib.ArgHandler.Lookup.{Ready, look, get_target-find, find_target, first_of}
use pwxlib.ArgHandler.Known.{Room, Entered, named_at, is_new-named_at, enter-Entered}

pick_first :
    (s l : Bool) (id : ℕ) (o o' : Option ℕ)
    → (l ≡ true → o ≡ none)
    → first_of (if s then some id else o) (if l then some id else o')
      ≡ (if s || l then some id else first_of o o')
pick_first true l id o o' f = refl
pick_first false true id o o' f = rw (f refl) refl
pick_first false false id o o' f = refl

-- `get_target` where the name is one of the two.
pick_outer :
    (b : Bool) (id : ℕ) (o : Option ℕ)
    → some (if b then some id else o) ≡ (if b then some (some id) else some o)
pick_outer true id o = refl
pick_outer false id o = refl

module _ ⦃key : Key Text⦄ (H : Hashing) where
  abbrev pub is_name : Text → Text → Bool
  is_name s a = not (is_empty s) && key.equal s a

  is_name-nil : (s : Text) → is_name s [] ≡ false
  is_name-nil [] = refl
  is_name-nil (c ∷ s) = elim (Bool-cases (key.equal (c ∷ s) [])) [
    | inl e ↦ let same : c ∷ s ≡ [] = (key.equal_iff _ _).0 e in cc
    | inr e ↦ e
  ]

module _ ⦃key : Key Text⦄ (H : Hashing) (growth : Growth) where
  named-clear :
      (t : Table Text ℕ) (long a : Text)
      → named_at H growth t long ≡ none
      → is_name H long a ≡ true
      → look H t a ≡ none
  named-clear t [] a new e = absurd (false≢true e)
  named-clear t (c ∷ l) a new e = ap (look H t) (sym ((key.equal_iff _ _).0 e)) ∙ new

  module _ {V : Type 0} where
    find-Entered :
        (id : ℕ) (short long : Text) (h h' : Handler V)
        → Entered H growth id short long h h'
        → named_at H growth h.short_args long ≡ none
        → (a : Text)
        → find_target H h'.short_args h'.long_args a ≡ (
            if is_name H short a || is_name H long a
            then some id
            else find_target H h.short_args h.long_args a)
    unfolding find_target
    find-Entered id short long h h' f free [] = rw (is_name-nil H short, is_name-nil H long) refl
    find-Entered id short long h h' f free (c ∷ a) =
        ap (λ o. first_of o (look H h'.long_args (c ∷ a))) (f.in_short (c ∷ a))
        ∙ ap (first_of (if is_name H short (c ∷ a) then some id else look H h.short_args (c ∷ a)))
            (f.in_long (c ∷ a))
        ∙ (pick_first (is_name H short (c ∷ a)) (is_name H long (c ∷ a)) id _ _
            (named-clear h.short_args long (c ∷ a) free))

    module _ (fuel id : ℕ) (short long : Text) (type : TargetType) (set : ArgType)
        (template : Template V) (target : Option ℕ) (cb : Option (Text → Text → Bool))
        (desc name : Text) (h : Handler V) (r : Ready H h)
        (named : (is_empty short && is_empty long) ≡ false) (can : can_set type target ≡ true) where
      -- `internalAddArg` with a name, with a variable or the type for callbacks, on hashes that
      -- are well-formed maps at rest and take one more element without growing, where both names
      -- are new and the long one is no short name: it returns true, the new target is as given,
      -- `getTarget` finds it by either name, and finds by every other name what it found before.
      pub internal_add_arg-get_target :
          Room H growth h.short_args
          → Room H growth h.long_args
          → named_at H growth h.short_args short ≡ none
          → named_at H growth h.long_args long ≡ none
          → named_at H growth h.short_args long ≡ none
          → (h' : Handler V) × (internal_add_arg H growth fuel id short long type set template
                target cb desc name h
              ≡ some (true, h'))
            × (h'.targets id ≡ new_target short long type set cb desc name template target)
            × Ready H h'
            × ((a : Text)
                → get_target H h' a ≡ (
                    if is_name H short a || is_name H long a
                    then some (some id)
                    else get_target H h a))
      unfolding internal_add_arg insert_arg new_target
      internal_add_arg-get_target rs rl ns nl free =
          let t = new_target short long type set cb desc name template target in
          let new_long = is_new-named_at H growth h.long_args long r.long in
          let new_short = is_new-named_at H growth h.short_args short r.short in
          let h₀ = put_target id t h in
          let (h₁, run, f) =
            enter-Entered H growth fuel id short long h₀ (record { short = r.short; long = r.long })
              rs rl ns nl in
          let h' = longest_lens short long name h₁ in
          let ready : Ready H h' = record { short = f.ready.short; long = f.ready.long } in
          (
            h',
            (rw (named, can, new_long, nl, new_short, ns, run) refl),
            (rw f.same (ground arith)),
            ready,
            λ a.
                get_target-find H h' ready a
                ∙ ap some (find-Entered id short long h₀ h₁ f free a)
                ∙ pick_outer (is_name H short a || is_name H long a) id _
                ∙ ap (λ o. if is_name H short a || is_name H long a then some (some id) else o)
                    (sym (get_target-find H h r a)),
          )

      -- `internalAddArg` with a name, and with a variable or the type for callbacks, on hashes
      -- that are well-formed maps at rest: if the short or the long name is known, it returns
      -- false and leaves the handler as it was.
      pub internal_add_arg-known :
          (i : ℕ)
          → (named_at H growth h.short_args short ≡ some i)
            ⊎ (named_at H growth h.long_args long ≡ some i)
          → internal_add_arg H growth fuel id short long type set template target cb desc name h
            ≡ some (false, h)
      unfolding internal_add_arg
      internal_add_arg-known i known =
          let new_long = is_new-named_at H growth h.long_args long r.long in
          let new_short = is_new-named_at H growth h.short_args short r.short in
          ground (arith, named, can, new_long, new_short)
