-- ===== src/ArgHandler/Known.antt =====
-- arg_handler/CArgHandler: what adding an argument does to the two hashes of names.
use pwxlib.Base.{
  ℕ, ◌<◌, ◌≡◌, refl, ap, ◌∙◌, sym, Bool, true, false, not, ◌&&◌, [], ◌∷◌, Option, none, some,
  Option-cases, inl, inr, arith, if◌then◌else◌, u32_mod, succ_u32,
}
use pwxlib.Hash.{Key, Elem, Table}
use pwxlib.Hash.Stepping.{Hashing}
use pwxlib.Hash.Chain.{priv_get}
use pwxlib.Hash.Public.{Growth, add}
use pwxlib.Hash.Public.Laws.{exists-look, get-look, add-look}
use pwxlib.Hash.Public.Whole.{add_elem}
use pwxlib.Hash.Public.Chained.{chain_methods, chain_laws}
use pwxlib.ArgHandler.{Text, is_empty, Handler}
use pwxlib.ArgHandler.Register.{add_short, add_copy, enter, is_new}
use pwxlib.ArgHandler.Lookup.{AtRest, Ready, look}

module _ ⦃key : Key Text⦄ (H : Hashing) (growth : Growth) where
  -- A hash that takes one more element without growing.
  pub record Room (t : Table Text ℕ) : Type 0 where
    pub counted : t.inserting < u32_mod
    pub fits : growth.too_full (succ_u32 t.e_count) t.hash_size ≡ false

  -- `t'` finds `id` at the name `s`, unless it is empty, and elsewhere what `t` finds.
  abbrev pub IsNamed : Text → ℕ → Table Text ℕ → Table Text ℕ → Type 0
  IsNamed s id t t' =
      (k : Text) → look H t' k ≡ (if not (is_empty s) && key.equal s k then some id else look H t k)

  look-none : (t : Table Text ℕ) (k : Text) → look H t k ≡ none → priv_get H t k ≡ none
  unfolding look
  look-none t k e = ground (arith, e)

  look-some :
      (t : Table Text ℕ) (k : Text) (id : ℕ)
      → look H t k ≡ some id
      → (e : Elem Text ℕ) × (priv_get H t k ≡ some e) × (e.val ≡ id)
  unfolding look
  look-some t k id e = elim (Option-cases (priv_get H t k)) [
    | inl n ↦
        let lost : none ≡ some id =
          ap (λ (o : Option (Elem Text ℕ)). elim o [ none ↦ none | some x ↦ some x.val ]) (sym n)
          ∙ e in
        cc
    | inr (x, p) ↦ (x, p, ground (arith, e, p))
  ]

  val_of : Option (Elem Text ℕ) → Option ℕ
  val_of o = elim o [ none ↦ none | some e ↦ some e.val ]

  pick :
      (b : Bool) (e : Elem Text ℕ) (id : ℕ) (o : Option (Elem Text ℕ))
      → e.val ≡ id
      → val_of (if b then some e else o) ≡ (if b then some id else val_of o)
  unfolding val_of
  pick true e id o h = ap some h
  pick false e id o h = refl

  add-look_up :
      (fuel : ℕ) (t : Table Text ℕ) (k : Text) (id : ℕ)
      → AtRest H t
      → Room t
      → look H t k ≡ none
      → (t' : Table Text ℕ) × (add (chain_methods H) growth fuel t k id ≡ some (t'.e_count, t'))
        × AtRest H t'
        × ((k' : Text) → look H t' k' ≡ (if key.equal k k' then some id else look H t k'))
  unfolding chain_laws look val_of
  add-look_up fuel t k id r room new =
      let (t', run, good, a) =
        add-look (chain_methods H) (chain_laws H) t r.good r.good.live r.growing r.clearing growth
          fuel k id (look-none t k new) room.counted room.fits in
      (
        t',
        run,
        record {
          good = good;
          growing = a.kept.growing ∙ r.growing;
          clearing = a.kept.clearing ∙ r.clearing;
        },
        λ k'. ap (val_of) (a.looks k') ∙ pick (key.equal k k') a.new id (priv_get H t k') a.has.1,
      )

  -- What the hash has at a name; an empty name is none.
  abbrev pub named_at : Table Text ℕ → Text → Option ℕ
  named_at t [] = none
  named_at t (c ∷ s) = look H t (c ∷ s)

  abbrev pub nothing : Option ℕ → Bool
  nothing none = true
  nothing (some id) = false

  pub is_new-named_at :
      (t : Table Text ℕ) (k : Text) → AtRest H t → is_new H t k ≡ some (nothing (named_at t k))
  unfolding is_new chain_laws look
  is_new-named_at t [] r = refl
  is_new-named_at t (c ∷ s) r = ground (
    arith,
    exists-look (chain_methods H) (chain_laws H) t r.good r.good.live r.growing r.clearing (c ∷ s),
  )

  -- What `enter` leaves: the two names are in their hashes, and nothing else is changed.
  pub record Entered {V : Type 0} (id : ℕ) (short long : Text) (h h' : Handler V) : Type 0 where
    pub in_short : IsNamed short id h.short_args h'.short_args
    pub in_long : IsNamed long id h.long_args h'.long_args
    pub ready : Ready H h'
    pub same : h' ≡ (record h { short_args = h'.short_args; long_args = h'.long_args })

  module _ {V : Type 0} (fuel : ℕ) where
    none-Entered : (id : ℕ) (h : Handler V) → Ready H h → Entered id [] [] h h
    none-Entered id h r = record {
      in_short = λ k. refl;
      in_long = λ k. refl;
      ready = r;
      same = refl;
    }

    short-Entered :
        (id c : ℕ) (s : Text) (h : Handler V)
        → Ready H h
        → (t : Table Text ℕ) → AtRest H t
        → ((k : Text)
            → look H t k ≡ (if key.equal (c ∷ s) k then some id else look H h.short_args k))
        → Entered id (c ∷ s) [] h (record h { short_args = t })
    short-Entered id c s h r t rest looks = record {
      in_short = looks;
      in_long = λ k. refl;
      ready = record { short = rest; long = r.long };
      same = refl;
    }

    short_only :
        (id : ℕ) (short : Text) (h : Handler V)
        → Ready H h
        → Room h.short_args
        → named_at h.short_args short ≡ none
        → (h' : Handler V) × (add_short H growth fuel id short h ≡ some h')
          × Entered id short [] h h'
    short_only id [] h r room new = (h, refl, none-Entered id h r)
    short_only id (c ∷ s) h r room new =
        let (t', run, rest, looks) = add-look_up fuel h.short_args (c ∷ s) id r.short room new in
        (record h { short_args = t' }, (rw run refl), short-Entered id c s h r t' rest looks)

    copied :
        (id : ℕ) (short long : Text) (h : Handler V)
        → Ready H h
        → Room h.short_args
        → named_at h.short_args short ≡ none
        → look H h.long_args long ≡ some id
        → (h' : Handler V) × (add_copy H growth fuel long short h ≡ some h')
          × Entered id short [] h h'
    unfolding add_elem chain_laws
    copied id [] long h r room new known = (h, refl, none-Entered id h r)
    copied id (c ∷ s) long h r room new known =
        let (e, found, same) = look-some h.long_args long id known in
        let got =
          get-look (chain_methods H) (chain_laws H) h.long_args r.long.good r.long.good.live
            r.long.growing r.long.clearing long in
        let (t', run, rest, looks) = add-look_up fuel h.short_args (c ∷ s) e.val r.short room new in
        (
          record h { short_args = t' },
          (rw (got, found, run) refl),
          short-Entered id c s h r t' rest (λ k.
              looks k
              ∙ ap (λ i. if key.equal (c ∷ s) k then some i else look H h.short_args k) same),
        )

    pub enter-Entered :
        (id : ℕ) (short long : Text) (h : Handler V)
        → Ready H h
        → Room h.short_args
        → Room h.long_args
        → named_at h.short_args short ≡ none
        → named_at h.long_args long ≡ none
        → (h' : Handler V) × (enter H growth fuel id short long h ≡ some h')
          × Entered id short long h h'
    unfolding enter
    enter-Entered id short [] h r rs rl ns nl = short_only id short h r rs ns
    enter-Entered id short (c ∷ s) h r rs rl ns nl =
        let (t', run, rest, looks) = add-look_up fuel h.long_args (c ∷ s) id r.long rl nl in
        let h₁ = record h { long_args = t' } in
        let itself : key.equal (c ∷ s) (c ∷ s) ≡ true = (key.equal_iff _ _).1 refl in
        let known : look H t' (c ∷ s) ≡ some id =
          looks (c ∷ s)
          ∙ ap (λ (b : Bool). if b then some id else look H h.long_args (c ∷ s)) itself in
        let (h', run', f) =
          copied id short (c ∷ s) h₁ (record { short = r.short; long = rest }) rs ns known in
        (
          h',
          (rw run run'),
          record {
            in_short = f.in_short;
            in_long = λ k. f.in_long k ∙ looks k;
            ready = f.ready;
            same = f.same;
          },
        )
