-- ===== src/ArgHandler/Total.antt =====
-- arg_handler/CArgHandler::parseArgs: which runs return, what the handler is afterwards, and which have
-- no result.
use pwxlib.Base.{
  ℕ, zero, suc, ◌+◌, ◌≡◌, refl, ap, ◌∙◌, sym, Bool, true, false, ◌&&◌, ◌||◌, List, [], ◌∷◌, ◌++◌,
  Option, none, some, Option-cases, ◌≢◌, Bool-cases, inl, inr, ◌⊎◌, arith, ◌==◌, length,
  if◌then◌else◌,
}
use mathlib.Core.List.{append-nil}
use pwxlib.Hash.{Key, Elem, Table}
use pwxlib.Hash.Stepping.{Hashing}
use pwxlib.Hash.Public.{busy, wait_for_clear_and_grow, get_by_index}
use pwxlib.Hash.Public.Whole.{size}
use pwxlib.ArgHandler.{Text, Handler, needs_parameter, is_empty}
use pwxlib.ArgHandler.Queue.{pop, clear_queue}
use pwxlib.ArgHandler.Process.{proc_target}
use pwxlib.ArgHandler.Parse.{
  Queues, take_param, param_ptr, run_args, place_param, run_params, walk_chain, walk_places,
  check_short, check_long, check_mandatory, is_missing, pass_through, pass_rest, later_steps,
  parse_rest, parse_args, call_name,
}
use pwxlib.ArgHandler.Lookup.{AtRest, Ready, find_target}
use pwxlib.ArgHandler.Collect.{
  Sort, names, nothing, param, unknown, cluster, sort_of, is_cluster, any_cluster, each, named,
  params, errors, front, back, with_errors, collect-each,
}
use pwxlib.ArgHandler.Frame.{Framed, Framed-refl, Framed-trans, push_error-Framed}

-- Whether an argument is queued, or a cluster.
abbrev pub is_queued : Sort → Bool
is_queued (names id) = true
is_queued (param a) = true
is_queued cluster = true
is_queued other = false

abbrev pub any_queued : (Text → Option ℕ) → List Text → Bool
any_queued look [] = false
any_queued look (a ∷ args) = is_queued (sort_of look a) || any_queued look args

Sort-quiet :
    (s : Sort) → is_queued s ≡ false → (is_cluster s ≡ false) × (named s ≡ []) × (params s ≡ [])
Sort-quiet (names id) q = absurd (ground (arith, q))
Sort-quiet (param a) q = absurd (ground (arith, q))
Sort-quiet cluster q = absurd (ground (arith, q))
Sort-quiet nothing q = (refl, refl, refl)
Sort-quiet (unknown a) q = (refl, refl, refl)

quiet_all :
    (look : Text → Option ℕ) (args : List Text)
    → any_queued look args ≡ false
    → (any_cluster look args ≡ false) × (each named look args ≡ []) × (each params look args ≡ [])
quiet_all look [] q = (refl, refl, refl)
quiet_all look (a ∷ args) q =
    let first : is_queued (sort_of look a) ≡ false = ground (arith, q) in
    let (c, n, p) = Sort-quiet (sort_of look a) first in
    let (c', n', p') = quiet_all look args (ground (arith, q)) in
    ((rw (c, c') refl), (rw (n, n') refl), (rw (p, p') refl))

cons≢nil : {A : Type 0} (a : A) (as' : List A) → (a ∷ as') ≢ []
cons≢nil a as' h = cc

full_one :
    (s : Sort) (ns : List ℕ) (ps : List Text)
    → is_cluster s ≡ false
    → (is_queued s ≡ true) ⊎ ((ns ≢ []) ⊎ (ps ≢ []))
    → (named s ++ ns ≢ []) ⊎ (params s ++ ps ≢ [])
full_one (names id) ns ps c q = inl (cons≢nil id ns)
full_one (param a) ns ps c q = inr (cons≢nil a ps)
full_one cluster ns ps c q = absurd (ground (arith, c))
full_one nothing ns ps c (inl q) = absurd (ground (arith, q))
full_one nothing ns ps c (inr later) = later
full_one (unknown a) ns ps c (inl q) = absurd (ground (arith, q))
full_one (unknown a) ns ps c (inr later) = later

full_all :
    (look : Text → Option ℕ) (args : List Text)
    → any_cluster look args ≡ false
    → any_queued look args ≡ true
    → (each named look args ≢ []) ⊎ (each params look args ≢ [])
full_all look [] c q = absurd (ground (arith, q))
full_all look (a ∷ args) c q =
    let s = sort_of look a in
    let ns = each named look args in
    let ps = each params look args in
    let none_here : is_cluster s ≡ false = ground (arith, c) in
    elim (Bool-cases (is_queued s)) [
      | inl here ↦ full_one s ns ps none_here (inl here)
      | inr out ↦
          let later = full_all look args (ground (arith, c)) (ground (arith, q, out)) in
          full_one s ns ps none_here (inr later)
    ]

abbrev none_queued : Queues
none_queued = record { arg_queue = []; param_queue = [] }

module _ ⦃key : Key Text⦄ (H : Hashing) where
  pub size-AtRest : (t : Table Text ℕ) → AtRest H t → size t ≡ some t.e_count
  unfolding size wait_for_clear_and_grow
  size-AtRest t r =
      let idle : (busy t.growing || busy t.clearing) ≡ false =
        ground (arith, r.growing, r.clearing) in
      rw idle refl

module _ {V : Type 0} where
  -- A queue that holds anything is popped until it is empty.
  run_args-none :
      (ids : List ℕ) (id : ℕ) (ps : List Text) (h : Handler V) → run_args (id ∷ ids) ps h ≡ none
  unfolding run_args pop
  run_args-none [] id ps h = refl
  run_args-none (j ∷ ids) id ps h =
      elim (Option-cases (take_param (needs_parameter (h.targets id)) ps)) [
        | inl e ↦ rw e refl
        | inr ((p, ps'), e) ↦ elim (Option-cases (proc_target id (param_ptr p) h)) [
          | inl f ↦ rw (e, f) refl
          | inr (h', f) ↦ rw (e, f) (run_args-none ids j ps' h')
        ]
      ]

  run_params-none : (ps : List Text) (p : Text) (h : Handler V) → run_params (p ∷ ps) h ≡ none
  unfolding run_params pop
  run_params-none [] p h = refl
  run_params-none (p' ∷ ps) p h = elim (Option-cases (place_param p h)) [
    | inl e ↦ rw e refl
    | inr (h', e) ↦ rw e (run_params-none ps p' h')
  ]

  pub walk_chain-Framed :
      (f : Handler V → Elem Text ℕ → Handler V)
      → ((h : Handler V) (e : Elem Text ℕ) → Framed h (f h e))
      → (es : List (Elem Text ℕ)) (h : Handler V) → Framed h (walk_chain f es h)
  walk_chain-Framed f fr [] h = Framed-refl h
  walk_chain-Framed f fr (e ∷ es) h = Framed-trans (fr h e) (walk_chain-Framed f fr es (f h e))

  pub walk_places-Framed :
      (f : Handler V → Elem Text ℕ → Handler V)
      → ((h : Handler V) (e : Elem Text ℕ) → Framed h (f h e))
      → (t : Table Text ℕ) (n i : ℕ) (h : Handler V) → Framed h (walk_places f t n i h)
  unfolding walk_places
  walk_places-Framed f fr t zero i h = Framed-refl h
  walk_places-Framed f fr t (suc n) i h =
      let es = get_by_index t i in
      Framed-trans (walk_chain-Framed f fr es h)
        (walk_places-Framed f fr t n (i + 1) (walk_chain f es h))

  pub check_short-Framed : (h : Handler V) (e : Elem Text ℕ) → Framed h (check_short h e)
  check_short-Framed h e = elim (Bool-cases (is_missing (h.targets e.val))) [
    | inl m ↦ rw m (push_error-Framed _ _ h)
    | inr m ↦ rw m (Framed-refl h)
  ]

  pub check_long-Framed : (h : Handler V) (e : Elem Text ℕ) → Framed h (check_long h e)
  check_long-Framed h e =
      let t = h.targets e.val in
      elim (Bool-cases (is_empty t.arg_short && is_missing t)) [
        | inl m ↦ rw m (push_error-Framed _ _ h)
        | inr m ↦ rw m (Framed-refl h)
      ]

  module _ ⦃key : Key Text⦄ (H : Hashing) where
    pub Framed-Ready : {h h' : Handler V} → Framed h h' → Ready H h → Ready H h'
    Framed-Ready f r = record { short = rw f.short r.short; long = rw f.long r.long }

    pub check_mandatory-Framed :
        (h : Handler V) → Ready H h → (h' : Handler V) × (check_mandatory h ≡ some h') × Framed h h'
    unfolding check_mandatory
    check_mandatory-Framed h r =
        let h₁ = walk_places check_short h.short_args h.short_args.e_count 0 h in
        let f₁ =
          walk_places-Framed check_short check_short-Framed h.short_args h.short_args.e_count 0 h in
        let r₁ = Framed-Ready f₁ r in
        let f₂ =
          walk_places-Framed check_long check_long-Framed h₁.long_args h₁.long_args.e_count 0 h₁ in
        (
          walk_places check_long h₁.long_args h₁.long_args.e_count 0 h₁,
          (rw (size-AtRest H h.short_args r.short, size-AtRest H h₁.long_args r₁.long) refl),
          Framed-trans f₁ f₂,
        )

  set_passed :
      (h : Handler V) (args : List (Option Text)) → Framed h (record h { passed = some args })
  set_passed h args = record {
    short = refl;
    long = refl;
    pos = refl;
    init = refl;
    pass = refl;
    fixed = λ id. refl;
    added = [];
    grown = sym (append-nil h.errlist);
  }

  pass_rest-Framed :
      (rest : List (Option Text)) (h : Handler V)
      → (h.has_pass_args ≡ true) ⊎ (rest ≡ [])
      → (h' : Handler V) × (pass_rest rest h ≡ some h') × Framed h h'
  unfolding pass_through
  pass_rest-Framed [] h ok = (h, refl, Framed-refl h)
  pass_rest-Framed (end ∷ args) h ok = elim (Bool-cases (length h.errlist == 0)) [
    | inl e ↦ rw e (passed args ok)
    | inr e ↦ rw e (h, refl, Framed-refl h)
  ]
    where
      given : (h.has_pass_args ≡ true) ⊎ (end ∷ args ≡ []) → h.has_pass_args ≡ true
      given (inl e) = e
      given (inr e) = cc

      passed :
          (args' : List (Option Text))
          → (h.has_pass_args ≡ true) ⊎ (end ∷ args ≡ [])
          → (h' : Handler V) × (pass_through args' h ≡ some h') × Framed h h'
      passed [] ok = (h, refl, Framed-refl h)
      passed (a ∷ as') ok =
          let h' = record h { passed = some (a ∷ as') } in
          (h', ap (λ (b : Bool). if b then some h' else none) (given ok), set_passed h (a ∷ as'))

  module _ ⦃key : Key Text⦄ (H : Hashing) where
    -- The handler when the parser starts, with the errors of step 1 in it.
    abbrev pub started : Option Text → Handler V → Handler V
    started first h = record h { errlist = []; prg_call = call_name h.prg_call first }

    -- The arguments that the parser reads, their targets and their parameters.
    abbrev pub read : Handler V → List (Option Text) → List Text
    read h args = front h.pass_init args

    abbrev pub look_up : Handler V → Text → Option ℕ
    look_up h a = find_target H h.short_args h.long_args a

    abbrev pub needs_of : Handler V → ℕ → Bool
    needs_of h id = needs_parameter (h.targets id)

    later_steps-none :
        (ids : List ℕ) (ps : List Text) (rest : List (Option Text)) (h : Handler V)
        → (ids ≢ []) ⊎ (ps ≢ [])
        → later_steps (record { arg_queue = ids; param_queue = ps }) rest h ≡ none
    unfolding later_steps run_args
    later_steps-none (id ∷ ids) ps rest h some_left = rw (run_args-none ids id ps h) refl
    later_steps-none [] (p ∷ ps) rest h some_left = rw (run_params-none ps p h) refl
    later_steps-none [] [] rest h (inl full) = absurd (full refl)
    later_steps-none [] [] rest h (inr full) = absurd (full refl)

    later_steps-Framed :
        (rest : List (Option Text)) (h : Handler V)
        → Ready H h
        → (h.has_pass_args ≡ true) ⊎ (rest ≡ [])
        → (h' : Handler V) × (later_steps none_queued rest h ≡ some (length h'.errlist, h'))
          × Framed h h'
    unfolding later_steps run_args run_params
    later_steps-Framed rest h r ok =
        let (h₁, run₁, f₁) = check_mandatory-Framed H h r in
        let ok₁ : (h₁.has_pass_args ≡ true) ⊎ (rest ≡ []) = elim ok [
          | inl e ↦ inl (f₁.pass ∙ e)
          | inr e ↦ inr e
        ] in
        let (h₂, run₂, f₂) = pass_rest-Framed rest h₁ ok₁ in
        (h₂, (rw (run₁, run₂) refl), Framed-trans f₁ f₂)

    -- `parseArgs` on `argv` with a second pointer that is not null, of a handler whose two hashes
    -- are well-formed maps at rest, which has no errors from before, and which has been told where
    -- to pass arguments to, unless none is left over, returns the number of errors, if none of the
    -- arguments that it reads names a target, starts a cluster with the name of one, or is a
    -- parameter; the hashes, the positional queue, all of each target but its two flags, and
    -- `pass_init` are as before; the errors are those of the arguments that start with a dash and
    -- name nothing, in their order, and then others.
    pub parse_args-returns :
        (first : Option Text) (arg : Text) (args : List (Option Text)) (h : Handler V)
        → Ready H h
        → h.errlist ≡ []
        → any_queued (look_up h) (read h (some arg ∷ args)) ≡ false
        → (h.has_pass_args ≡ true) ⊎ (back h.pass_init (some arg ∷ args) ≡ [])
        → (h' : Handler V) × (parse_args H (first ∷ some arg ∷ args) h
            ≡ some (length h'.errlist, h'))
          × Framed
              (with_errors (each errors (look_up h) (read h (some arg ∷ args))) (started first h))
              h'
    unfolding parse_args parse_rest clear_queue
    parse_args-returns first arg args h r e quiet ok =
        let all = read h (some arg ∷ args) in
        let (no_cluster, no_names, no_params) = quiet_all (look_up h) all quiet in
        let h₀ = started first h in
        let r₀ : Ready H h₀ = record { short = r.short; long = r.long } in
        let h₁ = with_errors (each errors (look_up h) all) h₀ in
        let (h', run, f) =
          later_steps-Framed (back h.pass_init (some arg ∷ args)) h₁
            (record { short = r.short; long = r.long }) ok in
        (
          h',
          (rw
              (
                e,
                collect-each H (some arg ∷ args) none_queued h₀ r₀,
                no_cluster,
                no_names,
                no_params,
              )
              run),
          f,
        )

    -- `parseArgs` of a handler whose two hashes are well-formed maps at rest has no result, if
    -- among the arguments that it reads is one that names a target, starts a cluster with the name
    -- of one, or is a parameter: the queue that it went into, when its last element is popped, or
    -- the cluster's, when it is cleared, dereferences a null pointer.
    pub parse_args-queued :
        (first : Option Text) (arg : Text) (args : List (Option Text)) (h : Handler V)
        → Ready H h
        → any_queued (look_up h) (read h (some arg ∷ args)) ≡ true
        → parse_args H (first ∷ some arg ∷ args) h ≡ none
    unfolding parse_args parse_rest
    parse_args-queued first arg args h r full = elim (Option-cases (clear_queue h.errlist)) [
      | inl e ↦ rw e refl
      | inr (errlist', e) ↦
          let h₀ = record h { errlist = errlist'; prg_call = call_name h.prg_call first } in
          let r₀ : Ready H h₀ = record { short = r.short; long = r.long } in
          let all = read h (some arg ∷ args) in
          elim (Bool-cases (any_cluster (look_up h) all)) [
            | inl c ↦ rw (e, collect-each H (some arg ∷ args) none_queued h₀ r₀, c) refl
            | inr c ↦
                rw (e, collect-each H (some arg ∷ args) none_queued h₀ r₀, c)
                  (later_steps-none _ _ _ _ (full_all (look_up h) all c full))
          ]
    ]
