-- ===== src/ArgHandler/Collect.antt =====
-- arg_handler/CArgHandler::parseArgs, step 1: what becomes of each argument.
use pwxlib.Base.{
  ℕ, ◌≡◌, ◌||◌, ◌>>=◌, Bool, true, false, refl, ◌∙◌, List, [], ◌∷◌, ◌++◌, Option, none, some,
  length, Option-cases, Bool-cases, inl, inr, ◌==◌, if◌then◌else◌,
}
use mathlib.Core.List.{append-nil, append_assoc}
use pwxlib.Hash.{Key}
use pwxlib.Hash.Stepping.{Hashing}
use pwxlib.ArgHandler.{Text, Handler, ArgError, aen_argument_unknown, unknown_argument}
use pwxlib.ArgHandler.Queue.{clear_queue}
use pwxlib.ArgHandler.Parse.{
  Queues, collect_arg, collect, is_not_init, dashes_of, after_dashes, sort_out,
}
use pwxlib.ArgHandler.Lookup.{
  Ready, find, get_target-find, uncombine-targets_of, targets_of, uncombined, uncombined_first,
}

-- What an argument is: the name of a target, nothing but dashes, a parameter, nothing known, or a
-- cluster whose first character names a target.
pub data Sort : Type 0 where
  names : ℕ → Sort
  nothing : Sort
  param : Text → Sort
  unknown : Text → Sort
  cluster : Sort

-- An argument whose first character behind the dashes names nothing is told by its dashes.
abbrev pub sort_of_first : Text → Option ℕ → Sort
sort_of_first a none = if length (dashes_of a) == 0 then param a else unknown a
sort_of_first a (some id) = cluster

abbrev pub sort_of_rest : (Text → Option ℕ) → Text → Text → Sort
sort_of_rest look a [] = nothing
sort_of_rest look a (c ∷ s) = sort_of_first a (look (dashes_of a ++ (c ∷ [])))

abbrev pub sort_by : (Text → Option ℕ) → Text → Option ℕ → Sort
sort_by look a (some id) = names id
sort_by look a none = sort_of_rest look a (after_dashes a)

abbrev pub sort_of : (Text → Option ℕ) → Text → Sort
sort_of look a = sort_by look a (look a)

abbrev pub named : Sort → List ℕ
named (names id) = id ∷ []
named other = []

abbrev pub params : Sort → List Text
params (param a) = a ∷ []
params other = []

abbrev pub errors : Sort → List ArgError
errors (unknown a) =
    record { arg_errno = aen_argument_unknown; arg_error = unknown_argument a } ∷ []
errors other = []

abbrev pub is_cluster : Sort → Bool
is_cluster cluster = true
is_cluster other = false

-- Whether one of the arguments is such a cluster.
abbrev pub any_cluster : (Text → Option ℕ) → List Text → Bool
any_cluster look [] = false
any_cluster look (a ∷ args) = is_cluster (sort_of look a) || any_cluster look args

-- What a list of arguments gives, in its order.
abbrev pub each : {A : Type 0} → (Sort → List A) → (Text → Option ℕ) → List Text → List A
each f find [] = []
each f find (a ∷ args) = f (sort_of find a) ++ each f find args

-- The arguments in front of the one that ends the loop, and those from it on.
abbrev pub front : ⦃key : Key Text⦄ → Option Text → List (Option Text) → List Text
front init [] = []
front init (none ∷ args) = []
front init (some a ∷ args) = if is_not_init a init then a ∷ front init args else []

abbrev pub back : ⦃key : Key Text⦄ → Option Text → List (Option Text) → List (Option Text)
back init [] = []
back init (none ∷ args) = none ∷ args
back init (some a ∷ args) = if is_not_init a init then back init args else some a ∷ args

-- What sorting an argument does to the queues and to the errors.
abbrev pub queued : (Text → Option ℕ) → List Text → Queues → Queues
queued look args q = record {
  arg_queue = q.arg_queue ++ each named look args;
  param_queue = q.param_queue ++ each params look args;
}

abbrev queued_one : Sort → Queues → Queues
queued_one s q = record {
  arg_queue = q.arg_queue ++ named s;
  param_queue = q.param_queue ++ params s;
}

module _ {V : Type 0} where
  abbrev pub with_errors : List ArgError → Handler V → Handler V
  with_errors es h = record h { errlist = h.errlist ++ es }

  abbrev sorted : Sort → Queues → Handler V → Option (Queues × Handler V)
  sorted s q h = if is_cluster s then none else some (queued_one s q, with_errors (errors s) h)

  -- What is done with an argument that is no target's name.
  abbrev rest_sorted :
      (Text → Option ℕ) → Text → Text → Queues → Handler V → Option (Queues × Handler V)
  rest_sorted look a rest q h = do
    (all_found, ids) ← uncombined look (dashes_of a) rest
    sort_out a (all_found, ids, length (dashes_of a)) q h

  sort_out-found :
      (a : Text) (id n : ℕ) (o : Option (List ℕ)) (q : Queues) (h : Handler V)
      → (do (all_found, ids) ← uncombined_first (some id) o; sort_out a (all_found, ids, n) q h)
        ≡ none
  unfolding clear_queue
  sort_out-found a id n none q h = refl
  sort_out-found a id n (some ids) q h = refl

  regrouped :
      (a : Text) (n : ℕ) (o : Option (Bool × List ℕ)) (q : Queues) (h : Handler V)
      → (do r ← (do (all_found, ids) ← o; some (all_found, ids, n)); sort_out a r q h)
        ≡ (do (all_found, ids) ← o; sort_out a (all_found, ids, n) q h)
  regrouped a n none q h = refl
  regrouped a n (some (all_found, ids)) q h = refl

  sort_out-sort_of :
      (look : Text → Option ℕ) (a rest : Text) (q : Queues) (h : Handler V)
      → rest_sorted look a rest q h ≡ sorted (sort_of_rest look a rest) q h
  unfolding clear_queue
  sort_out-sort_of look a [] q h =
      let same_args = append-nil q.arg_queue in
      let same_params = append-nil q.param_queue in
      let same_errors = append-nil h.errlist in rw (same_args, same_params, same_errors) refl
  sort_out-sort_of look a (c ∷ s) q h = elim (Option-cases (look (dashes_of a ++ (c ∷ [])))) [
    | inr (id, e) ↦
        rw e (sort_out-found a id (length (dashes_of a)) (targets_of look (dashes_of a) s) q h)
    | inl e ↦
        let same_args = append-nil q.arg_queue in
        let same_params = append-nil q.param_queue in
        let same_errors = append-nil h.errlist in
        elim (Bool-cases (length (dashes_of a) == 0)) [
          | inl z ↦ rw (e, z, same_args, same_errors) refl
          | inr z ↦ rw (e, z, same_args, same_params) refl
        ]
  ]

  -- The result of step 1.
  abbrev result :
      Queues → Handler V → List (Option Text) → Option (Queues × Handler V × List (Option Text))
  result q h rest = some (q, h, rest)

  no_more :
      (q : Queues) (h : Handler V) (rest : List (Option Text))
      → result q h rest
        ≡ result
            (record { arg_queue = q.arg_queue ++ []; param_queue = q.param_queue ++ [] })
            (with_errors [] h)
            rest
  no_more q h rest =
      let same_args = append-nil q.arg_queue in
      let same_params = append-nil q.param_queue in
      let same_errors = append-nil h.errlist in rw (same_args, same_params, same_errors) refl

  later :
      (s : Sort) (args : List Text) (rest : List (Option Text)) (look : Text → Option ℕ)
      (q : Queues) (h : Handler V)
      → result
          (queued look args (queued_one s q))
          (with_errors (each errors look args) (with_errors (errors s) h))
          rest
        ≡ result
            (record {
              arg_queue = q.arg_queue ++ (named s ++ each named look args);
              param_queue = q.param_queue ++ (params s ++ each params look args);
            })
            (with_errors (errors s ++ each errors look args) h)
            rest
  later s args rest look q h =
      let a = append_assoc q.arg_queue (named s) (each named look args) in
      let p = append_assoc q.param_queue (params s) (each params look args) in
      let e = append_assoc h.errlist (errors s) (each errors look args) in rw (a, p, e) refl

  module _ ⦃key : Key Text⦄ (H : Hashing) where
    collect_arg-sort_of :
        (h : Handler V) (r : Ready H h) (a : Text) (q : Queues)
        → collect_arg H a q h ≡ sorted (sort_of (find H h r) a) q h
    unfolding collect_arg
    collect_arg-sort_of h r a q =
        let found = get_target-find H h r a in
        let combined = uncombine-targets_of H h r a in
        let rest = sort_out-sort_of (find H h r) a (after_dashes a) q h in
        elim (Option-cases (find H h r a)) [
          | inl e ↦
              rw (found, e, combined)
                (regrouped a (length (dashes_of a))
                    (uncombined (find H h r) (dashes_of a) (after_dashes a)) q h
                  ∙ rest)
          | inr (id, e) ↦
              let same_params = append-nil q.param_queue in
              let same_errors = append-nil h.errlist in rw (found, e, same_params, same_errors) refl
        ]

    -- Step 1 of `parseArgs`, on a handler whose two hashes are well-formed maps at rest: if one of
    -- the arguments up to the one that ends it is a cluster whose first character names a target,
    -- it has no result, since the cluster's queue is cleared; else it returns, and each of these
    -- arguments is one of four: it names a target, which is queued in order; or it is nothing but
    -- dashes and left out; or it starts with no dash and is queued as a parameter; or it gives one
    -- error. Nothing else of the handler changes.
    pub collect-each :
        (args : List (Option Text)) (q : Queues) (h : Handler V) (r : Ready H h)
        → collect H args q h ≡ (
            if any_cluster (find H h r) (front h.pass_init args)
            then none
            else some (
              queued (find H h r) (front h.pass_init args) q,
              with_errors (each errors (find H h r) (front h.pass_init args)) h,
              back h.pass_init args,
            ))
    unfolding collect
    collect-each [] q h r = no_more q h []
    collect-each (none ∷ args) q h r = no_more q h (none ∷ args)
    collect-each (some a ∷ args) q h r = elim (Bool-cases (is_not_init a h.pass_init)) [
      | inr e ↦ rw (e, collect) (no_more q h (some a ∷ args))
      | inl e ↦
          let s = sort_of (find H h r) a in
          let more = front h.pass_init args in
          elim (Bool-cases (is_cluster s)) [
            | inl stuck ↦ rw (e, collect, collect_arg-sort_of h r a q, stuck) refl
            | inr fine ↦
                let ih =
                  collect-each args (queued_one s q) (with_errors (errors s) h)
                    (record { short = r.short; long = r.long }) in
                elim (Bool-cases (any_cluster (find H h r) more)) [
                  | inl c ↦ rw (e, collect, collect_arg-sort_of h r a q, fine, c) (ih ∙ rw c refl)
                  | inr c ↦
                      rw (e, collect, collect_arg-sort_of h r a q, fine, c)
                        (ih ∙ (rw c (later s more (back h.pass_init args) (find H h r) q h)))
                ]
          ]
    ]
