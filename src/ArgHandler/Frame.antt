-- ===== src/ArgHandler/Frame.antt =====
-- arg_handler/TArgTarget and CArgHandler::procTarget: processing a target returns, and what of the
-- handler it leaves alone.
use pwxlib.Base.{
  ℕ, ◌≡◌, refl, ap, ◌∙◌, sym, Bool, true, false, ◌&&◌, List, [], ◌∷◌, ◌++◌, Option, none, some,
  Bool-cases, Option-cases, inl, inr, ◌⊎◌, ◌>>=◌, ◌==◌, ==_iff,
}
use mathlib.Core.List.{append-nil, append_assoc}
use mathlib.Core.Bool.{false≢true}
use pwxlib.ArgHandler.{
  Text, is_empty, Handler, Target, ArgError, ErrorNumber, aen_ok, aen_argument_unknown,
  aen_param_type_mismatch, aen_parameter_missing, aen_processing_error, aen_multiple_set_param,
  aen_mandatory_missing, Message, Exception, Number, Template, number, string, TargetType,
  att_false, att_true, att_add, att_inc, att_sub, att_dec, att_set, att_cb, copy_target, put_target,
  write, push_error, mark_got, mark_processed, needs_parameter, name_of,
}
use pwxlib.ArgHandler.Process.{
  strempty, not_repeated, process_cb, set_once, switch_number, value_of, mark_done, finish,
  process_number, assign_text, process_text, process, report, proc_target,
}

module _ {V : Type 0} where
  -- What no processing changes; the errors only grow, by `added`. `copy_target` takes the two flags
  -- of a target away.
  pub record Framed (h h' : Handler V) : Type 0 where
    pub short : h'.short_args ≡ h.short_args
    pub long : h'.long_args ≡ h.long_args
    pub pos : h'.pos_queue ≡ h.pos_queue
    pub init : h'.pass_init ≡ h.pass_init
    pub pass : h'.has_pass_args ≡ h.has_pass_args
    pub fixed : (id : ℕ) → copy_target (h'.targets id) ≡ copy_target (h.targets id)
    pub added : List ArgError
    pub grown : h'.errlist ≡ h.errlist ++ added

  pub Framed-refl : (h : Handler V) → Framed h h
  Framed-refl h = record {
    short = refl;
    long = refl;
    pos = refl;
    init = refl;
    pass = refl;
    fixed = λ id. refl;
    added = [];
    grown = sym (append-nil h.errlist);
  }

  pub Framed-trans : {h h' h'' : Handler V} → Framed h h' → Framed h' h'' → Framed h h''
  Framed-trans {h} {h'} {h''} a b = record {
    short = b.short ∙ a.short;
    long = b.long ∙ a.long;
    pos = b.pos ∙ a.pos;
    init = b.init ∙ a.init;
    pass = b.pass ∙ a.pass;
    fixed = λ id. b.fixed id ∙ a.fixed id;
    added = a.added ++ b.added;
    grown = b.grown ∙ ap (λ l. l ++ b.added) a.grown ∙ append_assoc h.errlist a.added b.added;
  }

  put_target-fixed :
      (id : ℕ) (t : Target V) (h : Handler V)
      → copy_target t ≡ copy_target (h.targets id)
      → (j : ℕ) → copy_target ((put_target id t h).targets j) ≡ copy_target (h.targets j)
  put_target-fixed id t h same j = elim (Bool-cases (j == id)) [
    | inl e ↦ rw (e, (==_iff j id).0 e) same
    | inr e ↦ rw e refl
  ]

  -- Other targets, variables and calls.
  pub moved :
      (h : Handler V) (targets : ℕ → Target V) (memory : ℕ → V) (calls : List (Text × Text))
      → ((id : ℕ) → copy_target (targets id) ≡ copy_target (h.targets id))
      → Framed h (record h { targets = targets; memory = memory; calls = calls })
  moved h targets memory calls same = record {
    short = refl;
    long = refl;
    pos = refl;
    init = refl;
    pass = refl;
    fixed = same;
    added = [];
    grown = sym (append-nil h.errlist);
  }

  -- New flags for a target.
  pub put_target-Framed :
      (id : ℕ) (t : Target V) (h : Handler V)
      → copy_target t ≡ copy_target (h.targets id)
      → Framed h (put_target id t h)
  put_target-Framed id t h same = moved h _ h.memory h.calls (put_target-fixed id t h same)

  pub mark_got-Framed : (id : ℕ) (h : Handler V) → Framed h (mark_got id h)
  unfolding copy_target
  mark_got-Framed id h = put_target-Framed id _ h refl

  pub mark_processed-Framed : (id : ℕ) (h : Handler V) → Framed h (mark_processed id h)
  unfolding copy_target
  mark_processed-Framed id h = put_target-Framed id _ h refl

  pub write-Framed : (a : ℕ) (v : V) (h : Handler V) → Framed h (write a v h)
  write-Framed a v h = moved h h.targets _ h.calls (λ id. refl)

  pub push_error-Framed :
      (n : ErrorNumber) (m : Message) (h : Handler V) → Framed h (push_error n m h)
  push_error-Framed n m h = record {
    short = refl;
    long = refl;
    pos = refl;
    init = refl;
    pass = refl;
    fixed = λ id. refl;
    added = record { arg_errno = n; arg_error = m } ∷ [];
    grown = refl;
  }

  process_cb-Framed : (id : ℕ) (p : Option Text) (h : Handler V) → Framed h (process_cb id p h).1
  unfolding process_cb
  process_cb-Framed id p h = elim (Option-cases (h.targets id).arg_callback) [
    | inl e ↦ rw (e, process_cb) (Framed-refl h)
    | inr (f, e) ↦
        let name = name_of (h.targets id) in
        let called = record h { calls = (name, strempty p) ∷ h.calls } in
        let logged : Framed h called = moved h h.targets h.memory _ (λ j. refl) in
        elim (Bool-cases (f name (strempty p))) [
          | inl t ↦ rw (e, process_cb, t) logged
          | inr t ↦ elim (Bool-cases (is_empty (strempty p))) [
            | inl n ↦ rw (e, process_cb, t, n) logged
            | inr n ↦ rw (e, process_cb, t, n) (Framed-trans logged (mark_got-Framed id called))
          ]
        ]
  ]

  set_once-Framed : (id : ℕ) (h h' : Handler V) → Framed h h' → Framed h (set_once id h h').1
  set_once-Framed id h h' f =
      elim (Bool-cases (not_repeated (h.targets id).set_type && (h.targets id).got_parameter)) [
        | inl e ↦ rw e (Framed-refl h)
        | inr e ↦ rw e (Framed-trans f (mark_got-Framed id h'))
      ]

  switch_number-Framed :
      (n : Number V) (id a : ℕ) (v : V) (h : Handler V) → Framed h (switch_number n id a v h).1
  unfolding switch_number
  switch_number-Framed n id a v h = go (h.targets id).arg_type refl
    where
      go : (k : TargetType) → (h.targets id).arg_type ≡ k → Framed h (switch_number n id a v h).1
      go att_false e = rw (e, switch_number) (write-Framed a _ h)
      go att_true e = rw (e, switch_number) (write-Framed a _ h)
      go att_add e = rw (e, switch_number) (write-Framed a _ h)
      go att_inc e = rw (e, switch_number) (write-Framed a _ h)
      go att_sub e = rw (e, switch_number) (write-Framed a _ h)
      go att_dec e = rw (e, switch_number) (write-Framed a _ h)
      go att_set e = rw (e, switch_number) (set_once-Framed id h _ (write-Framed a v h))
      go att_cb e = rw (e, switch_number) (Framed-refl h)

  mark_done-Framed :
      (id : ℕ) (h : Handler V) (r : (Exception ⊎ ErrorNumber) × Handler V)
      → Framed h r.1
      → Framed h (mark_done id r).1
  mark_done-Framed id h (inr aen_ok, h') f = Framed-trans f (mark_processed-Framed id h')
  mark_done-Framed id h (inl x, h') f = f
  mark_done-Framed id h (inr aen_argument_unknown, h') f = f
  mark_done-Framed id h (inr aen_param_type_mismatch, h') f = f
  mark_done-Framed id h (inr aen_parameter_missing, h') f = f
  mark_done-Framed id h (inr aen_processing_error, h') f = f
  mark_done-Framed id h (inr aen_multiple_set_param, h') f = f
  mark_done-Framed id h (inr aen_mandatory_missing, h') f = f

  finish-Framed :
      (id : ℕ) (p : Option Text) (h : Handler V) (r : ErrorNumber × Handler V)
      → Framed h r.1
      → Framed h (finish id p r).1
  unfolding finish
  finish-Framed id p h (aen_ok, h') f =
      mark_done-Framed id h _ (Framed-trans f (process_cb-Framed id p h'))
  finish-Framed id p h (aen_argument_unknown, h') f = f
  finish-Framed id p h (aen_param_type_mismatch, h') f = f
  finish-Framed id p h (aen_parameter_missing, h') f = f
  finish-Framed id p h (aen_processing_error, h') f = f
  finish-Framed id p h (aen_multiple_set_param, h') f = f
  finish-Framed id p h (aen_mandatory_missing, h') f = f

  process_number-Framed :
      (n : Number V) (id : ℕ) (p : Option Text) (h : Handler V)
      → Framed h (process_number n id p h).1
  unfolding process_number
  process_number-Framed n id p h = elim (Option-cases (h.targets id).target) [
    | inl e ↦ rw (e, process_number) (finish-Framed id p h _ (Framed-refl h))
    | inr (a, e) ↦
        rw (e, process_number)
          (finish-Framed id p h _ (switch_number-Framed n id a (value_of n p) h))
  ]

  -- A target of `std::string` has a variable to set.
  abbrev pub can_assign : Template V → Option ℕ → Bool
  can_assign (number n) target = true
  can_assign (string f) none = false
  can_assign (string f) (some a) = true

  abbrev pub Sturdy : Handler V → Type 0
  Sturdy h = (id : ℕ) → can_assign (h.targets id).template (h.targets id).target ≡ true

  pub Framed-Sturdy : {h h' : Handler V} → Framed h h' → Sturdy h → Sturdy h'
  unfolding copy_target
  Framed-Sturdy {h} {h'} f s id =
      ap (λ (t : Target V). can_assign t.template t.target) (f.fixed id) ∙ s id

  pub Framed-needs :
      {h h' : Handler V}
      → Framed h h'
      → (id : ℕ) → needs_parameter (h'.targets id) ≡ needs_parameter (h.targets id)
  unfolding copy_target needs_parameter
  Framed-needs f id = ap needs_parameter (f.fixed id)

  -- A run that returns, and leaves alone what `Framed` says.
  abbrev Done : Handler V → Option ((Exception ⊎ ErrorNumber) × Handler V) → Type 0
  Done h o = (r : (Exception ⊎ ErrorNumber) × Handler V) × (o ≡ some r) × Framed h r.1

  assign_text-Framed :
      (f : Text → V) (id a : ℕ) (p : Text) (h : Handler V)
      → (r : ErrorNumber × Handler V) × (assign_text f id (some a) p h ≡ some r) × Framed h r.1
  assign_text-Framed f id a p h =
      elim (Bool-cases (not_repeated (h.targets id).set_type && (h.targets id).got_parameter)) [
        | inl e ↦ ((aen_multiple_set_param, h), (rw e refl), Framed-refl h)
        | inr e ↦ (
          (aen_ok, mark_got id (write a (f p) h)),
          (rw e refl),
          Framed-trans (write-Framed a (f p) h) (mark_got-Framed id (write a (f p) h)),
        )
      ]

  set_text-Done :
      (f : Text → V) (id : ℕ) (p : Text) (h : Handler V) (target : Option ℕ)
      → can_assign (string f) target ≡ true
      → Done h (assign_text f id target p h >>= (λ r. some (finish id (some p) r)))
  set_text-Done f id p h none s = absurd (false≢true s)
  set_text-Done f id p h (some a) s =
      let (r, run, framed) = assign_text-Framed f id a p h in
      (finish id (some p) r, (rw run refl), finish-Framed id (some p) h r framed)

  process_text-Done :
      (f : Text → V) (id : ℕ) (p : Option Text) (h : Handler V)
      → can_assign (string f) (h.targets id).target ≡ true
      → Done h (process_text f id p h)
  unfolding process_text
  process_text-Done f id none h s = (_, refl, finish-Framed id none h _ (Framed-refl h))
  process_text-Done f id (some p) h s = go (h.targets id).arg_type refl
    where
      go : (k : TargetType) → (h.targets id).arg_type ≡ k → Done h (process_text f id (some p) h)
      go att_set e = rw (e, process_text) (set_text-Done f id p h (h.targets id).target s)
      go att_cb e = rw (e, process_text) (_, refl, finish-Framed id (some p) h _ (Framed-refl h))
      go att_false e = rw (e, process_text) (_, refl, Framed-refl h)
      go att_true e = rw (e, process_text) (_, refl, Framed-refl h)
      go att_add e = rw (e, process_text) (_, refl, Framed-refl h)
      go att_inc e = rw (e, process_text) (_, refl, Framed-refl h)
      go att_sub e = rw (e, process_text) (_, refl, Framed-refl h)
      go att_dec e = rw (e, process_text) (_, refl, Framed-refl h)

  process-Done : (id : ℕ) (p : Option Text) (h : Handler V) → Sturdy h → Done h (process id p h)
  unfolding process
  process-Done id p h s = go (h.targets id).template refl
    where
      go : (k : Template V) → (h.targets id).template ≡ k → Done h (process id p h)
      go (number n) e = rw (e, process) (_, refl, process_number-Framed n id p h)
      go (string f) e =
          let safe : can_assign (string f) (h.targets id).target ≡ true =
            ap (λ (k : Template V). can_assign k (h.targets id).target) (sym e) ∙ s id in
          rw (e, process) (process_text-Done f id p h safe)

  report-Framed :
      (id : ℕ) (p : Option Text) (r : (Exception ⊎ ErrorNumber) × Handler V)
      → Framed r.1 (report id p r)
  unfolding report
  report-Framed id p (inl x, h) = push_error-Framed _ _ h
  report-Framed id p (inr aen_ok, h) = Framed-refl h
  report-Framed id p (inr aen_argument_unknown, h) = push_error-Framed _ _ h
  report-Framed id p (inr aen_param_type_mismatch, h) = push_error-Framed _ _ h
  report-Framed id p (inr aen_parameter_missing, h) = push_error-Framed _ _ h
  report-Framed id p (inr aen_processing_error, h) = push_error-Framed _ _ h
  report-Framed id p (inr aen_multiple_set_param, h) = push_error-Framed _ _ h
  report-Framed id p (inr aen_mandatory_missing, h) = push_error-Framed _ _ h

  processed-Framed :
      (id : ℕ) (p : Option Text) (h : Handler V)
      → Sturdy h
      → (h' : Handler V) × ((process id p h >>= (λ r. some (report id p r))) ≡ some h')
        × Framed h h'
  processed-Framed id p h s =
      let (r, run, framed) = process-Done id p h s in
      (report id p r, (rw run refl), Framed-trans framed (report-Framed id p r))

  -- `procTarget` returns.
  pub proc_target-Framed :
      (id : ℕ) (p : Option Text) (h : Handler V)
      → Sturdy h
      → (h' : Handler V) × (proc_target id p h ≡ some h') × Framed h h'
  unfolding proc_target
  proc_target-Framed id (some p) h s = processed-Framed id (some p) h s
  proc_target-Framed id none h s = elim (Bool-cases (needs_parameter (h.targets id))) [
    | inl e ↦ rw (e, proc_target) (_, refl, push_error-Framed _ _ h)
    | inr e ↦ rw (e, proc_target) (processed-Framed id none h s)
  ]
