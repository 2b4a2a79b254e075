-- ===== src/ArgHandler/Once.antt =====
-- arg_handler/TArgTarget::process on a target that is given twice.
use pwxlib.Base.{
  ℕ, ◌≡◌, refl, ◌∙◌, Bool, true, false, ◌&&◌, Option, none, some, Bool-cases, inl, inr, ◌⊎◌, arith,
  if◌then◌else◌,
}
use pwxlib.ArgHandler.{
  Text, Handler, ErrorNumber, aen_ok, aen_multiple_set_param, Exception, Number, number, att_set,
  write, mark_got, mark_processed,
}
use pwxlib.ArgHandler.Process.{
  not_repeated, process_cb, switch_number, value_of, finish, process_number, process,
}

module _ {V : Type 0} where
  -- A target of a number type that sets the variable at `a`, and has no callback.
  pub record Sets (n : Number V) (a id : ℕ) (h : Handler V) : Type 0 where
    pub template : (h.targets id).template ≡ number n
    pub address : (h.targets id).target ≡ some a
    pub type : (h.targets id).arg_type ≡ att_set
    pub quiet : (h.targets id).arg_callback ≡ none

  abbrev pub repeats : ℕ → Handler V → Bool
  repeats id h = not_repeated (h.targets id).set_type

  -- The handler after a parameter was taken.
  abbrev pub taken : ℕ → ℕ → V → Handler V → Handler V
  taken id a v h = mark_processed id (mark_got id (write a v h))

  process-set :
      (n : Number V) (a id : ℕ) (h : Handler V)
      → Sets n a id h
      → (p : Option Text)
      → process id p h
        ≡ some (
            if repeats id h && (h.targets id).got_parameter
            then (inr aen_multiple_set_param, h)
            else (inr aen_ok, taken id a (value_of n p) h))
  unfolding process process_number finish switch_number process_cb
  process-set n a id h s p = ground (arith, s.template, s.address, s.type, s.quiet)

  second_time :
      (b b' got : Bool) (x y : Handler V)
      → b' ≡ b
      → got ≡ true
      → ◌≡◌ {A = Option ((Exception ⊎ ErrorNumber) × Handler V)}
          (some (if b' && got then (inr aen_multiple_set_param, x) else (inr aen_ok, y)))
          (some (inr (if b then aen_multiple_set_param else aen_ok), if b then x else y))
  second_time b b' got x y e g =
      rw (e, g) (elim (Bool-cases b) [ inl t ↦ rw t refl | inr t ↦ rw t refl ])

  -- The value stays with a target that must not be repeated, and is replaced otherwise.
  pub record TakenTwice (n : Number V) (a id : ℕ) (h : Handler V) (p q : Option Text)
      (h₁ h₂ : Handler V) : Type 0 where
    pub first : process id p h ≡ some (inr aen_ok, h₁)
    pub value : h₁.memory a ≡ value_of n p
    pub done : (h₁.targets id).was_processed ≡ true
    pub second :
        process id q h₁ ≡ some (inr (if repeats id h then aen_multiple_set_param else aen_ok), h₂)
    pub then_value : h₂.memory a ≡ (if repeats id h then value_of n p else value_of n q)

  -- A target of a number type that sets its variable, has no callback and has had no parameter:
  -- `process` stores the value of the first parameter and marks the target as processed; a second
  -- time it gives AEN_MULTIPLE_SET_PARAM and leaves the value if the target must not be repeated,
  -- and otherwise stores the second value.
  pub process-twice :
      (n : Number V) (a id : ℕ) (h : Handler V)
      → Sets n a id h
      → (h.targets id).got_parameter ≡ false
      → (p q : Option Text) → (h₁ : Handler V) × (h₂ : Handler V) × TakenTwice n a id h p q h₁ h₂
  process-twice n a id h s new p q =
      let h₁ = taken id a (value_of n p) h in
      let s₁ : Sets n a id h₁ = record {
        template = ground (arith, s.template);
        address = ground (arith, s.address);
        type = ground (arith, s.type);
        quiet = ground (arith, s.quiet);
      } in
      let got : (h₁.targets id).got_parameter ≡ true = ground arith in
      let same : repeats id h₁ ≡ repeats id h = ground arith in
      (
        h₁,
        (if repeats id h then h₁ else taken id a (value_of n q) h₁),
        record {
          first = process-set n a id h s p ∙ ground (arith, new);
          value = ground arith;
          done = ground arith;
          second =
              process-set n a id h₁ s₁ q
              ∙ second_time (repeats id h) (repeats id h₁) _ h₁ _ same got;
          then_value = ground arith;
        },
      )
