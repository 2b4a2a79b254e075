-- ===== src/ArgHandler/Process.antt =====
-- arg_handler/TArgTarget and VArgTargetBase::process_cb: what a target does with its parameter. A
-- result of `none` is a run that dereferences a null pointer.
use pwxlib.Base.{
  ℕ, Bool, true, false, ◌&&◌, [], ◌∷◌, Option, none, some, if◌then◌else◌, ◌⊎◌, inl, inr, ◌>>=◌,
}
use pwxlib.ArgHandler.{
  Text, is_empty, ErrorNumber, aen_ok, aen_multiple_set_param, aen_parameter_missing,
  aen_processing_error, att_false, att_true, att_add, att_inc, att_sub, att_dec, att_set, att_cb,
  ArgType, at_zero_or_one, at_exactly_once, Exception, illegal_target_type, arg_cb_exception,
  needs_a_parameter, processing_failed, exception_caught, Number, number, string, Handler, name_of,
  write, push_error, mark_got, mark_processed, needs_parameter,
}

abbrev pub strempty : Option Text → Text
strempty none = []
strempty (some p) = p

abbrev pub not_repeated : ArgType → Bool
not_repeated at_zero_or_one = true
not_repeated at_exactly_once = true
not_repeated other = false

module _ {V : Type 0} where
  unfoldable pub process_cb : ℕ → Option Text → Handler V → (Exception ⊎ ErrorNumber) × Handler V
  process_cb id param h = elim ((h.targets id).arg_callback) [
    | none ↦ (inr aen_ok, h)
    | some f ↦
        let name = name_of (h.targets id) in
        let called = record h { calls = (name, strempty param) ∷ h.calls } in
        if f name (strempty param)
        then (inl arg_cb_exception, called)
        else if is_empty (strempty param)
        then (inr aen_ok, called)
        else (inr aen_ok, mark_got id called)
  ]

  -- `case ATT_SET`, the assignment being `assigned`.
  abbrev pub set_once : ℕ → Handler V → (assigned : Handler V) → ErrorNumber × Handler V
  set_once id h assigned =
      if not_repeated (h.targets id).set_type && (h.targets id).got_parameter
      then (aen_multiple_set_param, h)
      else (aen_ok, mark_got id assigned)

  -- The `switch` of `TArgTarget<T>::process`, at the variable `a`.
  unfoldable pub switch_number : Number V → ℕ → ℕ → V → Handler V → ErrorNumber × Handler V
  switch_number n id a val h = elim ((h.targets id).arg_type) [
    | att_false ↦ (aen_ok, write a n.nil h)
    | att_true ↦ (aen_ok, write a n.one h)
    | att_inc ↦ (aen_ok, write a (n.plus (h.memory a) n.one) h)
    | att_dec ↦ (aen_ok, write a (n.minus (h.memory a) n.one) h)
    | att_add ↦ (aen_ok, write a (n.plus (h.memory a) val) h)
    | att_sub ↦ (aen_ok, write a (n.minus (h.memory a) val) h)
    | att_set ↦ set_once id h (write a val h)
    | att_cb ↦ (aen_ok, h)
  ]

  -- `T val = ( T )0; if ( param && param[0] ) par_to_val( &val, param );`
  abbrev pub value_of : Number V → Option Text → V
  value_of n param = if is_empty (strempty param) then n.nil else n.read (strempty param)

  -- `if ( AEN_OK == argErrno ) this->wasProcessed = true;`
  abbrev pub mark_done :
      ℕ → (Exception ⊎ ErrorNumber) × Handler V → (Exception ⊎ ErrorNumber) × Handler V
  mark_done id (inr aen_ok, h) = (inr aen_ok, mark_processed id h)
  mark_done id (r, h) = (r, h)

  -- What follows the `switch`.
  unfoldable pub finish :
      ℕ → Option Text → ErrorNumber × Handler V → (Exception ⊎ ErrorNumber) × Handler V
  finish id param (aen_ok, h) = mark_done id (process_cb id param h)
  finish id param (e, h) = (inr e, h)

  unfoldable pub process_number :
      Number V → ℕ → Option Text → Handler V → (Exception ⊎ ErrorNumber) × Handler V
  process_number n id param h = elim ((h.targets id).target) [
    | none ↦ finish id param (aen_ok, h)
    | some a ↦ finish id param (switch_number n id a (value_of n param) h)
  ]

  -- `target->assign( param )` in `case ATT_SET`.
  abbrev pub assign_text :
      (Text → V) → ℕ → Option ℕ → Text → Handler V → Option (ErrorNumber × Handler V)
  assign_text value id target p h =
      if not_repeated (h.targets id).set_type && (h.targets id).got_parameter
      then some (aen_multiple_set_param, h)
      else elim target [ none ↦ none | some a ↦ some (aen_ok, mark_got id (write a (value p) h)) ]

  unfoldable pub process_text :
      (Text → V) → ℕ → Option Text → Handler V → Option ((Exception ⊎ ErrorNumber) × Handler V)
  process_text value id none h = some (finish id none (aen_ok, h))
  process_text value id (some p) h = elim ((h.targets id).arg_type) [
    | att_set ↦ do r ← assign_text value id (h.targets id).target p h; some (finish id (some p) r)
    | att_cb ↦ some (finish id (some p) (aen_ok, h))
    | other ↦ some (inl illegal_target_type, h)
  ]

  unfoldable pub process :
      ℕ → Option Text → Handler V → Option ((Exception ⊎ ErrorNumber) × Handler V)
  process id param h = elim ((h.targets id).template) [
    | number n ↦ some (process_number n id param h)
    | string value ↦ process_text value id param h
  ]

  -- What `procTarget` does with the outcome of `process`.
  unfoldable pub report : ℕ → Option Text → (Exception ⊎ ErrorNumber) × Handler V → Handler V
  report id param (inl x, h) =
      push_error aen_processing_error (exception_caught (name_of (h.targets id)) x) h
  report id param (inr aen_ok, h) = h
  report id param (inr e, h) =
      let t = h.targets id in
      let long_or_param = if is_empty t.arg_short then t.param_name else t.arg_short in
      push_error e
        (processing_failed param e (if is_empty t.arg_long then long_or_param else t.arg_long)) h

  unfoldable pub proc_target : ℕ → Option Text → Handler V → Option (Handler V)
  proc_target id none h =
      let t = h.targets id in
      let param_name = if is_empty t.param_name then b'x' ∷ [] else t.param_name in
      let missing = push_error aen_parameter_missing (needs_a_parameter (name_of t) param_name) h in
      if needs_parameter t
      then some missing
      else (do r ← process id none h; some (report id none r))
  proc_target id (some p) h = do r ← process id (some p) h; some (report id (some p) r)
