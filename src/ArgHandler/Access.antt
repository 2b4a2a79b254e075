-- ===== src/ArgHandler/Access.antt =====
-- arg_handler/CArgHandler: the overloads of `addArg`, and the methods that give help texts.
use pwxlib.Base.{
  ℕ, ◌%◌, Bool, ◌&&◌, Option, none, some, ◌>>=◌, ltb, leb, ◌==◌, if◌then◌else◌, ◌⊎◌, length,
  get_nth,
}
use pwxlib.Hash.{Key}
use pwxlib.Hash.Stepping.{Hashing}
use pwxlib.Hash.Public.{Growth}
use pwxlib.ArgHandler.{
  Text, Target, Handler, Template, Number, number, TargetType, att_cb, ArgType, at_zero_or_many,
  copy_target, put_target, ArgError, ErrorNumber, aen_ok, aen_argument_unknown,
  aen_param_type_mismatch, aen_parameter_missing, aen_processing_error, aen_multiple_set_param,
  aen_mandatory_missing,
}
use pwxlib.ArgHandler.Register.{internal_add_arg, add_arg, get_target, AddFailure}
use pwxlib.ArgHandler.Help.{
  Layout, update_layout, format_help_arg, format_help_desc, format_help_str,
}

-- A help text, or the error text for an argument or a position that is not known.
pub data Help : Type 0 where
  help_text unknown_name : Text → Help
  unknown_position : ℕ → Help

-- The values of the enumeration.
abbrev pub error_value : ErrorNumber → ℕ
error_value aen_ok = 0
error_value aen_argument_unknown = 1
error_value aen_param_type_mismatch = 2
error_value aen_parameter_missing = 4
error_value aen_processing_error = 8
error_value aen_multiple_set_param = 16
error_value aen_mandatory_missing = 32

unfoldable pub error_equal : ArgError → ArgError → Bool
error_equal lhs rhs = error_value lhs.arg_errno == error_value rhs.arg_errno

unfoldable pub error_greater : ArgError → ArgError → Bool
error_greater lhs rhs = ltb (error_value rhs.arg_errno) (error_value lhs.arg_errno)

module _ {V : Type 0} where
  unfoldable pub get_prg_call : Handler V → Option Text
  get_prg_call h = h.prg_call

  -- `getTarget( pos )`; `posQueue[pos]` wraps its index.
  unfoldable pub get_target_at : Handler V → ℕ → Option ℕ
  get_target_at h pos =
      let count = length h.pos_queue in
      if ltb 0 pos && leb pos count then get_nth h.pos_queue (pos % count) else none

  module _ ⦃key : Key Text⦄ (H : Hashing) (growth : Growth) (fuel : ℕ) where
    -- The overloads with a variable, for each type of it.
    unfoldable pub add_value_arg :
        (id : ℕ) (short long : Text)
        → TargetType
        → Template V
        → Option ℕ
        → (desc name : Text) → ArgType
        → Handler V
        → Option (Bool × Handler V)
    add_value_arg id short long type template target desc name set h =
        internal_add_arg H growth fuel id short long type set template target none desc name h

    -- The overloads with a callback; their target is a null pointer to a number.
    unfoldable pub add_typed_callback :
        (id : ℕ) (short long : Text)
        → Number V
        → TargetType
        → Option (Text → Text → Bool)
        → (desc name : Text) → Handler V
        → Option (Bool × Handler V)
    add_typed_callback id short long n type cb desc name h =
        internal_add_arg H growth fuel id short long type at_zero_or_many (number n) none cb desc
          name h

    unfoldable pub add_callback :
        (id : ℕ) (short long : Text)
        → Number V
        → Option (Text → Text → Bool)
        → (desc name : Text) → Handler V
        → Option (Bool × Handler V)
    add_callback id short long n cb desc name h =
        internal_add_arg H growth fuel id short long att_cb at_zero_or_many (number n) none cb desc
          name h

    -- `addArg` of a reference: a copy of the target stands at the new address.
    unfoldable pub add_arg_copy : ℕ → Target V → Handler V → Option (AddFailure ⊎ Handler V)
    add_arg_copy id t h = add_arg H growth fuel (some id) (put_target id (copy_target t) h)

  module _ ⦃key : Key Text⦄ (H : Hashing) where
    -- A text for the target of an argument, if it has one.
    abbrev pub help_of : (Target V → Option Text) → Text → Handler V → Option Help
    help_of format arg h = do
      o ← get_target H h arg
      elim o [
        | some id ↦ (do s ← format (h.targets id); some (help_text s))
        | none ↦ some (unknown_name arg)
      ]

    unfoldable pub get_help_arg : Layout → Text → Bool → Handler V → Option Help
    get_help_arg l arg empty_line h =
        help_of (λ t. some (format_help_arg (update_layout l) t empty_line)) arg h

    unfoldable pub get_help_desc : Layout → Text → (pos length : ℕ) → Handler V → Option Help
    get_help_desc l arg pos len h =
        help_of (λ t. some (format_help_desc (update_layout l) t pos len).0) arg h

    unfoldable pub get_help_str : ℕ → Layout → Text → Handler V → Option Help
    get_help_str fuel l arg h = help_of (format_help_str fuel (update_layout l)) arg h

  -- A text for the positional target at a position.
  abbrev pub help_at : (Target V → Option Text) → ℕ → Handler V → Option Help
  help_at format pos h = elim (get_target_at h pos) [
    | some id ↦ (do s ← format (h.targets id); some (help_text s))
    | none ↦ some (unknown_position pos)
  ]

  unfoldable pub get_help_arg_at : Layout → ℕ → Bool → Handler V → Option Help
  get_help_arg_at l pos empty_line h =
      help_at (λ t. some (format_help_arg (update_layout l) t empty_line)) pos h

  unfoldable pub get_help_desc_at : Layout → (position pos length : ℕ) → Handler V → Option Help
  get_help_desc_at l position pos len h =
      help_at (λ t. some (format_help_desc (update_layout l) t pos len).0) position h

  unfoldable pub get_help_str_at : ℕ → Layout → ℕ → Handler V → Option Help
  get_help_str_at fuel l pos h = help_at (format_help_str fuel (update_layout l)) pos h
