-- ===== src/ArgHandler.antt =====
-- arg_handler/VArgTargetBase, TArgTarget.h, sArgError, the enumerations and the fields of CArgHandler:
-- argument targets, errors and the state of the handler. A text is its list of characters, without
-- the closing zero. The targets lie in a store, since both hashes and the queue point to them, and
-- the variables that they set lie in a memory. A queue is the list of what it holds, first to pop
-- first.
pub mod Queue
pub mod Process
pub mod Register
pub mod Parse
pub mod Lookup
pub mod Collect
pub mod Frame
pub mod Total
pub mod Known
pub mod Added
pub mod Once
pub mod Help
pub mod Access
pub mod Mandatory
use pwxlib.Base.{
  ℕ, ◌+◌, Bool, true, false, not, ◌&&◌, ◌||◌, List, [], ◌∷◌, ◌++◌, Option, none, some, ◌==◌,
  if◌then◌else◌, ◌⊎◌, inl, inr,
}
use pwxlib.Hash.{Table}

abbrev pub Text : Type 0
Text = List ℕ

abbrev pub is_empty : Text → Bool
is_empty [] = true
is_empty (c ∷ s) = false

pub data ErrorNumber : Type 0 where
  aen_ok aen_argument_unknown aen_param_type_mismatch aen_parameter_missing : ErrorNumber
  aen_processing_error aen_multiple_set_param aen_mandatory_missing : ErrorNumber

pub data TargetType : Type 0 where
  att_false att_true att_add att_inc att_sub att_dec att_set att_cb : TargetType

pub data ArgType : Type 0 where
  at_zero_or_one at_zero_or_many at_exactly_once at_one_or_many : ArgType

-- What leaves `process` by `throw`.
pub data Exception : Type 0 where
  illegal_target_type arg_cb_exception : Exception

-- The error texts: each constructor is one format, with the texts that are put into it.
pub data Message : Type 0 where
  unknown_argument unknown_parameter mandatory_not_found : Text → Message
  needs_a_parameter : (name param : Text) → Message
  processing_failed : (param : Option Text) → ErrorNumber → (name : Text) → Message
  exception_caught : (name : Text) → Exception → Message

pub record ArgError : Type 0 where
  pub arg_errno : ErrorNumber
  pub arg_error : Message

-- A number type `T` among the values: its `(T)0`, `(T)1`, `+=`, `-=`, and the `to_...` function
-- that `par_to_val` calls.
pub record Number (V : Type 0) : Type 0 where
  pub nil : V
  pub one : V
  pub plus : V → V → V
  pub minus : V → V → V
  pub read : Text → V

-- The `T` of a `TArgTarget<T>`; for `std::string`, how a text is a value.
pub data Template (V : Type 0) : Type 0 where
  number : Number V → Template V
  string : (Text → V) → Template V

-- A callback is told by whether it throws; `target` is the address of the variable to set.
pub record Target (V : Type 0) : Type 0 where
  pub arg_short : Text
  pub arg_long : Text
  pub description : Text
  pub param_name : Text
  pub arg_callback : Option (Text → Text → Bool)
  pub arg_type : TargetType
  pub set_type : ArgType
  pub got_parameter : Bool
  pub was_processed : Bool
  pub template : Template V
  pub target : Option ℕ

-- `passed` is what `*pass_args` was set to, `*pass_cnt` being its length; `calls` logs the calls
-- of callbacks, latest first.
pub record Handler (V : Type 0) : Type 0 where
  pub errlist : List ArgError
  pub short_args : Table Text ℕ
  pub long_args : Table Text ℕ
  pub pos_queue : List ℕ
  pub max_long_len : ℕ
  pub max_param_len : ℕ
  pub max_short_len : ℕ
  pub pass_init : Option Text
  pub has_pass_args : Bool
  pub passed : Option (List (Option Text))
  pub prg_call : Option Text
  pub targets : ℕ → Target V
  pub memory : ℕ → V
  pub calls : List (Text × Text)

module _ {V : Type 0} where
  unfoldable pub new_target :
      (short long : Text)
      → TargetType
      → ArgType
      → Option (Text → Text → Bool)
      → (desc name : Text) → Template V
      → Option ℕ
      → Target V
  new_target short long type set cb desc name template target = record {
    arg_short = short;
    arg_long = long;
    description = desc;
    param_name = name;
    arg_callback = cb;
    arg_type = type;
    set_type = set;
    got_parameter = false;
    was_processed = false;
    template = template;
    target = target;
  }

  -- The copy constructor: the flags are those of a new target.
  unfoldable pub copy_target : Target V → Target V
  copy_target rhs = record rhs { got_parameter = false; was_processed = false }

  -- `operator=` on another target: the flags stay.
  unfoldable pub assign_target : Target V → Target V → Target V
  assign_target t rhs = record rhs {
    got_parameter = t.got_parameter;
    was_processed = t.was_processed;
  }

  unfoldable pub is_mandatory : Target V → Bool
  is_mandatory t = elim (t.set_type) [
    | at_exactly_once ↦ true
    | at_one_or_many ↦ true
    | other ↦ false
  ]

  unfoldable pub needs_parameter : Target V → Bool
  needs_parameter t = elim (t.arg_type) [
    | att_add ↦ true
    | att_sub ↦ true
    | att_set ↦ true
    | att_cb ↦ not (is_empty t.param_name)
    | other ↦ false
  ]

  unfoldable pub reset : Target V → Target V
  reset t = record t { got_parameter = false; was_processed = false }

  -- `arg_long.size() ? arg_long : arg_short`
  abbrev pub name_of : Target V → Text
  name_of t = if is_empty t.arg_long then t.arg_short else t.arg_long

  abbrev pub put_target : ℕ → Target V → Handler V → Handler V
  put_target id t h = record h { targets = λ j. if j == id then t else h.targets j }

  abbrev pub write : ℕ → V → Handler V → Handler V
  write a v h = record h { memory = λ j. if j == a then v else h.memory j }

  abbrev pub push_error : ErrorNumber → Message → Handler V → Handler V
  push_error n m h = record h {
    errlist = h.errlist ++ (record { arg_errno = n; arg_error = m } ∷ []);
  }

  -- `gotParameter = true`
  abbrev pub mark_got : ℕ → Handler V → Handler V
  mark_got id h = put_target id (record (h.targets id) { got_parameter = true }) h

  -- `wasProcessed = true`
  abbrev pub mark_processed : ℕ → Handler V → Handler V
  mark_processed id h = put_target id (record (h.targets id) { was_processed = true }) h
