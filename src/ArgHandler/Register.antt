-- ===== src/ArgHandler/Register.antt =====
-- arg_handler/CArgHandler: the constructor, adding arguments, finding them, clearing. The code runs
-- without assertions. A null pointer to a text stands as the empty text, which the code treats
-- alike. A result of `none` is a run that waits for ever or dereferences a null pointer.
use pwxlib.Base.{
  ℕ, Bool, true, false, not, ◌&&◌, [], ◌∷◌, ◌++◌, Option, none, some, if◌then◌else◌, ◌⊎◌, inl, inr,
  ◌>>=◌, length, ltb, leb, ◌-◌, get_nth,
}
use pwxlib.Hash.{Key, Elem, Table}
use pwxlib.Hash.Stepping.{Hashing}
use pwxlib.Hash.Public.{Growth, exists, get, add, clear}
use pwxlib.Hash.Public.Chained.{chain_methods}
use pwxlib.Hash.Public.Whole.{new_table, add_elem}
use pwxlib.ArgHandler.Queue.{clear_queue}
use pwxlib.ArgHandler.{
  Text, is_empty, ErrorNumber, aen_ok, TargetType, att_cb, ArgType, Template, Target, Handler,
  new_target, put_target, ArgError, Message,
}

pub data AddFailure : Type 0 where
  illegal_parameters arg_is_null arg_empty arg_already_known : AddFailure

abbrev pub max_of : ℕ → ℕ → ℕ
max_of longest n = if ltb longest n then n else longest

-- `arg_target || ( ATT_CB == arg_type )`
abbrev pub can_set : TargetType → Option ℕ → Bool
can_set type (some a) = true
can_set type none = elim type [ att_cb ↦ true | other ↦ false ]

module _ {V : Type 0} where
  unfoldable pub new_handler : (ℕ → Target V) → (ℕ → V) → Handler V
  unfolding new_table
  new_handler targets memory = record {
    errlist = [];
    short_args = new_table 37;
    long_args = new_table 37;
    pos_queue = [];
    max_long_len = 0;
    max_param_len = 0;
    max_short_len = 0;
    pass_init = none;
    has_pass_args = false;
    passed = none;
    prg_call = none;
    targets = targets;
    memory = memory;
    calls = [];
  }

  -- `pass_argc` and `pass_argv` are told by whether both are given.
  unfoldable pub add_passthrough : Option Text → Bool → Handler V → AddFailure ⊎ Handler V
  add_passthrough none given h = inl illegal_parameters
  add_passthrough (some init) given h =
      if given
      then inr (record h { has_pass_args = true; pass_init = some init })
      else inl illegal_parameters

  unfoldable pub clear_args : ℕ → Handler V → Option (Handler V)
  clear_args fuel h = do
    no_errors ← clear_queue h.errlist
    long ← clear fuel h.long_args
    no_targets ← clear_queue h.pos_queue
    short ← clear fuel h.short_args
    some (record h {
      errlist = no_errors;
      long_args = long;
      pos_queue = no_targets;
      short_args = short;
      has_pass_args = false;
      pass_init = none;
      prg_call = none;
    })

  abbrev pub longest_lens : Text → Text → Text → Handler V → Handler V
  longest_lens short long param h = record h {
    max_long_len = max_of h.max_long_len (length long);
    max_param_len = max_of h.max_param_len (length param);
    max_short_len = max_of h.max_short_len (length short);
  }

  unfoldable pub get_error_count : Handler V → ℕ
  get_error_count h = length h.errlist

  -- The error with the number `nr`, which counts from 1; an index below 0 is out of bounds.
  unfoldable pub error_at : Handler V → ℕ → Option ArgError
  error_at h nr = if leb 1 nr then get_nth h.errlist (nr - 1) else none

  unfoldable pub get_error : Handler V → ℕ → ErrorNumber
  unfolding error_at
  get_error h nr = elim (error_at h nr) [ none ↦ aen_ok | some e ↦ e.arg_errno ]

  unfoldable pub get_error_str : Handler V → ℕ → Option Message
  unfolding error_at
  get_error_str h nr = elim (error_at h nr) [ none ↦ none | some e ↦ some e.arg_error ]

module _ ⦃key : Key Text⦄ (H : Hashing) where
  -- `->data.get()` on what `get` returns.
  abbrev pub data_of : Option (Elem Text ℕ) → Option (Option ℕ)
  data_of none = none
  data_of (some e) = some (some e.val)

  unfoldable pub lookup_in : Table Text ℕ → Text → Option (Option ℕ)
  lookup_in t k = do
    known ← exists (chain_methods H) t k
    if known then (do o ← get (chain_methods H) t k; data_of o) else some none

  -- `hasArg ? !exists( key ) : true`
  unfoldable pub is_new : Table Text ℕ → Text → Option Bool
  is_new t [] = some true
  is_new t (c ∷ k) = do known ← exists (chain_methods H) t (c ∷ k); some (not known)

module _ {V : Type 0} ⦃key : Key Text⦄ (H : Hashing) where
  unfoldable pub get_target : Handler V → Text → Option (Option ℕ)
  get_target h [] = some none
  get_target h (c ∷ arg) = do
    short ← lookup_in H h.short_args (c ∷ arg)
    elim short [ some id ↦ some (some id) | none ↦ lookup_in H h.long_args (c ∷ arg) ]

  module _ (growth : Growth) (fuel : ℕ) where
    abbrev pub add_short : ℕ → Text → Handler V → Option (Handler V)
    add_short id [] h = some h
    add_short id (c ∷ k) h = do
      (n, short) ← add (chain_methods H) growth fuel h.short_args (c ∷ k) id
      some (record h { short_args = short })

    -- The copy of the element under the long name, with the short name for its key.
    abbrev pub add_copy : Text → Text → Handler V → Option (Handler V)
    add_copy long [] h = some h
    add_copy long (c ∷ k) h = do
      o ← get (chain_methods H) h.long_args long
      e ← o
      (n, short) ← add_elem (chain_methods H) growth fuel h.short_args (record e { key = c ∷ k })
      some (record h { short_args = short })

    -- The target at `id` goes into the hashes of the names that it has.
    unfoldable pub enter : ℕ → (short long : Text) → Handler V → Option (Handler V)
    enter id short [] h = add_short id short h
    enter id short (c ∷ k) h = do
      (n, long) ← add (chain_methods H) growth fuel h.long_args (c ∷ k) id
      add_copy (c ∷ k) short (record h { long_args = long })

    -- What `internalAddArg` does once its two tests are passed and the names are known to be new.
    unfoldable pub insert_arg : ℕ → Target V → Handler V → Option (Bool × Handler V)
    insert_arg id t h = do
      h' ← enter id t.arg_short t.arg_long (put_target id t h)
      some (true, longest_lens t.arg_short t.arg_long t.param_name h')

    -- `new TArgTarget` gives the address `id`.
    unfoldable pub internal_add_arg :
        (id : ℕ) (short long : Text)
        → TargetType
        → ArgType
        → Template V
        → Option ℕ
        → Option (Text → Text → Bool)
        → (desc name : Text) → Handler V
        → Option (Bool × Handler V)
    internal_add_arg id short long type set template target cb desc name h =
        let t = new_target short long type set cb desc name template target in
        if is_empty short && is_empty long
        then some (false, h)
        else if not (can_set type target)
        then some (false, h)
        else (do
          new_long ← is_new H h.long_args long
          new_short ← is_new H h.short_args short
          (if new_long && new_short then insert_arg id t h else some (false, h)))

    -- `addArg( TArgTarget<T>* arg )` on the target at an address, or on a null pointer.
    unfoldable pub add_arg : Option ℕ → Handler V → Option (AddFailure ⊎ Handler V)
    add_arg none h = some (inl arg_is_null)
    add_arg (some id) h =
        let t = h.targets id in
        let lens = longest_lens t.arg_short t.arg_long t.param_name in
        let unnamed = is_empty t.arg_short && is_empty t.arg_long in
        let queued = lens (record h { pos_queue = h.pos_queue ++ (id ∷ []) }) in
        let entered : Option (AddFailure ⊎ Handler V) = (do
          h' ← enter id t.arg_short t.arg_long h
          some (inr (lens h'))) in
        (do
          new_long ← is_new H h.long_args t.arg_long
          new_short ← is_new H h.short_args t.arg_short
          (if unnamed && is_empty t.param_name
              then some (inl arg_empty)
              else if not (new_long && new_short)
              then some (inl arg_already_known)
              else if unnamed
              then some (inr queued)
              else entered))
