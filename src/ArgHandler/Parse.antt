-- ===== src/ArgHandler/Parse.antt =====
-- arg_handler/CArgHandler::parseArgs and what it calls. `argv` is the list of its `argc` pointers.
-- The parser and its clean-up work on local queues, which the model hands from step to step; what
-- a queue does when it becomes empty is that of ArgHandler.Queue. `none` is a run without a result.
use pwxlib.Base.{
  ℕ, zero, suc, ◌+◌, Bool, true, false, not, ◌&&◌, List, [], ◌∷◌, ◌++◌, Option, none, some,
  if◌then◌else◌, ◌>>=◌, length, ◌==◌,
}
use pwxlib.Hash.{Key, Elem, Table}
use pwxlib.Hash.Stepping.{Hashing}
use pwxlib.Hash.Public.{get_by_index}
use pwxlib.Hash.Public.Whole.{size}
use pwxlib.ArgHandler.{
  Text, is_empty, aen_argument_unknown, aen_mandatory_missing, unknown_argument, unknown_parameter,
  mandatory_not_found, Target, Handler, needs_parameter, is_mandatory, reset, name_of, push_error,
  put_target,
}
use pwxlib.ArgHandler.Queue.{pop, clear_queue}
use pwxlib.ArgHandler.Process.{proc_target}
use pwxlib.ArgHandler.Register.{get_target}

-- The dashes that an argument starts with, and what stands behind them.
abbrev pub dashes_of : Text → Text
dashes_of [] = []
dashes_of (c ∷ s) = if c == b'-' then c ∷ dashes_of s else []

abbrev pub after_dashes : Text → Text
after_dashes [] = []
after_dashes (c ∷ s) = if c == b'-' then after_dashes s else c ∷ s

-- Sets `prgCall` if it has no text yet.
abbrev pub call_name : Option Text → Option Text → Option Text
call_name none first = first
call_name (some []) first = elim first [ none ↦ some [] | some s ↦ some s ]
call_name (some (c ∷ s)) first = some (c ∷ s)

module _ {V : Type 0} ⦃key : Key Text⦄ (H : Hashing) where
  -- The second loop of `uncombine`, on the rest of the argument.
  unfoldable pub uncombine_loop :
      Handler V → (dashes : Text) → Text → List ℕ → Option (Bool × List ℕ)
  uncombine_loop h dashes [] arg_list = some (true, arg_list)
  uncombine_loop h dashes (c ∷ s) arg_list = do
    o ← get_target H h (dashes ++ (c ∷ []))
    elim o [
      | some id ↦ uncombine_loop h dashes s (arg_list ++ (id ∷ []))
      | none ↦ (do arg_list' ← clear_queue arg_list; some (false, arg_list'))
    ]

  -- The result, `arg_list` and `dash_count`.
  unfoldable pub uncombine : Handler V → Text → List ℕ → Option (Bool × List ℕ × ℕ)
  uncombine h arg arg_list = do
    (all_found, found) ← uncombine_loop h (dashes_of arg) (after_dashes arg) arg_list
    some (all_found, found, length (dashes_of arg))

-- `STRNE( argv[idx], pass_init )` for an argument that is not null.
abbrev pub is_not_init : ⦃key : Key Text⦄ → Text → Option Text → Bool
is_not_init arg none = true
is_not_init ⦃key⦄ arg (some init) = not (key.equal arg init)

-- The parameter that a target gets, the empty text for none, and the parameters left.
unfoldable pub take_param : Bool → List Text → Option (Text × List Text)
take_param true (p ∷ params) = pop p params
take_param needed params = some ([], params)

abbrev pub param_ptr : Text → Option Text
param_ptr [] = none
param_ptr (c ∷ s) = some (c ∷ s)

-- The local queues of the parser.
pub record Queues : Type 0 where
  pub arg_queue : List ℕ
  pub param_queue : List Text

module _ {V : Type 0} where
  -- What is done with an argument that names no target, once `uncombine` has returned.
  abbrev pub sort_out : Text → Bool × List ℕ × ℕ → Queues → Handler V → Option (Queues × Handler V)
  sort_out arg (all_found, comb_queue, dash_count) q h =
      if all_found
      then (do
        let q' = record q { arg_queue = q.arg_queue ++ comb_queue }
        cleared ← clear_queue comb_queue
        some (q', h))
      else if dash_count == 0
      then some (record q { param_queue = q.param_queue ++ (arg ∷ []) }, h)
      else some (q, push_error aen_argument_unknown (unknown_argument arg) h)

module _ {V : Type 0} ⦃key : Key Text⦄ (H : Hashing) where
  unfoldable pub collect_arg : Text → Queues → Handler V → Option (Queues × Handler V)
  collect_arg arg q h = do
    o ← get_target H h arg
    elim o [
      | some id ↦ some (record q { arg_queue = q.arg_queue ++ (id ∷ []) }, h)
      | none ↦ (do r ← uncombine H h arg []; sort_out arg r q h)
    ]

  -- Step 1. The last part of the result are the arguments from the one on that ended the loop.
  unfoldable pub collect :
      List (Option Text) → Queues → Handler V → Option (Queues × Handler V × List (Option Text))
  collect [] q h = some (q, h, [])
  collect (none ∷ args) q h = some (q, h, none ∷ args)
  collect (some arg ∷ args) q h = elim (is_not_init arg h.pass_init) [
    | true ↦ (do (q', h') ← collect_arg arg q h; collect args q' h')
    | false ↦ some (q, h, some arg ∷ args)
  ]

module _ {V : Type 0} where
  -- Step 2.
  unfoldable pub run_args : List ℕ → List Text → Handler V → Option (List Text × Handler V)
  run_args [] params h = some (params, h)
  run_args (id ∷ args) params h = do
    (target, args') ← pop id args
    (param, params') ← take_param (needs_parameter (h.targets target)) params
    h' ← proc_target target (param_ptr param) h
    run_args args params' h'

  -- One round of step 3.
  unfoldable pub place_param : Text → Handler V → Option (Handler V)
  place_param param h = elim (h.pos_queue) [
    | [] ↦ some (push_error aen_argument_unknown (unknown_parameter param) h)
    | id ∷ ids ↦ (do
      (target, ids') ← pop id ids
      h' ← proc_target target (some param) (record h { pos_queue = ids' })
      some (record h' { pos_queue = h'.pos_queue ++ (target ∷ []) }))
  ]

  unfoldable pub run_params : List Text → Handler V → Option (Handler V)
  run_params [] h = some h
  run_params (param ∷ params) h = do
    (first, params') ← pop param params
    h' ← place_param first h
    run_params params h'

  abbrev pub is_missing : Target V → Bool
  is_missing t = is_mandatory t && not t.was_processed

  -- Step 4 at one element of `shortArgs`, and of `longArgs`.
  abbrev pub check_short : Handler V → Elem Text ℕ → Handler V
  check_short h e =
      let t = h.targets e.val in
      if is_missing t
      then push_error aen_mandatory_missing (mandatory_not_found (name_of t)) h
      else h

  abbrev pub check_long : Handler V → Elem Text ℕ → Handler V
  check_long h e =
      let t = h.targets e.val in
      if is_empty t.arg_short && is_missing t
      then push_error aen_mandatory_missing (mandatory_not_found t.arg_long) h
      else h

  abbrev pub reset_elem : Handler V → Elem Text ℕ → Handler V
  reset_elem h e = put_target e.val (reset (h.targets e.val)) h

  -- The loop over the elements of one chain, and over `left` places from `i` on.
  abbrev pub walk_chain :
      (Handler V → Elem Text ℕ → Handler V) → List (Elem Text ℕ) → Handler V → Handler V
  walk_chain f [] h = h
  walk_chain f (e ∷ es) h = walk_chain f es (f h e)

  unfoldable pub walk_places :
      (Handler V → Elem Text ℕ → Handler V) → Table Text ℕ → (left i : ℕ) → Handler V → Handler V
  walk_places f t zero i h = h
  walk_places f t (suc left) i h = walk_places f t left (i + 1) (walk_chain f (get_by_index t i) h)

  -- Step 4.
  unfoldable pub check_mandatory : Handler V → Option (Handler V)
  check_mandatory h = do
    short_size ← size h.short_args
    let h' = walk_places check_short h.short_args short_size 0 h
    long_size ← size h'.long_args
    some (walk_places check_long h'.long_args long_size 0 h')

  unfoldable pub pass_through : List (Option Text) → Handler V → Option (Handler V)
  pass_through [] h = some h
  pass_through (arg ∷ args) h =
      if h.has_pass_args then some (record h { passed = some (arg ∷ args) }) else none

  abbrev pub reset_pos : List ℕ → Handler V → Handler V
  reset_pos [] h = h
  reset_pos (id ∷ ids) h = reset_pos ids (put_target id (reset (h.targets id)) h)

  unfoldable pub reset_targets : Handler V → Option (Handler V)
  reset_targets h = do
    short_size ← size h.short_args
    let h₁ = walk_places reset_elem h.short_args short_size 0 h
    long_size ← size h₁.long_args
    let h₂ = walk_places reset_elem h₁.long_args long_size 0 h₁
    some (reset_pos h₂.pos_queue h₂)

  -- What stands behind the argument that ended step 1 is passed on if there was no error.
  abbrev pub pass_rest : List (Option Text) → Handler V → Option (Handler V)
  pass_rest [] h = some h
  pass_rest (end ∷ args) h = if length h.errlist == 0 then pass_through args h else some h

  -- What follows step 1, on its queues and the arguments that it left.
  unfoldable pub later_steps : Queues → List (Option Text) → Handler V → Option (ℕ × Handler V)
  later_steps q rest h = do
    (params, h₁) ← run_args q.arg_queue q.param_queue h
    h₂ ← run_params params h₁
    h₃ ← check_mandatory h₂
    h₄ ← pass_rest rest h₃
    some (length h₄.errlist, h₄)

module _ {V : Type 0} ⦃key : Key Text⦄ (H : Hashing) where
  -- On the arguments from `argv[1]` on.
  unfoldable pub parse_rest : List (Option Text) → Handler V → Option (ℕ × Handler V)
  parse_rest args h = do
    (q, h₁, rest) ← collect H args (record { arg_queue = []; param_queue = [] }) h
    later_steps q rest h₁

  -- With `errlist` cleared.
  abbrev pub parse_cleared : List (Option Text) → Handler V → Option (ℕ × Handler V)
  parse_cleared [] h = some (0, h)
  parse_cleared (first ∷ args) h =
      let h' = record h { prg_call = call_name h.prg_call first } in
      elim args [
        | [] ↦ some (0, h')
        | none ∷ rest ↦ some (0, h')
        | some arg ∷ rest ↦ parse_rest (some arg ∷ rest) h'
      ]

  unfoldable pub parse_args : List (Option Text) → Handler V → Option (ℕ × Handler V)
  parse_args args h = do
    errlist' ← clear_queue h.errlist
    parse_cleared args (record h { errlist = errlist' })
