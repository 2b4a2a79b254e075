-- ===== src/Tests/Args.antt =====
-- The theorems on the argument handler, at a handler with one named and one positional argument.
use pwxlib.Base.{
  ℕ, ◌+◌, ◌-◌, ◌*◌, ◌<◌, ◌≡◌, ◌↔◌, inl, inr, Bool, true, false, ◌&&◌, ◌||◌, List, [], ◌∷◌, Option,
  none, some, refl, arith, ◌==◌, length, if◌then◌else◌, ◌>>=◌, ltb, Bool-cases,
}
use pwxlib.Hash.{Key, Elem, chain, null, Table, division, table_get}
use pwxlib.Hash.Chain.{find_in, drop_in, priv_get, priv_get_index}
use pwxlib.Hash.Public.{Growth, get_by_index}
use pwxlib.ArgHandler.{
  Text, Target, Handler, Number, number, att_true, att_set, at_zero_or_one, at_exactly_once,
  new_target, is_mandatory,
}
use pwxlib.ArgHandler.Register.{internal_add_arg, get_target}
use pwxlib.ArgHandler.Parse.{
  Queues, uncombine, collect, parse_args, check_mandatory, reset_targets, reset_pos,
}
use pwxlib.ArgHandler.Lookup.{
  AtRest, Ready, find, find_target, uncombined, uncombine-targets_of, look,
}
use pwxlib.ArgHandler.Collect.{
  each, errors, front, back, with_errors, queued, any_cluster, collect-each,
}
use pwxlib.ArgHandler.Frame.{Framed}
use pwxlib.ArgHandler.Total.{started, read, look_up, parse_args-returns, parse_args-queued}
use pwxlib.ArgHandler.Added.{is_name, internal_add_arg-get_target, internal_add_arg-known}
use pwxlib.ArgHandler.Once.{TakenTwice, process-twice}
use pwxlib.ArgHandler.Mandatory.{check_mandatory-finds, walks-pass_over}
use pwxlib.ArgHandler.Help.{Layout, last_blank, format_help_arg, format_help_str}
use pwxlib.ArgHandler.Help.Aligned.{line_width, length-format_help_arg}
use pwxlib.ArgHandler.Help.Endless.{format_help_str-endless}
use pwxlib.Tests.Tables.{hashing}

abbrev equal_text : Text → Text → Bool
equal_text [] [] = true
equal_text [] (d ∷ t) = false
equal_text (c ∷ s) [] = false
equal_text (c ∷ s) (d ∷ t) = c == d && equal_text s t

equal_text_iff : (s t : Text) → (equal_text s t ≡ true) ↔ (s ≡ t)
equal_text_iff [] [] = ground arith
equal_text_iff [] (d ∷ t) = ground arith
equal_text_iff (c ∷ s) [] = ground arith
equal_text_iff (c ∷ s) (d ∷ t) = ground (arith, equal_text_iff s t)

instance abbrev text_key : Key Text
text_key = record { equal = equal_text; equal_iff = equal_text_iff; hash = λ s. length s }

abbrev numbers : Number ℕ
numbers = record {
  nil = 0;
  one = 1;
  plus = λ a b. a + b;
  minus = λ a b. a - b;
  read = λ s. length s;
}

-- `-v`, `--nope` and `f`
abbrev v_arg : Text
v_arg = b'-' ∷ b'v' ∷ []

abbrev nope : Text
nope = b'-' ∷ b'-' ∷ b'n' ∷ []

abbrev f_arg : Text
f_arg = b'f' ∷ []

abbrev verbose : Target ℕ
verbose = record {
  arg_short = v_arg;
  arg_long = [];
  description = f_arg;
  param_name = [];
  arg_callback = none;
  arg_type = att_true;
  set_type = at_exactly_once;
  got_parameter = false;
  was_processed = false;
  template = number numbers;
  target = some 0;
}

abbrev file : Target ℕ
file = record {
  arg_short = [];
  arg_long = [];
  description = [];
  param_name = f_arg;
  arg_callback = none;
  arg_type = att_set;
  set_type = at_zero_or_one;
  got_parameter = false;
  was_processed = false;
  template = number numbers;
  target = some 1;
}

abbrev v_elem : Elem Text ℕ
v_elem = record { key = v_arg; val = 1; hops = 0; linked = true }

abbrev table_of : (at : ℕ) → List (Elem Text ℕ) → ℕ → Table Text ℕ
table_of at es count = record {
  slots = λ j. if j == at then chain es else null;
  hash_size = 37;
  e_count = count;
  method = division;
  is_destroyed = false;
  clearing = 0;
  growing = 0;
  inserting = 0;
  removing = 0;
  deleted = [];
}

rest_of :
    (at : ℕ) (es : List (Elem Text ℕ)) (count : ℕ)
    → ((k : Text) → find_in k (drop_in k es) ≡ none)
    → ((k : Text) (e : Elem Text ℕ) → find_in k es ≡ some e → e.linked ≡ true)
    → AtRest hashing (table_of at es count)
unfolding table_get
rest_of at es count once linked = record {
  good = record {
    live = refl;
    once = λ i k. elim (Bool-cases (i == at)) [ inl h ↦ rw h (once k) | inr h ↦ rw h refl ];
    inserted = λ i k e found. elim (Bool-cases (i == at)) [
      | inl h ↦ linked k e (rw h at found)
      | inr h ↦ let lost : none ≡ some e = rw h at found in cc
    ];
  };
  growing = refl;
  clearing = refl;
}

no_elem-AtRest : AtRest hashing (table_of 0 [] 0)
no_elem-AtRest = rest_of 0 [] 0 (λ k. refl) (λ k e h. ground (arith, h))

v_once : (k : Text) → find_in k (drop_in k (v_elem ∷ [])) ≡ none
v_once k = elim (Bool-cases (equal_text v_arg k)) [ inl e ↦ rw e refl | inr e ↦ rw (e, e) refl ]

v_linked : (k : Text) (e : Elem Text ℕ) → find_in k (v_elem ∷ []) ≡ some e → e.linked ≡ true
v_linked k e h = elim (Bool-cases (equal_text v_arg k)) [
  | inl t ↦ ground (arith, h, t)
  | inr t ↦ ground (arith, h, t)
]

v_elem-AtRest : (at : ℕ) → AtRest hashing (table_of at (v_elem ∷ []) 1)
v_elem-AtRest at = rest_of at (v_elem ∷ []) 1 v_once v_linked

-- `-v` stands at the place of its hash, 2.
abbrev handler : Handler ℕ
handler = record {
  errlist = [];
  short_args = table_of 2 (v_elem ∷ []) 1;
  long_args = table_of 0 [] 0;
  pos_queue = 2 ∷ [];
  max_long_len = 0;
  max_param_len = 1;
  max_short_len = 2;
  pass_init = none;
  has_pass_args = false;
  passed = none;
  prg_call = none;
  targets = λ j. if j == 1 then verbose else file;
  memory = λ j. 0;
  calls = [];
}

handler-Ready : Ready hashing handler
handler-Ready = record { short = v_elem-AtRest 2; long = no_elem-AtRest }

uncombine-targets_of_example : uncombine hashing handler (b'-' ∷ b'v' ∷ b'v' ∷ []) [] ≡ (do
  (all_found, ids) ← uncombined (find hashing handler handler-Ready) (b'-' ∷ []) (b'v' ∷ b'v' ∷ [])
  some (all_found, ids, 1))
uncombine-targets_of_example =
    uncombine-targets_of hashing handler handler-Ready (b'-' ∷ b'v' ∷ b'v' ∷ [])

abbrev words : List (Option Text)
words = some v_arg ∷ some nope ∷ some f_arg ∷ []

abbrev no_queues : Queues
no_queues = record { arg_queue = []; param_queue = [] }

collect-each_example : collect hashing words no_queues handler ≡ (
    if any_cluster (find hashing handler handler-Ready) (front none words)
    then none
    else some (
      queued (find hashing handler handler-Ready) (front none words) no_queues,
      with_errors (each errors (find hashing handler handler-Ready) (front none words)) handler,
      back none words,
    ))
collect-each_example = collect-each hashing words no_queues handler handler-Ready

parse_args-returns_example :
    (h : Handler ℕ) × (parse_args hashing (none ∷ some nope ∷ []) handler
      ≡ some (length h.errlist, h))
    × Framed
        (with_errors
          (each errors (look_up hashing handler) (read hashing handler (some nope ∷ [])))
          (started hashing none handler))
        h
unfolding find_target look priv_get priv_get_index table_get
parse_args-returns_example =
    parse_args-returns hashing none nope [] handler handler-Ready refl refl (inr refl)

parse_args-queued_example : parse_args hashing (none ∷ words) handler ≡ none
unfolding find_target look priv_get priv_get_index table_get
parse_args-queued_example =
    parse_args-queued hashing none v_arg (some nope ∷ some f_arg ∷ []) handler handler-Ready refl

abbrev growth : Growth
growth = record { too_full = λ n size. ltb (4 * size) n; grown = λ size. 2 * size }

abbrev x_arg : Text
x_arg = b'-' ∷ b'x' ∷ []

abbrev extra : Text
extra = b'-' ∷ b'-' ∷ b'x' ∷ []

abbrev x_target : Target ℕ
x_target = new_target x_arg extra att_set at_zero_or_one none f_arg f_arg (number numbers) (some 5)

internal_add_arg-get_target_example :
    (h : Handler ℕ) × (internal_add_arg hashing growth 10 7 x_arg extra att_set at_zero_or_one
        (number numbers)
        (some 5)
        none
        f_arg
        f_arg
        handler
      ≡ some (true, h))
    × (h.targets 7 ≡ x_target)
    × Ready hashing h
    × ((a : Text)
        → get_target hashing h a ≡ (
            if is_name hashing x_arg a || is_name hashing extra a
            then some (some 7)
            else get_target hashing handler a))
unfolding new_target look priv_get priv_get_index table_get
internal_add_arg-get_target_example =
    internal_add_arg-get_target hashing growth 10 7 x_arg extra att_set at_zero_or_one
      (number numbers) (some 5) none f_arg f_arg handler handler-Ready refl refl
      (record { counted = omega arith; fits = refl })
      (record { counted = omega arith; fits = refl }) refl refl refl

internal_add_arg-known_example :
    internal_add_arg hashing growth 10 7 v_arg [] att_set at_zero_or_one
      (number numbers)
      (some 5)
      none
      f_arg
      f_arg
      handler
    ≡ some (false, handler)
unfolding look priv_get priv_get_index table_get
internal_add_arg-known_example =
    internal_add_arg-known hashing growth 10 7 v_arg [] att_set at_zero_or_one (number numbers)
      (some 5) none f_arg f_arg handler handler-Ready refl refl 1 (inl refl)

process-twice_example :
    (h₁ : Handler ℕ) × (h₂ : Handler ℕ) × TakenTwice numbers 1 2 handler
      (some f_arg)
      (some v_arg)
      h₁
      h₂
process-twice_example =
    process-twice numbers 1 2 handler
      (record { template = refl; address = refl; type = refl; quiet = refl }) refl (some f_arg)
      (some v_arg)

check_mandatory-finds_example :
    (h : Handler ℕ) × (check_mandatory (record handler { short_args = table_of 0 (v_elem ∷ []) 1 })
      ≡ some h)
    × (0 < length h.errlist)
unfolding get_by_index table_get is_mandatory
check_mandatory-finds_example =
    check_mandatory-finds hashing (record handler { short_args = table_of 0 (v_elem ∷ []) 1 }) 0 []
      [] v_elem (record { short = v_elem-AtRest 0; long = no_elem-AtRest }) (omega arith) refl refl

walks-pass_over_example :
    (check_mandatory handler ≡ some handler)
    × (reset_targets handler ≡ some (reset_pos (2 ∷ []) handler))
unfolding get_by_index table_get
walks-pass_over_example =
    walks-pass_over hashing handler handler-Ready
      (λ k b. let first : k ≡ 0 = omega (arith, b) in rw first refl)
      (λ k b. absurd (omega (arith, b)))

abbrev layout : Layout
layout = record {
  help_arg_sep = b',';
  help_auto_sep = true;
  help_auto_space = true;
  help_desc_sep = b':';
  help_indent = 2;
  help_length = 40;
  help_par_sep = b' ';
  help_size_left = 20;
  help_size_right = 5;
  max_long_len = 6;
  max_param_len = 4;
  max_short_len = 2;
}

length-format_help_arg_example :
    length (format_help_arg layout verbose false)
    ≡ (if ltb 20 (line_width layout) then line_width layout else 20)
length-format_help_arg_example =
    length-format_help_arg layout verbose
      (record { short = omega arith; long = omega arith; param = omega arith; named = refl }) false

-- `verbose` with a description of eight letters.
abbrev unbroken : Target ℕ
unbroken = record verbose {
  description = b'a' ∷ b'b' ∷ b'c' ∷ b'd' ∷ b'e' ∷ b'f' ∷ b'g' ∷ b'h' ∷ [];
}

format_help_str-endless_example : format_help_str 1000000 layout unbroken ≡ none
unfolding last_blank
format_help_str-endless_example =
    format_help_str-endless layout unbroken
      (record {
        separator = refl;
        right = omega arith;
        long = omega arith;
        bounded = omega arith;
        blankless = refl;
      })
      1000000 (omega arith)
