-- ===== src/ArgHandler/Help.antt =====
-- arg_handler/CArgHandler: the help texts. `size_t` has 64 bits. A separator of 0 is none.
pub mod Aligned
pub mod Endless
use pwxlib.Base.{
  ℕ, zero, suc, ◌+◌, ◌-◌, ◌%◌, ◌^◌, Bool, true, false, not, ◌&&◌, ◌||◌, List, [], ◌∷◌, ◌++◌, Option,
  none, some, if◌then◌else◌, ltb, leb, ◌==◌, length,
}
use pwxlib.ArgHandler.{Text, Target, is_mandatory, needs_parameter}

abbrev pub size_mod : ℕ
size_mod = 2 ^ 64

abbrev pub size_add : ℕ → ℕ → ℕ
size_add a b = (a + b) % size_mod

abbrev pub size_sub : ℕ → ℕ → ℕ
size_sub a b = (a + (size_mod - b)) % size_mod

-- The fields of the handler that lay out the help, and the three greatest lengths.
pub record Layout : Type 0 where
  pub help_arg_sep : ℕ
  pub help_auto_sep : Bool
  pub help_auto_space : Bool
  pub help_desc_sep : ℕ
  pub help_indent : ℕ
  pub help_length : ℕ
  pub help_par_sep : ℕ
  pub help_size_left : ℕ
  pub help_size_right : ℕ
  pub max_long_len : ℕ
  pub max_param_len : ℕ
  pub max_short_len : ℕ

-- `std::string( n, c )`, and the part of a text from `pos` on.
unfoldable pub filled : ℕ → ℕ → Text
filled zero c = []
filled (suc n) c = c ∷ filled n c

unfoldable pub from : ℕ → Text → Text
from zero s = s
from (suc n) [] = []
from (suc n) (c ∷ s) = from n s

unfoldable pub at_most : ℕ → Text → Text
at_most zero s = []
at_most (suc n) [] = []
at_most (suc n) (c ∷ s) = c ∷ at_most n s

abbrev pub blanks : ℕ → Text
blanks n = filled n b' '

-- `find_last_of( ' ', limit )` in a text whose first character has the position `i`.
unfoldable pub last_blank : ℕ → ℕ → Text → Option ℕ
last_blank limit i [] = none
last_blank limit i (c ∷ s) = elim (last_blank limit (i + 1) s) [
  | some j ↦ some j
  | none ↦ if leb i limit && c == b' ' then some i else none
]

-- `std::string::npos`
abbrev pub npos : ℕ
npos = size_mod - 1

abbrev pub position : Option ℕ → ℕ
position none = npos
position (some i) = i

unfoldable pub set_help_params :
    (length indent arg_sep desc_sep par_sep : ℕ) → (auto_sep auto_space : Bool) → Layout → Layout
set_help_params length indent arg_sep desc_sep par_sep auto_sep auto_space l = record l {
  help_length = length;
  help_indent = indent;
  help_arg_sep = arg_sep;
  help_desc_sep = desc_sep;
  help_par_sep = par_sep;
  help_auto_sep = auto_sep;
  help_auto_space = auto_space;
}

unfoldable pub update_layout : Layout → Layout
update_layout l =
    let size_left =
      (l.max_short_len + l.max_long_len + l.max_param_len + 2 + l.help_indent) % size_mod in
    let wide = ltb (size_add size_left 8) l.help_length in
    record l {
      help_size_left = size_left;
      help_size_right = if wide then size_sub l.help_length size_left else 8;
    }

-- Whether a separator gets spaces around it.
abbrev pub spaced : Layout → ℕ → Bool
spaced l sep = l.help_auto_space && not (sep == 0) && not (sep == b' ')

-- A character, between spaces if `wide`.
abbrev pub with_spaces : Bool → ℕ → Text
with_spaces wide c = if wide then b' ' ∷ c ∷ b' ' ∷ [] else c ∷ []

-- `helpSep && helpAutoSep ? addSpc ? 3 : 1 : 0` spaces, or the separator without `helpAutoSep`.
abbrev pub no_value_sep : Layout → ℕ → Text
no_value_sep l sep =
    if sep == 0
    then []
    else if l.help_auto_sep
    then blanks (if spaced l sep then 3 else 1)
    else with_spaces (spaced l sep) sep

-- A separator in front of a value, left blank with `helpAutoSep` where there is no value.
abbrev pub value_sep : Layout → ℕ → Bool → Text
value_sep l sep shown =
    if sep == 0
    then []
    else with_spaces (spaced l sep) (if not l.help_auto_sep || shown then sep else b' ')

module _ {V : Type 0} where
  -- The short argument with what stands around it.
  unfoldable pub short_part : Layout → Target V → Bool → Text
  short_part l t empty_line =
      let short_size = length t.arg_short in
      let long_size = length t.arg_long in
      let shown = if empty_line then blanks short_size else t.arg_short in
      if not (short_size == 0)
      then blanks (l.max_short_len - short_size)
        ++ (shown ++ value_sep l l.help_arg_sep (not empty_line && not (long_size == 0)))
      else if not (long_size == 0)
      then blanks l.max_short_len ++ no_value_sep l l.help_arg_sep
      else []

  -- The long argument.
  unfoldable pub long_part : Layout → Target V → Bool → Text
  long_part l t empty_line =
      let short_size = length t.arg_short in
      let long_size = length t.arg_long in
      let shown = if empty_line then blanks long_size else t.arg_long in
      if not (long_size == 0)
      then shown ++ blanks (l.max_long_len - long_size)
      else if not (short_size == 0)
      then blanks l.max_long_len
        ++ (if l.max_param_len == 0 then [] else no_value_sep l l.help_par_sep)
      else []

  abbrev pub param_need : Target V → ℕ
  param_need t =
      let param_size = length t.param_name in
      let unnamed = if needs_parameter t then 3 else 0 in
      if not (param_size == 0) then param_size + 2 else unnamed

  -- The parameter of an argument that has a name.
  unfoldable pub param_part : Layout → Target V → Bool → Text
  param_part l t empty_line =
      let param_size = length t.param_name in
      let long_size = length t.arg_long in
      let sep =
        (if not (long_size == 0)
          then value_sep l l.help_par_sep (not empty_line && not (param_size == 0))
          else []) in
      let name = if param_size == 0 then b'x' ∷ [] else t.param_name in
      let shown =
        (if empty_line || not (needs_parameter t)
          then blanks (param_need t)
          else (b'<' ∷ name) ++ (b'>' ∷ [])) in
      sep ++ (shown ++ blanks (l.max_param_len + 2 - param_need t))

  -- The name of a positional argument, at the place `at` of the line.
  unfoldable pub positional_part : Layout → Target V → ℕ → Text
  positional_part l t at =
      let left = if is_mandatory t then b'<' else b'[' in
      let right = if is_mandatory t then b'>' else b']' in
      let name = (left ∷ t.param_name) ++ (right ∷ []) in
      name ++ blanks (l.help_size_left - (at + length name))

  unfoldable pub format_help_arg : Layout → Target V → Bool → Text
  format_help_arg l t empty_line =
      let names = short_part l t empty_line ++ long_part l t empty_line in
      let begun = blanks l.help_indent ++ names in
      let has_name = not (length t.arg_short == 0) || not (length t.arg_long == 0) in
      let last =
        (if has_name && not (l.max_param_len == 0)
          then param_part l t empty_line
          else if not (length t.param_name == 0)
          then positional_part l t (length begun)
          else []) in
      let line = begun ++ last in blanks (l.help_size_left - length line) ++ line

  -- The text, and the new `*pos`; `pos` is not null.
  unfoldable pub format_help_desc : Layout → Target V → (pos length : ℕ) → Text × ℕ
  format_help_desc l t pos len =
      let size = length t.description in
      let add_spc =
        l.help_auto_space && not (l.help_desc_sep == 0) && not (l.help_desc_sep == b' ') in
      let first = if not (pos == 0) && l.help_auto_sep then b' ' else l.help_desc_sep in
      let sep = if l.help_desc_sep == 0 then [] else with_spaces add_spc first in
      let endpos = position (last_blank (size_add pos len) 0 t.description) in
      if len == 0 || ltb (size_sub size pos) len
      then ((if ltb pos size then from pos t.description else []), size)
      else if leb size pos
      then ([], pos)
      else if leb (size_add pos len) size
      then (if ltb pos endpos
          then (
            sep ++ at_most (endpos - pos) (from pos t.description),
            size_add pos (size_add endpos 1),
          )
          else (sep ++ at_most (len - 1) (from pos t.description), size_add pos len))
      else (sep ++ from pos t.description, size)

  -- The loop, on fuel; `none` is no end within the fuel.
  unfoldable pub format_help_loop : ℕ → Layout → Target V → (pos remaining : ℕ) → Text → Option Text
  format_help_loop zero l t pos remaining result =
      if ltb pos (length t.description) then none else some result
  format_help_loop (suc fuel) l t pos remaining result =
      let desc_size = length t.description in
      let len = if ltb remaining l.help_size_right then 0 else l.help_size_right in
      let desc = format_help_desc l t pos len in
      let line = format_help_arg l t (not (pos == 0)) ++ desc.0 in
      let ended = if ltb desc.1 desc_size then line ++ (b'\n' ∷ []) else line in
      let rest =
        format_help_loop fuel l t desc.1 (size_sub remaining (length desc.0)) (result ++ ended) in
      if ltb pos desc_size then rest else some result

  unfoldable pub format_help_str : ℕ → Layout → Target V → Option Text
  format_help_str fuel l t = format_help_loop fuel l t 0 (length t.description) []
