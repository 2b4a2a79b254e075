-- ===== src/ArgHandler/Help/Aligned.antt =====
-- arg_handler/CArgHandler::formatHelpArg: all lines of named arguments have one width.
use pwxlib.Base.{
  ℕ, zero, suc, ◌+◌, ◌-◌, ◌≤◌, ◌≡◌, refl, ap, ◌∙◌, Bool, true, false, not, ◌&&◌, ◌||◌, [], ◌∷◌,
  ◌++◌, if◌then◌else◌, ltb, ◌==◌, length, length-append, Bool-cases, inl, inr, arith,
}
use pwxlib.ArgHandler.{Text, Target, needs_parameter}
use pwxlib.ArgHandler.Help.{
  Layout, filled, blanks, spaced, no_value_sep, value_sep, short_part, long_part, param_need,
  param_part, positional_part, format_help_arg,
}

pub length-filled : (n c : ℕ) → length (filled n c) ≡ n
unfolding filled
length-filled zero c = refl
length-filled (suc n) c = ap suc (length-filled n c)

-- The places that a separator takes.
abbrev pub sep_width : Layout → ℕ → ℕ
sep_width l sep = if sep == 0 then 0 else if spaced l sep then 3 else 1

-- Where the line of an argument with a name ends.
abbrev pub line_width : Layout → ℕ
line_width l =
    let params =
      if l.max_param_len == 0 then 0 else sep_width l l.help_par_sep + (l.max_param_len + 2) in
    l.help_indent + (l.max_short_len + sep_width l l.help_arg_sep) + (l.max_long_len + params)

length-value_sep : (l : Layout) (sep : ℕ) (b : Bool) → length (value_sep l sep b) ≡ sep_width l sep
length-value_sep l sep b = ground arith

length-no_value_sep : (l : Layout) (sep : ℕ) → length (no_value_sep l sep) ≡ sep_width l sep
unfolding filled
length-no_value_sep l sep = ground arith

module _ {V : Type 0} where
  -- A target whose texts are no longer than the greatest lengths.
  pub record Fits (l : Layout) (t : Target V) : Type 0 where
    pub short : length t.arg_short ≤ l.max_short_len
    pub long : length t.arg_long ≤ l.max_long_len
    pub param : length t.param_name ≤ l.max_param_len
    pub named : (not (length t.arg_short == 0) || not (length t.arg_long == 0)) ≡ true

  module _ (l : Layout) (t : Target V) (f : Fits l t) (e : Bool) where
    shown-length : (s : Text) → length (if e then blanks (length s) else s) ≡ length s
    shown-length s = elim (Bool-cases e) [
      | inl h ↦ rw h (length-filled (length s) b' ')
      | inr h ↦ rw h refl
    ]

    length-short_part : length (short_part l t e) ≡ l.max_short_len + sep_width l l.help_arg_sep
    unfolding short_part
    length-short_part = elim (Bool-cases (length t.arg_short == 0)) [
      | inl none_short ↦
          let some_long : (length t.arg_long == 0) ≡ false = ground (arith, f.named, none_short) in
          rw (none_short, some_long)
            (length-append (blanks l.max_short_len) (no_value_sep l l.help_arg_sep)
              ∙ (rw (length-filled l.max_short_len b' ', length-no_value_sep l l.help_arg_sep)
                  refl))
      | inr some_short ↦
          let shown = if e then blanks (length t.arg_short) else t.arg_short in
          let value = not e && not (length t.arg_long == 0) in
          let sep = value_sep l l.help_arg_sep value in
          let pad = l.max_short_len - length t.arg_short in
          let sum : length (blanks pad ++ (shown ++ sep))
              ≡ pad + (length t.arg_short + sep_width l l.help_arg_sep) =
            length-append (blanks pad) (shown ++ sep)
            ∙ (rw
                (
                  length-filled pad b' ',
                  length-append shown sep,
                  shown-length t.arg_short,
                  length-value_sep l l.help_arg_sep value,
                )
                refl) in
          rw some_short (sum ∙ omega (arith, f.short))
    ]

    -- The separator in front of the parameter, if one may come.
    abbrev par_width : ℕ
    par_width = sep_width l l.help_par_sep

    length-long_part :
        length (long_part l t e)
        ≡ l.max_long_len
          + (if length t.arg_long == 0 then (if l.max_param_len == 0 then 0 else par_width) else 0)
    unfolding long_part
    length-long_part = elim (Bool-cases (length t.arg_long == 0)) [
      | inl none_long ↦
          let some_short : (length t.arg_short == 0) ≡ false = ground (arith, f.named, none_long) in
          let sep = if l.max_param_len == 0 then [] else no_value_sep l l.help_par_sep in
          let width : length sep ≡ (if l.max_param_len == 0 then 0 else par_width) =
            elim (Bool-cases (l.max_param_len == 0)) [
              | inl z ↦ rw z refl
              | inr z ↦ rw z (length-no_value_sep l l.help_par_sep)
            ] in
          rw (none_long, some_short)
            (length-append (blanks l.max_long_len) sep
              ∙ (rw (length-filled l.max_long_len b' ', width) refl))
      | inr some_long ↦
          let shown = if e then blanks (length t.arg_long) else t.arg_long in
          let pad = l.max_long_len - length t.arg_long in
          let sum : length (shown ++ blanks pad) ≡ length t.arg_long + pad =
            length-append shown (blanks pad)
            ∙ (rw (length-filled pad b' ', shown-length t.arg_long) refl) in
          rw some_long (sum ∙ omega (arith, f.long))
    ]

    -- The parameter between its brackets.
    abbrev bracketed : Text
    bracketed =
        (b'<' ∷ (if length t.param_name == 0 then b'x' ∷ [] else t.param_name)) ++ (b'>' ∷ [])

    length-bracketed : needs_parameter t ≡ true → length bracketed ≡ param_need t
    length-bracketed n =
        let name = if length t.param_name == 0 then b'x' ∷ [] else t.param_name in
        let whole : length bracketed ≡ suc (length name + 1) =
          ap suc (length-append name (b'>' ∷ [])) in
        elim (Bool-cases (length t.param_name == 0)) [
          | inl z ↦ whole ∙ (rw (z, n) refl)
          | inr z ↦ whole ∙ (rw z (omega arith))
        ]

    length-shown_param :
        length (if e || not (needs_parameter t) then blanks (param_need t) else bracketed)
        ≡ param_need t
    length-shown_param = elim (Bool-cases (e || not (needs_parameter t))) [
      | inl b ↦ rw b (length-filled (param_need t) b' ')
      | inr b ↦ let n : needs_parameter t ≡ true = ground (arith, b) in rw b (length-bracketed n)
    ]

    length-param_sep :
        (b : Bool)
        → length (if not (length t.arg_long == 0) then value_sep l l.help_par_sep b else [])
          ≡ (if length t.arg_long == 0 then 0 else par_width)
    length-param_sep b = elim (Bool-cases (length t.arg_long == 0)) [
      | inl z ↦ rw z refl
      | inr z ↦ rw z (length-value_sep l l.help_par_sep b)
    ]

    param_need-bound : (l.max_param_len == 0) ≡ false → param_need t ≤ l.max_param_len + 2
    param_need-bound h = ground (arith, f.param, h)

    length-param_part :
        (l.max_param_len == 0) ≡ false
        → length (param_part l t e)
          ≡ (if length t.arg_long == 0 then 0 else par_width) + (l.max_param_len + 2)
    unfolding param_part
    length-param_part h =
        let sep =
          (if not (length t.arg_long == 0)
            then value_sep l l.help_par_sep (not e && not (length t.param_name == 0))
            else []) in
        let name = if length t.param_name == 0 then b'x' ∷ [] else t.param_name in
        let shown =
          (if e || not (needs_parameter t)
            then blanks (param_need t)
            else (b'<' ∷ name) ++ (b'>' ∷ [])) in
        let pad = l.max_param_len + 2 - param_need t in
        length-append sep (shown ++ blanks pad)
        ∙ ap (λ n. length sep + n) (length-append shown (blanks pad))
        ∙ (rw
            (
              length-param_sep (not e && not (length t.param_name == 0)),
              length-shown_param,
              length-filled pad b' ',
            )
            (omega (arith, param_need-bound h)))

    abbrev has_name : Bool
    has_name = not (length t.arg_short == 0) || not (length t.arg_long == 0)

    -- What stands behind the names.
    abbrev last_part : ℕ → Text
    last_part at =
        if has_name && not (l.max_param_len == 0)
        then param_part l t e
        else if not (length t.param_name == 0)
        then positional_part l t at
        else []

    length-last_part :
        (at : ℕ)
        → length (last_part at) ≡ (
            if l.max_param_len == 0
            then 0
            else (if length t.arg_long == 0 then 0 else par_width) + (l.max_param_len + 2))
    length-last_part at = elim (Bool-cases (l.max_param_len == 0)) [
      | inl z ↦
          let no_param : (length t.param_name == 0) ≡ true = ground (arith, f.param, z) in
          rw (f.named, z, no_param) refl
      | inr z ↦ rw (f.named, z) (length-param_part z)
    ]

    length-line :
        length (
          (blanks l.help_indent ++ (short_part l t e ++ long_part l t e))
          ++ last_part (length (blanks l.help_indent ++ (short_part l t e ++ long_part l t e))))
        ≡ line_width l
    length-line =
        let names = short_part l t e ++ long_part l t e in
        let begun = blanks l.help_indent ++ names in
        length-append begun (last_part (length begun))
        ∙ ap (λ n. n + length (last_part (length begun)))
            (length-append (blanks l.help_indent) names)
        ∙ (rw
            (
              length-filled l.help_indent b' ',
              length-append (short_part l t e) (long_part l t e),
              length-short_part,
              length-long_part,
              length-last_part (length begun),
            )
            total)
      where
        total :
            l.help_indent
              + ((l.max_short_len + sep_width l l.help_arg_sep)
                  + (l.max_long_len
                      + (if length t.arg_long == 0
                          then (if l.max_param_len == 0 then 0 else par_width)
                          else 0)))
              + (if l.max_param_len == 0
                  then 0
                  else (if length t.arg_long == 0 then 0 else par_width) + (l.max_param_len + 2))
            ≡ line_width l
        total = elim (Bool-cases (l.max_param_len == 0)) [
          | inl z ↦ rw z (elim (Bool-cases (length t.arg_long == 0)) [
            | inl y ↦ rw y (omega arith)
            | inr y ↦ rw y (omega arith)
          ])
          | inr z ↦ rw z (elim (Bool-cases (length t.arg_long == 0)) [
            | inl y ↦ rw y (omega arith)
            | inr y ↦ rw y (omega arith)
          ])
        ]

    -- For a target with a short or a long name whose texts are no longer than the greatest
    -- lengths: `formatHelpArg` gives a line of one width, which depends on the layout only,
    -- whether the line is the first or an empty one; it is never below the size of the left
    -- column.
    pub length-format_help_arg :
        length (format_help_arg l t e)
        ≡ (if ltb l.help_size_left (line_width l) then line_width l else l.help_size_left)
    unfolding format_help_arg
    length-format_help_arg =
        let begun = blanks l.help_indent ++ (short_part l t e ++ long_part l t e) in
        let line = begun ++ last_part (length begun) in
        length-append (blanks (l.help_size_left - length line)) line
        ∙ (rw (length-filled (l.help_size_left - length line) b' ', length-line) (ground arith))
