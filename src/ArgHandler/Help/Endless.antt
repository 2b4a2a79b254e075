-- ===== src/ArgHandler/Help/Endless.antt =====
-- arg_handler/CArgHandler::formatHelpStr on a description that has no blank to break the line at.
use pwxlib.Base.{
  ℕ, zero, suc, ◌+◌, ◌-◌, ◌*◌, ◌≤◌, ◌<◌, ◌≡◌, refl, ap, ◌∙◌, Bool, true, false, not, ◌&&◌, [], ◌∷◌,
  ◌++◌, none, ltb, leb, ◌==◌, length, length-append, Bool-cases, inl, inr, arith,
}
use pwxlib.ArgHandler.{Text, Target}
use pwxlib.ArgHandler.Help.{
  Layout, size_mod, size_add, size_sub, npos, at_most, from, last_blank, with_spaces,
  format_help_arg, format_help_desc, format_help_loop, format_help_str,
}

length-at_most : (n : ℕ) (s : Text) → length s ≤ n → length (at_most n s) ≡ length s
unfolding at_most
length-at_most zero [] h = refl
length-at_most zero (c ∷ s) h = absurd (omega (arith, h))
length-at_most (suc n) [] h = refl
length-at_most (suc n) (c ∷ s) h = ap suc (length-at_most n s (omega (arith, h)))

-- A separator is shown, and the right column is no wider than the description, which has no blank
-- up to the place where the line should be broken.
pub record Unbroken {V : Type 0} (l : Layout) (t : Target V) : Type 0 where
  pub separator : (l.help_desc_sep == 0) ≡ false
  pub right : 0 < l.help_size_right
  pub long : l.help_size_right ≤ length t.description
  pub bounded : length t.description < npos
  pub blankless : last_blank l.help_size_right 0 t.description ≡ none

module _ {V : Type 0} (l : Layout) (t : Target V) (u : Unbroken l t) where
  abbrev add_spc : Bool
  add_spc = l.help_auto_space && not (l.help_desc_sep == 0) && not (l.help_desc_sep == b' ')

  abbrev sep_text : Text
  sep_text = with_spaces add_spc l.help_desc_sep

  abbrev shown : Text
  shown = sep_text ++ at_most npos t.description

  -- All of the description is shown, and the position is 0 as before.
  desc-whole : format_help_desc l t 0 l.help_size_right ≡ (shown, 0)
  unfolding format_help_desc from
  desc-whole =
      let size = length t.description in
      let right : (l.help_size_right == 0) ≡ false = ground (arith, u.right) in
      let whole : size_sub size 0 ≡ size = omega (arith, u.bounded) in
      let fits : ltb size l.help_size_right ≡ false = ground (arith, u.long) in
      let some_left : leb size 0 ≡ false = ground (arith, u.right, u.long) in
      let sum : size_add 0 l.help_size_right ≡ l.help_size_right =
        omega (arith, u.bounded, u.long) in
      let inside : leb l.help_size_right size ≡ true = ground (arith, u.long) in
      rw (right, whole, fits, some_left, sum, inside, u.blankless, u.separator) refl

  shown-bounds : (length t.description < length shown) × (length shown ≤ length t.description + 3)
  shown-bounds =
      let e : length shown ≡ length sep_text + length t.description =
        length-append sep_text (at_most npos t.description)
        ∙ ap (λ n. length sep_text + n)
            (length-at_most npos t.description (omega (arith, u.bounded))) in
      elim (Bool-cases add_spc) [
        | inl s ↦
            let three : length sep_text ≡ 3 = (rw s refl) in
            (omega (arith, e, three), omega (arith, e, three))
        | inr s ↦
            let one : length sep_text ≡ 1 = (rw s refl) in
            (omega (arith, e, one), omega (arith, e, one))
      ]

  some_text : ltb 0 (length t.description) ≡ true
  some_text = ground (arith, u.right, u.long)

  -- One round: the text grows, and the position stays.
  loop-round :
      (fuel remaining : ℕ) (result : Text)
      → l.help_size_right ≤ remaining
      → format_help_loop (suc fuel) l t 0 remaining result
        ≡ format_help_loop fuel l t 0
            (size_sub remaining (length shown))
            (result ++ ((format_help_arg l t false ++ shown) ++ (b'\n' ∷ [])))
  unfolding format_help_loop
  loop-round fuel remaining result h =
      let much : ltb remaining l.help_size_right ≡ false = ground (arith, h) in
      rw (some_text, much, desc-whole, some_text) refl

  loop-endless :
      (fuel remaining : ℕ) (result : Text)
      → fuel * (length t.description + 3) + l.help_size_right ≤ remaining
      → remaining < size_mod
      → format_help_loop fuel l t 0 remaining result ≡ none
  unfolding format_help_loop
  loop-endless zero remaining result h b = rw some_text refl
  loop-endless (suc fuel) remaining result h b =
      let (more, less) = shown-bounds in
      let next : size_sub remaining (length shown) ≡ remaining - length shown =
        omega (arith, h, b, more, less) in
      loop-round fuel remaining result (omega (arith, h))
      ∙ (rw next (
          loop-endless fuel (remaining - length shown) _ (omega (arith, h, less))
            (omega (arith, b))))

  -- For a description below 2 ^ 64 - 1 that fills the right column and has no blank up to its
  -- width, and a separator: `formatHelpStr` has not returned after any number of rounds whose
  -- product with the length of the description and three, and the width, is at most 2 ^ 64.
  pub format_help_str-endless :
      (fuel : ℕ)
      → fuel * (length t.description + 3) + l.help_size_right ≤ size_mod
      → format_help_str fuel l t ≡ none
  unfolding format_help_str format_help_loop
  format_help_str-endless zero h = rw some_text refl
  format_help_str-endless (suc fuel) h =
      let (more, less) = shown-bounds in
      loop-round fuel (length t.description) [] u.long
      ∙ loop-endless fuel (size_sub (length t.description) (length shown)) _
          (omega (arith, h, u.bounded, more, less)) (omega arith)
