-- ===== src/Hash/Public/Clear.antt =====
-- `VTHashBase::clear`: it ends, and every element is deleted.
use pwxlib.Base.{
  ℕ, zero, suc, ◌+◌, ◌≡◌, ◌≤◌, ◌<◌, inl, inr, refl, sym, ap, ◌∙◌, true, false, ◌||◌, List, [], ◌∷◌,
  none, some, ◌==◌, if◌then◌else◌, u32_mod, succ_u32, pred_u32, length, Bool-cases, arith, ==_iff,
}
use native.Mathlib.Decide.{dec_lt}
use pwxlib.Hash.{Elem, Slot, Table, null, elems}
use pwxlib.Hash.Public.{
  clear_chain, clear_place, clear_loop, clear, wrap_pos, start_clear, stop_clear, delete_chain,
  delete_elem, busy, wait_for_clear_and_grow,
}
use pwxlib.Hash.Open.{◌>>=◌, unlinked}

module _ {K V : Type 0} where
  -- The elements at `left` places from `pos` on.
  unfoldable pub elems_from : (ℕ → Slot K V) → ℕ → ℕ → ℕ
  elems_from σ zero pos = 0
  elems_from σ (suc left) pos = length (elems (σ pos)) + elems_from σ left (pos + 1)

  length-zero : (es : List (Elem K V)) → length es ≡ 0 → es ≡ []
  length-zero [] h = refl
  length-zero (e ∷ es) h = absurd (omega arith)

  -- What the deletion of a chain changes.
  delete_chain_lem :
      (es : List (Elem K V)) (t : Table K V)
      → length es ≤ t.e_count
      → t.e_count < u32_mod
      → ((delete_chain es t).e_count + length es ≡ t.e_count)
        × (length (delete_chain es t).deleted ≡ length es + length t.deleted)
        × ((delete_chain es t).slots ≡ t.slots)
        × ((delete_chain es t).hash_size ≡ t.hash_size)
  delete_chain_lem [] t le lt = (omega arith, omega arith, refl, refl)
  delete_chain_lem (e ∷ es) t le lt =
      let (a, b, c, d) =
        delete_chain_lem es (delete_elem (unlinked e) (record t { e_count = pred_u32 t.e_count }))
          (omega arith) (omega arith) in
      (omega (arith, a), omega (arith, b), c, d)

  record Cleared (pos : ℕ) (t t' : Table K V) : Type 0 where
    count : t'.e_count + length (elems (t.slots pos)) ≡ t.e_count
    log : length t'.deleted ≡ length (elems (t.slots pos)) + length t.deleted
    here : elems (t'.slots pos) ≡ []
    others : (j : ℕ) → (j == pos) ≡ false → t'.slots j ≡ t.slots j

  clear_chain_lem :
      (pos : ℕ) (es : List (Elem K V)) (t : Table K V)
      → elems (t.slots pos) ≡ es
      → length es ≤ t.e_count
      → t.e_count < u32_mod
      → Cleared pos t (clear_chain pos es t)
  clear_chain_lem pos [] t q le lt = record {
    count = rw q (omega arith);
    log = rw q (omega arith);
    here = q;
    others = λ j h. refl;
  }
  clear_chain_lem pos (e ∷ es) t q le lt =
      let (a, b, c, d) =
        delete_chain_lem es (record t { slots = λ j. if j == pos then null else t.slots j })
          (omega arith) lt in
      record {
        count = rw q (omega (arith, a, le));
        log = rw q (omega (arith, b));
        here = ap (λ σ. elems (σ pos)) c ∙ ground arith;
        others = λ j h. ap (λ σ. σ j) c ∙ rw h refl;
      }

  elems_from-zero :
      (σ : ℕ → Slot K V) (left pos j : ℕ)
      → elems_from σ left pos ≡ 0
      → pos ≤ j
      → j < pos + left
      → elems (σ j) ≡ []
  unfolding elems_from
  elems_from-zero σ zero pos j e le lt = absurd (omega arith)
  elems_from-zero σ (suc left) pos j e le lt = elim (Bool-cases (j == pos)) [
    | inl same ↦
        let here : j ≡ pos = (==_iff _ _).0 same in
        rw here (length-zero (elems (σ pos)) (omega arith))
    | inr ne ↦ elems_from-zero σ left (pos + 1) j (omega arith) (ground arith) (omega arith)
  ]

  elems_from-same :
      (σ τ : ℕ → Slot K V) (left pos : ℕ)
      → ((j : ℕ) → pos ≤ j → σ j ≡ τ j)
      → elems_from σ left pos ≡ elems_from τ left pos
  unfolding elems_from
  elems_from-same σ τ zero pos h = refl
  elems_from-same σ τ (suc left) pos h =
      rw (h pos (omega arith), elems_from-same σ τ left (pos + 1) (λ j l. h j (omega arith))) refl

  loop_done :
      (fuel size pos : ℕ) (t : Table K V) → t.e_count ≡ 0 → clear_loop fuel size pos t ≡ some t
  unfolding clear_loop
  loop_done zero size pos t e = rw e refl
  loop_done (suc fuel) size pos t e = rw e refl

  -- Nothing is left in `t'`, and what `t` held is logged.
  pub record Emptied (size : ℕ) (t t' : Table K V) : Type 0 where
    pub count : t'.e_count ≡ 0
    pub gone : (j : ℕ) → j < size → elems (t'.slots j) ≡ []
    pub log : length t'.deleted ≡ t.e_count + length t.deleted

  all_empty :
      (pos : ℕ) (t t' : Table K V)
      → Cleared pos t t'
      → ((j : ℕ) → j < pos → elems (t.slots j) ≡ [])
      → (j : ℕ) → j < pos + 1
      → elems (t'.slots j) ≡ []
  all_empty pos t t' p done j h = elim (Bool-cases (j == pos)) [
    | inl same ↦ let e : j ≡ pos = (==_iff _ _).0 same in rw e p.here
    | inr ne ↦ ap elems (p.others j ne) ∙ done j (ground arith)
  ]

  none_from :
      (t : Table K V) (pos left j : ℕ)
      → ((j : ℕ) → j < pos → elems (t.slots j) ≡ [])
      → elems_from t.slots left pos ≡ 0
      → j < pos + left
      → elems (t.slots j) ≡ []
  none_from t pos left j done z lt = elim (dec_lt j pos) [
    | yes below ↦ done j below
    | no above ↦ elems_from-zero t.slots left pos j z (omega arith) lt
  ]

  loop_Emptied :
      (fuel left size pos : ℕ) (t : Table K V)
      → left ≤ fuel
      → pos + left ≡ size
      → elems_from t.slots left pos ≡ t.e_count
      → t.e_count < u32_mod
      → ((j : ℕ) → j < pos → elems (t.slots j) ≡ [])
      → (t' : Table K V) × (clear_loop fuel size pos t ≡ some t') × Emptied size t t'
  unfolding clear_loop elems_from
  loop_Emptied fuel zero size pos t f e c lt done = (
    t,
    loop_done fuel size pos t (sym c),
    record { count = sym c; gone = λ j h. done j (omega arith); log = omega arith },
  )
  loop_Emptied zero (suc left) size pos t f e c lt done = absurd (omega arith)
  loop_Emptied (suc fuel) (suc left) size pos t f e c lt done = elim (Bool-cases (t.e_count == 0)) [
    | inl none_left ↦
        let z : t.e_count ≡ 0 = (==_iff _ _).0 none_left in
        (
          t,
          rw none_left refl,
          record {
            count = z;
            gone = λ j h. none_from t pos (suc left) j done (c ∙ z) (omega (arith, e));
            log = omega arith;
          },
        )
    | inr more ↦
        let t₁ = clear_place pos t in
        let p = clear_chain_lem pos _ t refl (omega (arith, c)) lt in
        let same =
          elems_from-same t₁.slots t.slots left (pos + 1) (λ j l. p.others j (ground arith)) in
        let c' : elems_from t₁.slots left (pos + 1) ≡ t₁.e_count =
          omega (arith, same, c, p.count) in
        let onward : (t' : Table K V) × (clear_loop fuel size (wrap_pos size pos) t₁ ≡ some t')
            × Emptied size t₁ t' =
          elim (Bool-cases (left == 0)) [
            | inl last ↦
                let z : left ≡ 0 = (==_iff _ _).0 last in
                let z' : t₁.e_count ≡ 0 = sym c' ∙ ap (λ n. elems_from t₁.slots n (pos + 1)) z in
                (
                  t₁,
                  loop_done fuel size (wrap_pos size pos) t₁ z',
                  record {
                    count = z';
                    gone = λ j h. all_empty pos t t₁ p done j (omega (arith, z));
                    log = omega (arith, z');
                  },
                )
            | inr further ↦
                let w : wrap_pos size pos ≡ pos + 1 = ground arith in
                rw w (
                  loop_Emptied fuel left size (pos + 1) t₁ (omega arith) (omega arith) c'
                    (omega (arith, p.count)) (all_empty pos t t₁ p done))
          ] in
        let (t', run, x) = onward in
        (
          t',
          rw more run,
          record { count = x.count; gone = x.gone; log = omega (arith, x.log, p.log, p.count) },
        )
  ]

  start_idle :
      (t : Table K V)
      → t.removing ≡ 0
      → t.growing ≡ 0
      → t.inserting ≡ 0
      → start_clear t ≡ some (record t { clearing = succ_u32 t.clearing })
  unfolding start_clear
  start_idle t r g i =
      let idle : (busy t.removing || busy t.growing || busy t.inserting) ≡ false = ground arith in
      rw idle refl

  -- `clear` of a table that no thread grows, clears, fills or removes from, whose count is the
  -- number of elements in its places, returns after at most `hash_size` rounds; then the count is
  -- 0, no place has an element, and as many elements have been deleted as there were.
  pub clear_total :
      (fuel : ℕ) (t : Table K V)
      → t.hash_size ≤ fuel
      → elems_from t.slots t.hash_size 0 ≡ t.e_count
      → t.e_count < u32_mod
      → t.removing ≡ 0
      → t.growing ≡ 0
      → t.inserting ≡ 0
      → t.clearing ≡ 0
      → (t' : Table K V) × (clear fuel t ≡ some t') × Emptied t.hash_size t t'
  unfolding clear wait_for_clear_and_grow
  clear_total fuel t f c lt r g i z =
      let at_rest : (busy t.growing || busy t.clearing) ≡ false = ground (arith, g, z) in
      let (t', run, x) =
        loop_Emptied fuel t.hash_size t.hash_size 0 (record t { clearing = succ_u32 t.clearing }) f
          (omega arith) c lt (λ j h. absurd (omega arith)) in
      (
        stop_clear t',
        rw (at_rest, start_idle t r g i) (ap (λ o. o >>= λ u. some (stop_clear u)) run),
        record { count = x.count; gone = x.gone; log = x.log },
      )

  -- While another counter is up, `clear` waits.
  pub clear_waits : (fuel : ℕ) (t : Table K V) → busy t.removing ≡ true → clear fuel t ≡ none
  unfolding clear start_clear wait_for_clear_and_grow
  clear_waits fuel t b = elim (Bool-cases (busy t.growing || busy t.clearing)) [
    | inl waits ↦ rw waits refl
    | inr passes ↦ rw (passes, b) refl
  ]
