-- ===== src/Hash/Public/Pop.antt =====
-- `pop_back` and `pop_front`: what they take, and the counter that they leave raised.
use pwxlib.Base.{
  ℕ, zero, suc, ◌<◌, ◌≡◌, ◌≢◌, inl, inr, refl, sym, ap, ◌∙◌, true, false, ◌||◌, Option, none, some,
  ◌==◌, succ_u32, arith, Bool-cases, ==_iff,
}
use mathlib.Core.Bool.{false≢true}
use pwxlib.Hash.{Elem, Table, table_get}
use pwxlib.Hash.Public.{
  Methods, busy, start_remove, wait_for_clear_and_grow, pop_back, pop_back_loop, head_inserted,
  clear,
}
use pwxlib.Hash.Public.Laws.{if-false}
use pwxlib.Hash.Public.Clear.{clear_waits}

module _ {K V : Type 0} (m : Methods K V) where
  -- Removal by an index leaves the counters alone.
  abbrev pub KeepsRemoving : Type 0
  KeepsRemoving = (t : Table K V) (i : ℕ) → (m.priv_remove_idx t i).1.removing ≡ t.removing

  module _ (keeps : KeepsRemoving) where
    below :
        (n p : ℕ) (t : Table K V)
        → p < suc n
        → head_inserted m (table_get t p) ≡ true
        → head_inserted m (table_get t n) ≡ false
        → p < n
    below n p t lt h on = elim (Bool-cases (p == n)) [
      | inl same ↦
          let e : p ≡ n = (==_iff _ _).0 same in
          absurd (false≢true (sym on ∙ ap (λ q. head_inserted m (table_get t q)) (sym e) ∙ h))
      | inr ne ↦ ground arith
    ]

    loop_busy :
        (n p : ℕ) (t : Table K V)
        → p < n
        → head_inserted m (table_get t p) ≡ true
        → (pop_back_loop m n t).1.removing ≡ t.removing
    unfolding pop_back_loop
    loop_busy zero p t lt h = absurd (omega arith)
    loop_busy (suc n) p t lt h = elim (Bool-cases (head_inserted m (table_get t n))) [
      | inl here ↦ rw here (keeps t n)
      | inr on ↦ rw on (loop_busy n p t (below n p t lt h on) h)
    ]

    -- On a live and idle table with an inserted element at the head of a place, of a hash whose
    -- removal by index leaves `removing` alone, `pop_back` returns with `removing` at 1, and a
    -- later `clear` by the same thread never returns.
    pub pop_back_busy :
        (fuel p : ℕ) (t : Table K V)
        → t.is_destroyed ≡ false
        → t.growing ≡ 0
        → t.clearing ≡ 0
        → t.removing ≡ 0
        → t.e_count ≢ 0
        → p < t.hash_size
        → head_inserted m (table_get t p) ≡ true
        → (o : Option (Elem K V)) × (t' : Table K V) × (pop_back m t ≡ some (o, t'))
          × (t'.removing ≡ 1)
          × (clear fuel t' ≡ none)
    unfolding pop_back start_remove wait_for_clear_and_grow table_get
    pop_back_busy fuel p t live g c r e lt h =
        let t₁ : Table K V = record t { removing = succ_u32 t.removing } in
        let up : (pop_back_loop m t.hash_size t₁).1.removing ≡ 1 =
          loop_busy t.hash_size p t₁ lt h ∙ ap succ_u32 r in
        let some_count : (t.e_count == 0) ≡ false = ground arith in
        let idle : (busy t.growing || busy t.clearing) ≡ false = ground arith in
        (
          (pop_back_loop m t.hash_size t₁).0,
          (pop_back_loop m t.hash_size t₁).1,
          if-false _ _ _ some_count ∙ (if-false _ _ _ live ∙ rw idle refl),
          up,
          clear_waits fuel _ (ap busy up),
        )
