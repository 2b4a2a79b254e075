-- ===== src/SingleList/Store.antt =====
-- container/TSingleList.h over container/CThreadElementStore.h: the pointer that stands for the
-- list's `currStore` is what a store without thread safety keeps.
use pwxlib.Base.{
  ℕ, ◌≡◌, refl, ap, ◌∙◌, true, false, not, ◌&&◌, some, ◌==◌, arith, Bool-cases, inl, inr, ==_iff,
}
use pwxlib.Hash.{Key}
use pwxlib.Hash.Stepping.{Hashing}
use pwxlib.Hash.Public.{Growth}
use pwxlib.ElementStore.{ElementStore}
use pwxlib.ElementStore as Store
use pwxlib.SingleList.{Ptr, World}
use pwxlib.SingleList.Element.{invalidate}
use pwxlib.SingleList.Numbers.{set_curr}
use pwxlib.SingleList.Edit.{if_so, if_not}

abbrev pub SameCurr : ElementStore → World → Type 0
SameCurr s w = (s.thread_safe ≡ false) × (s.one_curr ≡ w.curr_ptr)

invalidate_agrees :
    ⦃key : Key ℕ⦄ (H : Hashing) (g : Growth) (fuel : ℕ) (e : Ptr) (s : ElementStore) (w : World)
    → s.thread_safe ≡ false
    → s.one_curr ≡ w.curr_ptr
    → (s₂ : ElementStore) × (Store.invalidate H g fuel e s ≡ some s₂) × SameCurr s₂ (invalidate e w)
unfolding Store.invalidate invalidate
invalidate_agrees H g fuel e s w bare same = elim (Bool-cases (w.curr_ptr == e)) [
  | inl hit ↦ elim (Bool-cases (s.one_curr == 0)) [
    | inl null ↦
        let pass : (not (s.one_curr == 0) && s.one_curr == e) ≡ false = rw (null) refl in
        let z : s.one_curr ≡ 0 = (==_iff s.one_curr 0).0 null in
        (s, if_not _ _ bare (if_not _ _ pass refl), (bare, rw (hit) z))
    | inr is_some ↦
        let reset : (not (s.one_curr == 0) && s.one_curr == e) ≡ true =
          rw (is_some) (ap (λ q. q == e) same ∙ hit) in
        (record s { one_curr = 0 }, if_not _ _ bare (if_so _ _ reset refl), (bare, rw (hit) refl))
  ]
  | inr miss ↦
      let pass : (not (s.one_curr == 0) && s.one_curr == e) ≡ false =
        rw (same, miss) (ground arith) in
      (s, if_not _ _ bare (if_not _ _ pass refl), (bare, rw (miss) same))
]

-- For a store that is not thread-safe and a list whose current pointer is the store's: `curr()`
-- gives that pointer, and after `curr( e )` and after `invalidate( e )` the store is not
-- thread-safe and keeps the pointer that the list has.
pub unshared_agrees :
    ⦃key : Key ℕ⦄ (H : Hashing) (g : Growth) (fuel me : ℕ) (e : Ptr) (s : ElementStore) (w : World)
    → s.thread_safe ≡ false
    → s.one_curr ≡ w.curr_ptr
    → (Store.curr H g fuel me s ≡ some w.curr_ptr)
      × ((s₁ : ElementStore) × (Store.set_curr H g fuel me e s ≡ some s₁)
          × SameCurr s₁ (set_curr e w))
      × ((s₂ : ElementStore) × (Store.invalidate H g fuel e s ≡ some s₂)
          × SameCurr s₂ (invalidate e w))
unfolding Store.curr Store.set_curr set_curr
unshared_agrees H g fuel me e s w bare same =
    let single : not s.thread_safe ≡ true = ap not bare in
    (
      if_not _ _ bare (ap some same),
      (record s { one_curr = e }, if_so _ _ single refl, (bare, refl)),
      invalidate_agrees H g fuel e s w bare same,
    )
