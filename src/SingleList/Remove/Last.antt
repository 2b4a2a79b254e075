-- ===== src/SingleList/Remove/Last.antt =====
-- container/TSingleList.h: `head( nullptr )`, which every way to an empty list takes.
use pwxlib.Base.{ℕ, ◌≡◌, refl, ap, ◌∙◌, false, ◌||◌, List, [], ◌∷◌, ◌==◌, arith}
use pwxlib.SingleList.{Ptr, World, Run, undefined, ◌>>=◌, load, modify, deref}
use pwxlib.SingleList.Numbers.{set_nr, set_head, next_of}
use pwxlib.SingleList.Remove.{remove_head, priv_remove_after_element, clear, clear_from}
use pwxlib.SingleList.Edit.{then_done, deref-some, if_not}
use pwxlib.SingleList.Linked.{cons, Holds}
use pwxlib.SingleList.Splice.{not_null}
use pwxlib.SingleList.Numbers.Walks.{next_of-At}

head_of_nothing : (fuel : ℕ) (w : World) → set_head fuel 0 w ≡ undefined
unfolding set_head set_nr modify load
head_of_nothing fuel w = refl

then_undefined : {A B : Type 0} {r : Run A} (f : A → Run B) → r ≡ undefined → (r >>= f) ≡ undefined
then_undefined f e = ap (λ r. r >>= f) e

clear_undefined :
    (fuel : ℕ) (w : World) (x : Ptr) (xs : List Ptr) → Holds w (x ∷ xs) → clear fuel w ≡ undefined
unfolding clear clear_from
clear_undefined fuel w x xs h = elim h.linked [
  | cons a l ↦
      let nz : (w.head == 0) ≡ false = ap (λ p. p == 0) h.at_head ∙ not_null w x a in
      let counted : (w.e_count == 0 || w.head == 0) ≡ false = rw (h.counted, nz) (ground arith) in
      let lives : (a.node.is_removed || a.node.is_destroyed) ≡ false = rw (a.stays, a.alive) refl in
      if_not _ _ counted (
        then_done _ (ap (λ p. deref p w) h.at_head ∙ deref-some x w a.node a.here)
          (if_not _ _ lives (then_undefined _ (head_of_nothing fuel _))))
]

-- Removing the first element of a well-formed list of one, and `clear` of a well-formed list that
-- is not empty, never return, whatever the fuel: `head( new_head )` is called with a null pointer
-- and dereferences it.
pub remove_last-clear :
    (fuel : ℕ) (v w : World) (x y : Ptr) (xs : List Ptr)
    → Holds v (x ∷ [])
    → Holds w (y ∷ xs)
    → (priv_remove_after_element fuel 0 v ≡ undefined) × (clear fuel w ≡ undefined)
unfolding priv_remove_after_element remove_head
remove_last-clear fuel v w x y xs g h = elim g.linked [
  | cons a l ↦
      let nz : (v.head == 0) ≡ false = ap (λ p. p == 0) g.at_head ∙ not_null v x a in
      let no_next = ap (λ p. next_of p v) g.at_head ∙ next_of-At x 0 v a in
      (
        then_undefined _
            (if_not _ _ nz (then_done _ no_next (then_undefined _ (head_of_nothing fuel v)))),
        clear_undefined fuel w y xs h,
      )
]
