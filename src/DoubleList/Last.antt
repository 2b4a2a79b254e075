-- ===== src/DoubleList/Last.antt =====
-- container/TDoubleList.h: every removal of the only element calls `head( nullptr )`.
use pwxlib.Base.{ℕ, ◌≡◌, refl, ap, ◌∙◌, true, [], ◌∷◌, ◌==◌, ==_iff}
use pwxlib.SingleList.{Ptr}
use pwxlib.DoubleList.{World, undefined, load, modify}
use pwxlib.DoubleList.Splice.{load-nonnull}
use pwxlib.DoubleList.Chained.{cons}
use pwxlib.DoubleList.Numbers.{next_of, set_nr, set_head}
use pwxlib.DoubleList.Numbered.{next_of-At}
use pwxlib.DoubleList.Remove.{leave_ends, priv_remove, priv_remove_after_element, pop_back}
use pwxlib.DoubleList.Held.{IsList}

head_of_nothing : (fuel : ℕ) (w : World) → set_head fuel 0 w ≡ undefined
unfolding set_head set_nr modify load
head_of_nothing fuel w = refl

only_undefined :
    (fuel : ℕ) (e : Ptr) (w : World) → IsList w (e ∷ []) → priv_remove fuel e w ≡ undefined
unfolding priv_remove leave_ends
only_undefined fuel e w h = elim h.chained [
  | cons a rest ↦
      let full = load-nonnull e w.heap a.node a.here in
      let is_head : (w.head == e) ≡ true = (==_iff w.head e).1 h.at_head in
      let next = ap (λ p. next_of p w) h.at_head ∙ next_of-At 0 e 0 w a in
      rw (full, a.here, a.stays, a.alive, is_head, next, head_of_nothing fuel w) refl
]

-- In a list whose state is a chain of one live element, the removal of this element is undefined,
-- whatever the fuel, by `privRemove`, by `privRemoveAfterElement` of null, which `pop_front`
-- calls, and by `pop_back`: `head( new_head )` dereferences a null pointer.
pub priv_remove-only :
    (fuel : ℕ) (e : Ptr) (w : World)
    → IsList w (e ∷ [])
    → (priv_remove fuel e w ≡ undefined)
      × (priv_remove_after_element fuel 0 w ≡ undefined)
      × (pop_back fuel w ≡ undefined)
unfolding priv_remove_after_element pop_back
priv_remove-only fuel e w h =
    let gone = only_undefined fuel e w h in
    (
      gone,
      ap (λ p. priv_remove fuel p w) h.at_head ∙ gone,
      ap (λ p. priv_remove fuel p w) h.at_tail ∙ gone,
    )
