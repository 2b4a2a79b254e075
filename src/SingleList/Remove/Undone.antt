-- ===== src/SingleList/Remove/Undone.antt =====
-- container/TSingleList.h: removal undoes insertion.
use pwxlib.Base.{
  ℕ, ◌+◌, ◌<◌, ◌≡◌, ◌⊎◌, refl, ap, ◌∙◌, true, false, List, [], ◌∷◌, ◌==◌, arith, length, u32_mod,
  inl, inr, ==_iff,
}
use pwxlib.SingleList.{Ptr, World, done, ◌>>=◌}
use pwxlib.SingleList.Insert.{prot_insert}
use pwxlib.SingleList.Insert.Grown.{Fresh, not_zero}
use pwxlib.SingleList.Insert.Holds.{prot_insert-Holds}
use pwxlib.SingleList.Remove.{priv_remove_after_element}
use pwxlib.SingleList.Remove.Holds.{taken, left_after, Gone, priv_remove_after_element-Holds}
use pwxlib.SingleList.Edit.{if_so, if_not, then_done}
use pwxlib.SingleList.Linked.{has, Holds}
use pwxlib.SingleList.Behind.{behind, next_after, has-behind, At-next_after, length-behind}
use pwxlib.SingleList.Behind.Drop.{drop_after-behind, next_after-behind}
use pwxlib.SingleList.Splice.{not_null}

-- A list with at least two elements, as the code of the removal asks for it.
abbrev pub Removes : ℕ → Ptr → Ptr → List Ptr → World → Type 0
Removes fuel p e xs w =
    (w' : World) × (priv_remove_after_element fuel p w ≡ done (e, w')) × Holds w' xs × Gone w' e

pub undo :
    (fuel : ℕ) (p e x : Ptr) (xs zs : List Ptr) (w : World)
    → Holds w zs
    → length zs ≡ length (x ∷ xs) + 1
    → (p ≡ 0) ⊎ ((has p zs ≡ true) × ((next_after p zs 0 == 0) ≡ false))
    → taken p zs ≡ e
    → left_after p zs ≡ x ∷ xs
    → length xs + 2 < fuel
    → length xs + 2 < u32_mod
    → Removes fuel p e (x ∷ xs) w
undo fuel p e x xs [] w h len c t l enough room = absurd (omega (arith, len))
undo fuel p e x xs (a ∷ []) w h len c t l enough room = absurd (omega (arith, len))
undo fuel p e x xs (a ∷ b ∷ zs) w h len c t l enough room =
    let (w', r, good, gone) =
      priv_remove_after_element-Holds fuel p a b zs w h c (omega (arith, enough, len))
        (omega (arith, room, len)) in
    (w', rw (← t) r, rw (← l) good, rw (← t) gone)

-- In a well-formed list that is not empty, with enough fuel and room in the count: `protInsert` of
-- a fresh element behind an element of the list, or behind null, and then `privRemoveAfterElement`
-- behind the same pointer return the new element, marked as removed, and the list holds what it
-- held before.
pub remove-prot_insert :
    (fuel : ℕ) (p e x : Ptr) (xs : List Ptr) (w : World)
    → Holds w (x ∷ xs)
    → (p ≡ 0) ⊎ (has p (x ∷ xs) ≡ true)
    → has e (x ∷ xs) ≡ false
    → Fresh w.heap e
    → length xs + 3 < fuel
    → length xs + 2 < u32_mod
    → (w' : World) × ((do (n, w₁) ← prot_insert fuel p e w; priv_remove_after_element fuel p w₁)
        ≡ done (e, w'))
      × Holds w' (x ∷ xs)
      × Gone w' e
remove-prot_insert fuel p e x xs w h (inl z) out f enough room =
    let is_null : (p == 0) ≡ true = (==_iff p 0).1 z in
    let (w₁, r₁, h₁) =
      prot_insert-Holds fuel p e (x ∷ xs) w h (inl z) out f (omega (arith, enough))
        (omega (arith, room)) in
    let (w₂, r₂, h₂, gone) =
      undo fuel p e x xs (e ∷ x ∷ xs) w₁ (rw (is_null) at h₁) (omega arith) (inl z)
        (if_so _ _ is_null refl) (if_so _ _ is_null refl) (omega (arith, enough)) room in
    (w₂, then_done _ r₁ r₂, h₂, gone)
remove-prot_insert fuel p e x xs w h (inr i) out f enough room =
    let nz = not_null w p (At-next_after p h.linked i) in
    let next_is : next_after p (behind p e (x ∷ xs)) 0 ≡ e = next_after-behind p e (x ∷ xs) i in
    let e_nz : (e == 0) ≡ false = not_zero e w f.node f.here in
    let (w₁, r₁, h₁) =
      prot_insert-Holds fuel p e (x ∷ xs) w h (inr i) out f (omega (arith, enough))
        (omega (arith, room)) in
    let stays : has p (behind p e (x ∷ xs)) ≡ true =
      rw (has-behind p e p (x ∷ xs), i) (ground arith) in
    let (w₂, r₂, h₂, gone) =
      undo fuel p e x xs (behind p e (x ∷ xs)) w₁ (rw (nz) at h₁)
        (length-behind p e (x ∷ xs) ∙ omega arith) (inr (stays, ap (λ q. q == 0) next_is ∙ e_nz))
        (if_not _ _ nz next_is) (if_not _ _ nz (drop_after-behind p e (x ∷ xs) i))
        (omega (arith, enough)) room in
    (w₂, then_done _ r₁ r₂, h₂, gone)
