-- ===== src/DoubleList/Undone.antt =====
-- container/TDoubleList.h: insertion in front of all, and removal of what was inserted.
use pwxlib.Base.{
  ℕ, ◌<◌, ◌+◌, ◌≡◌, refl, ap, ◌∙◌, sym, false, List, [], ◌∷◌, ◌++◌, ◌==◌, arith, length,
}
use mathlib.Core.Path.{subst}
use pwxlib.SingleList.{Ptr}
use pwxlib.DoubleList.{World, done, ◌>>=◌}
use pwxlib.DoubleList.Element.{insert_prev}
use pwxlib.DoubleList.Edit.{then_done}
use pwxlib.DoubleList.Removal.{IsOut}
use pwxlib.DoubleList.Chained.{IsFree}
use pwxlib.DoubleList.Ahead.{insert_prev-Chained}
use pwxlib.DoubleList.Numbers.{set_curr}
use pwxlib.DoubleList.Numbered.{Chained-Kept, set_head-Kept}
use pwxlib.DoubleList.Insert.{insert_at_head, insert_at_end, prot_insert}
use pwxlib.DoubleList.Remove.{priv_remove}
use pwxlib.DoubleList.Held.{IsList, prot_insert-IsList, one_more, counted_up, length-put}
use pwxlib.DoubleList.Left.{priv_remove-IsList, length-drop}

-- Where the state of a list is such a chain and not empty, `protInsert` of a live element from
-- outside behind null returns the new count, with room in the count and enough fuel; afterwards
-- the state is the same chain with the new element in front, which is the head.
pub prot_insert-front :
    (fuel : ℕ) (y x : Ptr) (ys : List Ptr) (w : World)
    → IsList w (y ∷ ys)
    → IsFree x (y ∷ ys) w
    → length ys + 2 < 4294967296
    → length ys + 2 < fuel
    → (w' : World) × (prot_insert fuel 0 x w ≡ done (length ys + 2, w')) × IsList w' (x ∷ y ∷ ys)
unfolding prot_insert insert_at_end insert_at_head
prot_insert-front fuel y x ys w h f fits enough =
    let some_here : (w.e_count == 0) ≡ false = ap (λ n. n == 0) h.counted ∙ ground arith in
    let free : IsFree x (y ∷ ys) (set_curr x w) = record {
      node = f.node;
      here = f.here;
      alive = f.alive;
      outside = f.outside;
    } in
    let (w₁, r₁, c₁, s₁) = insert_prev-Chained [] ys y x (set_curr x w) h.chained h.apart free in
    let linked : insert_prev w.head x (set_curr x w) ≡ done w₁ =
      ap (λ p. insert_prev p x (set_curr x w)) h.at_head ∙ r₁ in
    let (w₂, r₂, k₂) = set_head-Kept fuel 0 x (y ∷ ys) w₁ c₁ (omega (arith, enough)) in
    let count : w₂.e_count ≡ length (y ∷ ys) = k₂.same.count_same ∙ s₁.count_same ∙ h.counted in
    let total = counted_up _ (length (y ∷ ys)) count (omega (arith, fits)) in
    let shown : length (y ∷ ys) + 1 ≡ length ys + 2 = omega arith in
    (
      one_more w₂,
      (rw (some_here, linked, r₂, total, shown) refl),
      record {
        chained = Chained-Kept k₂ c₁;
        apart = ground (arith, h.apart, f.outside);
        at_head = k₂.same.head_same;
        at_tail = k₂.same.tail_same ∙ s₁.tail_same ∙ h.at_tail;
        counted = total ∙ shown ∙ omega arith;
      },
    )

regroup : (xs zs : List Ptr) (e : Ptr) → (xs ++ (e ∷ [])) ++ zs ≡ xs ++ (e ∷ zs)
regroup [] zs e = refl
regroup (x ∷ xs) zs e = ap (λ l. x ∷ l) (regroup xs zs e)

length-empty : (xs ys : List Ptr) (e : Ptr) → (length (xs ++ (e ∷ ys)) == 0) ≡ false
length-empty xs ys e = ground (arith, length-drop xs ys e)

-- Where the state of a list is such a chain, `protInsert` of a live element from outside behind an
-- element of the list and then `privRemove` of it return, with room in the count and enough fuel,
-- and the list has the elements it had before, in the same order.
pub priv_remove-prot_insert :
    (fuel : ℕ) (xs ys : List Ptr) (e x : Ptr) (w : World)
    → IsList w (xs ++ (e ∷ ys))
    → IsFree x (xs ++ (e ∷ ys)) w
    → length (xs ++ (e ∷ ys)) + 1 < 4294967296
    → length (xs ++ (e ∷ ys)) + 1 < fuel
    → (w' : World) × ((do (n, v) ← prot_insert fuel e x w; priv_remove fuel x v) ≡ done (x, w'))
      × IsList w' (xs ++ (e ∷ ys))
      × IsOut x w'
priv_remove-prot_insert fuel xs ys e x w h f fits enough =
    let (v, r, g) = prot_insert-IsList fuel xs ys e x w h f fits in
    let all = regroup xs (x ∷ ys) e in
    let left = regroup xs ys e in
    let held : IsList v ((xs ++ (e ∷ [])) ++ (x ∷ ys)) = subst (λ l. IsList v l) (sym all) g in
    let size : length ((xs ++ (e ∷ [])) ++ (x ∷ ys)) ≡ length (xs ++ (e ∷ ys)) + 1 =
      ap (λ l. length l) all ∙ length-put xs ys e x in
    let some_left = ap (λ l. length l == 0) left ∙ length-empty xs ys e in
    let room : length ((xs ++ (e ∷ [])) ++ ys) + 1 < fuel =
      subst (λ l. length l + 1 < fuel) (sym left) enough in
    let (w', q, k, out) =
      priv_remove-IsList fuel (xs ++ (e ∷ [])) ys x v held (omega (arith, size, fits)) some_left
        room in
    (w', then_done _ r q, subst (λ l. IsList w' l) left k, out)
