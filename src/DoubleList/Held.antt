-- ===== src/DoubleList/Held.antt =====
-- container/TDoubleList.h: the list that a state stands for, and insertion into it.
use pwxlib.Base.{
  ℕ, ◌<◌, ◌+◌, ◌≡◌, refl, ap, ◌∙◌, sym, true, false, ◌||◌, List, [], ◌∷◌, ◌++◌, ◌==◌, arith, ==_iff,
  length, succ_u32,
}
use pwxlib.SingleList.{Ptr}
use pwxlib.SingleList.Linked.{has, distinct, first, last}
use pwxlib.SingleList.Behind.{differs, has-last}
use pwxlib.DoubleList.{Node, World, done, deref, read}
use pwxlib.DoubleList.Element.{insert_next}
use pwxlib.DoubleList.Edit.{then_done}
use pwxlib.DoubleList.Splice.{load-nonnull}
use pwxlib.DoubleList.Chained.{
  Chained, cons, IsFree, distinct-back, split_back, insert_next-Chained,
}
use pwxlib.DoubleList.Numbers.{set_nr, set_curr, numbered}
use pwxlib.DoubleList.Numbered.{Chained-Kept, set_nr-Kept}
use pwxlib.DoubleList.Insert.{insert_behind, insert_at_tail, insert_at_end, prot_insert}

pub record IsList (w : World) (xs : List Ptr) : Type 0 where
  pub chained : Chained w.heap 0 0 xs
  pub apart : distinct xs ≡ true
  pub at_head : w.head ≡ first xs 0
  pub at_tail : w.tail ≡ last xs 0
  pub counted : w.e_count ≡ length xs

pub last-append : (xs ys : List Ptr) (e p : Ptr) → last (xs ++ (e ∷ ys)) p ≡ last ys e
last-append [] ys e p = refl
last-append (x ∷ xs) ys e p = last-append xs ys e x

pub first-put :
    (xs ys zs : List Ptr) (e p : Ptr) → first (xs ++ (e ∷ ys)) p ≡ first (xs ++ (e ∷ zs)) p
first-put [] ys zs e p = refl
first-put (x ∷ xs) ys zs e p = refl

pub length-put :
    (xs ys : List Ptr) (e x : Ptr) → length (xs ++ (e ∷ x ∷ ys)) ≡ length (xs ++ (e ∷ ys)) + 1
length-put [] ys e x = omega arith
length-put (z ∷ xs) ys e x = omega (arith, length-put xs ys e x)

pub has-put :
    (a : Ptr) (xs ys : List Ptr) (e x : Ptr)
    → has a (xs ++ (e ∷ x ∷ ys)) ≡ (a == x || has a (xs ++ (e ∷ ys)))
has-put a [] ys e x = ground arith
has-put a (z ∷ xs) ys e x = ground (arith, has-put a xs ys e x)

pub distinct-put :
    (xs ys : List Ptr) (e x : Ptr)
    → distinct (xs ++ (e ∷ ys)) ≡ true
    → has x (xs ++ (e ∷ ys)) ≡ false
    → distinct (xs ++ (e ∷ x ∷ ys)) ≡ true
distinct-put [] ys e x d o = ground (arith, d, o)
distinct-put (z ∷ xs) ys e x d o = ground (arith, d, o, distinct-put xs ys e x, has-put z xs ys e x)

-- The element `e` is the tail only if nothing stands behind it.
pub off_tail :
    (xs ys : List Ptr) (e y : Ptr) → distinct (xs ++ (e ∷ y ∷ ys)) ≡ true → (last ys y == e) ≡ false
off_tail xs ys e y d =
    let back : distinct (e ∷ y ∷ ys) ≡ true = distinct-back xs (e ∷ y ∷ ys) d in
    differs (last ys y) e (y ∷ ys) (has-last y ys) (ground (arith, back))

length-some : (xs ys : List Ptr) (e : Ptr) → (length (xs ++ (e ∷ ys)) == 0) ≡ false
length-some [] ys e = ground arith
length-some (x ∷ xs) ys e = ground arith

pub counted_up : (n m : ℕ) → n ≡ m → m + 1 < 4294967296 → succ_u32 n ≡ m + 1
counted_up n m e fits = grind (arith, e, fits)

abbrev pub one_more : World → World
one_more w = record w { e_count = succ_u32 w.e_count }

-- The chain has the new element, and the ends and the count follow.
put-IsList :
    (xs ys : List Ptr) (e x : Ptr) (w v : World)
    → IsList w (xs ++ (e ∷ ys))
    → has x (xs ++ (e ∷ ys)) ≡ false
    → length (xs ++ (e ∷ ys)) + 1 < 4294967296
    → Chained v.heap 0 0 (xs ++ (e ∷ x ∷ ys))
    → v.head ≡ w.head
    → v.tail ≡ last ys x
    → v.e_count ≡ w.e_count
    → IsList (one_more v) (xs ++ (e ∷ x ∷ ys))
put-IsList xs ys e x w v h out fits c head tail count = record {
  chained = c;
  apart = distinct-put xs ys e x h.apart out;
  at_head = head ∙ h.at_head ∙ first-put xs ys (x ∷ ys) e 0;
  at_tail = tail ∙ sym (last-append xs (x ∷ ys) e 0);
  counted = counted_up _ _ (count ∙ h.counted) fits ∙ sym (length-put xs ys e x);
}

insert_at_tail-run :
    (fuel : ℕ) (x : Ptr) (t : Node) (w w₁ w₂ : World)
    → deref w.tail w ≡ done t
    → set_nr (succ_u32 t.e_nr) x w ≡ done w₁
    → insert_next w₁.tail x w₁ ≡ done w₂
    → insert_at_tail fuel x w ≡ done (record w₂ { tail = x })
unfolding insert_at_tail
insert_at_tail-run fuel x t w w₁ w₂ at numbers linked =
    then_done _ at (then_done _ numbers (then_done _ linked refl))

-- In a list whose state is a chain of distinct live elements that lead both ways, with its ends
-- and its count, `protInsert` of a live element from outside, behind an element of the list and
-- with room in the count, returns the new count; afterwards the state is the same chain with the
-- new element directly behind the given one.
pub prot_insert-IsList :
    (fuel : ℕ) (xs ys : List Ptr) (e x : Ptr) (w : World)
    → IsList w (xs ++ (e ∷ ys))
    → IsFree x (xs ++ (e ∷ ys)) w
    → length (xs ++ (e ∷ ys)) + 1 < 4294967296
    → (w' : World) × (prot_insert fuel e x w ≡ done (length (xs ++ (e ∷ ys)) + 1, w'))
      × IsList w' (xs ++ (e ∷ x ∷ ys))
unfolding prot_insert insert_behind insert_at_end
prot_insert-IsList fuel xs [] e x w h f fits =
    let is_tail : w.tail ≡ e = h.at_tail ∙ last-append xs [] e 0 in
    let some_here : (w.e_count == 0) ≡ false = ap (λ n. n == 0) h.counted ∙ length-some xs [] e in
    elim (split_back 0 xs (e ∷ []) h.chained) [
      | cons a rest ↦
          let full = load-nonnull e w.heap a.node a.here in
          let nr = succ_u32 a.node.e_nr in
          let (w₁, r₁, e₁, k₁) = set_nr-Kept nr x f.node (set_curr x w) f.here in
          let free : IsFree x (xs ++ (e ∷ [])) w₁ = record {
            node = numbered nr f.node;
            here = e₁.at;
            alive = f.alive;
            outside = f.outside;
          } in
          let (w₂, r₂, c₂, s₂) =
            insert_next-Chained xs [] e x w₁ (Chained-Kept k₁ h.chained) h.apart free in
          let tail₁ : w₁.tail ≡ e = k₁.same.tail_same ∙ is_tail in
          let count : w₂.e_count ≡ w.e_count = s₂.count_same ∙ k₁.same.count_same in
          let head : w₂.head ≡ w.head = s₂.head_same ∙ k₁.same.head_same in
          let v : World = record w₂ { tail = x } in
          let at_e : deref w.tail (set_curr x w) ≡ done a.node =
            ap (λ p. deref p w) is_tail ∙ ap read a.here in
          let linked : insert_next w₁.tail x w₁ ≡ done w₂ =
            ap (λ p. insert_next p x w₁) tail₁ ∙ r₂ in
          let at_end = insert_at_tail-run fuel x a.node (set_curr x w) w₁ w₂ at_e r₁ linked in
          let same_e : (e == w.tail) ≡ true = (==_iff e w.tail).1 (sym is_tail) in
          let tail_e : (w.tail == e) ≡ true = (==_iff w.tail e).1 is_tail in
          let total = counted_up _ _ (count ∙ h.counted) fits in
          (
            one_more v,
            (rw (some_here, full, tail_e, same_e, at_end, total) refl),
            put-IsList xs [] e x w v h f.outside fits c₂ head refl count,
          )
    ]
prot_insert-IsList fuel xs (y ∷ ys) e x w h f fits =
    let some_here : (w.e_count == 0) ≡ false =
      ap (λ n. n == 0) h.counted ∙ length-some xs (y ∷ ys) e in
    let at_tail : w.tail ≡ last ys y = h.at_tail ∙ last-append xs (y ∷ ys) e 0 in
    let other : (w.tail == e) ≡ false = ap (λ p. p == e) at_tail ∙ off_tail xs ys e y h.apart in
    elim (split_back 0 xs (e ∷ y ∷ ys) h.chained) [
      | cons a rest ↦
          let full = load-nonnull e w.heap a.node a.here in
          let w₁ : World = record w { curr_ptr = x; do_renumber = true } in
          let free : IsFree x (xs ++ (e ∷ y ∷ ys)) w₁ = record {
            node = f.node;
            here = f.here;
            alive = f.alive;
            outside = f.outside;
          } in
          let (w₂, r₂, c₂, s₂) = insert_next-Chained xs (y ∷ ys) e x w₁ h.chained h.apart free in
          (
            one_more w₂,
            (rw (some_here, full, other, r₂, counted_up _ _ (s₂.count_same ∙ h.counted) fits) refl),
            put-IsList xs (y ∷ ys) e x w w₂ h f.outside fits c₂ s₂.head_same
                (s₂.tail_same ∙ at_tail) s₂.count_same,
          )
    ]
