-- ===== src/DoubleList/Ahead.antt =====
-- container/TDoubleElement.h: `insertPrev` puts the new element into the chain.
use pwxlib.Base.{◌≡◌, inl, inr, ◌∙◌, sym, true, false, List, [], ◌∷◌, ◌++◌, ◌==◌, arith, Bool-cases}
use mathlib.Core.Bool.{false≢true}
use pwxlib.SingleList.{Ptr}
use pwxlib.SingleList.Linked.{has, distinct, first, last}
use pwxlib.SingleList.Behind.{differs, has-last}
use pwxlib.DoubleList.{World, done, load}
use pwxlib.DoubleList.Element.{insert_prev}
use pwxlib.DoubleList.Edit.{Same, At, flip}
use pwxlib.DoubleList.Splice.{OrNull, Between, insert_prev-Between, load-nonnull, flipped}
use pwxlib.DoubleList.Chained.{
  Chained, nil, cons, split_front, split_back, join, framed, distinct-back, apart_front, IsFree,
  has-append,
}
use pwxlib.DoubleList.Unchained.{
  before_last, last_At, new_stop, in_front, off_last, distinct-front, no_last,
}

module _ (xs ys : List Ptr) (e x : Ptr) (w w' : World) (d : distinct (xs ++ (e ∷ ys)) ≡ true)
    (out : has x (xs ++ (e ∷ ys)) ≡ false)
    (b : Between false (first ys 0) e x (last xs 0) (before_last 0 xs) w w') where
  kept_front :
      (a : Ptr) → has a xs ≡ true → (a == last xs 0) ≡ false → load a w'.heap ≡ load a w.heap
  kept_front a i l =
      let apart : has a (e ∷ ys) ≡ false = apart_front xs (e ∷ ys) a d i in
      let not_x : has x xs ≡ false = ground (arith, out, has-append x xs (e ∷ ys)) in
      b.other a (ground (arith, apart)) (differs a x xs i not_x) l

  kept_back : (a : Ptr) → has a ys ≡ true → load a w'.heap ≡ load a w.heap
  kept_back a i =
      let back : distinct (e ∷ ys) ≡ true = distinct-back xs (e ∷ ys) d in
      let not_x : has x (e ∷ ys) ≡ false = ground (arith, out, has-append x xs (e ∷ ys)) in
      elim (Bool-cases (a == last xs 0)) [
        | inl same ↦ no_last xs (e ∷ ys) a w.heap w'.heap d (ground (arith, i)) same
        | inr other ↦
            b.other a (differs a e ys i (ground (arith, back)))
              (differs a x ys i (ground (arith, not_x))) other
      ]

ahead_front :
    (xs ys : List Ptr) (e x : Ptr) (w w' : World)
    → distinct (xs ++ (e ∷ ys)) ≡ true
    → has x (xs ++ (e ∷ ys)) ≡ false
    → Between false (first ys 0) e x (last xs 0) (before_last 0 xs) w w'
    → Chained w.heap e 0 xs
    → Chained w'.heap x 0 xs
ahead_front [] ys e x w w' d out b c = nil
ahead_front (z ∷ xs) ys e x w w' d out b c = elim b.last [
  | inl null ↦
      let a = last_At 0 z xs c in
      absurd (false≢true (sym (load-nonnull (last xs z) w.heap a.node a.here) ∙ null))
  | inr t ↦
      new_stop 0 z xs c (distinct-front (z ∷ xs) (e ∷ ys) d) (flip false t)
        (kept_front (z ∷ xs) ys e x w w' d out b)
]

off_new :
    (xs ys : List Ptr) (x : Ptr)
    → has x (xs ++ ys) ≡ false
    → (x == 0) ≡ false
    → (last xs 0 == x) ≡ false
off_new [] ys x out full = flipped x 0 full
off_new (z ∷ xs) ys x out full =
    let not_x : has x (z ∷ xs) ≡ false = ground (arith, out, has-append x (z ∷ xs) ys) in
    differs (last xs z) x (z ∷ xs) (has-last z xs) not_x

-- `insertPrev` of a live element outside the list returns, and the chain has it in front of `e`.
pub insert_prev-Chained :
    (xs ys : List Ptr) (e x : Ptr) (w : World)
    → Chained w.heap 0 0 (xs ++ (e ∷ ys))
    → distinct (xs ++ (e ∷ ys)) ≡ true
    → IsFree x (xs ++ (e ∷ ys)) w
    → (w' : World) × (insert_prev e x w ≡ done w')
      × Chained w'.heap 0 0 (xs ++ (x ∷ e ∷ ys))
      × Same w w'
insert_prev-Chained xs ys e x w c d f = elim (split_back 0 xs (e ∷ ys) c) [
  | cons a rest ↦
      let front = split_front 0 xs (e ∷ ys) c in
      let out : has x (e ∷ ys) ≡ false = ground (arith, f.outside, has-append x xs (e ∷ ys)) in
      let full = load-nonnull e w.heap a.node a.here in
      let x_full = load-nonnull x w.heap f.node f.here in
      let ex : (e == x) ≡ false = flipped x e (ground (arith, out)) in
      let at_q : OrNull (last xs 0) (At w.heap false e (last xs 0) (before_last 0 xs)) =
        elim (in_front xs front) [ inl null ↦ inl null | inr t ↦ inr (flip true t) ] in
      let (w', run, b) =
        insert_prev-Between (first ys 0) e x (last xs 0) (before_last 0 xs) w f.node f.here f.alive
          ex (off_new xs (e ∷ ys) x f.outside x_full)
          (flipped (last xs 0) e (off_last xs ys e d full)) (flip true a) at_q in
      let back = framed rest (kept_back xs ys e x w w' d f.outside b) in
      let new = cons (flip false b.middle) (cons (flip false b.first) back) in
      (w', run, join 0 xs (x ∷ e ∷ ys) (ahead_front xs ys e x w w' d f.outside b front) new, b.same)
]
