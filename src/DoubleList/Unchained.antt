-- ===== src/DoubleList/Unchained.antt =====
-- container/TDoubleElement.h: `remove` takes the element out of the chain.
use pwxlib.Base.{
  ◌≡◌, inl, inr, refl, ◌∙◌, sym, true, false, List, [], ◌∷◌, ◌++◌, ◌==◌, arith, Bool-cases,
}
use mathlib.Core.Bool.{false≢true}
use pwxlib.SingleList.{Ptr}
use pwxlib.SingleList.Linked.{has, distinct, first, last}
use pwxlib.SingleList.Behind.{differs, has-last}
use pwxlib.DoubleList.{Heap, World, done, load}
use pwxlib.DoubleList.Element.{remove}
use pwxlib.DoubleList.Edit.{Same, At, At-kept, flip}
use pwxlib.DoubleList.Splice.{OrNull, load-nonnull, flipped}
use pwxlib.DoubleList.Removal.{IsOut, Closed, Apart, remove-Closed}
use pwxlib.DoubleList.Chained.{
  Chained, nil, cons, second, split_front, split_back, join, framed, distinct-back, apart_front,
  has-append, neighbour, off_next, load_null,
}

-- The element in front of the last one.
abbrev pub before_last : Ptr → List Ptr → Ptr
before_last p [] = 0
before_last p (x ∷ []) = p
before_last p (x ∷ y ∷ ys) = before_last x (y ∷ ys)

pub last_At :
    {h : Heap} {stop : Ptr} (p x : Ptr) (xs : List Ptr)
    → Chained h stop p (x ∷ xs)
    → At h true (before_last p (x ∷ xs)) (last xs x) stop
last_At p x [] (cons a c) = a
last_At p x (y ∷ ys) (cons a c) = last_At x y ys c

-- The last element leads elsewhere now.
pub new_stop :
    {h g : Heap} {stop q : Ptr} (p x : Ptr) (xs : List Ptr)
    → Chained h stop p (x ∷ xs)
    → distinct (x ∷ xs) ≡ true
    → At g true (before_last p (x ∷ xs)) (last xs x) q
    → ((a : Ptr) → has a (x ∷ xs) ≡ true → (a == last xs x) ≡ false → load a g ≡ load a h)
    → Chained g q p (x ∷ xs)
new_stop p x [] (cons a c) d t keep = cons t nil
new_stop p x (y ∷ ys) (cons a c) d t keep =
    let inside : has (last ys y) (y ∷ ys) ≡ true = has-last y ys in
    let ne = flipped (last ys y) x (differs (last ys y) x (y ∷ ys) inside (ground (arith, d))) in
    cons (At-kept (keep x (ground arith) ne) a)
      (new_stop x y ys c (ground (arith, d)) t (λ b i l. keep b (ground (arith, i)) l))

-- The element in front of the one that goes.
pub in_front :
    {h : Heap} {e : Ptr} (xs : List Ptr)
    → Chained h e 0 xs
    → OrNull (last xs 0) (At h true (before_last 0 xs) (last xs 0) e)
in_front [] c = inl refl
in_front (x ∷ xs) c = inr (last_At 0 x xs c)

pub off_last :
    (xs ys : List Ptr) (e : Ptr)
    → distinct (xs ++ (e ∷ ys)) ≡ true
    → (e == 0) ≡ false
    → (last xs 0 == e) ≡ false
off_last [] ys e d full = flipped e 0 full
off_last (x ∷ xs) ys e d full =
    let apart = apart_front (x ∷ xs) (e ∷ ys) (last xs x) d (has-last x xs) in ground (arith, apart)

pub neighbours-Apart :
    (xs ys : List Ptr) (e : Ptr) (w : World)
    → distinct (xs ++ (e ∷ ys)) ≡ true
    → Chained w.heap e 0 xs
    → Apart (last xs 0) (first ys 0)
neighbours-Apart [] ys e w d c = inl refl
neighbours-Apart (x ∷ xs) [] e w d c =
    let a = last_At 0 x xs c in inr (load-nonnull (last xs x) w.heap a.node a.here)
neighbours-Apart (x ∷ xs) (y ∷ ys) e w d c =
    let apart = apart_front (x ∷ xs) (e ∷ y ∷ ys) (last xs x) d (has-last x xs) in
    inr (ground (arith, apart))

pub distinct-front : (xs ys : List Ptr) → distinct (xs ++ ys) ≡ true → distinct xs ≡ true
distinct-front [] ys d = refl
distinct-front (x ∷ xs) ys d = ground (arith, d, distinct-front xs ys, has-append x xs ys)

-- An address outside the part behind, where its first address or null stands.
pub no_first :
    (ys : List Ptr) (a : Ptr) (h g : Heap)
    → has a ys ≡ false
    → (a == first ys 0) ≡ true
    → load a g ≡ load a h
no_first [] a h g out same = load_null a h g same
no_first (y ∷ ys) a h g out same = absurd (ground (arith, out, same))

-- An address behind, where the last address in front or null stands.
pub no_last :
    (xs ys : List Ptr) (a : Ptr) (h g : Heap)
    → distinct (xs ++ ys) ≡ true
    → has a ys ≡ true
    → (a == last xs 0) ≡ true
    → load a g ≡ load a h
no_last [] ys a h g d i same = load_null a h g same
no_last (x ∷ xs) ys a h g d i same =
    let out = apart_front (x ∷ xs) ys (last xs x) d (has-last x xs) in
    absurd (false≢true (sym (differs a (last xs x) ys i out) ∙ same))

module _ (xs ys : List Ptr) (e : Ptr) (w w' : World) (d : distinct (xs ++ (e ∷ ys)) ≡ true)
    (b : Closed (before_last 0 xs) (last xs 0) e (first ys 0) (second ys) w w') where
  kept_front :
      (a : Ptr) → has a xs ≡ true → (a == last xs 0) ≡ false → load a w'.heap ≡ load a w.heap
  kept_front a i l =
      let apart : has a (e ∷ ys) ≡ false = apart_front xs (e ∷ ys) a d i in
      let ae : (a == e) ≡ false = ground (arith, apart) in
      elim (Bool-cases (a == first ys 0)) [
        | inr other ↦ b.other a l ae other
        | inl same ↦ no_first ys a w.heap w'.heap (ground (arith, apart)) same
      ]

  -- What stands behind is not the last one in front, which may be null.
  kept_back :
      (a : Ptr) → has a ys ≡ true → (a == first ys 0) ≡ false → load a w'.heap ≡ load a w.heap
  kept_back a i l =
      let back : distinct (e ∷ ys) ≡ true = distinct-back xs (e ∷ ys) d in
      let ae = differs a e ys i (ground (arith, back)) in
      elim (Bool-cases (a == last xs 0)) [
        | inr other ↦ b.other a other ae l
        | inl same ↦ no_last xs (e ∷ ys) a w.heap w'.heap d (ground (arith, i)) same
      ]

closed_front :
    (xs ys : List Ptr) (e : Ptr) (w w' : World)
    → distinct (xs ++ (e ∷ ys)) ≡ true
    → Closed (before_last 0 xs) (last xs 0) e (first ys 0) (second ys) w w'
    → Chained w.heap e 0 xs
    → Chained w'.heap (first ys 0) 0 xs
closed_front [] ys e w w' d b c = nil
closed_front (x ∷ xs) ys e w w' d b c = elim b.first [
  | inl null ↦
      let a = last_At 0 x xs c in
      absurd (false≢true (sym (load-nonnull (last xs x) w.heap a.node a.here) ∙ null))
  | inr t ↦
      new_stop 0 x xs c (distinct-front (x ∷ xs) (e ∷ ys) d) t (kept_front (x ∷ xs) ys e w w' d b)
]

closed_back :
    (xs ys : List Ptr) (e : Ptr) (w w' : World)
    → distinct (xs ++ (e ∷ ys)) ≡ true
    → Closed (before_last 0 xs) (last xs 0) e (first ys 0) (second ys) w w'
    → Chained w.heap 0 e ys
    → Chained w'.heap 0 (last xs 0) ys
closed_back xs [] e w w' d b c = nil
closed_back xs (y ∷ ys) e w w' d b (cons a c) = elim b.last [
  | inl null ↦ absurd (false≢true (sym (load-nonnull y w.heap a.node a.here) ∙ null))
  | inr t ↦
      let back : distinct (e ∷ y ∷ ys) ≡ true = distinct-back xs (e ∷ y ∷ ys) d in
      cons (flip false t) (
        framed c (λ z i.
          kept_back xs (y ∷ ys) e w w' d b z (ground (arith, i))
            (differs z y ys i (ground (arith, back)))))
]

-- `remove` of an element in the middle of a chain, at its front or at its end returns, the
-- elements around it are chained as before without it, and it has no neighbours and is marked.
pub remove-Chained :
    (xs ys : List Ptr) (e : Ptr) (w : World)
    → Chained w.heap 0 0 (xs ++ (e ∷ ys))
    → distinct (xs ++ (e ∷ ys)) ≡ true
    → (w' : World) × (remove e w ≡ done w')
      × Chained w'.heap 0 0 (xs ++ ys)
      × IsOut e w'
      × Same w w'
remove-Chained xs ys e w c d = elim (split_back 0 xs (e ∷ ys) c) [
  | cons a rest ↦
      let front = split_front 0 xs (e ∷ ys) c in
      let full = load-nonnull e w.heap a.node a.here in
      let off = off_next e ys w rest e full (ground (arith, distinct-back xs (e ∷ ys) d)) in
      let at_q : OrNull (first ys 0) (At w.heap false (second ys) (first ys 0) e) =
        elim (neighbour e ys rest) [ inl null ↦ inl null | inr t ↦ inr (flip true t) ] in
      let (w', run, b) =
        remove-Closed (before_last 0 xs) (last xs 0) e (first ys 0) (second ys) w
          (off_last xs ys e d full) off (in_front xs front) at_q a.node a.here a.back a.onto
          (neighbours-Apart xs ys e w d front) in
      (
        w',
        run,
        join 0 xs ys (closed_front xs ys e w w' d b front) (closed_back xs ys e w w' d b rest),
        b.out,
        b.same,
      )
]
