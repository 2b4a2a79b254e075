-- ===== src/DoubleList/Chained.antt =====
-- What a list of container/TDoubleList.h stands for: the addresses that its `next` pointers lead
-- through, each element pointing back at the one before; and how insertion and removal change it.
use pwxlib.Base.{
  ◌≡◌, inl, inr, refl, ◌∙◌, sym, true, false, ◌||◌, List, [], ◌∷◌, ◌++◌, some, ◌==◌, arith,
  Bool-cases, ==_iff,
}
use mathlib.Core.Bool.{false≢true}
use pwxlib.SingleList.{Ptr}
use pwxlib.SingleList.Linked.{has, distinct, first, last}
use pwxlib.SingleList.Behind.{differs}
use pwxlib.DoubleList.{Node, Heap, World, done, load}
use pwxlib.DoubleList.Element.{insert_next}
use pwxlib.DoubleList.Edit.{Same, At, At-kept}
use pwxlib.DoubleList.Splice.{OrNull, Between, insert_next-Between, load-nonnull, flipped}

-- The elements in order: the first has `p` in front, the last leads to `stop`.
pub data Chained (h : Heap) (stop : Ptr) : Ptr → List Ptr → Type 0 where
  nil : {p : Ptr} → Chained h stop p []
  cons :
      {p x : Ptr} {xs : List Ptr}
      → At h true p x (first xs stop)
      → Chained h stop x xs
      → Chained h stop p (x ∷ xs)

pub first-append :
    (xs ys : List Ptr) (stop : Ptr) → first (xs ++ ys) stop ≡ first xs (first ys stop)
first-append [] ys stop = refl
first-append (x ∷ xs) ys stop = refl

-- The chain of both parts, and back.
pub split_front :
    {h : Heap} {stop : Ptr} (p : Ptr) (xs ys : List Ptr)
    → Chained h stop p (xs ++ ys)
    → Chained h (first ys stop) p xs
split_front p [] ys c = nil
split_front {h} {stop} p (x ∷ xs) ys (cons a c) =
    cons (rw (first-append xs ys stop) at a) (split_front x xs ys c)

pub split_back :
    {h : Heap} {stop : Ptr} (p : Ptr) (xs ys : List Ptr)
    → Chained h stop p (xs ++ ys)
    → Chained h stop (last xs p) ys
split_back p [] ys c = c
split_back p (x ∷ xs) ys (cons a c) = split_back x xs ys c

pub join :
    {h : Heap} {stop : Ptr} (p : Ptr) (xs ys : List Ptr)
    → Chained h (first ys stop) p xs
    → Chained h stop (last xs p) ys
    → Chained h stop p (xs ++ ys)
join p [] ys c d = d
join {h} {stop} p (x ∷ xs) ys (cons a c) d =
    cons (rw (first-append xs ys stop) a) (join x xs ys c d)

-- Elements that keep their content keep their chain.
pub framed :
    {h g : Heap} {stop p : Ptr} {xs : List Ptr}
    → Chained h stop p xs
    → ((a : Ptr) → has a xs ≡ true → load a g ≡ load a h)
    → Chained g stop p xs
framed nil keep = nil
framed (cons {p} {x} {xs} a c) keep =
    cons (At-kept (keep x (ground arith)) a) (framed c (λ b i. keep b (ground arith)))

pub has-append : (a : Ptr) (xs ys : List Ptr) → has a (xs ++ ys) ≡ (has a xs || has a ys)
has-append a [] ys = refl
has-append a (x ∷ xs) ys = ground (arith, has-append a xs ys)

pub distinct-back : (xs ys : List Ptr) → distinct (xs ++ ys) ≡ true → distinct ys ≡ true
distinct-back [] ys d = d
distinct-back (x ∷ xs) ys d = distinct-back xs ys (ground (arith, d))

pub apart_front :
    (xs ys : List Ptr) (a : Ptr) → distinct (xs ++ ys) ≡ true → has a xs ≡ true → has a ys ≡ false
apart_front [] ys a d i = absurd (ground (arith, i))
apart_front (x ∷ xs) ys a d i = elim (Bool-cases (a == x)) [
  | inl same ↦ let e : a ≡ x = (==_iff a x).0 same in rw e (ground (arith, d, has-append x xs ys))
  | inr other ↦ apart_front xs ys a (ground (arith, d)) (ground (arith, i, other))
]

-- A live element at `x` that is not in the list.
pub record IsFree (x : Ptr) (zs : List Ptr) (w : World) : Type 0 where
  pub node : Node
  pub here : load x w.heap ≡ some node
  pub alive : node.is_destroyed ≡ false
  pub outside : has x zs ≡ false

-- An element in the front part is none of those behind, and not the new one.
front_other :
    (xs ys : List Ptr) (e x a : Ptr)
    → distinct (xs ++ (e ∷ ys)) ≡ true
    → has x (xs ++ (e ∷ ys)) ≡ false
    → has a xs ≡ true
    → ((a == e) ≡ false) × ((a == x) ≡ false) × (has a ys ≡ false)
front_other xs ys e x a d out i =
    let apart : has a (e ∷ ys) ≡ false = apart_front xs (e ∷ ys) a d i in
    let not_x : has x xs ≡ false = ground (arith, out, has-append x xs (e ∷ ys)) in
    (ground (arith, apart), differs a x xs i not_x, ground (arith, apart))

pub load_null : (a : Ptr) (h g : Heap) → (a == 0) ≡ true → load a g ≡ load a h
unfolding load
load_null a h g z = ground (arith, z)

abbrev pub second : List Ptr → Ptr
second [] = 0
second (y ∷ ys) = first ys 0

-- The element that the new one is put in front of.
pub neighbour :
    {h : Heap} (e : Ptr) (ys : List Ptr)
    → Chained h 0 e ys
    → OrNull (first ys 0) (At h true e (first ys 0) (second ys))
neighbour e [] nil = inl refl
neighbour e (y ∷ ys) (cons a c) = inr a

front_kept :
    (xs ys : List Ptr) (e x : Ptr) (w w' : World)
    → distinct (xs ++ (e ∷ ys)) ≡ true
    → has x (xs ++ (e ∷ ys)) ≡ false
    → Between true (last xs 0) e x (first ys 0) (second ys) w w'
    → (a : Ptr) → has a xs ≡ true
    → load a w'.heap ≡ load a w.heap
front_kept xs [] e x w w' d out b a i =
    let (ae, ax, ay) = front_other xs [] e x a d out i in
    elim (Bool-cases (a == 0)) [
      | inl null ↦ load_null a w.heap w'.heap null
      | inr full ↦ b.other a ae ax full
    ]
front_kept xs (y ∷ ys) e x w w' d out b a i =
    let (ae, ax, ay) = front_other xs (y ∷ ys) e x a d out i in b.other a ae ax (ground (arith, ay))

-- What the step leaves of the chain behind the new element.
behind_new :
    (pp e x : Ptr) (ys : List Ptr) (w w' : World)
    → Chained w.heap 0 e ys
    → distinct (e ∷ ys) ≡ true
    → has x (e ∷ ys) ≡ false
    → Between true pp e x (first ys 0) (second ys) w w'
    → Chained w'.heap 0 x ys
behind_new pp e x [] w w' nil d out b = nil
behind_new pp e x (y ∷ ys) w w' (cons a c) d out b = elim b.last [
  | inl null ↦ absurd (false≢true (sym (load-nonnull y w.heap a.node a.here) ∙ null))
  | inr t ↦ cons t (
      framed c (λ z i.
        b.other z (differs z e ys i (ground (arith, d))) (differs z x ys i (ground (arith, out)))
          (differs z y ys i (ground (arith, d)))))
]

pub off_next :
    (e : Ptr) (ys : List Ptr) (w : World)
    → Chained w.heap 0 e ys
    → (x : Ptr) → (x == 0) ≡ false
    → has x ys ≡ false
    → (first ys 0 == x) ≡ false
off_next e [] w c x full out = flipped x 0 full
off_next e (y ∷ ys) w c x full out = flipped x y (ground (arith, out))

-- `insertNext` of a live element outside the list returns, and the chain has it behind `e`.
pub insert_next-Chained :
    (xs ys : List Ptr) (e x : Ptr) (w : World)
    → Chained w.heap 0 0 (xs ++ (e ∷ ys))
    → distinct (xs ++ (e ∷ ys)) ≡ true
    → IsFree x (xs ++ (e ∷ ys)) w
    → (w' : World) × (insert_next e x w ≡ done w')
      × Chained w'.heap 0 0 (xs ++ (e ∷ x ∷ ys))
      × Same w w'
insert_next-Chained xs ys e x w c d f = elim (split_back 0 xs (e ∷ ys) c) [
  | cons at_e rest ↦
      let back : distinct (e ∷ ys) ≡ true = distinct-back xs (e ∷ ys) d in
      let out : has x (e ∷ ys) ≡ false = ground (arith, f.outside, has-append x xs (e ∷ ys)) in
      let full = load-nonnull x w.heap f.node f.here in
      let e_full = load-nonnull e w.heap at_e.node at_e.here in
      let ex : (e == x) ≡ false = flipped x e (ground (arith, out)) in
      let qx = off_next e ys w rest x full (ground (arith, out)) in
      let eq = flipped (first ys 0) e (off_next e ys w rest e e_full (ground (arith, back))) in
      let (w', run, b) =
        insert_next-Between (last xs 0) e x (first ys 0) (second ys) w f.node f.here f.alive ex qx
          eq at_e (neighbour e ys rest) in
      let tail = behind_new (last xs 0) e x ys w w' rest back out b in
      let front = framed (split_front 0 xs (e ∷ ys) c) (front_kept xs ys e x w w' d f.outside b) in
      (w', run, join 0 xs (e ∷ x ∷ ys) front (cons b.first (cons b.middle tail)), b.same)
]
