-- ===== src/SingleList/Behind/Drop.antt =====
-- The list of addresses without the one behind a given one.
use pwxlib.Base.{
  suc, ◌≡◌, refl, sym, ap, ◌∙◌, true, false, List, [], ◌∷◌, ◌==◌, if◌then◌else◌, arith, length,
  Bool-cases, inl, inr, ==_iff,
}
use pwxlib.SingleList.{Ptr, Heap, load}
use pwxlib.SingleList.Edit.{if_not}
use pwxlib.SingleList.Splice.{==_comm}
use pwxlib.SingleList.Linked.{has, distinct, first, last, At, Linked, nil, cons, frame, At_kept}
use pwxlib.SingleList.Behind.{behind, next_after, differs, last_after}

abbrev pub rest_of : List Ptr → List Ptr
rest_of [] = []
rest_of (x ∷ xs) = xs

abbrev pub drop_after : Ptr → List Ptr → List Ptr
drop_after p [] = []
drop_after p (x ∷ xs) = if x == p then x ∷ rest_of xs else x ∷ drop_after p xs

first-drop_after :
    (p : Ptr) (xs : List Ptr) (stop : Ptr) → first (drop_after p xs) stop ≡ first xs stop
first-drop_after p [] stop = refl
first-drop_after p (x ∷ xs) stop = ground arith

has-rest_of : (a : Ptr) (xs : List Ptr) → has a xs ≡ false → has a (rest_of xs) ≡ false
has-rest_of a [] o = refl
has-rest_of a (x ∷ xs) o = ground arith

has-drop_after : (p a : Ptr) (xs : List Ptr) → has a xs ≡ false → has a (drop_after p xs) ≡ false
has-drop_after p a [] o = refl
has-drop_after p a (x ∷ xs) o = ground (arith, has-drop_after p a xs, has-rest_of a xs)

distinct-rest_of : (xs : List Ptr) → distinct xs ≡ true → distinct (rest_of xs) ≡ true
distinct-rest_of [] d = refl
distinct-rest_of (x ∷ xs) d = ground arith

pub distinct-drop_after :
    (p : Ptr) (xs : List Ptr) → distinct xs ≡ true → distinct (drop_after p xs) ≡ true
distinct-drop_after p [] d = refl
distinct-drop_after p (x ∷ xs) d =
    ground (
      arith,
      distinct-drop_after p xs,
      distinct-rest_of xs,
      has-rest_of x xs,
      has-drop_after p x xs,
    )

-- What is behind another element is in the list too.
pub has-next_after :
    (p : Ptr) (xs : List Ptr) → (next_after p xs 0 == 0) ≡ false → has (next_after p xs 0) xs ≡ true
has-next_after p [] nz = absurd (ground arith)
has-next_after p (x ∷ []) nz = absurd (ground arith)
has-next_after p (x ∷ y ∷ ys) nz = ground (arith, has-next_after p (y ∷ ys))

pub next_after_differs :
    (p : Ptr) (xs : List Ptr)
    → distinct xs ≡ true
    → has p xs ≡ true
    → (next_after p xs 0 == 0) ≡ false
    → (p == next_after p xs 0) ≡ false
next_after_differs p [] d i nz = absurd (ground arith)
next_after_differs p (x ∷ []) d i nz = absurd (ground arith)
next_after_differs p (x ∷ y ∷ ys) d i nz = ground (arith, next_after_differs p (y ∷ ys))

pub length-drop_after :
    (p : Ptr) (xs : List Ptr)
    → (next_after p xs 0 == 0) ≡ false
    → length xs ≡ suc (length (drop_after p xs))
length-drop_after p [] nz = absurd (ground arith)
length-drop_after p (x ∷ []) nz = absurd (ground arith)
length-drop_after p (x ∷ y ∷ ys) nz = ground (arith, length-drop_after p (y ∷ ys))

pub first-drop_after_same : (p : Ptr) (xs : List Ptr) → first (drop_after p xs) 0 ≡ first xs 0
first-drop_after_same p xs = first-drop_after p xs 0

-- The list ends at `p` when the last one was the one behind it.
pub last-drop_after :
    (p d : Ptr) (xs : List Ptr)
    → distinct xs ≡ true
    → has p xs ≡ true
    → (next_after p xs 0 == 0) ≡ false
    → last (drop_after p xs) d ≡ (if last xs d == next_after p xs 0 then p else last xs d)
last-drop_after p d [] a i nz = absurd (ground arith)
last-drop_after p d (x ∷ []) a i nz = absurd (ground arith)
last-drop_after p d (x ∷ y ∷ ys) a i nz = elim (Bool-cases (x == p)) [
  | inl same ↦
      let e : p ≡ x = sym ((==_iff x p).0 same) in
      rw (same, e) (last_after y y x ys ((==_iff y y).1 refl) (ground arith))
  | inr other ↦
      rw (other) (last-drop_after p x (y ∷ ys) (ground arith) (ground arith) (ground arith))
]

two_after :
    (p x y : Ptr) (ys : List Ptr)
    → distinct (x ∷ y ∷ ys) ≡ true
    → (x == p) ≡ true
    → next_after (next_after p (x ∷ y ∷ ys) 0) (x ∷ y ∷ ys) 0 ≡ first ys 0
two_after p x y ys d same = ground arith

pub Linked-drop_after :
    {h g : Heap} {xs : List Ptr} (p : Ptr)
    → Linked h 0 xs
    → distinct xs ≡ true
    → has p xs ≡ true
    → (next_after p xs 0 == 0) ≡ false
    → At g p (next_after (next_after p xs 0) xs 0)
    → ((a : Ptr) → (a == p) ≡ false → (a == next_after p xs 0) ≡ false → load a g ≡ load a h)
    → Linked g 0 (drop_after p xs)
Linked-drop_after p nil d i nz at_p same = absurd (ground arith)
Linked-drop_after p (cons a nil) d i nz at_p same = absurd (ground arith)
Linked-drop_after {h} {g} p (cons {x} a (cons {x = y} {xs = ys} b l)) d i nz at_p same =
    elim (Bool-cases (x == p)) [
      | inl here ↦
          let rest = frame l λ c q j t. At_kept (same c (ground arith) (ground arith)) t in
          let e : p ≡ x = sym ((==_iff x p).0 here) in
          let at_x = rw (two_after p x y ys d here) at at_p in
          rw (here) (cons (rw (e) at at_x) rest)
      | inr other ↦
          let deep : (next_after p (y ∷ ys) 0 == 0) ≡ false = ground arith in
          let apart : (x == next_after p (y ∷ ys) 0) ≡ false =
            ==_comm _ _ ∙ differs _ x (y ∷ ys) (has-next_after p (y ∷ ys) deep) (ground arith) in
          let below : next_after p (x ∷ y ∷ ys) 0 ≡ next_after p (y ∷ ys) 0 =
            if_not _ _ other refl in
          let under : next_after (next_after p (x ∷ y ∷ ys) 0) (x ∷ y ∷ ys) 0
              ≡ next_after (next_after p (y ∷ ys) 0) (y ∷ ys) 0 =
            ap (λ r. next_after r (x ∷ y ∷ ys) 0) below ∙ if_not _ _ apart refl in
          rw (other) (
            cons
              (rw (first-drop_after p (y ∷ ys) 0)
                (At_kept (same x other (ap (λ r. x == r) below ∙ apart)) a))
              (Linked-drop_after p (cons b l) (ground arith) (ground arith) deep
                (rw (under) at at_p) λ c cp cr. same c cp (ap (λ r. c == r) below ∙ cr)))
    ]

pub drop_after-behind :
    (p e : Ptr) (xs : List Ptr) → has p xs ≡ true → drop_after p (behind p e xs) ≡ xs
drop_after-behind p e [] i = absurd (ground arith)
drop_after-behind p e (x ∷ xs) i = elim (Bool-cases (x == p)) [
  | inl same ↦ rw (same, same) refl
  | inr other ↦ rw (other, other) (ap (λ ys. x ∷ ys) (drop_after-behind p e xs (ground arith)))
]

pub next_after-behind :
    (p e : Ptr) (xs : List Ptr) → has p xs ≡ true → next_after p (behind p e xs) 0 ≡ e
next_after-behind p e [] i = absurd (ground arith)
next_after-behind p e (x ∷ xs) i = ground (arith, next_after-behind p e xs)
