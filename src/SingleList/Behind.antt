-- ===== src/SingleList/Behind.antt =====
-- Insertion behind an element and removal of the one behind it, on the list of addresses that a
-- list of container/TSingleList.h stands for.
pub mod Drop
use pwxlib.Base.{
  ℕ, zero, suc, ◌+◌, ◌<◌, ◌≡◌, refl, sym, ap, ◌∙◌, Bool, true, false, not, ◌&&◌, ◌||◌, List, [],
  ◌∷◌, ◌==◌, if◌then◌else◌, arith, length, Bool-cases, inl, inr, ==_iff,
}
use pwxlib.SingleList.{Ptr, Heap, load}
use pwxlib.SingleList.Linked.{has, distinct, first, last, At, Linked, nil, cons, frame, At_kept}

-- `e` behind `prev`.
abbrev pub behind : Ptr → Ptr → List Ptr → List Ptr
behind prev e [] = e ∷ []
behind prev e (x ∷ xs) = if x == prev then x ∷ e ∷ xs else x ∷ behind prev e xs

abbrev pub next_after : Ptr → List Ptr → Ptr → Ptr
next_after p [] stop = stop
next_after p (x ∷ xs) stop = if x == p then first xs stop else next_after p xs stop

pub At-next_after :
    {h : Heap} {stop : Ptr} {xs : List Ptr} (p : Ptr)
    → Linked h stop xs
    → has p xs ≡ true
    → At h p (next_after p xs stop)
At-next_after p nil i = absurd (ground arith)
At-next_after {h} {stop} p (cons {x} {xs} a l) i = elim (Bool-cases (x == p)) [
  | inl same ↦ let e : x ≡ p = (==_iff x p).0 same in rw (same) (rw (e) at a)
  | inr other ↦ rw (other) (At-next_after p l (ground arith))
]

pub first-behind :
    (p e : Ptr) (xs : List Ptr) (stop : Ptr)
    → has p xs ≡ true
    → first (behind p e xs) stop ≡ first xs stop
first-behind p e [] stop i = absurd (ground arith)
first-behind p e (x ∷ xs) stop i = ground arith

pub has-behind : (p e a : Ptr) (xs : List Ptr) → has a (behind p e xs) ≡ ((a == e) || has a xs)
has-behind p e a [] = ground arith
has-behind p e a (x ∷ xs) = ground (arith, has-behind p e a xs)

pub distinct-behind :
    (p e : Ptr) (xs : List Ptr)
    → distinct xs ≡ true
    → has e xs ≡ false
    → distinct (behind p e xs) ≡ true
distinct-behind p e [] d out = refl
distinct-behind p e (x ∷ xs) d out = ground (arith, distinct-behind p e xs, has-behind p e x xs)

pub length-behind : (p e : Ptr) (xs : List Ptr) → length (behind p e xs) ≡ suc (length xs)
length-behind p e [] = refl
length-behind p e (x ∷ xs) = ground (arith, length-behind p e xs)

pub has-last : (x : Ptr) (xs : List Ptr) → has (last xs x) (x ∷ xs) ≡ true
has-last x [] = ground arith
has-last x (y ∷ ys) = ground (arith, has-last y ys)

pub differs : (a b : Ptr) (xs : List Ptr) → has a xs ≡ true → has b xs ≡ false → (a == b) ≡ false
differs a b [] i o = absurd (ground arith)
differs a b (x ∷ xs) i o = ground (arith, differs a b xs)

pub last_after :
    (p x e : Ptr) (xs : List Ptr)
    → (x == p) ≡ true
    → has p xs ≡ false
    → last xs e ≡ (if last xs x == p then e else last xs x)
last_after p x e [] same o = ground arith
last_after p x e (y ∷ ys) same o =
    let ne = differs (last ys y) p (y ∷ ys) (has-last y ys) o in rw (ne) refl

pub last-behind :
    (p e d : Ptr) (xs : List Ptr)
    → distinct xs ≡ true
    → has p xs ≡ true
    → last (behind p e xs) d ≡ (if last xs d == p then e else last xs d)
last-behind p e d [] a i = absurd (ground arith)
last-behind p e d (x ∷ xs) a i = elim (Bool-cases (x == p)) [
  | inl same ↦ rw (same) (last_after p x e xs same (ground arith))
  | inr other ↦ rw (other) (last-behind p e x xs (ground arith) (ground arith))
]

pub Linked-behind :
    {h g : Heap} {stop : Ptr} {xs : List Ptr} (p e : Ptr)
    → Linked h stop xs
    → distinct xs ≡ true
    → has p xs ≡ true
    → has e xs ≡ false
    → At g p e
    → At g e (next_after p xs stop)
    → ((a : Ptr) → (a == p) ≡ false → (a == e) ≡ false → load a g ≡ load a h)
    → Linked g stop (behind p e xs)
Linked-behind p e nil d i out ap' ae same = absurd (ground arith)
Linked-behind {h} {g} {stop} p e (cons {x} {xs} a l) d i out at_p at_e same =
    elim (Bool-cases (x == p)) [
      | inl here ↦
          let eq : p ≡ x = sym ((==_iff x p).0 here) in
          let rest = frame l λ c q j b. At_kept (same c (ground arith) (ground arith)) b in
          rw (here) (cons (rw (eq) at at_p) (cons (rw (here) at at_e) rest))
      | inr other ↦
          let below : has p xs ≡ true = ground arith in
          rw (other) (
            cons (rw (first-behind p e xs stop below) (At_kept (same x other (ground arith)) a)) (
              Linked-behind p e l (ground arith) below (ground arith) at_p (rw (other) at at_e)
                same))
    ]
