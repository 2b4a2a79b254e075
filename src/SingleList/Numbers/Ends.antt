-- ===== src/SingleList/Numbers/Ends.antt =====
-- container/TSingleList.h: what `head( new_head )` and `protRenumber()` leave as numbers.
use pwxlib.Base.{
  ℕ, zero, suc, ◌+◌, ◌<◌, ◌≡◌, refl, ap, ◌∙◌, true, false, not, List, [], ◌∷◌, ◌==◌, arith, length,
  succ_u32,
}
use pwxlib.SingleList.{Ptr, World, done}
use pwxlib.SingleList.Numbers.{
  set_nr, next_or_null, walk_on, number_on, copy_number, number_from, renumber, renumbered,
  set_head,
}
use pwxlib.SingleList.Numbers.Walks.{
  Numbered, Numbered-trans, Shows, set_nr-Numbers, next_of-At, Linked-Numbered, number_on-Numbers,
  copy_number-Numbers, apart_next,
}
use pwxlib.SingleList.Edit.{then_done, deref-some, if_so, if_not}
use pwxlib.SingleList.Linked.{has, distinct, first, At, Linked, cons, Holds}
use pwxlib.SingleList.Splice.{not_null, ==_comm}

abbrev pub with_head : Ptr → World → World
with_head p w = record w { head = p }

Numbered-with_head :
    {xs : List Ptr} {w w' : World} (p : Ptr)
    → Numbered xs w w'
    → Numbered xs (with_head p w) (with_head p w')
Numbered-with_head p d = record {
  links = λ a q l. d.links a q l;
  others = λ a o. d.others a o;
  same = record {
    head_same = refl;
    tail_same = d.same.tail_same;
    count_same = d.same.count_same;
    renumber_same = d.same.renumber_same;
    safe_same = d.same.safe_same;
    free_same = d.same.free_same;
    curr_kept = d.same.curr_kept;
  };
}

next_or_null-At : (p q : Ptr) (w : World) → At w.heap p q → next_or_null p w ≡ done q
unfolding next_or_null
next_or_null-At p q w a = if_not _ _ (not_null w p a) (next_of-At p q w a)

-- The two rounds in which the loop of `head( new_head )` returns to its first element, which
-- ends with number 2, and the rounds that follow.
number_on_two :
    (fuel : ℕ) (x y : Ptr) (ys : List Ptr) (w : World)
    → Linked w.heap 0 (x ∷ y ∷ ys)
    → distinct (x ∷ y ∷ ys) ≡ true
    → length ys < fuel
    → Shows w x 0
    → (w' : World) × (number_on (suc (suc fuel)) x y w ≡ done w')
      × Numbered (x ∷ y ∷ ys) w w'
      × Shows w' x 2
unfolding number_on
number_on_two fuel x y ys w (cons a (cons b l)) d enough (n, nh, n0) =
    let xy : (x == y) ≡ false = ground arith in
    let go : walk_on x y ≡ true = rw (not_null w x a, not_null w y b, xy) refl in
    let back : walk_on y x ≡ true = rw (not_null w x a, not_null w y b, ==_comm y x, xy) refl in
    let (w₁, r₁, d₁, (m, mh, m1)) = set_nr-Numbers 1 y _ w b in
    let a₁ = d₁.links _ _ a in
    let (w₂, r₂, d₂, s₂) = set_nr-Numbers 2 x y w₁ a₁ in
    let b₂ = d₂.links _ _ (d₁.links _ _ b) in
    let (w₃, r₃, d₃) =
      number_on-Numbers fuel ys y _ w₂ (Linked-Numbered d₂ (Linked-Numbered d₁ l)) (ground arith)
        enough b₂ (apart_next y ys (not_null w y b) (ground arith)) in
    let run₃ = then_done _ (deref-some y w₁ m mh) (
      then_done _ (ap (λ j. set_nr (succ_u32 j) x w₁) m1 ∙ r₂)
        (then_done _ (next_of-At y _ w₂ b₂) r₃)) in
    let run = then_done _ (deref-some x w n nh) (
      then_done _ (ap (λ j. set_nr (succ_u32 j) y w) n0 ∙ r₁)
        (then_done _ (next_of-At x y w₁ a₁) (if_not _ _ (ap not back) run₃))) in
    let first_two : Numbered (x ∷ y ∷ []) w w₂ =
      Numbered-trans d₁ d₂ λ z o. (ground arith, ground arith) in
    let (k, kh, k2) = s₂ in
    (
      w₃,
      if_not _ _ (ap not go) run,
      Numbered-trans first_two d₃ (λ z o. (ground arith, ground arith)),
      (k, d₃.others x (ground arith) ∙ kh, k2),
    )

abbrev pub HeadRun : ℕ → Ptr → List Ptr → World → Type 0
HeadRun fuel p ys w =
    (w' : World) × (set_head fuel p w ≡ done w') × Numbered (p ∷ ys) (with_head p w) w'

set_head-one : (fuel : ℕ) (p : Ptr) (w : World) → At w.heap p 0 → HeadRun (suc fuel) p [] w
unfolding set_head number_on
set_head-one fuel p w a =
    let (w₁, r₁, d₁, s₁) = set_nr-Numbers 0 p 0 w a in
    let stop : not (walk_on p 0) ≡ true = ground arith in
    (
      with_head p w₁,
      then_done _ r₁ (then_done _ (next_or_null-At p 0 w₁ (d₁.links _ _ a)) (if_so _ _ stop refl)),
      Numbered-with_head p d₁,
    )

-- If at least two distinct linked elements follow from an element on, itself counted, `head(
-- new_head )` with this element returns with enough fuel and changes only the head and numbers;
-- the number of the new head, whose index is 0, is 2 afterwards.
pub set_head-two :
    (fuel : ℕ) (x y : Ptr) (ys : List Ptr) (w : World)
    → Linked w.heap 0 (x ∷ y ∷ ys)
    → distinct (x ∷ y ∷ ys) ≡ true
    → length ys < fuel
    → (w' : World) × (set_head (suc (suc fuel)) x w ≡ done w')
      × Numbered (x ∷ y ∷ ys) (with_head x w) w'
      × Shows w' x 2
unfolding set_head
set_head-two fuel x y ys w (cons a l) d enough =
    let (w₁, r₁, d₁, s₁) = set_nr-Numbers 0 x y w a in
    let a₁ = d₁.links _ _ a in
    let (w₂, r₂, d₂, s₂) =
      number_on_two fuel x y ys (with_head x w₁) (cons a₁ (Linked-Numbered d₁ l)) d enough s₁ in
    (
      w₂,
      then_done _ r₁ (then_done _ (next_or_null-At x y w₁ a₁) r₂),
      Numbered-trans (Numbered-with_head x d₁) d₂ (λ z o. (ground arith, o)),
      s₂,
    )

pub set_head-Head :
    (fuel : ℕ) (p : Ptr) (ys : List Ptr) (w : World)
    → Linked w.heap 0 (p ∷ ys)
    → distinct (p ∷ ys) ≡ true
    → length ys + 1 < fuel
    → HeadRun fuel p ys w
set_head-Head (suc fuel) p [] w (cons a l) d enough = set_head-one fuel p w a
set_head-Head (suc (suc fuel)) p (y ∷ ys) w l d enough =
    let (w', r, n, s) = set_head-two fuel p y ys w l d (omega (arith, enough)) in (w', r, n)
set_head-Head zero p ys w l d enough = absurd (omega (arith, enough))
set_head-Head (suc zero) p (y ∷ ys) w l d enough = absurd (omega (arith, enough))

pub Holds-Numbered : {xs ys : List Ptr} {w w' : World} → Numbered ys w w' → Holds w xs → Holds w' xs
Holds-Numbered d h = record {
  linked = Linked-Numbered d h.linked;
  apart = h.apart;
  at_head = d.same.head_same ∙ h.at_head;
  at_tail = d.same.tail_same ∙ h.at_tail;
  counted = d.same.count_same ∙ h.counted;
}

Holds-renumbered : {xs : List Ptr} {w : World} → Holds w xs → Holds (renumbered w) xs
Holds-renumbered h = record {
  linked = h.linked;
  apart = h.apart;
  at_head = h.at_head;
  at_tail = h.at_tail;
  counted = h.counted;
}

abbrev AllZero : World → List Ptr → Type 0
AllZero w xs = (a : Ptr) → has a xs ≡ true → Shows w a 0

number_from-first :
    (fuel : ℕ) (xs : List Ptr) (w : World)
    → Holds w xs
    → length xs < fuel
    → (w' : World) × (number_from fuel (first xs 0) w ≡ done w') × Holds w' xs × AllZero w' xs
unfolding number_from next_or_null copy_number
number_from-first zero xs w h enough = absurd (omega (arith, enough))
number_from-first (suc fuel) [] w h enough = (w, refl, h, λ a i. ground arith)
number_from-first (suc fuel) (x ∷ xs) w h enough = elim h.linked [
  | cons a l ↦
      let (w₁, r₁, d₁, s₁) = set_nr-Numbers 0 x _ w a in
      let (w₂, r₂, d₂, s₂) =
        copy_number-Numbers (suc fuel) xs x 0 w₁ (d₁.links _ _ a) s₁ (Linked-Numbered d₁ l) h.apart
          (omega (arith, enough)) in
      (
        w₂,
        then_done _ (next_or_null-At x _ w a) (then_done _ (if_not _ _ (not_null w x a) r₁) r₂),
        Holds-Numbered d₂ (Holds-Numbered d₁ h),
        s₂,
      )
]

-- On a well-formed list whose renumbering is due, `protRenumber` returns with enough fuel; the
-- list is well-formed and holds the same elements in the same order, and every one of them has the
-- number 0.
pub renumber-Holds :
    (fuel : ℕ) (xs : List Ptr) (w : World)
    → Holds w xs
    → w.do_renumber ≡ true
    → length xs < fuel
    → (w' : World) × (renumber fuel w ≡ done w')
      × Holds w' xs
      × ((a : Ptr) → has a xs ≡ true → Shows w' a 0)
unfolding renumber
renumber-Holds fuel xs w h due enough =
    let (w', r, good, zeroes) =
      number_from-first fuel xs (renumbered w) (Holds-renumbered h) enough in
    (w', if_so _ _ due (ap (λ p. number_from fuel p (renumbered w)) h.at_head ∙ r), good, zeroes)
