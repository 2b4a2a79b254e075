-- ===== src/SingleList/Numbers/Walks.antt =====
-- container/TSingleList.h: the loops that number the elements end, and change nothing else.
use pwxlib.Base.{
  ℕ, zero, suc, ◌<◌, ◌≡◌, refl, sym, ap, ◌∙◌, true, false, not, List, [], ◌∷◌, some, ◌==◌, arith,
  length, succ_u32, Bool-cases, inl, inr, ==_iff,
}
use pwxlib.SingleList.{Ptr, Node, World, Run, done, load}
use pwxlib.SingleList.Numbers.{numbered, set_nr, next_of, walk_on, number_on, copy_number}
pub use pwxlib.SingleList.Edit.{Shows}
use pwxlib.SingleList.Edit.{
  some-inj, Same, Same-refl, Same-trans, Edit, modify-Edits, then_done, deref-some, if_so, if_not,
}
use pwxlib.SingleList.Linked.{has, distinct, first, At, Linked, cons, frame, At_kept}
use pwxlib.SingleList.Splice.{get_next-inserted, not_null, ==_comm}

-- From `w` to `w'` elements got other numbers, and those outside `xs` kept theirs.
pub record Numbered (xs : List Ptr) (w w' : World) : Type 0 where
  pub links : (a q : Ptr) → At w.heap a q → At w'.heap a q
  pub others : (a : Ptr) → has a xs ≡ false → load a w'.heap ≡ load a w.heap
  pub same : Same w w'

abbrev pub Numbers : Run World → List Ptr → World → Type 0
Numbers r xs w = (w' : World) × (r ≡ done w') × Numbered xs w w'

pub Numbered-refl : (xs : List Ptr) (w : World) → Numbered xs w w
Numbered-refl xs w = record { links = λ a q l. l; others = λ a o. refl; same = Same-refl w }

At-numbered :
    (k : ℕ) (p x y : Ptr) (n : Node) (w w' : World)
    → load p w.heap ≡ some n
    → Edit p (numbered k n) w w'
    → At w.heap x y
    → At w'.heap x y
At-numbered k p x y n w w' h d l = elim (Bool-cases (x == p)) [
  | inl same ↦
      let e : x ≡ p = (==_iff x p).0 same in
      let m : l.node ≡ n = some-inj (sym l.here ∙ ap (λ a. load a w.heap) e ∙ h) in
      record {
        node = numbered k n;
        here = ap (λ a. load a w'.heap) e ∙ d.now;
        onto = ap (λ n. n.next) (sym m) ∙ l.onto;
        stays = ap (λ n. n.is_removed) (sym m) ∙ l.stays;
        alive = ap (λ n. n.is_destroyed) (sym m) ∙ l.alive;
      }
  | inr other ↦ At_kept (d.others x other) l
]

pub set_nr-Numbers :
    (k : ℕ) (p q : Ptr) (w : World)
    → At w.heap p q
    → (w' : World) × (set_nr k p w ≡ done w') × Numbered (p ∷ []) w w' × Shows w' p k
unfolding set_nr
set_nr-Numbers k p q w a =
    let (w', r, d) = modify-Edits (numbered k) p w a.node a.here in
    (
      w',
      r,
      record {
        links = λ x y l. At-numbered k p x y a.node w w' a.here d l;
        others = λ x o. d.others x (ground arith);
        same = d.same;
      },
      (numbered k a.node, d.now, refl),
    )

pub next_of-At : (p q : Ptr) (w : World) → At w.heap p q → next_of p w ≡ done q
unfolding next_of
next_of-At p q w a =
    then_done _ (deref-some p w a.node a.here) (ap done (get_next-inserted a.node a.stays ∙ a.onto))

pub Linked-Numbered :
    {xs ys : List Ptr} {w w' : World} {stop : Ptr}
    → Numbered ys w w'
    → Linked w.heap stop xs
    → Linked w'.heap stop xs
Linked-Numbered d l = frame l λ a q i. d.links a q

pub Numbered-trans :
    {xs ys zs : List Ptr} {u v w : World}
    → Numbered xs u v
    → Numbered ys v w
    → ((a : Ptr) → has a zs ≡ false → (has a xs ≡ false) × (has a ys ≡ false))
    → Numbered zs u w
Numbered-trans d e split = record {
  links = λ a q l. e.links a q (d.links a q l);
  others = λ a o. e.others a ((split a o).1) ∙ d.others a ((split a o).0);
  same = Same-trans d.same e.same;
}

pub apart_next :
    (x : Ptr) (xs : List Ptr) → (x == 0) ≡ false → has x xs ≡ false → (x == first xs 0) ≡ false
apart_next x [] nz out = nz
apart_next x (y ∷ xs) nz out = ground arith

-- Enough rounds for the loop of `head( new_head )`: one more than there are elements ahead.
pub number_on-Numbers :
    (fuel : ℕ) (ys : List Ptr) (p q : Ptr) (w : World)
    → Linked w.heap 0 ys
    → distinct ys ≡ true
    → length ys < fuel
    → At w.heap p q
    → (p == first ys 0) ≡ false
    → Numbers (number_on fuel (first ys 0) p w) (p ∷ ys) w
unfolding number_on
number_on-Numbers zero ys p q w l d enough a ne = absurd (omega (arith, enough))
number_on-Numbers (suc fuel) [] p q w l d enough a ne = (w, refl, Numbered-refl _ w)
number_on-Numbers (suc fuel) (y ∷ ys) p q w (cons b l) d enough a ne =
    let go : walk_on y p ≡ true = rw (not_null w y b, not_null w p a, ==_comm y p, ne) refl in
    let (w₁, r₁, d₁, s₁) = set_nr-Numbers (succ_u32 b.node.e_nr) p q w a in
    let b₁ = d₁.links _ _ b in
    let (w₂, r₂, d₂) =
      number_on-Numbers fuel ys y _ w₁ (Linked-Numbered d₁ l) (ground arith) (omega (arith, enough))
        b₁ (apart_next y ys (not_null w y b) (ground arith)) in
    let run =
      then_done _ (deref-some y w b.node b.here)
        (then_done _ r₁ (then_done _ (next_of-At y _ w₁ b₁) r₂)) in
    (w₂, if_not _ _ (ap not go) run, Numbered-trans d₁ d₂ λ z o. (ground arith, ground arith))

at_the_one : (x c : Ptr) (k : ℕ) (w : World) → Shows w x k → (c == x) ≡ true → Shows w c k
at_the_one x c k w s same = let e : c ≡ x = (==_iff c x).0 same in rw e s

-- The loop of `protRenumber()` copies the number of its first element to those ahead.
pub copy_number-Numbers :
    (fuel : ℕ) (ys : List Ptr) (x : Ptr) (k : ℕ) (w : World)
    → At w.heap x (first ys 0)
    → Shows w x k
    → Linked w.heap 0 ys
    → distinct (x ∷ ys) ≡ true
    → length ys < fuel
    → (w' : World) × (copy_number fuel x (first ys 0) w ≡ done w')
      × Numbered ys w w'
      × ((a : Ptr) → has a (x ∷ ys) ≡ true → Shows w' a k)
unfolding copy_number
copy_number-Numbers zero ys x k w a s l d enough = absurd (omega (arith, enough))
copy_number-Numbers (suc fuel) [] x k w a s l d enough =
    let stop : not (walk_on x 0) ≡ true = ground arith in
    (w, if_so _ _ stop refl, Numbered-refl _ w, λ c i. at_the_one x c k w s (ground arith))
copy_number-Numbers (suc fuel) (y ∷ ys) x k w a (n, nh, nk) (cons b l) d enough =
    let go : walk_on x y ≡ true = rw (not_null w x a, not_null w y b) (ground arith) in
    let (w₁, r₁, d₁, s₁) = set_nr-Numbers k y _ w b in
    let b₁ = d₁.links _ _ b in
    let (w₂, r₂, d₂, s₂) =
      copy_number-Numbers fuel ys y k w₁ b₁ s₁ (Linked-Numbered d₁ l) (ground arith)
        (omega (arith, enough)) in
    let run =
      then_done _ (deref-some x w n nh)
        (then_done _ (ap (λ j. set_nr j y w) nk ∙ r₁) (then_done _ (next_of-At y _ w₁ b₁) r₂)) in
    let all : Numbered (y ∷ ys) w w₂ = Numbered-trans d₁ d₂ λ z o. (ground arith, ground arith) in
    (
      w₂,
      if_not _ _ (ap not go) run,
      all,
      λ c i. elim (Bool-cases (has c (y ∷ ys))) [
        | inl inside ↦ s₂ c inside
        | inr out ↦ at_the_one x c k w₂ (n, all.others x (ground arith) ∙ nh, nk) (ground arith)
      ],
    )
