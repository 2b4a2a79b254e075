-- ===== src/DoubleList/Numbered.antt =====
-- container/TSingleList.h: `head( new_head )` and the numbers leave the chain as it is.
use pwxlib.Base.{
  ℕ, zero, suc, ◌<◌, ◌+◌, ◌≡◌, inl, inr, refl, ap, ◌∙◌, sym, Bool, true, false, not, List, [], ◌∷◌,
  some, ◌==◌, arith, Bool-cases, ==_iff, length, succ_u32,
}
use pwxlib.SingleList.{Ptr}
use pwxlib.SingleList.Edit.{some-inj}
use pwxlib.SingleList.Linked.{first}
use pwxlib.DoubleList.{Node, World, done, load}
use pwxlib.DoubleList.Element.{get_next, get_prev}
use pwxlib.DoubleList.Edit.{Same, Same-refl, Same-trans, Edit, modify-Edit, side, At, At-kept}
use pwxlib.DoubleList.Splice.{OrNull}
use pwxlib.DoubleList.Chained.{Chained, nil, cons, second, neighbour}
use pwxlib.DoubleList.Numbers.{next_of, prev_of, numbered, set_nr, set_head, number_on, walk_on}

-- From `w` to `w'` elements may have got other numbers.
pub record Kept (w w' : World) : Type 0 where
  pub links : (d : Bool) (p a q : Ptr) → At w.heap d p a q → At w'.heap d p a q
  pub same : Same w w'

Kept-refl : (w : World) → Kept w w
Kept-refl w = record { links = λ d p a q t. t; same = Same-refl w }

Kept-trans : {u v w : World} → Kept u v → Kept v w → Kept u w
Kept-trans k l = record {
  links = λ d p a q t. l.links d p a q (k.links d p a q t);
  same = Same-trans k.same l.same;
}

side-numbered : (d : Bool) (k : ℕ) (n : Node) → side d (numbered k n) ≡ side d n
side-numbered true k n = refl
side-numbered false k n = refl

pub set_nr-Kept :
    (k : ℕ) (a : Ptr) (n : Node) (w : World)
    → load a w.heap ≡ some n
    → (w' : World) × (set_nr k a w ≡ done w') × Edit a (numbered k n) w w' × Kept w w'
unfolding set_nr
set_nr-Kept k a n w e =
    let (w', run, edit) = modify-Edit (numbered k) a n w e in
    (
      w',
      run,
      edit,
      record {
        links = λ d p b q t. elim (Bool-cases (b == a)) [
          | inr other ↦ At-kept (edit.other b other) t
          | inl same ↦
              let is_a : b ≡ a = (==_iff b a).0 same in
              let is_n : n ≡ t.node =
                some-inj (sym e ∙ ap (λ c. load c w.heap) (sym is_a) ∙ t.here) in
              record {
                node = numbered k t.node;
                here = ap (λ c. load c w'.heap) is_a ∙ edit.at ∙ ap (λ m. some (numbered k m)) is_n;
                back = side-numbered (not d) k t.node ∙ t.back;
                onto = side-numbered d k t.node ∙ t.onto;
                stays = t.stays;
                alive = t.alive;
              }
        ];
        same = edit.same;
      },
    )

pub next_of-At : (p a q : Ptr) (w : World) → At w.heap true p a q → next_of a w ≡ done q
unfolding next_of get_next
next_of-At p a q w t = rw (t.here, t.stays, t.onto) (ground arith)

pub prev_of-At : (p a q : Ptr) (w : World) → At w.heap true p a q → prev_of a w ≡ done p
unfolding prev_of get_prev
prev_of-At p a q w t = rw (t.here, t.stays, t.back) (ground arith)

pub Chained-Kept :
    {w w' : World} {stop p : Ptr} {xs : List Ptr}
    → Kept w w'
    → Chained w.heap stop p xs
    → Chained w'.heap stop p xs
Chained-Kept k nil = nil
Chained-Kept k (cons a c) = cons (k.links _ _ _ _ a) (Chained-Kept k c)

number_on-Kept :
    (fuel : ℕ) (p pp x_next q : Ptr) (xs : List Ptr) (w : World)
    → Chained w.heap 0 p xs
    → OrNull x_next (At w.heap true pp x_next q)
    → length xs < fuel
    → (w' : World) × (number_on fuel (first xs 0) x_next w ≡ done w') × Kept w w'
unfolding number_on
number_on-Kept zero p pp x_next q xs w c o enough = absurd (omega (arith, enough))
number_on-Kept (suc fuel) p pp x_next q [] w c o enough = (w, refl, Kept-refl w)
number_on-Kept (suc fuel) p pp x_next q (x ∷ xs) w (cons a c) o enough =
    elim (Bool-cases (walk_on x x_next)) [
      | inr stop ↦ (w, (rw stop refl), Kept-refl w)
      | inl go ↦ elim o [
        | inl null ↦ absurd (ground (arith, go, null))
        | inr t ↦
            let (w₁, r₁, e₁, k₁) = set_nr-Kept (succ_u32 a.node.e_nr) x_next t.node w t.here in
            let a₁ = k₁.links true p x (first xs 0) a in
            let (w₂, r₂, k₂) =
              number_on-Kept fuel x p x (first xs 0) xs w₁ (Chained-Kept k₁ c) (inr a₁)
                (omega (arith, enough)) in
            (w₂, (rw (go, a.here, r₁, next_of-At p x (first xs 0) w₁ a₁) r₂), Kept-trans k₁ k₂)
      ]
    ]

abbrev pub with_head : Ptr → World → World
with_head p w = record w { head = p }

pub set_head-Kept :
    (fuel : ℕ) (p x : Ptr) (xs : List Ptr) (w : World)
    → Chained w.heap 0 p (x ∷ xs)
    → length xs + 1 < fuel
    → (w' : World) × (set_head fuel x w ≡ done w') × Kept (with_head x w) w'
unfolding set_head
set_head-Kept fuel p x xs w (cons a c) enough =
    let (w₁, r₁, e₁, k₁) = set_nr-Kept 0 x a.node w a.here in
    let a₁ = k₁.links true p x (first xs 0) a in
    let c₁ = Chained-Kept k₁ c in
    let (w₂, r₂, k₂) =
      number_on-Kept fuel p x (first xs 0) (second xs) (x ∷ xs) (with_head x w₁) (cons a₁ c₁)
        (neighbour x xs c₁) (omega (arith, enough)) in
    let s : Same (with_head x w) (with_head x w₁) = record {
      head_same = refl;
      tail_same = k₁.same.tail_same;
      count_same = k₁.same.count_same;
      renumber_same = k₁.same.renumber_same;
      safe_same = k₁.same.safe_same;
      free_same = k₁.same.free_same;
    } in
    let k : Kept (with_head x w) (with_head x w₁) = record { links = k₁.links; same = s } in
    (w₂, (rw (r₁, next_of-At p x (first xs 0) w₁ a₁) r₂), Kept-trans k k₂)
