-- ===== src/DoubleList/Removal.antt =====
-- container/TDoubleElement.h: what `remove` does to the neighbours.
use pwxlib.Base.{
  ◌≡◌, ◌⊎◌, inl, inr, refl, ap, ◌∙◌, Bool, true, false, some, ◌==◌, arith, Bool-cases,
}
use pwxlib.SingleList.{Ptr}
use pwxlib.DoubleList.{Node, World, done, load, modify_unless}
use pwxlib.DoubleList.Element.{
  unlink, set_next, set_prev, store_next, store_prev, marked_removed, no_neighbour, remove_safe,
  remove_unsafe, remove,
}
use pwxlib.DoubleList.Edit.{
  Same, Same-refl, Same-trans, modify-Edit, remove_base-Edit, At, At-kept, Sets, store_next-Sets,
  store_prev-Sets, set_next-Sets, set_prev-Sets,
}
use pwxlib.DoubleList.Splice.{OrNull, load-nonnull, set_At, flipped}

-- From `w` to `w'` only the element at `p` may have changed.
record Only (p : Ptr) (w w' : World) : Type 0 where
  other : (a : Ptr) → (a == p) ≡ false → load a w'.heap ≡ load a w.heap
  same : Same w w'

-- An element out of its list.
pub record IsOut (e : Ptr) (w : World) : Type 0 where
  pub node : Node
  pub here : load e w.heap ≡ some node
  pub removed : node.is_removed ≡ true
  pub no_next : node.next ≡ 0
  pub no_prev : node.prev ≡ 0

-- `p` and `q`, where they are not null, are neighbours now, and `e` has none.
pub record Closed (pp p e q qq : Ptr) (w w' : World) : Type 0 where
  pub out : IsOut e w'
  pub first : OrNull p (At w'.heap true pp p q)
  pub last : OrNull q (At w'.heap false qq q p)
  pub other :
      (a : Ptr)
      → (a == p) ≡ false
      → (a == e) ≡ false
      → (a == q) ≡ false
      → load a w'.heap ≡ load a w.heap
  pub same : Same w w'

-- A neighbour of `e` on the side `d` of which `e` stands gets another one.
mend :
    (d : Bool) (f : Ptr → Node → Node)
    → Sets d f
    → (pp p e r : Ptr) (w : World) → (p == e) ≡ false
    → OrNull p (At w.heap d pp p e)
    → (w' : World) × (modify_unless (no_neighbour p e) (f r) p w ≡ done w')
      × OrNull p (At w'.heap d pp p r)
      × Only p w w'
mend d f s pp p e r w ne (inl null) =
    (w, (rw null refl), inl null, record { other = λ a h. refl; same = Same-refl w })
mend d f s pp p e r w ne (inr t) =
    let (w', run, edit) = modify-Edit (f r) p t.node w t.here in
    let full = load-nonnull p w.heap t.node t.here in
    (
      w',
      (rw (full, ne) run),
      inr (set_At d f s r t edit.at),
      record { other = edit.other; same = edit.same },
    )

-- A pointer is null, or not another one.
abbrev pub Apart : Ptr → Ptr → Type 0
Apart p q = ((p == 0) ≡ true) ⊎ ((p == q) ≡ false)

Apart-sym : (p q : Ptr) → Apart p q → Apart q p
Apart-sym p q (inr ne) = inr (flipped p q ne)
Apart-sym p q (inl null) = elim (Bool-cases (q == 0)) [
  | inl z ↦ inl z
  | inr full ↦ inr (ground (arith, null, full))
]

across :
    (d : Bool) (pp p q r : Ptr) (v w : World)
    → Apart p q
    → Only q v w
    → OrNull p (At v.heap d pp p r)
    → OrNull p (At w.heap d pp p r)
across d pp p q r v w apart o (inl null) = inl null
across d pp p q r v w (inl null) o (inr t) = inl null
across d pp p q r v w (inr ne) o (inr t) = inr (At-kept (o.other p ne) t)

module _ (pp p e q qq : Ptr) (w : World) (pe : (p == e) ≡ false) (qe : (q == e) ≡ false)
    (at_p : OrNull p (At w.heap true pp p e)) (at_q : OrNull q (At w.heap false qq q e)) where
  module _ (n : Node) (here : load e w.heap ≡ some n) (is_p : n.prev ≡ p) (is_q : n.next ≡ q)
      (apart : Apart p q) where
    remove_safe-Closed : (w' : World) × (remove_safe e w ≡ done w') × Closed pp p e q qq w w'
    unfolding remove_safe unlink
    remove_safe-Closed =
        let (w₁, r₁, e₁) = remove_base-Edit e n w here in
        let o₁ : Only e w w₁ = record { other = e₁.other; same = e₁.same } in
        let p₁ = across true pp p e e w w₁ (inr pe) o₁ at_p in
        let q₁ = across false qq q e e w w₁ (inr qe) o₁ at_q in
        let (w₂, r₂, p₂, o₂) = mend true set_next set_next-Sets pp p e q w₁ pe p₁ in
        let q₂ = across false qq q p e w₁ w₂ (Apart-sym p q apart) o₂ q₁ in
        let (w₃, r₃, q₃, o₃) = mend false set_prev set_prev-Sets qq q e p w₂ qe q₂ in
        let p₃ = across true pp p q q w₂ w₃ apart o₃ p₂ in
        let here₃ : load e w₃.heap ≡ some (marked_removed n) =
          o₃.other e (flipped q e qe) ∙ o₂.other e (flipped p e pe) ∙ e₁.at in
        let (w₄, r₄, e₄) = modify-Edit (set_prev 0) e (marked_removed n) w₃ here₃ in
        let (w₅, r₅, e₅) = modify-Edit (set_next 0) e (set_prev 0 (marked_removed n)) w₄ e₄.at in
        let o₄ : Only e w₃ w₅ = record {
          other = λ a h. e₅.other a h ∙ e₄.other a h;
          same = Same-trans e₄.same e₅.same;
        } in
        let m = set_prev 0 (marked_removed n) in
        let unlinked : unlink p e q w₁ ≡ done w₅ = (rw (r₂, r₃, r₄) r₅) in
        (
          w₅,
          (rw (r₁, e₁.at)
              (ap (λ a. unlink a e n.next w₁) is_p ∙ ap (λ b. unlink p e b w₁) is_q ∙ unlinked)),
          record {
            out = record {
              node = set_next 0 m;
              here = e₅.at;
              removed = set_next-Sets.removed 0 m ∙ set_prev-Sets.removed 0 (marked_removed n);
              no_next = set_next-Sets.sets 0 m;
              no_prev = set_next-Sets.keeps 0 m ∙ set_prev-Sets.sets 0 (marked_removed n);
            };
            first = across true pp p e q w₃ w₅ (inr pe) o₄ p₃;
            last = across false qq q e p w₃ w₅ (inr qe) o₄ q₃;
            other = λ a ap' ae aq. o₄.other a ae ∙ o₃.other a aq ∙ o₂.other a ap' ∙ o₁.other a ae;
            same = Same-trans (Same-trans o₁.same o₂.same) (Same-trans o₃.same o₄.same);
          },
        )

    remove_unsafe-Closed : (w' : World) × (remove_unsafe e w ≡ done w') × Closed pp p e q qq w w'
    unfolding remove_unsafe
    remove_unsafe-Closed =
        let (w₁, r₁, q₁, o₁) = mend false store_prev store_prev-Sets qq q e p w qe at_q in
        let p₁ = across true pp p q e w w₁ apart o₁ at_p in
        let (w₂, r₂, p₂, o₂) = mend true store_next store_next-Sets pp p e q w₁ pe p₁ in
        let q₂ = across false qq q p p w₁ w₂ (Apart-sym p q apart) o₂ q₁ in
        let here₂ : load e w₂.heap ≡ some n =
          o₂.other e (flipped p e pe) ∙ o₁.other e (flipped q e qe) ∙ here in
        let (w₃, r₃, e₃) = modify-Edit (store_prev 0) e n w₂ here₂ in
        let (w₄, r₄, e₄) = modify-Edit (store_next 0) e (store_prev 0 n) w₃ e₃.at in
        let m = store_next 0 (store_prev 0 n) in
        let (w₅, r₅, e₅) = remove_base-Edit e m w₄ e₄.at in
        let o₃ : Only e w₂ w₅ = record {
          other = λ a h. e₅.other a h ∙ e₄.other a h ∙ e₃.other a h;
          same = Same-trans e₃.same (Same-trans e₄.same e₅.same);
        } in
        (
          w₅,
          (rw (here, is_p, is_q, r₁, r₂, r₃, r₄) r₅),
          record {
            out = record {
              node = marked_removed m;
              here = e₅.at;
              removed = refl;
              no_next = refl;
              no_prev = refl;
            };
            first = across true pp p e q w₂ w₅ (inr pe) o₃ p₂;
            last = across false qq q e p w₂ w₅ (inr qe) o₃ q₂;
            other = λ a ap' ae aq. o₃.other a ae ∙ o₂.other a ap' ∙ o₁.other a aq;
            same = Same-trans (Same-trans o₁.same o₂.same) o₃.same;
          },
        )

    pub remove-Closed : (w' : World) × (remove e w ≡ done w') × Closed pp p e q qq w w'
    unfolding remove
    remove-Closed = elim (Bool-cases n.thread_safe) [
      | inl safe ↦ let (w', run, c) = remove_safe-Closed in (w', (rw (here, safe) run), c)
      | inr unsafe ↦ let (w', run, c) = remove_unsafe-Closed in (w', (rw (here, unsafe) run), c)
    ]
