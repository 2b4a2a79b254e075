-- ===== src/DoubleList/Splice.antt =====
-- container/TDoubleElement.h: what `insertNext`, `insertPrev` and `remove` do to the neighbours.
use pwxlib.Base.{
  ◌≡◌, ◌⊎◌, inl, inr, refl, ◌∙◌, sym, Bool, true, false, not, some, ◌==◌, arith, Bool-cases,
}
use pwxlib.SingleList.{Ptr}
use pwxlib.DoubleList.{Node, Heap, World, Run, done, ◌>>=◌, load, modify, modify_unless}
use pwxlib.DoubleList.Element.{
  set_next, set_prev, store_next, store_prev, insert, marked_inserted, link, link_prev_safe,
  is_gone, insert_next, insert_prev,
}
use pwxlib.DoubleList.Edit.{
  Same, Same-trans, Edit, modify-Edit, insert-Edit, side, side_twice, At, At-kept, flip, unflip,
  Sets, store_next-Sets, store_prev-Sets, set_next-Sets, set_prev-Sets,
}

-- A pointer is null, or what is said of it holds.
abbrev pub OrNull : Ptr → Type 0 → Type 0
OrNull q P = ((q == 0) ≡ true) ⊎ P

-- `x` stands between `p` and `q` now, seen to the side `d`; the others are as they were.
pub record Between (d : Bool) (pp p x q qq : Ptr) (w w' : World) : Type 0 where
  pub first : At w'.heap d pp p x
  pub middle : At w'.heap d p x q
  pub last : OrNull q (At w'.heap d x q qq)
  pub other :
      (a : Ptr)
      → (a == p) ≡ false
      → (a == x) ≡ false
      → (a == q) ≡ false
      → load a w'.heap ≡ load a w.heap
  pub same : Same w w'

-- The new element has its neighbours, and nothing else has changed.
record Prepared (d : Bool) (p x q : Ptr) (w w' : World) : Type 0 where
  node : Node
  edit : Edit x node w w'
  back : side (not d) node ≡ p
  onto : side d node ≡ q
  alive : node.is_destroyed ≡ false

pub flipped : (a b : Ptr) → (a == b) ≡ false → (b == a) ≡ false
flipped a b h = ground (arith, h)

pub load-nonnull : (a : Ptr) (h : Heap) (n : Node) → load a h ≡ some n → (a == 0) ≡ false
unfolding load
load-nonnull a h n e = ground (arith, e)

side-marked : (d : Bool) (n : Node) → side d (marked_inserted n) ≡ side d n
side-marked true n = refl
side-marked false n = refl

-- An element whose neighbour on one side was set.
pub set_At :
    (d : Bool) (f : Ptr → Node → Node)
    → Sets d f
    → {h g : Heap} {p a q : Ptr} (r : Ptr) (t : At h d p a q) → load a g ≡ some (f r t.node)
    → At g d p a r
set_At d f s r t e = record {
  node = f r t.node;
  here = e;
  back = s.keeps r t.node ∙ t.back;
  onto = s.sets r t.node;
  stays = s.removed r t.node ∙ t.stays;
  alive = s.destroyed r t.node ∙ t.alive;
}

module _ (d : Bool) (onto back : Ptr → Node → Node) (so : Sets d onto) (sb : Sets (not d) back)
    (pp p x q qq : Ptr) (w : World) (at_p : At w.heap d pp p q)
    (at_q : OrNull q (At w.heap d p q qq)) (px : (p == x) ≡ false) (qx : (q == x) ≡ false)
    (pq : (p == q) ≡ false) where
  -- What follows in both branches.
  abbrev rest : World → Run World
  rest w₂ = do w₃ ← insert x w₂; w₄ ← modify (onto x) p w₃; modify_unless (q == 0) (back x) q w₄

  rest-Between :
      (w₂ : World)
      → Prepared d p x q w w₂
      → (w' : World) × (rest w₂ ≡ done w') × Between d pp p x q qq w w'
  rest-Between w₂ r =
      let (w₃, r₃, e₃) = insert-Edit x r.node w₂ r.edit.at in
      let at₃ : load p w₃.heap ≡ some at_p.node = e₃.other p px ∙ r.edit.other p px ∙ at_p.here in
      let (w₄, r₄, e₄) = modify-Edit (onto x) p at_p.node w₃ at₃ in
      let new : load x w₄.heap ≡ some (marked_inserted r.node) =
        e₄.other x (flipped p x px) ∙ e₃.at in
      let first₄ : At w₄.heap d pp p x = set_At d onto so x at_p e₄.at in
      let middle₄ : At w₄.heap d p x q = record {
        node = marked_inserted r.node;
        here = new;
        back = side-marked (not d) r.node ∙ r.back;
        onto = side-marked d r.node ∙ r.onto;
        stays = refl;
        alive = r.alive;
      } in
      let same₄ = Same-trans (Same-trans r.edit.same e₃.same) e₄.same in
      let other₄ = λ (a : Ptr) (ap' : (a == p) ≡ false) (ax : (a == x) ≡ false).
        e₄.other a ap' ∙ e₃.other a ax ∙ r.edit.other a ax in
      elim at_q [
        | inl null ↦ (
          w₄,
          (rw (r₃, r₄, null) refl),
          record {
            first = first₄;
            middle = middle₄;
            last = inl null;
            other = λ a ap' ax aq. other₄ a ap' ax;
            same = same₄;
          },
        )
        | inr t ↦
            let there : load q w₄.heap ≡ some t.node = other₄ q (flipped p q pq) qx ∙ t.here in
            let (w₅, r₅, e₅) = modify-Edit (back x) q t.node w₄ there in
            let full : (q == 0) ≡ false = load-nonnull q w.heap t.node t.here in
            (
              w₅,
              (rw (r₃, r₄, full) r₅),
              record {
                first = At-kept (e₅.other p pq) first₄;
                middle = At-kept (e₅.other x (flipped q x qx)) middle₄;
                last = inr (unflip d (set_At (not d) back sb x (flip d t) e₅.at));
                other = λ a ap' ax aq. e₅.other a aq ∙ other₄ a ap' ax;
                same = Same-trans same₄ e₅.same;
              },
            )
      ]

  module _ (m : Node) (at_x : load x w.heap ≡ some m) (live : m.is_destroyed ≡ false) where
    -- With the side of `q` set first, and with the other side first.
    onto-Prepared :
        (w₁ : World) × (w₂ : World) × (modify (onto q) x w ≡ done w₁)
        × (modify (back p) x w₁ ≡ done w₂)
        × Prepared d p x q w w₂
    onto-Prepared =
        let (w₁, r₁, e₁) = modify-Edit (onto q) x m w at_x in
        let (w₂, r₂, e₂) = modify-Edit (back p) x (onto q m) w₁ e₁.at in
        (
          w₁,
          w₂,
          r₁,
          r₂,
          record {
            node = back p (onto q m);
            edit = record {
              at = e₂.at;
              other = λ a ne. e₂.other a ne ∙ e₁.other a ne;
              same = Same-trans e₁.same e₂.same;
            };
            back = sb.sets p (onto q m);
            onto = sym (side_twice d _) ∙ sb.keeps p (onto q m) ∙ side_twice d _ ∙ so.sets q m;
            alive = sb.destroyed p (onto q m) ∙ so.destroyed q m ∙ live;
          },
        )

    back-Prepared :
        (w₁ : World) × (w₂ : World) × (modify (back p) x w ≡ done w₁)
        × (modify (onto q) x w₁ ≡ done w₂)
        × Prepared d p x q w w₂
    back-Prepared =
        let (w₁, r₁, e₁) = modify-Edit (back p) x m w at_x in
        let (w₂, r₂, e₂) = modify-Edit (onto q) x (back p m) w₁ e₁.at in
        (
          w₁,
          w₂,
          r₁,
          r₂,
          record {
            node = onto q (back p m);
            edit = record {
              at = e₂.at;
              other = λ a ne. e₂.other a ne ∙ e₁.other a ne;
              same = Same-trans e₁.same e₂.same;
            };
            back = so.keeps q (back p m) ∙ sb.sets p m;
            onto = so.sets q (back p m);
            alive = so.destroyed q (back p m) ∙ sb.destroyed p m ∙ live;
          },
        )

    link-Between : (w' : World) × (link onto back p x q w ≡ done w') × Between d pp p x q qq w w'
    unfolding link
    link-Between =
        let (w₁, w₂, r₁, r₂, ready) = onto-Prepared in
        let (w', run, b) = rest-Between w₂ ready in (w', (rw (r₁, r₂) run), b)

-- The neighbour that is in the way is not destroyed.
is_gone-live :
    (d : Bool) (p q qq : Ptr) (w : World) → OrNull q (At w.heap d p q qq) → is_gone q w ≡ done false
is_gone-live d p q qq w (inl null) = (rw null refl)
is_gone-live d p q qq w (inr t) = (rw (load-nonnull q w.heap t.node t.here, t.here, t.alive) refl)

module _ (pp e x q qq : Ptr) (w : World) (m : Node) (at_x : load x w.heap ≡ some m)
    (live : m.is_destroyed ≡ false) (ex : (e == x) ≡ false) (qx : (q == x) ≡ false)
    (eq : (e == q) ≡ false) where
  -- A live element `x` is put behind a live `e` on either branch.
  pub insert_next-Between :
      At w.heap true pp e q
      → OrNull q (At w.heap true e q qq)
      → (w' : World) × (insert_next e x w ≡ done w') × Between true pp e x q qq w w'
  unfolding insert_next
  insert_next-Between at_e at_q =
      let full : (x == 0) ≡ false = load-nonnull x w.heap m at_x in
      let other : (x == e) ≡ false = flipped e x ex in
      let here = at_e.here in
      let onto : at_e.node.next ≡ q = at_e.onto in
      let gone = is_gone-live true e q qq w at_q in
      elim (Bool-cases at_e.node.thread_safe) [
        | inl safe ↦
            let (w', run, b) =
              link-Between true set_next set_prev set_next-Sets set_prev-Sets pp e x q qq w at_e
                at_q ex qx eq m at_x live in
            (w', (rw (full, other, here, at_x, safe, at_e.alive, live, onto, gone) run), b)
        | inr unsafe ↦
            let (w', run, b) =
              link-Between true store_next store_prev store_next-Sets store_prev-Sets pp e x q qq w
                at_e at_q ex qx eq m at_x live in
            (w', (rw (full, other, here, at_x, unsafe, onto) run), b)
      ]

  -- A live element `x` is put in front of a live `e` on either branch.
  pub insert_prev-Between :
      At w.heap false pp e q
      → OrNull q (At w.heap false e q qq)
      → (w' : World) × (insert_prev e x w ≡ done w') × Between false pp e x q qq w w'
  unfolding insert_prev link_prev_safe
  insert_prev-Between at_e at_q =
      let full : (x == 0) ≡ false = load-nonnull x w.heap m at_x in
      let other : (x == e) ≡ false = flipped e x ex in
      let here = at_e.here in
      let onto : at_e.node.prev ≡ q = at_e.onto in
      let gone = is_gone-live false e q qq w at_q in
      elim (Bool-cases at_e.node.thread_safe) [
        | inl safe ↦
            let (w₁, w₂, r₁, r₂, ready) =
              back-Prepared false set_prev set_next set_prev-Sets set_next-Sets pp e x q qq w at_e
                at_q ex qx eq m at_x live in
            let (w', run, b) =
              rest-Between false set_prev set_next set_prev-Sets set_next-Sets pp e x q qq w at_e
                at_q ex qx eq w₂ ready in
            (w', (rw (full, other, here, at_x, safe, at_e.alive, live, onto, gone, r₁, r₂) run), b)
        | inr unsafe ↦
            let (w', run, b) =
              link-Between false store_prev store_next store_prev-Sets store_next-Sets pp e x q qq w
                at_e at_q ex qx eq m at_x live in
            (w', (rw (full, other, here, at_x, unsafe, onto) run), b)
      ]
