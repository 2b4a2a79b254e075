-- ===== src/SingleList/Remove/Holds.antt =====
-- container/TSingleList.h: which element `privRemoveAfterElement` removes.
use pwxlib.Base.{
  ℕ, suc, ◌+◌, ◌<◌, ◌≡◌, ◌⊎◌, refl, sym, ap, ◌∙◌, Bool, true, false, ◌&&◌, List, ◌∷◌, some, ◌==◌,
  if◌then◌else◌, arith, length, pred_u32, u32_mod, Bool-cases, inl, inr, ==_iff,
}
use pwxlib.SingleList.{Ptr, Node, World, Run, done, load}
use pwxlib.SingleList.Element.{remove}
use pwxlib.SingleList.Numbers.{set_tail, next_of}
use pwxlib.SingleList.Remove.{
  remove_behind, remove_head, count_down, priv_remove_after_element, renumber_later,
}
use pwxlib.SingleList.Edit.{then_done, if_so, if_not, remove-Edits}
use pwxlib.SingleList.Linked.{has, first, last, At_kept, cons, frame, Holds}
use pwxlib.SingleList.Behind.{next_after, At-next_after, differs}
use pwxlib.SingleList.Behind.Drop.{
  drop_after, rest_of, distinct-drop_after, has-next_after, next_after_differs, length-drop_after,
  first-drop_after_same, last-drop_after, Linked-drop_after,
}
use pwxlib.SingleList.Splice.{remove_next-At, not_null, removed_as_removed}
use pwxlib.SingleList.Numbers.Walks.{next_of-At, Linked-Numbered}
use pwxlib.SingleList.Numbers.Ends.{set_head-Head}
use pwxlib.SingleList.Insert.Grown.{Grown, not_zero}

-- The element is no part of a list any more.
abbrev pub Gone : World → Ptr → Type 0
Gone w r = (n : Node) × (load r w.heap ≡ some n) × (n.is_removed ≡ true)

abbrev Shrinks : Run (Ptr × World) → World → Ptr → List Ptr → Type 0
Shrinks run w r xs = (w' : World) × (run ≡ done (r, w')) × Grown w.e_count w' xs × Gone w' r

and_twice : (b : Bool) → (b && b) ≡ b
and_twice b = ground arith

remove_behind-Shrinks :
    (p : Ptr) (xs : List Ptr) (w : World)
    → Holds w xs
    → has p xs ≡ true
    → (next_after p xs 0 == 0) ≡ false
    → Shrinks (remove_behind p w) w (next_after p xs 0) (drop_after p xs)
unfolding remove_behind set_tail
remove_behind-Shrinks p xs w h i nz =
    let r = next_after p xs 0 in
    let at_p = At-next_after p h.linked i in
    let at_r = At-next_after r h.linked (has-next_after p xs nz) in
    let (w₁, run, link, (n, nh, gone, nn), only) =
      remove_next-At p r _ w at_p at_r (next_after_differs p xs h.apart i nz) in
    let l = Linked-drop_after p h.linked h.apart i nz link only.others in
    let ends = last-drop_after p 0 xs h.apart i nz in
    let start = only.same.head_same ∙ h.at_head ∙ sym (first-drop_after_same p xs) in
    let w₂ = if w.tail == r && w₁.tail == r then set_tail p w₁ else renumber_later w₁ in
    let twice : (w.tail == r && w₁.tail == r) ≡ (w.tail == r) =
      ap (λ q. w.tail == r && q == r) only.same.tail_same ∙ and_twice (w.tail == r) in
    let at_end : (last xs 0 == r) ≡ (w.tail == r) = ap (λ q. q == r) (sym h.at_tail) in
    let go : remove_behind p w ≡ done (r, w₂) =
      then_done _ (next_of-At p r w at_p) (then_done _ run refl) in
    elim (Bool-cases (w.tail == r)) [
      | inl t ↦
          let both : (w.tail == r && w₁.tail == r) ≡ true = twice ∙ t in
          (
            set_tail p w₁,
            go ∙ ap (λ v. done (r, v)) (if_so _ _ both refl),
            record {
              linked = l;
              apart = distinct-drop_after p xs h.apart;
              at_head = start;
              at_tail = sym (ends ∙ if_so _ _ (at_end ∙ t) refl);
              count_kept = only.same.count_same;
            },
            (n, nh, gone),
          )
      | inr t ↦
          let both : (w.tail == r && w₁.tail == r) ≡ false = twice ∙ t in
          (
            renumber_later w₁,
            go ∙ ap (λ v. done (r, v)) (if_not _ _ both refl),
            record {
              linked = l;
              apart = distinct-drop_after p xs h.apart;
              at_head = start;
              at_tail = only.same.tail_same ∙ h.at_tail ∙ sym (ends ∙ if_not _ _ (at_end ∙ t) refl);
              count_kept = only.same.count_same;
            },
            (n, nh, gone),
          )
    ]

remove_head-Shrinks :
    (fuel : ℕ) (x y : Ptr) (ys : List Ptr) (w : World)
    → Holds w (x ∷ y ∷ ys)
    → length ys + 2 < fuel
    → Shrinks (remove_head fuel w) w x (y ∷ ys)
unfolding remove_head
remove_head-Shrinks fuel x y ys w h enough = elim h.linked [
  | cons a l ↦
      let nz : (w.head == 0) ≡ false = ap (λ p. p == 0) h.at_head ∙ not_null w x a in
      let (w₁, r₁, d₁) = set_head-Head fuel y ys w l (ground arith) (omega (arith, enough)) in
      let out : has x (y ∷ ys) ≡ false = ground arith in
      let (w₂, r₂, d₂) = remove-Edits x w₁ a.node (d₁.others x out ∙ a.here) in
      let run = then_done _ (ap (λ p. next_of p w) h.at_head ∙ next_of-At x y w a) (
        then_done _ r₁ (
          then_done _ (ap (λ p. remove p w₁) h.at_head ∙ r₂) (ap (λ p. done (p, w₂)) h.at_head))) in
      (
        w₂,
        if_not _ _ nz run,
        record {
          linked =
              frame (Linked-Numbered d₁ l)
                λ c q i t. At_kept (d₂.others c (differs c x (y ∷ ys) i out)) t;
          apart = ground arith;
          at_head = d₂.same.head_same ∙ d₁.same.head_same;
          at_tail = d₂.same.tail_same ∙ d₁.same.tail_same ∙ h.at_tail;
          count_kept = d₂.same.count_same ∙ d₁.same.count_same;
        },
        (_, d₂.now, removed_as_removed _ a.node),
      )
]

count_down-some :
    (fuel n : ℕ) (w : World)
    → w.e_count ≡ suc (suc n)
    → n + 2 < u32_mod
    → count_down fuel w ≡ done (record w { e_count = suc n })
unfolding count_down
count_down-some fuel n w c room =
    let more : (w.e_count == 1) ≡ false = ground arith in
    let less : pred_u32 w.e_count ≡ suc n = rw (c) (omega (arith, room)) in
    if_not _ _ more (ap (λ k. done (record w { e_count = k })) less)

-- What removal behind `p` removes and leaves; behind null stands the first one.
abbrev pub taken : Ptr → List Ptr → Ptr
taken p xs = if p == 0 then first xs 0 else next_after p xs 0

abbrev pub left_after : Ptr → List Ptr → List Ptr
left_after p xs = if p == 0 then rest_of xs else drop_after p xs

abbrev remove_one : ℕ → Ptr → World → Run (Ptr × World)
remove_one fuel p w = if p == 0 then remove_head fuel w else remove_behind p w

remove_one-Shrinks :
    (fuel : ℕ) (p x y : Ptr) (ys : List Ptr) (w : World)
    → Holds w (x ∷ y ∷ ys)
    → (p ≡ 0) ⊎ ((has p (x ∷ y ∷ ys) ≡ true) × ((next_after p (x ∷ y ∷ ys) 0 == 0) ≡ false))
    → length ys + 2 < fuel
    → Shrinks (remove_one fuel p w) w (taken p (x ∷ y ∷ ys)) (left_after p (x ∷ y ∷ ys))
remove_one-Shrinks fuel p x y ys w h (inl z) enough =
    let is_null : (p == 0) ≡ true = (==_iff p 0).1 z in
    rw (is_null) (remove_head-Shrinks fuel x y ys w h enough)
remove_one-Shrinks fuel p x y ys w h (inr (i, nz)) enough =
    let is_some = not_null w p (At-next_after p h.linked i) in
    rw (is_some) (remove_behind-Shrinks p (x ∷ y ∷ ys) w h i nz)

length-left_after :
    (p x y : Ptr) (ys : List Ptr)
    → (p ≡ 0) ⊎ ((has p (x ∷ y ∷ ys) ≡ true) × ((next_after p (x ∷ y ∷ ys) 0 == 0) ≡ false))
    → length (left_after p (x ∷ y ∷ ys)) ≡ suc (length ys)
length-left_after p x y ys (inl z) =
    let is_null : (p == 0) ≡ true = (==_iff p 0).1 z in rw (is_null) refl
length-left_after p x y ys (inr (i, nz)) = elim (Bool-cases (p == 0)) [
  | inl null ↦ rw (null) refl
  | inr some_p ↦ rw (some_p) (omega (arith, length-drop_after p (x ∷ y ∷ ys) nz))
]

-- In a well-formed list of at least two elements, with enough fuel: `privRemoveAfterElement`
-- behind null, or behind an element that is not the last, returns the first element, or the one
-- behind the given one, which is marked as removed; afterwards the list is well-formed and holds
-- all the others in their order.
pub priv_remove_after_element-Holds :
    (fuel : ℕ) (p x y : Ptr) (ys : List Ptr) (w : World)
    → Holds w (x ∷ y ∷ ys)
    → (p ≡ 0) ⊎ ((has p (x ∷ y ∷ ys) ≡ true) × ((next_after p (x ∷ y ∷ ys) 0 == 0) ≡ false))
    → length ys + 2 < fuel
    → length ys + 2 < u32_mod
    → (w' : World) × (priv_remove_after_element fuel p w ≡ done (taken p (x ∷ y ∷ ys), w'))
      × Holds w' (left_after p (x ∷ y ∷ ys))
      × Gone w' (taken p (x ∷ y ∷ ys))
unfolding priv_remove_after_element
priv_remove_after_element-Holds fuel p x y ys w h c enough room =
    let (w₁, r, g, (n, nh, gone)) = remove_one-Shrinks fuel p x y ys w h c enough in
    let nz : (taken p (x ∷ y ∷ ys) == 0) ≡ false = not_zero _ w₁ n nh in
    let down = count_down-some fuel (length ys) w₁ (g.count_kept ∙ h.counted) room in
    (
      record w₁ { e_count = suc (length ys) },
      then_done _ r (then_done _ (if_not _ _ nz down) refl),
      record {
        linked = g.linked;
        apart = g.apart;
        at_head = g.at_head;
        at_tail = g.at_tail;
        counted = sym (length-left_after p x y ys c);
      },
      (n, nh, gone),
    )
