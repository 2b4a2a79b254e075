-- ===== src/SingleList/Insert/Grown.antt =====
-- container/TSingleList.h: each place that `protInsert` may put an element at.
use pwxlib.Base.{
  ◌⊎◌, ℕ, suc, ◌+◌, ◌<◌, ◌≡◌, refl, sym, ap, ◌∙◌, true, false, not, List, [], ◌∷◌, some, ◌==◌,
  arith, length, succ_u32, ==_iff,
}
use pwxlib.SingleList.{Ptr, Node, Heap, World, Run, done, load, deref}
use pwxlib.SingleList.Element.{get_next, insert_before, insert_next, marked_inserted}
use pwxlib.SingleList.Numbers.{
  numbered, set_nr, set_head, set_tail, next_or_null, next_of, number_on, walk_on,
}
use pwxlib.SingleList.Insert.{insert_first, insert_at_head, insert_at_tail}
use pwxlib.SingleList.Edit.{
  Shows, some-inj, Same-trans, modify-Edits, insert-Edits, then_done, deref-some, if_so, if_not,
}
use pwxlib.SingleList.Linked.{has, distinct, first, last, At_kept, Linked, nil, cons, frame, Holds}
use pwxlib.SingleList.Behind.{
  behind, At-next_after, Linked-behind, differs, distinct-behind, first-behind, last-behind,
}
use pwxlib.SingleList.Splice.{Only, insert_next-At, insert_before-At}
use pwxlib.SingleList.Numbers.Walks.{Linked-Numbered}
use pwxlib.SingleList.Numbers.Ends.{set_head-Head, with_head}

-- An element that leads nowhere, in no list.
pub record Fresh (h : Heap) (e : Ptr) : Type 0 where
  pub node : Node
  pub here : load e h ≡ some node
  pub alive : node.is_destroyed ≡ false
  pub ends : get_next node ≡ 0
  pub leads : node.next ≡ 0

-- `xs` as `Holds` has it, apart from the count, which is `n`.
pub record Grown (n : ℕ) (w' : World) (xs : List Ptr) : Type 0 where
  pub linked : Linked w'.heap 0 xs
  pub apart : distinct xs ≡ true
  pub at_head : w'.head ≡ first xs 0
  pub at_tail : w'.tail ≡ last xs 0
  pub count_kept : w'.e_count ≡ n

abbrev pub Grows : Run World → World → List Ptr → Type 0
Grows r w xs = (w' : World) × (r ≡ done w') × Grown w.e_count w' xs

pub not_zero : (p : Ptr) (w : World) (n : Node) → load p w.heap ≡ some n → (p == 0) ≡ false
unfolding load
not_zero p w n h = ground arith

distinct-cons :
    (e : Ptr) (xs : List Ptr) → has e xs ≡ false → distinct xs ≡ true → distinct (e ∷ xs) ≡ true
distinct-cons e xs out d = rw (out, d) refl

insert_next-Linked :
    (p e : Ptr) (xs : List Ptr) (w : World)
    → Linked w.heap 0 xs
    → distinct xs ≡ true
    → has p xs ≡ true
    → has e xs ≡ false
    → Fresh w.heap e
    → (w' : World) × (insert_next p e w ≡ done w')
      × Linked w'.heap 0 (behind p e xs)
      × Only p e w w'
insert_next-Linked p e xs w l d i out f =
    let ne = differs p e xs i out in
    let (w', r, ap', ae, only) =
      insert_next-At p e _ w (At-next_after p l i) (f.node, f.here, f.alive) (ground arith) in
    (w', r, Linked-behind p e l d i out ap' ae only.others, only)

-- Behind an element that is not the last one.
pub middle-Grows :
    (p e : Ptr) (xs : List Ptr) (w : World)
    → Holds w xs
    → has p xs ≡ true
    → (w.tail == p) ≡ false
    → has e xs ≡ false
    → Fresh w.heap e
    → Grows (insert_next p e w) w (behind p e xs)
middle-Grows p e xs w h i ne out f =
    let (w', r, l, only) = insert_next-Linked p e xs w h.linked h.apart i out f in
    let s = only.same in
    (
      w',
      r,
      record {
        linked = l;
        apart = distinct-behind p e xs h.apart out;
        at_head = s.head_same ∙ h.at_head ∙ sym (first-behind p e xs 0 i);
        at_tail =
            s.tail_same
            ∙ h.at_tail
            ∙ sym (
                last-behind p e 0 xs h.apart i
                ∙ if_not _ _ (ap (λ t. t == p) (sym h.at_tail) ∙ ne) refl);
        count_kept = s.count_same;
      },
    )

-- What else holds after an insertion behind `p`, the last one.
pub record TailKept (w w' : World) (p e : Ptr) : Type 0 where
  pub numbers : (a : Ptr) (k : ℕ) → (a == e) ≡ false → Shows w a k → Shows w' a k
  pub new_nr : (k : ℕ) → Shows w p k → Shows w' e (succ_u32 k)
  pub renumber_kept : w'.do_renumber ≡ w.do_renumber
  pub curr_left : (w'.curr_ptr ≡ w.curr_ptr) ⊎ (w'.curr_ptr ≡ 0)

-- Behind the last one.
pub tail-Grows :
    (p e : Ptr) (xs : List Ptr) (w : World)
    → Holds w xs
    → has p xs ≡ true
    → w.tail ≡ p
    → has e xs ≡ false
    → Fresh w.heap e
    → (fuel : ℕ)
    → (w' : World) × (insert_at_tail fuel e w ≡ done w')
      × Grown w.e_count w' (behind p e xs)
      × TailKept w w' p e
unfolding insert_at_tail set_nr set_tail get_next
tail-Grows p e xs w h i at out f fuel =
    let t = At-next_after p h.linked i in
    let (w₁, r₁, d₁) = modify-Edits (numbered (succ_u32 t.node.e_nr)) e w f.node f.here in
    let still : Fresh w₁.heap e = record {
      node = numbered (succ_u32 t.node.e_nr) f.node;
      here = d₁.now;
      alive = f.alive;
      ends = f.ends;
      leads = f.leads;
    } in
    let l₁ = frame h.linked λ a q j b. At_kept (d₁.others a (differs a e xs j out)) b in
    let (w₂, r₂, l₂, only) = insert_next-Linked p e xs w₁ l₁ h.apart i out still in
    let s₂ = only.same in
    let all = Same-trans d₁.same only.same in
    let run = then_done _ (ap (λ q. deref q w) at ∙ deref-some p w t.node t.here) (
      then_done _ r₁
        (then_done _ (ap (λ q. insert_next q e w₁) (d₁.same.tail_same ∙ at) ∙ r₂) refl)) in
    (
      set_tail e w₂,
      run,
      record {
        linked = l₂;
        apart = distinct-behind p e xs h.apart out;
        at_head = s₂.head_same ∙ d₁.same.head_same ∙ h.at_head ∙ sym (first-behind p e xs 0 i);
        at_tail =
            sym (
              last-behind p e 0 xs h.apart i
              ∙ if_so _ _ ((==_iff _ p).1 (sym h.at_tail ∙ at)) refl);
        count_kept = s₂.count_same ∙ d₁.same.count_same;
      },
      record {
        numbers = λ a k ne s. only.numbers a k (s.0, d₁.others a ne ∙ s.1, s.2);
        new_nr = λ k s.
            let same : t.node ≡ s.0 = some-inj (sym t.here ∙ s.1) in
            let n : t.node.e_nr ≡ k = ap (λ m. m.e_nr) same ∙ s.2 in
            only.numbers e (succ_u32 k) (_, d₁.now, ap succ_u32 n);
        renumber_kept = all.renumber_same;
        curr_left = all.curr_kept;
      },
    )

-- Before the first one.
pub head-Grows :
    (fuel : ℕ) (e x : Ptr) (xs : List Ptr) (w : World)
    → Holds w (x ∷ xs)
    → has e (x ∷ xs) ≡ false
    → Fresh w.heap e
    → length xs + 2 < fuel
    → Grows (insert_at_head fuel e w) w (e ∷ x ∷ xs)
unfolding insert_at_head
head-Grows fuel e x xs w h out f enough = elim h.linked [
  | cons a l ↦
      let (w₁, r₁, ae, only) =
        insert_before-At e x w _ a (f.node, f.here, f.alive) (ground arith) in
      let l₁ : Linked w₁.heap 0 (x ∷ xs) = frame h.linked λ c q j b.
        At_kept (only.others c (differs c e (x ∷ xs) j out) (differs c e (x ∷ xs) j out)) b in
      let d : distinct (e ∷ x ∷ xs) ≡ true = distinct-cons e (x ∷ xs) out h.apart in
      let (w₂, r₂, n) = set_head-Head fuel e (x ∷ xs) w₁ (cons ae l₁) d (omega (arith, enough)) in
      (
        w₂,
        then_done _ (ap (λ p. insert_before e p w) h.at_head ∙ r₁) r₂,
        record {
          linked = Linked-Numbered n (cons ae l₁);
          apart = d;
          at_head = n.same.head_same;
          at_tail = n.same.tail_same ∙ only.same.tail_same ∙ h.at_tail;
          count_kept = n.same.count_same ∙ only.same.count_same;
        },
      )
]

-- Into the empty list.
pub first-Grows :
    (fuel : ℕ) (e : Ptr) (w : World)
    → Fresh w.heap e
    → Grows (insert_first (suc fuel) e w) w (e ∷ [])
unfolding insert_first set_head set_nr get_next next_or_null next_of number_on set_tail
    insert_before
first-Grows fuel e w f =
    let (w₁, r₁, d₁) = modify-Edits (numbered 0) e w f.node f.here in
    let nz = not_zero e w f.node f.here in
    let w₂ = set_tail e (with_head e w₁) in
    let (w₃, r₃, d₃) = insert-Edits e w₂ (numbered 0 f.node) d₁.now in
    let stop : not (walk_on e 0) ≡ true = ground arith in
    (
      w₃,
      then_done _
          (then_done _ r₁ (
            then_done _ (if_not _ _ nz (then_done _ (deref-some e w₁ _ d₁.now) (ap done f.ends)))
              (if_so _ _ stop refl)))
          r₃,
      record {
        linked =
            cons
              record {
                node = marked_inserted (numbered 0 f.node);
                here = d₃.now;
                onto = f.leads;
                stays = refl;
                alive = f.alive;
              }
              nil;
        apart = refl;
        at_head = d₃.same.head_same;
        at_tail = d₃.same.tail_same;
        count_kept = d₃.same.count_same ∙ d₁.same.count_same;
      },
    )
