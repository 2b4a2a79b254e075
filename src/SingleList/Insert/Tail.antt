-- ===== src/SingleList/Insert/Tail.antt =====
-- container/TSingleList.h: `push_back` and the numbers.
use pwxlib.Base.{
  refl, Bool, some, ℕ, suc, ◌+◌, ◌<◌, ◌≡◌, ◌⊎◌, sym, ap, ◌∙◌, true, false, not, ◌&&◌, ◌||◌, List,
  [], ◌∷◌, ◌==◌, arith, length, succ_u32, u32_mod, inl, inr, ==_iff,
}
use pwxlib.SingleList.{Heap, Node, load, write, Ptr, World, done}
use pwxlib.SingleList.Numbers.{set_curr, empty}
use pwxlib.SingleList.Element.{get_next}
use pwxlib.SingleList.Insert.{allocate, created, insert_at_end, prot_insert, count_up}
use pwxlib.SingleList.Insert.Grown.{Fresh, tail-Grows}
use pwxlib.SingleList.Insert.Holds.{full_or_not, Holds-set_curr}
use pwxlib.SingleList.Edit.{Shows, then_done, deref-some, if_so, if_not}
use pwxlib.SingleList.Linked.{has, distinct, last, Holds}
use pwxlib.SingleList.Behind.{behind, At-next_after, length-behind, has-last, differs, has-behind}
use pwxlib.SingleList.Splice.{not_null}
use pwxlib.SingleList.Index.Walk.{InOrder, stop, step}

load_new : (p : Ptr) (n : Node) (h : Heap) → (p == 0) ≡ false → load p (write p (some n) h) ≡ some n
unfolding load write
load_new p n h nz = ground arith

pub new-Fresh :
    (d : Ptr) (b : Bool) (w : World)
    → (w.next_free == 0) ≡ false
    → Fresh (allocate d b w).heap w.next_free
unfolding allocate get_next
new-Fresh d b w nz = record {
  node = created d (b && w.list_safe);
  here = load_new w.next_free _ w.heap nz;
  alive = refl;
  ends = ground arith;
  leads = refl;
}

-- A list whose numbers are the positions, and whose current element is null or its own.
pub record Settled (w : World) (xs : List Ptr) : Type 0 where
  pub holds : Holds w xs
  pub order : InOrder w 0 xs
  pub fresh_numbers : w.do_renumber ≡ false
  pub current : (w.curr_ptr ≡ 0) ⊎ (has w.curr_ptr xs ≡ true)

InOrder-last :
    (x : Ptr) (xs : List Ptr) (k : ℕ) (w : World)
    → InOrder w k (x ∷ xs)
    → Shows w (last xs x) (k + length xs)
InOrder-last x [] k w (step s o) = (s.0, s.1, s.2 ∙ omega arith)
InOrder-last x (y ∷ ys) k w (step s o) =
    let (n, nh, nk) = InOrder-last y ys (suc k) w o in (n, nh, nk ∙ omega arith)

InOrder-behind :
    (x e : Ptr) (xs : List Ptr) (k : ℕ) (w w' : World)
    → distinct (x ∷ xs) ≡ true
    → InOrder w k (x ∷ xs)
    → ((a : Ptr) (j : ℕ) → has a (x ∷ xs) ≡ true → Shows w a j → Shows w' a j)
    → Shows w' e (k + suc (length xs))
    → InOrder w' k (behind (last xs x) e (x ∷ xs))
InOrder-behind x e [] k w w' d (step s o) keep new =
    let here : (x == x) ≡ true = ground arith in
    rw (here) (step (keep x k (ground arith) s) (step (new.0, new.1, new.2 ∙ omega arith) stop))
InOrder-behind x e (y ∷ ys) k w w' d (step s o) keep new =
    let inner : (x == last ys y) ≡ false =
      ground (arith, differs (last ys y) x (y ∷ ys) (has-last y ys)) in
    rw (inner) (
      step (keep x k (ground arith) s) (
        InOrder-behind y e ys (suc k) w w' (ground arith) o (λ a j i. keep a j (ground arith))
          (new.0, new.1, new.2 ∙ omega arith)))

-- Behind the last element of a settled list.
pub tail-Settled :
    (fuel : ℕ) (e x : Ptr) (xs : List Ptr) (w : World)
    → Settled w (x ∷ xs)
    → has e (x ∷ xs) ≡ false
    → Fresh w.heap e
    → length xs + 2 < u32_mod
    → (w' : World) × (prot_insert fuel (last xs x) e w ≡ done (length xs + 2, w'))
      × Settled w' (behind (last xs x) e (x ∷ xs))
unfolding prot_insert insert_at_end set_curr
tail-Settled fuel e x xs w s out f room =
    let p = last xs x in
    let v = set_curr e w in
    let h = Holds-set_curr e s.holds in
    let i = has-last x xs in
    let (w₁, r, g, k) = tail-Grows p e (x ∷ xs) v h i h.at_tail out f fuel in
    let a = At-next_after p h.linked i in
    let some_in : empty v ≡ false = full_or_not (x ∷ xs) v h ∙ ground arith in
    let is_tail : (v.tail == p) ≡ true = (==_iff v.tail p).1 h.at_tail in
    let nz = not_null v p a in
    let guard : (not (empty v) && not (p == 0) && not (v.tail == p)) ≡ false =
      rw (is_tail) (ground arith) in
    let at_end : (p == v.tail || a.node.is_destroyed) ≡ true = rw (h.at_tail) (ground arith) in
    let run = if_not _ _ guard (
      if_not _ _ some_in
        (if_not _ _ nz (then_done _ (deref-some p v a.node a.here) (if_so _ _ at_end r)))) in
    let up : succ_u32 w₁.e_count ≡ length xs + 2 =
      rw (g.count_kept, h.counted) (omega (arith, room)) in
    let last_nr = InOrder-last x xs 0 w s.order in
    let new_nr = k.new_nr _ last_nr in
    (
      count_up w₁,
      then_done _ run (ap (λ n. done (n, count_up w₁)) up),
      record {
        holds = record {
          linked = g.linked;
          apart = g.apart;
          at_head = g.at_head;
          at_tail = g.at_tail;
          counted = up ∙ omega arith ∙ sym (length-behind p e (x ∷ xs));
        };
        order =
            InOrder-behind x e xs 0 w (count_up w₁) s.holds.apart s.order
              (λ b j ib sb. k.numbers b j (differs b e (x ∷ xs) ib out) sb)
              (new_nr.0, new_nr.1, new_nr.2 ∙ omega (arith, room));
        fresh_numbers = k.renumber_kept ∙ s.fresh_numbers;
        current = elim k.curr_left [
          | inl same ↦ inr (
              ap (λ q. has q (behind p e (x ∷ xs))) same ∙ has-behind p e e (x ∷ xs) ∙ ground arith)
          | inr null ↦ inl null
        ];
      },
    )
