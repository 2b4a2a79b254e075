-- ===== src/SingleList/Sorted/Front.antt =====
-- container/TSingleList.h: where `insert_sorted` puts what is greater than all.
use pwxlib.Base.{
  ℕ, ◌+◌, ◌<◌, ◌≡◌, ◌⊎◌, refl, sym, ap, ◌∙◌, Bool, true, false, not, ◌&&◌, List, ◌∷◌, some, ◌==◌,
  arith, length, u32_mod, Bool-cases, inl, inr, ==_iff,
}
use pwxlib.SingleList.{Ptr, Node, Heap, World, done, load}
use pwxlib.SingleList.Element.{get_next}
use pwxlib.SingleList.Numbers.{curr, set_curr}
use pwxlib.SingleList.Insert.{allocate}
use pwxlib.SingleList.Insert.Holds.{prot_insert-Holds, Holds-set_curr, full_or_not, not_empty}
use pwxlib.SingleList.Find.{Values, compare_data, is_less}
use pwxlib.SingleList.Find.Found.{curr_in}
use pwxlib.SingleList.Sorted.{
  below, below_unless_null, greater_next_others, prot_find_greater_next, insert_sorted,
}
use pwxlib.SingleList.Edit.{then_done, deref-some, if_so, if_not, some-inj, load-write_other}
use pwxlib.SingleList.Linked.{has, At_kept, frame, Holds}
use pwxlib.SingleList.Behind.{next_after, At-next_after, has-last, differs}
use pwxlib.SingleList.Behind.Drop.{has-next_after}
use pwxlib.SingleList.Splice.{get_next-inserted, not_null}
use pwxlib.SingleList.Insert.Tail.{new-Fresh}

-- `compare()` finds the element at `a` less than the data `d`.
abbrev pub IsBelow : Values → Heap → Ptr → Ptr → Type 0
IsBelow v h d a = (n : Node) × (load a h ≡ some n) × (is_less (compare_data v n d) ≡ true)

module _ (v : Values) (d : Ptr) where
  below-IsBelow : (a : Ptr) (w : World) → IsBelow v w.heap d a → below v a d w ≡ done true
  below-IsBelow a w (n, nh, less) = then_done _ (deref-some a w n nh) (ap done less)

  below_unless_null-IsBelow :
      (b : Bool) (a : Ptr) (w : World)
      → (a == 0) ≡ false
      → IsBelow v w.heap d a
      → below_unless_null v b a d w ≡ done true
  below_unless_null-IsBelow b a w nz s = if_not _ _ nz (below-IsBelow a w s)

  -- The search finds nothing.
  others_below :
      (fuel x : ℕ) (xs : List Ptr) (b : Bool) (c q : Ptr) (w : World)
      → Holds w (x ∷ xs)
      → ((a : Ptr) → has a (x ∷ xs) ≡ true → IsBelow v w.heap d a)
      → greater_next_others v fuel d b c q w ≡ done (0, set_curr w.tail w)
  unfolding greater_next_others
  others_below fuel x xs b c q w h less =
      let in_head : has w.head (x ∷ xs) ≡ true =
        ap (λ p. has p (x ∷ xs)) h.at_head ∙ ground arith in
      let in_tail : has w.tail (x ∷ xs) ≡ true =
        ap (λ p. has p (x ∷ xs)) h.at_tail ∙ has-last x xs in
      let nz_head = not_null w w.head (At-next_after w.head h.linked in_head) in
      let nz_tail = not_null w w.tail (At-next_after w.tail h.linked in_tail) in
      then_done _ (below_unless_null-IsBelow true w.head w nz_head (less w.head in_head))
        (then_done _ (below_unless_null-IsBelow false w.tail w nz_tail (less w.tail in_tail)) refl)

  search_below :
      (fuel x : ℕ) (xs : List Ptr) (w : World)
      → Holds w (x ∷ xs)
      → (w.curr_ptr ≡ 0) ⊎ (has w.curr_ptr (x ∷ xs) ≡ true)
      → ((a : Ptr) → has a (x ∷ xs) ≡ true → IsBelow v w.heap d a)
      → (c : Ptr) × (prot_find_greater_next v fuel d w ≡ done (0, set_curr c w))
  unfolding prot_find_greater_next set_curr
  search_below fuel x xs w h c less =
      let zs = x ∷ xs in
      let i = curr_in x xs w h c in
      let a = At-next_after (curr w) h.linked i in
      let (n, nh, small) = less (curr w) i in
      let same : a.node ≡ n = some-inj (sym a.here ∙ nh) in
      let full = full_or_not zs w h ∙ not_empty x zs (ground arith) in
      let next : get_next n ≡ next_after (curr w) zs 0 =
        ap get_next (sym same) ∙ get_next-inserted a.node a.stays ∙ a.onto in
      elim (Bool-cases (get_next n == 0)) [
        | inl at_end ↦
            let found : get_next n ≡ 0 = (==_iff (get_next n) 0).0 at_end in
            let tested = if_so _ _ small (if_so _ _ at_end refl) in
            let stop : (is_less (compare_data v n d) && not false) ≡ true = rw (small) refl in
            (
              w.curr_ptr,
              if_not _ _ full (
                  then_done _ (deref-some (curr w) w n nh)
                    (then_done _ tested (if_so _ _ stop (ap (λ p. done (p, w)) found)))),
            )
        | inr inner ↦
            let nz = ap (λ p. p == 0) (sym next) ∙ inner in
            let in_list = ap (λ p. has p zs) next ∙ has-next_after (curr w) zs nz in
            let tested =
              if_so _ _ small (
                below_unless_null-IsBelow false (get_next n) w inner (less (get_next n) in_list)) in
            let on : (is_less (compare_data v n d) && not true) ≡ false = rw (small) refl in
            (
              w.tail,
              if_not _ _ full (
                  then_done _ (deref-some (curr w) w n nh) (
                    then_done _ tested
                      (if_not _ _ on (others_below fuel x xs _ (curr w) (get_next n) w h less)))),
            )
      ]

-- In a well-formed list that is not empty and whose current element is null or its own, if
-- `compare` finds every element less than the data, then `insert_sorted` returns, with enough
-- fuel, room in the count and an unused address, and puts the new element in front of all the
-- others.
pub insert_sorted-front :
    (v : Values) (fuel : ℕ) (d x : Ptr) (xs : List Ptr) (w : World)
    → Holds w (x ∷ xs)
    → (w.curr_ptr ≡ 0) ⊎ (has w.curr_ptr (x ∷ xs) ≡ true)
    → ((a : Ptr) → has a (x ∷ xs) ≡ true → IsBelow v w.heap d a)
    → has w.next_free (x ∷ xs) ≡ false
    → (w.next_free == 0) ≡ false
    → length xs + 3 < fuel
    → length xs + 2 < u32_mod
    → (w' : World) × (insert_sorted v fuel d w ≡ done (length xs + 2, w'))
      × Holds w' (w.next_free ∷ x ∷ xs)
unfolding insert_sorted allocate set_curr
insert_sorted-front v fuel d x xs w h c less out nz enough room =
    let u = allocate d true w in
    let e = w.next_free in
    let kept : (a : Ptr) → has a (x ∷ xs) ≡ true → load a u.heap ≡ load a w.heap =
      λ a i. load-write_other a e _ w.heap (differs a e (x ∷ xs) i out) in
    let hu : Holds u (x ∷ xs) = record {
      linked = frame h.linked λ a q i t. At_kept (kept a i) t;
      apart = h.apart;
      at_head = h.at_head;
      at_tail = h.at_tail;
      counted = h.counted;
    } in
    let size : length (x ∷ xs) + 1 ≡ length xs + 2 = omega arith in
    let (k, r) =
      search_below v d fuel x xs u hu c λ a i. let (n, nh, s) = less a i in (n, kept a i ∙ nh, s) in
    let (w', r', h') =
      prot_insert-Holds fuel 0 e (x ∷ xs) (set_curr k u) (Holds-set_curr k hu) (inl refl) out
        (new-Fresh d true w nz) (omega (arith, enough)) (omega (arith, room)) in
    (w', then_done _ r (r' ∙ ap (λ n. done (n, w')) size), h')
