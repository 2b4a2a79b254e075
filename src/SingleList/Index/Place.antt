-- ===== src/SingleList/Index/Place.antt =====
-- container/TSingleList.h: an element by its index.
use pwxlib.Base.{
  ℕ, zero, suc, ◌+◌, ◌-◌, ◌<◌, ◌≤◌, ◌≡◌, ◌⊎◌, refl, sym, ap, ◌∙◌, true, false, List, [], ◌∷◌, ◌==◌,
  arith, length, ltb, succ_u32, u32_mod, Bool-cases, inl, inr, ==_iff,
}
use pwxlib.SingleList.{Ptr, World, Run, done}
use pwxlib.SingleList.Numbers.{curr, set_curr, empty, next_of, renumber}
use pwxlib.SingleList.Index.{
  ℤ, wrap_index, nr_at, walk_to, start_walk, get_place, priv_get_element_by_index,
}
use pwxlib.SingleList.Index.Bounds.{wrap_index-Congruent}
use pwxlib.SingleList.Edit.{then_done, deref-some, if_so, if_not}
use pwxlib.SingleList.Linked.{has, distinct, last, Linked, cons, Holds}
use pwxlib.SingleList.Splice.{not_null}
use pwxlib.SingleList.Numbers.Walks.{next_of-At}
use pwxlib.SingleList.Find.Found.{curr_in}
use pwxlib.SingleList.Index.Walk.{
  nth, InOrder, walk_to-nth, From, whereabouts, nth-last, next_of-first,
}

-- A search by place gave `p`, and nothing changed but the current element.
abbrev pub Gets : Run (Ptr × World) → Ptr → World → Type 0
Gets r p w = (c : Ptr) × (r ≡ done (p, set_curr c w))

gets :
    {r : Run (Ptr × World)} {q p : Ptr} {v : World} (w : World)
    → r ≡ done (q, v)
    → q ≡ p
    → v ≡ set_curr v.curr_ptr w
    → Gets r p w
gets {p = p} {v = v} w run e s =
    (v.curr_ptr, run ∙ ap (λ q. done (q, v)) e ∙ ap (λ u. done (p, u)) s)

-- From the head on, for a place before the current element.
from_head :
    (fuel : ℕ) (c x : Ptr) (xs : List Ptr) (k j : ℕ) (w : World)
    → Holds w (x ∷ xs)
    → ltb (1 + k) j ≡ true
    → k < length xs
    → 1 + k < u32_mod
    → k < fuel
    → start_walk fuel (1 + k) c j w ≡ done (nth xs k, set_curr (nth xs k) w)
unfolding start_walk
from_head fuel c x [] k j w h before inside room enough = absurd (omega (arith, inside))
from_head fuel c x (y ∷ ys) k j w h before inside room enough = elim h.linked [
  | cons a l ↦
      let q = ap (λ p. next_of p w) (if_so _ _ before refl ∙ h.at_head) ∙ next_of-At x y w a in
      let number = ap (λ n. walk_to fuel (1 + k) y n w) (if_so _ _ before refl) in
      let walk = walk_to-nth fuel y ys 1 k w l (ground arith) h.at_tail inside room enough in
      then_done _ q (then_done _ (number ∙ walk) refl)
]

-- From the current element on, for a place behind it.
from_current :
    (fuel : ℕ) (c : Ptr) (ys : List Ptr) (j k : ℕ) (w : World)
    → Linked w.heap 0 (c ∷ ys)
    → distinct (c ∷ ys) ≡ true
    → w.tail ≡ last ys c
    → k < length ys
    → j + suc k < u32_mod
    → k < fuel
    → start_walk fuel (j + suc k) c j w ≡ done (nth ys k, set_curr (nth ys k) w)
unfolding start_walk
from_current fuel c [] j k w l d t inside room enough = absurd (omega (arith, inside))
from_current fuel c (y ∷ ys) j k w (cons a l) d t inside room enough =
    let ahead : ltb (j + suc k) j ≡ false = ground arith in
    let up : succ_u32 j ≡ suc j = omega (arith, room) in
    let q = ap (λ p. next_of p w) (if_not _ _ ahead refl) ∙ next_of-At c y w a in
    let number = ap (λ n. walk_to fuel (j + suc k) y n w) (if_not _ _ ahead up) in
    let onward : j + suc k ≡ suc j + k = omega arith in
    let shift = ap (λ i. walk_to fuel i y (suc j) w) onward in
    let walk =
      walk_to-nth fuel y ys (suc j) k w l (ground arith) t inside (omega (arith, room)) enough in
    then_done _ q (then_done _ (number ∙ shift ∙ walk) refl)

-- The walk, for a place that is not the first one nor that of the current element.
start_walk-nth :
    (fuel : ℕ) (c x : Ptr) (xs : List Ptr) (i : ℕ) (w : World)
    → Holds w (x ∷ xs)
    → (f : From w 0 c (x ∷ xs)) → (i == f.place) ≡ false
    → (i == 0) ≡ false
    → i < suc (length xs)
    → suc (length xs) < u32_mod
    → i < fuel
    → Gets (start_walk fuel i c f.place w) (nth (x ∷ xs) i) w
unfolding set_curr
start_walk-nth fuel c x xs zero w h f n1 n2 inside room enough = absurd (ground arith)
start_walk-nth fuel c x xs (suc i) w h f n1 n2 inside room enough =
    elim (Bool-cases (ltb (suc i) f.place)) [
      | inl before ↦
          let same : suc i ≡ 1 + i = omega arith in
          let run =
            from_head fuel c x xs i f.place w h (ap (λ n. ltb n f.place) (sym same) ∙ before)
              (omega (arith, inside)) (omega (arith, inside, room)) (omega (arith, enough)) in
          gets w (ap (λ n. start_walk fuel n c f.place w) same ∙ run) refl refl
      | inr behind_it ↦
          let past : f.place ≤ i = ground arith in
          let k = i - f.place in
          let same : suc i ≡ f.place + suc k = omega (arith, past) in
          let long = f.long in
          let run =
            from_current fuel c f.ys f.place k w f.linked f.apart (h.at_tail ∙ f.ends 0)
              (omega (arith, past, inside, long)) (omega (arith, past, inside, room))
              (omega (arith, enough)) in
          gets w (ap (λ n. start_walk fuel n c f.place w) same ∙ run)
            (sym (ap (nth (x ∷ xs)) same ∙ f.nth_at (suc k))) refl
    ]

get_place-nth :
    (fuel : ℕ) (c x : Ptr) (xs : List Ptr) (i : ℕ) (w : World)
    → Holds w (x ∷ xs)
    → (f : From w 0 c (x ∷ xs)) → i < suc (length xs)
    → suc (length xs) < u32_mod
    → i < fuel
    → Gets (get_place fuel i c f.place w) (nth (x ∷ xs) i) w
unfolding get_place set_curr
get_place-nth fuel c x xs i w h f inside room enough = elim (Bool-cases (i == f.place)) [
  | inl here ↦
      let e : i ≡ f.place + 0 = ground arith in
      gets w (if_so _ _ here refl) (sym (ap (nth (x ∷ xs)) e ∙ f.nth_at 0)) refl
  | inr n1 ↦ elim (Bool-cases (i == 0)) [
    | inl at_head ↦
        let e : i ≡ 0 = (==_iff i 0).0 at_head in
        gets w (if_not _ _ n1 (if_so _ _ at_head refl)) (h.at_head ∙ sym (ap (nth (x ∷ xs)) e)) refl
    | inr n2 ↦ elim (Bool-cases (i == w.e_count - 1)) [
      | inl at_tail ↦
          let n = h.counted in
          let e : i ≡ length xs = ground arith in
          gets w (if_not _ _ n1 (if_not _ _ n2 (if_so _ _ at_tail refl)))
            (h.at_tail ∙ sym (ap (nth (x ∷ xs)) e ∙ nth-last x xs)) refl
      | inr n3 ↦ elim (Bool-cases (i == succ_u32 f.place)) [
        | inl at_next ↦
            let long = f.long in
            let after : succ_u32 f.place ≡ f.place + 1 = omega (arith, long, room) in
            let e : i ≡ f.place + 1 = (==_iff i _).0 at_next ∙ after in
            let run = if_so _ _ at_next (then_done _ (next_of-first c f.ys w f.linked) refl) in
            gets w (if_not _ _ n1 (if_not _ _ n2 (if_not _ _ n3 run)))
              (sym (ap (nth (x ∷ xs)) e ∙ f.nth_at 1)) refl
        | inr n4 ↦
            let (c', r) = start_walk-nth fuel c x xs i w h f n1 n2 inside room enough in
            (c', if_not _ _ n1 (if_not _ _ n2 (if_not _ _ n3 (if_not _ _ n4 r))))
      ]
    ]
  ]
]

-- In a well-formed list that is not empty, whose elements show their positions as numbers, whose
-- renumbering is not due, and whose current element is null or one of its own:
-- `privGetElementByIndex` returns with enough fuel, for every index, the element at the place that
-- the index names, and changes nothing but the current element; the count is below 2 ^ 32.
pub get-nth :
    (fuel : ℕ) (index : ℤ) (x : Ptr) (xs : List Ptr) (w : World)
    → Holds w (x ∷ xs)
    → InOrder w 0 (x ∷ xs)
    → w.do_renumber ≡ false
    → (w.curr_ptr ≡ 0) ⊎ (has w.curr_ptr (x ∷ xs) ≡ true)
    → length xs + 1 < u32_mod
    → length xs < fuel
    → Gets
        (priv_get_element_by_index fuel index w)
        (nth (x ∷ xs) (wrap_index index (length xs + 1)))
        w
unfolding priv_get_element_by_index renumber empty
get-nth fuel index x xs w h o fresh c room enough =
    let f = whereabouts (curr w) (x ∷ xs) 0 w h.linked h.apart o (curr_in x xs w h c) in
    let (n, nh, nk) = f.shows in
    let full : (w.e_count == 0) ≡ false = rw (h.counted) (ground arith) in
    let size : w.e_count ≡ length xs + 1 = h.counted ∙ omega arith in
    let i = wrap_index index (length xs + 1) in
    let inside : i < length xs + 1 = (wrap_index-Congruent index (length xs + 1) (omega arith)).0 in
    let (c', r) =
      get_place-nth fuel (curr w) x xs i w h f (omega (arith, inside)) (omega (arith, room))
        (omega (arith, inside, enough)) in
    let nz : (curr w == 0) ≡ false = elim f.linked [ cons a l ↦ not_null w (curr w) a ] in
    let shown : nr_at (curr w) w ≡ done f.place =
      if_not _ _ nz (then_done _ (deref-some (curr w) w n nh) (ap done (nk ∙ omega arith))) in
    (
      c',
      if_not _ _ full (
          then_done _ (if_not _ _ fresh refl) (
            then_done _ shown
              (ap (λ k. get_place fuel (wrap_index index k) (curr w) f.place w) size ∙ r))),
    )
