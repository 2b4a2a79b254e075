-- ===== src/SingleList/Find/Found.antt =====
-- container/TSingleList.h: what `protFind` finds.
use pwxlib.Base.{
  ℕ, zero, suc, ◌+◌, ◌<◌, ◌≡◌, ◌⊎◌, refl, sym, ap, ◌∙◌, Bool, true, false, not, ◌||◌, List, [], ◌∷◌,
  none, some, ◌==◌, if◌then◌else◌, arith, length, ltb, Bool-cases, inl, inr, ==_iff,
}
use pwxlib.SingleList.{Ptr, Heap, World, Run, done, load}
use pwxlib.SingleList.Numbers.{curr, set_curr, empty, size}
use pwxlib.SingleList.Find.{has_data, test_at, find_on, find_others, find_with, prot_find}
use pwxlib.SingleList.Edit.{then_done, deref-some, if_so, if_not}
use pwxlib.SingleList.Linked.{has, distinct, first, last, At, Linked, cons, Holds}
use pwxlib.SingleList.Behind.{differs, has-last, At-next_after, next_after}
use pwxlib.SingleList.Splice.{not_null, get_next-inserted}
use pwxlib.SingleList.Numbers.Walks.{next_of-At}

-- Whether the element at `p`, or one of `xs`, points at the data `d`.
abbrev pub points_at : Heap → Ptr → Ptr → Bool
points_at h d p = elim (load p h) [ none ↦ false | some n ↦ n.data_ptr == d ]

abbrev pub stores : Heap → Ptr → List Ptr → Bool
stores h d [] = false
stores h d (x ∷ xs) = points_at h d x || stores h d xs

-- A search for `d` gave `p` and left `w'`.
abbrev pub Outcome : Ptr → List Ptr → World → Ptr → World → Type 0
Outcome d xs w p w' =
    ((p ≡ 0) × (stores w.heap d xs ≡ false) × (w' ≡ w))
    ⊎ ((has p xs ≡ true) × (points_at w.heap d p ≡ true) × (curr w' ≡ p))

abbrev pub Finds : Run (Ptr × World) → Ptr → List Ptr → World → Type 0
Finds r d xs w = (p : Ptr) × (w' : World) × (r ≡ done (p, w')) × Outcome d xs w p w'

has_later : (p : Ptr) (ys : List Ptr) (y : Ptr) → has p ys ≡ true → has p (y ∷ ys) ≡ true
has_later p ys y i = ground arith

points_at-At :
    {p q : Ptr} (d : Ptr) (w : World) (a : At w.heap p q) → points_at w.heap d p ≡ has_data d a.node
points_at-At {p} d w a = ap (λ o. elim o [ none ↦ false | some n ↦ n.data_ptr == d ]) a.here

curr-set_curr : (p : Ptr) (w : World) → (p == 0) ≡ false → curr (set_curr p w) ≡ p
unfolding curr set_curr
curr-set_curr p w nz = if_not _ _ nz refl

last_of_one :
    (y : Ptr) (ys : List Ptr) → distinct (y ∷ ys) ≡ true → (y == last ys y) ≡ true → ys ≡ []
last_of_one y [] d e = refl
last_of_one y (z ∷ zs) d e =
    let ne = differs (last zs z) y (z ∷ zs) (has-last z zs) (ground arith) in absurd (ground arith)

last_again : (y t : Ptr) (ys : List Ptr) → t ≡ last ys y → t ≡ last ys t
last_again y t [] e = refl
last_again y t (z ∷ zs) e = e

passed :
    (d y p : Ptr) (ys : List Ptr) {w w' : World}
    → Outcome d ys w p w'
    → points_at w.heap d y ≡ false
    → Outcome d (y ∷ ys) w p w'
passed d y p ys (inl (z, s, e)) out = inl (z, rw (out) s, e)
passed d y p ys (inr (i, s, c)) out = inr (has_later p ys y i, s, c)

-- The walk looks at every element up to the tail.
find_on-Finds :
    (fuel : ℕ) (d : Ptr) (ys : List Ptr) (w : World)
    → Linked w.heap 0 ys
    → distinct ys ≡ true
    → w.tail ≡ last ys w.tail
    → length ys < fuel
    → Finds (find_on fuel (has_data d) (first ys 0) w) d ys w
unfolding find_on
find_on-Finds zero d ys w l a t enough = absurd (omega (arith, enough))
find_on-Finds (suc fuel) d [] w l a t enough = (0, w, refl, inl (refl, refl, refl))
find_on-Finds (suc fuel) d (y ∷ ys) w (cons b l) a t enough =
    let nz = not_null w y b in
    let at_y = points_at-At d w b in
    elim (Bool-cases (has_data d b.node)) [
      | inl yes_here ↦ (
        y,
        set_curr y w,
        if_not _ _ nz (then_done _ (deref-some y w b.node b.here) (if_so _ _ yes_here refl)),
        inr (ground arith, at_y ∙ yes_here, curr-set_curr y w nz),
      )
      | inr not_here ↦ elim (Bool-cases (y == w.tail)) [
        | inl at_end ↦
            let e : ys ≡ [] = last_of_one y ys a (ap (λ q. y == q) (sym t) ∙ at_end) in
            (
              0,
              w,
              if_not _ _ nz (
                  then_done _ (deref-some y w b.node b.here)
                    (if_not _ _ not_here (if_so _ _ at_end refl))),
              inl (refl, rw (at_y, not_here, e) refl, refl),
            )
        | inr on ↦
            let go = get_next-inserted b.node b.stays ∙ b.onto in
            let (p, w', r, o) =
              find_on-Finds fuel d ys w l (ground arith) (last_again y w.tail ys t)
                (omega (arith, enough)) in
            (
              p,
              w',
              if_not _ _ nz (
                  then_done _ (deref-some y w b.node b.here) (
                    if_not _ _ not_here
                      (if_not _ _ on (ap (λ q. find_on fuel (has_data d) q w) go ∙ r)))),
              passed d y p ys o (at_y ∙ not_here),
            )
      ]
    ]

test_at-points_at :
    {p q : Ptr} (d : Ptr) (w : World)
    → At w.heap p q
    → test_at (has_data d) p w ≡ done (points_at w.heap d p)
test_at-points_at {p} d w a =
    then_done _ (deref-some p w a.node a.here) (ap done (sym (points_at-At d w a)))

-- A test that leaves out the element `c`, which is known to point elsewhere.
test_unless :
    {p q : Ptr} (d c : Ptr) (w : World)
    → At w.heap p q
    → points_at w.heap d c ≡ false
    → (if p == c then done false else test_at (has_data d) p w) ≡ done (points_at w.heap d p)
test_unless {p} d c w a out = elim (Bool-cases (p == c)) [
  | inl same ↦
      let e : p ≡ c = (==_iff p c).0 same in
      if_so _ _ same (ap done (sym (ap (points_at w.heap d) e ∙ out)))
  | inr other ↦ if_not _ _ other (test_at-points_at d w a)
]

find_others-Finds :
    (fuel : ℕ) (d c x y : Ptr) (ys : List Ptr) (w : World)
    → Holds w (x ∷ y ∷ ys)
    → points_at w.heap d c ≡ false
    → length ys + 2 < fuel
    → Finds (find_others fuel (has_data d) (has_data d) c w) d (x ∷ y ∷ ys) w
unfolding find_others size
find_others-Finds fuel d c x y ys w h out enough = elim h.linked [
  | cons a l ↦
      let xs = x ∷ y ∷ ys in
      let many : not (ltb 1 w.e_count) ≡ false = rw (h.counted) (ground arith) in
      let i = has-last x (y ∷ ys) in
      let a_head : At w.heap w.head y = rw (h.at_head) a in
      let a_tail : At w.heap w.tail (next_after (last ys y) xs 0) =
        rw (h.at_tail) (At-next_after (last ys y) h.linked i) in
      elim (Bool-cases (points_at w.heap d w.head)) [
        | inl at_head ↦ (
          w.head,
          set_curr w.head w,
          if_not _ _ many (then_done _ (test_unless d c w a_head out) (if_so _ _ at_head refl)),
          inr (
            rw (h.at_head) (ground arith),
            at_head,
            curr-set_curr w.head w (not_null w w.head a_head),
          ),
        )
        | inr not_head ↦ elim (Bool-cases (points_at w.heap d w.tail)) [
          | inl at_tail ↦ (
            w.tail,
            set_curr w.tail w,
            if_not _ _ many (
                then_done _ (test_unless d c w a_head out) (
                  if_not _ _ not_head
                    (then_done _ (test_unless d c w a_tail out) (if_so _ _ at_tail refl)))),
            inr (
              ap (λ p. has p xs) h.at_tail ∙ i,
              at_tail,
              curr-set_curr w.tail w (not_null w w.tail a_tail),
            ),
          )
          | inr not_tail ↦
              let (p, w', r, o) =
                find_on-Finds fuel d (y ∷ ys) w l (ground arith) h.at_tail
                  (omega (arith, enough)) in
              (
                p,
                w',
                if_not _ _ many (
                    then_done _ (test_unless d c w a_head out) (
                      if_not _ _ not_head (
                        then_done _ (test_unless d c w a_tail out)
                          (if_not _ _ not_tail (then_done _ (next_of-At w.head y w a_head) r))))),
                passed d x p (y ∷ ys) o (ap (points_at w.heap d) (sym h.at_head) ∙ not_head),
              )
        ]
      ]
]

pub curr_in :
    (x : Ptr) (xs : List Ptr) (w : World)
    → Holds w (x ∷ xs)
    → (w.curr_ptr ≡ 0) ⊎ (has w.curr_ptr (x ∷ xs) ≡ true)
    → has (curr w) (x ∷ xs) ≡ true
unfolding curr
curr_in x xs w h (inl z) =
    let is_null : (w.curr_ptr == 0) ≡ true = (==_iff w.curr_ptr 0).1 z in
    rw (is_null, h.at_head) (ground arith)
curr_in x xs w h (inr i) = elim (Bool-cases (w.curr_ptr == 0)) [
  | inl is_null ↦ rw (is_null, h.at_head) (ground arith)
  | inr is_some ↦ ap (λ p. has p (x ∷ xs)) (if_not _ _ is_some refl) ∙ i
]

-- The current element does not point at `d`.
search_others :
    (fuel : ℕ) (d x : Ptr) (xs : List Ptr) (w : World)
    → Holds w (x ∷ xs)
    → has (curr w) (x ∷ xs) ≡ true
    → points_at w.heap d (curr w) ≡ false
    → length (x ∷ xs) < fuel
    → Finds (find_others fuel (has_data d) (has_data d) (curr w) w) d (x ∷ xs) w
unfolding find_others size
search_others fuel d x [] w h i out enough =
    let one : not (ltb 1 w.e_count) ≡ true = rw (h.counted) (ground arith) in
    let only : curr w ≡ x = (==_iff (curr w) x).0 (ground arith) in
    (0, w, if_so _ _ one refl, inl (refl, rw (← only, out) refl, refl))
search_others fuel d x (y ∷ ys) w h i out enough =
    find_others-Finds fuel d (curr w) x y ys w h out (omega (arith, enough))

-- In a well-formed list whose current element is null or one of its own, `protFind` returns with
-- enough fuel: null, if no element points at the data, with nothing changed, and else an element
-- of the list that does, which is the current one afterwards.
pub prot_find-Finds :
    (fuel : ℕ) (d : Ptr) (xs : List Ptr) (w : World)
    → Holds w xs
    → (w.curr_ptr ≡ 0) ⊎ (has w.curr_ptr xs ≡ true)
    → length xs < fuel
    → (p : Ptr) × (w' : World) × (prot_find fuel d w ≡ done (p, w')) × Outcome d xs w p w'
unfolding prot_find find_with empty
prot_find-Finds fuel d [] w h c enough =
    (0, w, if_so _ _ (ap (λ n. n == 0) h.counted) refl, inl (refl, refl, refl))
prot_find-Finds fuel d (x ∷ xs) w h c enough =
    let i = curr_in x xs w h c in
    let a = At-next_after (curr w) h.linked i in
    let full : (w.e_count == 0) ≡ false = rw (h.counted) (ground arith) in
    let tested = if_not _ _ (not_null w (curr w) a) (test_at-points_at d w a) in
    elim (Bool-cases (points_at w.heap d (curr w))) [
      | inl here ↦ (
        curr w,
        w,
        if_not _ _ full (then_done _ tested (if_so _ _ here refl)),
        inr (i, here, refl),
      )
      | inr out ↦
          let (p, w', r, o) = search_others fuel d x xs w h i out enough in
          (p, w', if_not _ _ full (then_done _ tested (if_not _ _ out r)), o)
    ]
