-- ===== src/DoubleList/Left.antt =====
-- container/TDoubleList.h: what `privRemove` leaves of the list.
use pwxlib.Base.{
  ℕ, ◌<◌, ◌+◌, ◌≡◌, refl, ap, ◌∙◌, sym, true, false, ◌||◌, List, [], ◌∷◌, ◌++◌, ◌==◌, arith, ==_iff,
  length, pred_u32,
}
use pwxlib.SingleList.{Ptr}
use pwxlib.SingleList.Linked.{has, distinct, first, last}
use pwxlib.DoubleList.{World, done}
use pwxlib.DoubleList.Splice.{load-nonnull}
use pwxlib.DoubleList.Removal.{IsOut}
use pwxlib.DoubleList.Chained.{Chained, cons, apart_front, split_back}
use pwxlib.DoubleList.Unchained.{remove-Chained}
use pwxlib.DoubleList.Numbers.{next_of, prev_of, set_tail}
use pwxlib.DoubleList.Numbered.{Chained-Kept, set_head-Kept, next_of-At, prev_of-At}
use pwxlib.DoubleList.Remove.{leave_ends, count_down, priv_remove}
use pwxlib.DoubleList.Held.{IsList, last-append, off_tail}

pub length-drop : (xs ys : List Ptr) (e : Ptr) → length (xs ++ (e ∷ ys)) ≡ length (xs ++ ys) + 1
length-drop [] ys e = omega arith
length-drop (z ∷ xs) ys e = omega (arith, length-drop xs ys e)

has-drop :
    (a : Ptr) (xs ys : List Ptr) (e : Ptr) → has a (xs ++ (e ∷ ys)) ≡ (a == e || has a (xs ++ ys))
has-drop a [] ys e = ground arith
has-drop a (z ∷ xs) ys e = ground (arith, has-drop a xs ys e)

distinct-drop :
    (xs ys : List Ptr) (e : Ptr) → distinct (xs ++ (e ∷ ys)) ≡ true → distinct (xs ++ ys) ≡ true
distinct-drop [] ys e d = ground (arith, d)
distinct-drop (z ∷ xs) ys e d = ground (arith, d, distinct-drop xs ys e, has-drop z xs ys e)

last-append_nil : (xs : List Ptr) (p : Ptr) → last (xs ++ []) p ≡ last xs p
last-append_nil [] p = refl
last-append_nil (x ∷ xs) p = last-append_nil xs x

counted_down : (n m : ℕ) → n ≡ m + 1 → n < 4294967296 → pred_u32 n ≡ m
counted_down n m e fits = grind (arith, e, fits)

several : (n m : ℕ) → n ≡ m + 1 → (m == 0) ≡ false → (n == 1) ≡ false
several n m e some_left = ground (arith, e, some_left)

-- The ends have left the element; it goes, and the count follows.
finish :
    (fuel : ℕ) (xs ys : List Ptr) (e : Ptr) (w w₁ : World)
    → IsList w (xs ++ (e ∷ ys))
    → length (xs ++ (e ∷ ys)) < 4294967296
    → (length (xs ++ ys) == 0) ≡ false
    → leave_ends fuel e w ≡ done w₁
    → Chained w₁.heap 0 0 (xs ++ (e ∷ ys))
    → w₁.head ≡ first (xs ++ ys) 0
    → w₁.tail ≡ last (xs ++ ys) 0
    → w₁.e_count ≡ w.e_count
    → (w' : World) × (priv_remove fuel e w ≡ done (e, w')) × IsList w' (xs ++ ys) × IsOut e w'
unfolding priv_remove count_down
finish fuel xs ys e w w₁ h fits left leaves c head tail count =
    elim (split_back 0 xs (e ∷ ys) h.chained) [
      | cons a rest ↦
          let (w₂, r₂, c₂, out, s₂) = remove-Chained xs ys e w₁ c h.apart in
          let counts : w₂.e_count ≡ length (xs ++ ys) + 1 =
            s₂.count_same ∙ count ∙ h.counted ∙ length-drop xs ys e in
          let more = several _ _ counts left in
          let full = load-nonnull e w.heap a.node a.here in
          let room : w₂.e_count < 4294967296 = omega (arith, counts, fits, length-drop xs ys e) in
          (
            record w₂ { e_count = pred_u32 w₂.e_count },
            (rw (full, a.here, a.stays, a.alive, leaves, r₂, more) refl),
            record {
              chained = c₂;
              apart = distinct-drop xs ys e h.apart;
              at_head = s₂.head_same ∙ head;
              at_tail = s₂.tail_same ∙ tail;
              counted = counted_down _ _ counts room;
            },
            record {
              node = out.node;
              here = out.here;
              removed = out.removed;
              no_next = out.no_next;
              no_prev = out.no_prev;
            },
          )
    ]

not_head :
    (x : Ptr) (xs ys : List Ptr) (e : Ptr)
    → distinct (x ∷ (xs ++ (e ∷ ys))) ≡ true
    → (x == e) ≡ false
not_head x xs ys e d =
    let apart : has x (e ∷ ys) ≡ false = apart_front (x ∷ xs) (e ∷ ys) x d (ground arith) in
    ground (arith, apart)

-- Where the state of a list is such a chain and the list has at least one other element,
-- `privRemove` of an element returns it with enough fuel, wherever it stands; afterwards the state
-- is the chain without it, and it is marked as removed and leads nowhere.
pub priv_remove-IsList :
    (fuel : ℕ) (xs ys : List Ptr) (e : Ptr) (w : World)
    → IsList w (xs ++ (e ∷ ys))
    → length (xs ++ (e ∷ ys)) < 4294967296
    → (length (xs ++ ys) == 0) ≡ false
    → length (xs ++ ys) + 1 < fuel
    → (w' : World) × (priv_remove fuel e w ≡ done (e, w')) × IsList w' (xs ++ ys) × IsOut e w'
unfolding leave_ends
priv_remove-IsList fuel [] [] e w h fits left enough = absurd (ground (arith, left))
priv_remove-IsList fuel [] (y ∷ ys) e w h fits left enough = elim h.chained [
  | cons a rest ↦
      let is_head : (w.head == e) ≡ true = (==_iff w.head e).1 h.at_head in
      let next : next_of w.head w ≡ done y =
        ap (λ p. next_of p w) h.at_head ∙ next_of-At 0 e y w a in
      let (w₁, r₁, k₁) = set_head-Kept fuel e y ys w rest (omega (arith, enough)) in
      finish fuel [] (y ∷ ys) e w w₁ h fits left (rw (is_head, next) r₁) (Chained-Kept k₁ h.chained)
        k₁.same.head_same (k₁.same.tail_same ∙ h.at_tail) k₁.same.count_same
]
priv_remove-IsList fuel (x ∷ xs) [] e w h fits left enough =
    elim (split_back 0 (x ∷ xs) (e ∷ []) h.chained) [
      | cons a rest ↦
          let other : (w.head == e) ≡ false =
            ap (λ p. p == e) h.at_head ∙ not_head x xs [] e h.apart in
          let is_tail : w.tail ≡ e = h.at_tail ∙ last-append xs [] e x in
          let tail_e : (w.tail == e) ≡ true = (==_iff w.tail e).1 is_tail in
          let back : prev_of w.tail w ≡ done (last xs x) =
            ap (λ p. prev_of p w) is_tail ∙ prev_of-At (last xs x) e 0 w a in
          finish fuel (x ∷ xs) [] e w (set_tail (last xs x) w) h fits left
            (rw (other, tail_e, back) refl) h.chained h.at_head (sym (last-append_nil xs x)) refl
    ]
priv_remove-IsList fuel (x ∷ xs) (y ∷ ys) e w h fits left enough =
    let other : (w.head == e) ≡ false =
      ap (λ p. p == e) h.at_head ∙ not_head x xs (y ∷ ys) e h.apart in
    let at_tail : w.tail ≡ last ys y = h.at_tail ∙ last-append xs (y ∷ ys) e x in
    let inner : (w.tail == e) ≡ false =
      ap (λ p. p == e) at_tail ∙ off_tail (x ∷ xs) ys e y h.apart in
    finish fuel (x ∷ xs) (y ∷ ys) e w (record w { do_renumber = true }) h fits left
      (rw (other, inner) refl) h.chained h.at_head (at_tail ∙ sym (last-append xs ys y x)) refl
