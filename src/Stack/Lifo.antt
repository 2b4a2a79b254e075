-- ===== src/Stack/Lifo.antt =====
-- container/TStack.h: the stack gives back what was pushed last.
use native.Mathlib.Nat.{mod-eq_of_lt}
use pwxlib.Base.{
  ℕ, zero, suc, ◌+◌, ◌-◌, ◌%◌, ◌<◌, ◌≡◌, refl, ap, ◌∙◌, Bool, true, false, List, [], ◌∷◌, ◌==◌,
  arith, length, ltb, u32_mod, inr,
}
use pwxlib.SingleList.{Ptr, World, done, ◌>>=◌}
use pwxlib.SingleList.Numbers.{set_curr}
use pwxlib.SingleList.Insert.{allocate, prot_insert, priv_ins_data_behind_elem}
use pwxlib.SingleList.Insert.Holds.{Holds-set_curr}
use pwxlib.SingleList.Insert.Tail.{new-Fresh, Settled, tail-Settled}
use pwxlib.SingleList.Remove.Holds.{Gone}
use pwxlib.SingleList.Remove.Undone.{undo}
use pwxlib.SingleList.Public.{push_back, pop_back}
use pwxlib.SingleList.Index.{negsuc, wrap_index, in_count}
use pwxlib.SingleList.Index.Bounds.{in_count_small}
use pwxlib.SingleList.Index.Walk.{nth, InOrder, stop, step}
use pwxlib.SingleList.Index.Place.{get-nth}
use pwxlib.SingleList.Edit.{then_done, if_so, if_not, load-write_other}
use pwxlib.SingleList.Linked.{has, distinct, last, At_kept, frame, Holds}
use pwxlib.SingleList.Behind.{
  behind, next_after, At-next_after, length-behind, has-last, differs, has-behind,
}
use pwxlib.SingleList.Behind.Drop.{drop_after, drop_after-behind, next_after-behind}
use pwxlib.SingleList.Splice.{not_null}
use pwxlib.Stack.{push, pop}

InOrder-allocate :
    (d : Ptr) (b : Bool) (k : ℕ) (xs : List Ptr) (w : World)
    → has w.next_free xs ≡ false
    → InOrder w k xs
    → InOrder (allocate d b w) k xs
unfolding allocate
InOrder-allocate d b k [] w out stop = stop
InOrder-allocate d b k (x ∷ xs) w out (step (n, nh, nk) o) =
    step (n, load-write_other x w.next_free _ w.heap (ground arith) ∙ nh, nk)
      (InOrder-allocate d b (suc k) xs w (ground arith) o)

Settled-allocate :
    (d : Ptr) (b : Bool) (xs : List Ptr) (w : World)
    → has w.next_free xs ≡ false
    → Settled w xs
    → Settled (allocate d b w) xs
unfolding allocate
Settled-allocate d b xs w out s = record {
  holds = record {
    linked = frame s.holds.linked λ a q i t.
        At_kept (load-write_other a w.next_free _ w.heap (differs a w.next_free xs i out)) t;
    apart = s.holds.apart;
    at_head = s.holds.at_head;
    at_tail = s.holds.at_tail;
    counted = s.holds.counted;
  };
  order = InOrder-allocate d b 0 xs w out s.order;
  fresh_numbers = s.fresh_numbers;
  current = s.current;
}

push-Settled :
    (fuel : ℕ) (d x : Ptr) (xs : List Ptr) (w : World)
    → Settled w (x ∷ xs)
    → has w.next_free (x ∷ xs) ≡ false
    → (w.next_free == 0) ≡ false
    → length xs + 2 < u32_mod
    → (w' : World) × (push fuel d w ≡ done (length xs + 2, w'))
      × Settled w' (behind (last xs x) w.next_free (x ∷ xs))
unfolding push push_back priv_ins_data_behind_elem
push-Settled fuel d x xs w s out nz room =
    let (w', r, t) =
      tail-Settled fuel w.next_free x xs (allocate d true w)
        (Settled-allocate d true (x ∷ xs) w out s) out (new-Fresh d true w nz) room in
    (w', ap (λ p. prot_insert fuel p w.next_free (allocate d true w)) s.holds.at_tail ∙ r, t)

-- The place of the last but one.
wrap_index-two : (n : ℕ) → wrap_index (negsuc 1) (n + 2) ≡ n
unfolding wrap_index
wrap_index-two zero = refl
wrap_index-two (suc n) =
    let small : (1 + 1) % (suc n + 2) ≡ 2 = mod-eq_of_lt (omega arith) in
    let back : (suc n + 2) - (1 + 1) % (suc n + 2) ≡ suc n = rw (small) (omega arith) in
    ap (λ i. in_count i (suc n + 2)) back ∙ in_count_small (suc n) (suc n + 2) (omega arith)

nth-behind :
    (x e : Ptr) (xs : List Ptr)
    → distinct (x ∷ xs) ≡ true
    → nth (behind (last xs x) e (x ∷ xs)) (length xs) ≡ last xs x
nth-behind x e [] d = let here : (x == x) ≡ true = ground arith in rw (here) refl
nth-behind x e (y ∷ ys) d =
    let inner : (x == last ys y) ≡ false =
      ground (arith, differs (last ys y) x (y ∷ ys) (has-last y ys)) in
    rw (inner) (nth-behind y e ys (ground arith))

abbrev Pops : ℕ → Ptr → List Ptr → World → Type 0
Pops fuel e xs w = (w' : World) × (pop fuel w ≡ done (e, w')) × Holds w' xs × Gone w' e

-- A stack `zs` with `e` behind `p`, the last but one.
pop_behind :
    (fuel : ℕ) (p e x : Ptr) (xs zs : List Ptr) (w : World)
    → Settled w zs
    → length zs ≡ length xs + 2
    → nth zs (length xs) ≡ p
    → has p zs ≡ true
    → next_after p zs 0 ≡ e
    → drop_after p zs ≡ x ∷ xs
    → (e == 0) ≡ false
    → length xs + 2 < fuel
    → length xs + 2 < u32_mod
    → Pops fuel e (x ∷ xs) w
unfolding pop pop_back
pop_behind fuel p e x xs [] w s len at i next rest nz enough room = absurd (omega (arith, len))
pop_behind fuel p e x xs (a ∷ bs) w s len at i next rest nz enough room =
    let many : ltb 1 w.e_count ≡ true = rw (s.holds.counted ∙ len) (ground arith) in
    let (c, r) =
      get-nth fuel (negsuc 1) a bs w s.holds s.order s.fresh_numbers s.current
        (omega (arith, len, room)) (omega (arith, len, enough)) in
    let size : length bs + 1 ≡ length xs + 2 = omega (arith, len) in
    let place = ap (wrap_index (negsuc 1)) size ∙ wrap_index-two (length xs) in
    let found =
      r
      ∙ ap (λ k. done (nth (a ∷ bs) k, set_curr c w)) place
      ∙ ap (λ q. done (q, set_curr c w)) at in
    let is_some = not_null w p (At-next_after p s.holds.linked i) in
    let (w', run, good, gone) =
      undo fuel p e x xs (a ∷ bs) (set_curr c w) (Holds-set_curr c s.holds) (omega (arith, len))
        (inr (i, ap (λ q. q == 0) next ∙ nz)) (if_not _ _ is_some next) (if_not _ _ is_some rest)
        (omega (arith, enough)) room in
    (w', if_so _ _ many (then_done _ found run), good, gone)

-- On a stack that is a well-formed list, is not empty, has the positions as numbers with no
-- renumbering due, and has a current element that is null or its own: with enough fuel, room in
-- the count and an unused address for the new element, `push` and then `pop` return the new
-- element, marked as removed, and the stack holds what it held before.
pub pop-push :
    (fuel : ℕ) (d x : Ptr) (xs : List Ptr) (w : World)
    → Settled w (x ∷ xs)
    → has w.next_free (x ∷ xs) ≡ false
    → (w.next_free == 0) ≡ false
    → length xs + 2 < fuel
    → length xs + 2 < u32_mod
    → (w' : World) × ((do (n, w₁) ← push fuel d w; pop fuel w₁) ≡ done (w.next_free, w'))
      × Holds w' (x ∷ xs)
      × Gone w' w.next_free
pop-push fuel d x xs w s out nz enough room =
    let e = w.next_free in
    let p = last xs x in
    let i = has-last x xs in
    let (w₁, r₁, s₁) = push-Settled fuel d x xs w s out nz room in
    let (w₂, r₂, h₂, gone) =
      pop_behind fuel p e x xs (behind p e (x ∷ xs)) w₁ s₁
        (length-behind p e (x ∷ xs) ∙ omega arith) (nth-behind x e xs s.holds.apart)
        (has-behind p e p (x ∷ xs) ∙ rw (i) (ground arith)) (next_after-behind p e (x ∷ xs) i)
        (drop_after-behind p e (x ∷ xs) i) nz enough room in
    (w₂, then_done _ r₁ r₂, h₂, gone)
