-- ===== src/SingleList/Index/Walk.antt =====
-- container/TSingleList.h: places in the list, and the walk to one.
use pwxlib.Base.{
  ℕ, zero, suc, ◌+◌, ◌<◌, ◌≡◌, refl, ap, ◌∙◌, true, false, not, ◌&&◌, ◌||◌, List, [], ◌∷◌, ◌==◌,
  arith, length, ltb, succ_u32, u32_mod, Bool-cases, inl, inr, ==_iff,
}
use pwxlib.SingleList.{Ptr, World, done}
use pwxlib.SingleList.Numbers.{empty, next_of}
use pwxlib.SingleList.Index.{walk_to}
use pwxlib.SingleList.Edit.{then_done, if_so, if_not}
use pwxlib.SingleList.Linked.{has, distinct, last, Linked, cons}
use pwxlib.SingleList.Behind.{differs, has-last}
use pwxlib.SingleList.Splice.{not_null}
use pwxlib.SingleList.Numbers.Walks.{Shows, next_of-At}

abbrev pub nth : List Ptr → ℕ → Ptr
nth [] i = 0
nth (x ∷ xs) zero = x
nth (x ∷ xs) (suc i) = nth xs i

-- The elements show the numbers from `k` on.
pub data InOrder (w : World) : ℕ → List Ptr → Type 0 where
  stop : {k : ℕ} → InOrder w k []
  step :
      {k : ℕ} {x : Ptr} {xs : List Ptr} → Shows w x k → InOrder w (suc k) xs → InOrder w k (x ∷ xs)

pub walk_to-nth :
    (fuel : ℕ) (y : Ptr) (ys : List Ptr) (j k : ℕ) (w : World)
    → Linked w.heap 0 (y ∷ ys)
    → distinct (y ∷ ys) ≡ true
    → w.tail ≡ last ys y
    → k < suc (length ys)
    → j + k < u32_mod
    → k < fuel
    → walk_to fuel (j + k) y j w ≡ done (nth (y ∷ ys) k)
unfolding walk_to
walk_to-nth zero y ys j k w l d t inside room enough = absurd (omega (arith, enough))
walk_to-nth (suc fuel) y ys j zero w l d t inside room enough =
    let there : (y == 0 || not (ltb j (j + 0))) ≡ true = ground arith in if_so _ _ there refl
walk_to-nth (suc fuel) y [] j (suc k) w l d t inside room enough = absurd (omega (arith, inside))
walk_to-nth (suc fuel) y (z ∷ zs) j (suc k) w (cons a l) d t inside room enough =
    let on : (y == 0 || not (ltb j (j + suc k))) ≡ false = rw (not_null w y a) (ground arith) in
    let inner : (w.tail == y) ≡ false =
      ap (λ p. p == y) t ∙ differs (last zs z) y (z ∷ zs) (has-last z zs) (ground arith) in
    let z_there : (z == 0) ≡ false = elim l [ cons b m ↦ not_null w z b ] in
    let hop : (z == 0 && not (empty w)) ≡ false = rw (z_there) refl in
    let up : succ_u32 j ≡ suc j = omega (arith, room) in
    let rest =
      walk_to-nth fuel z zs (suc j) k w l (ground arith) t (omega (arith, inside))
        (omega (arith, room)) (omega (arith, enough)) in
    if_not _ _ on (
      then_done _ (if_not _ _ inner (next_of-At y z w a)) (
        ap (λ q. walk_to fuel (j + suc k) q (succ_u32 j) w) (if_not _ _ hop refl)
        ∙ ap (λ i. walk_to fuel (j + suc k) z i w) up
        ∙ ap (λ i. walk_to fuel i z (suc j) w) (omega arith)
        ∙ rest))

-- Where an element of the list stands, and what follows it.
pub record From (w : World) (k : ℕ) (c : Ptr) (xs : List Ptr) : Type 0 where
  pub ys : List Ptr
  pub place : ℕ
  pub linked : Linked w.heap 0 (c ∷ ys)
  pub apart : distinct (c ∷ ys) ≡ true
  pub ends : (p : Ptr) → last xs p ≡ last ys c
  pub shows : Shows w c (k + place)
  pub nth_at : (m : ℕ) → nth xs (place + m) ≡ nth (c ∷ ys) m
  pub long : length xs ≡ place + suc (length ys)

pub whereabouts :
    (c : Ptr) (xs : List Ptr) (k : ℕ) (w : World)
    → Linked w.heap 0 xs
    → distinct xs ≡ true
    → InOrder w k xs
    → has c xs ≡ true
    → From w k c xs
whereabouts c [] k w l d o i = absurd (ground arith)
whereabouts c (x ∷ xs) k w (cons a l) d (step s o) i = elim (Bool-cases (c == x)) [
  | inl same ↦
      let e : c ≡ x = (==_iff c x).0 same in
      rw (e) (record {
        ys = xs;
        place = 0;
        linked = cons a l;
        apart = d;
        ends = λ p. refl;
        shows = (s.0, s.1, s.2 ∙ omega arith);
        nth_at = λ m. ap (nth (x ∷ xs)) (omega arith);
        long = omega arith;
      })
  | inr other ↦
      let f = whereabouts c xs (suc k) w l (ground arith) o (ground arith) in
      record {
        ys = f.ys;
        place = suc f.place;
        linked = f.linked;
        apart = f.apart;
        ends = λ p. f.ends x;
        shows = (f.shows.0, f.shows.1, f.shows.2 ∙ omega arith);
        nth_at = λ m.
            let shift : suc f.place + m ≡ suc (f.place + m) = omega arith in
            ap (nth (x ∷ xs)) shift ∙ f.nth_at m;
        long = omega (arith, f.long);
      }
]

pub nth-last : (x : Ptr) (xs : List Ptr) → nth (x ∷ xs) (length xs) ≡ last xs x
nth-last x [] = refl
nth-last x (y ∷ ys) = nth-last y ys

pub next_of-first :
    (c : Ptr) (ys : List Ptr) (w : World) → Linked w.heap 0 (c ∷ ys) → next_of c w ≡ done (nth ys 0)
next_of-first c [] w (cons a l) = next_of-At c 0 w a
next_of-first c (y ∷ ys) w (cons a l) = next_of-At c y w a
