-- ===== src/SingleList/Insert/Holds.antt =====
-- container/TSingleList.h: what `protInsert` inserts where.
use pwxlib.Base.{
  ℕ, zero, suc, ◌+◌, ◌<◌, ◌≡◌, ◌⊎◌, refl, sym, ap, ◌∙◌, true, false, not, ◌&&◌, ◌||◌, List, [], ◌∷◌,
  ◌==◌, if◌then◌else◌, arith, length, succ_u32, u32_mod, Bool-cases, inl, inr, ==_iff,
}
use pwxlib.SingleList.{Ptr, World, Run, done}
use pwxlib.SingleList.Numbers.{set_curr, empty}
use pwxlib.SingleList.Insert.{insert_at_end, insert_behind, prot_insert, count_up}
use pwxlib.SingleList.Insert.Grown.{Fresh, Grows, middle-Grows, tail-Grows, head-Grows, first-Grows}
use pwxlib.SingleList.Edit.{then_done, deref-some, if_so, if_not}
use pwxlib.SingleList.Linked.{has, Holds}
use pwxlib.SingleList.Behind.{behind, At-next_after, length-behind}
use pwxlib.SingleList.Splice.{not_null}

-- The place that `protInsert( insPrev, insElem )` means: in front for a null predecessor.
abbrev pub placed : Ptr → Ptr → List Ptr → List Ptr
placed p e xs = if p == 0 then e ∷ xs else behind p e xs

pub length-placed : (p e : Ptr) (xs : List Ptr) → length (placed p e xs) ≡ suc (length xs)
length-placed p e xs = ground (arith, length-behind p e xs)

pub full_or_not : (xs : List Ptr) (w : World) → Holds w xs → empty w ≡ (length xs == 0)
unfolding empty
full_or_not xs w h = ap (λ n. n == 0) h.counted

pub not_empty : (p : Ptr) (xs : List Ptr) → has p xs ≡ true → (length xs == 0) ≡ false
not_empty p [] i = absurd (ground arith)
not_empty p (x ∷ xs) i = ground arith

Holds-later : {xs : List Ptr} {w : World} → Holds w xs → Holds (record w { do_renumber = true }) xs
Holds-later h = record {
  linked = h.linked;
  apart = h.apart;
  at_head = h.at_head;
  at_tail = h.at_tail;
  counted = h.counted;
}

pub Holds-set_curr : {xs : List Ptr} {w : World} (e : Ptr) → Holds w xs → Holds (set_curr e w) xs
unfolding set_curr
Holds-set_curr e h = record {
  linked = h.linked;
  apart = h.apart;
  at_head = h.at_head;
  at_tail = h.at_tail;
  counted = h.counted;
}

insert_at_end-Grows :
    (fuel : ℕ) (p e : Ptr) (xs : List Ptr) (w : World)
    → Holds w xs
    → (p ≡ 0) ⊎ ((has p xs ≡ true) × (w.tail ≡ p))
    → has e xs ≡ false
    → Fresh w.heap e
    → length xs + 2 < fuel
    → Grows (insert_at_end fuel p e w) w (placed p e xs)
unfolding insert_at_end
insert_at_end-Grows zero p e xs w h c out f enough = absurd (omega (arith, enough))
insert_at_end-Grows (suc fuel) p e [] w h (inl z) out f enough =
    let (w', r, g) = first-Grows fuel e w f in
    let none_in = full_or_not [] w h in (w', if_so _ _ none_in r, rw (z) g)
insert_at_end-Grows (suc fuel) p e [] w h (inr (i, t)) out f enough = absurd (ground arith)
insert_at_end-Grows (suc fuel) p e (x ∷ xs) w h (inl z) out f enough =
    let (w', r, g) = head-Grows (suc fuel) e x xs w h out f (omega (arith, enough)) in
    let some_in = full_or_not (x ∷ xs) w h ∙ not_empty x (x ∷ xs) (ground arith) in
    let is_null : (p == 0) ≡ true = (==_iff p 0).1 z in
    (w', if_not _ _ some_in (if_so _ _ is_null r), rw (is_null) g)
insert_at_end-Grows (suc fuel) p e (x ∷ xs) w h (inr (i, t)) out f enough =
    let (w', r, g, k) = tail-Grows p e (x ∷ xs) w h i t out f (suc fuel) in
    let some_in = full_or_not (x ∷ xs) w h ∙ not_empty x (x ∷ xs) (ground arith) in
    let a = At-next_after p h.linked i in
    let nz = not_null w p a in
    let at_end : (p == w.tail || a.node.is_destroyed) ≡ true = rw (t) (ground arith) in
    (
      w',
      if_not _ _ some_in
          (if_not _ _ nz (then_done _ (deref-some p w a.node a.here) (if_so _ _ at_end r))),
      rw (nz) g,
    )

abbrev insert_run : ℕ → Ptr → Ptr → World → Run World
insert_run fuel p e w =
    if not (empty w) && not (p == 0) && not (w.tail == p)
    then insert_behind p e w
    else insert_at_end fuel p e w

insert_run-Grows :
    (fuel : ℕ) (p e : Ptr) (xs : List Ptr) (w : World)
    → Holds w xs
    → (p ≡ 0) ⊎ (has p xs ≡ true)
    → has e xs ≡ false
    → Fresh w.heap e
    → length xs + 2 < fuel
    → Grows (insert_run fuel p e w) w (placed p e xs)
unfolding insert_behind
insert_run-Grows fuel p e xs w h (inl z) out f enough =
    let (w', r, g) = insert_at_end-Grows fuel p e xs w h (inl z) out f enough in
    let is_null : (p == 0) ≡ true = (==_iff p 0).1 z in
    let guard : (not (empty w) && not (p == 0) && not (w.tail == p)) ≡ false = ground arith in
    (w', if_not _ _ guard r, g)
insert_run-Grows fuel p e xs w h (inr i) out f enough =
    let nz = not_null w p (At-next_after p h.linked i) in
    let some_in : empty w ≡ false = full_or_not xs w h ∙ not_empty p xs i in
    elim (Bool-cases (w.tail == p)) [
      | inl t ↦
          let (w', r, g) =
            insert_at_end-Grows fuel p e xs w h (inr (i, (==_iff _ _).0 t)) out f enough in
          let guard : (not (empty w) && not (p == 0) && not (w.tail == p)) ≡ false =
            rw (some_in, nz, t) refl in
          (w', if_not _ _ guard r, g)
      | inr nt ↦
          let guard : (not (empty w) && not (p == 0) && not (w.tail == p)) ≡ true =
            rw (some_in, nz, nt) refl in
          let w₀ = record w { do_renumber = true } in
          let (w', r, g) = middle-Grows p e xs w₀ (Holds-later h) i nt out f in
          (w', if_so _ _ guard r, rw (nz) g)
    ]

-- Into a well-formed list, `protInsert` of a fresh element, behind an element of the list or
-- behind null, with enough fuel and room in the count, returns the new count; afterwards the list
-- is well-formed, and holds the same elements in the same order with the new one directly behind
-- the given one, or in front of all for null.
pub prot_insert-Holds :
    (fuel : ℕ) (p e : Ptr) (xs : List Ptr) (w : World)
    → Holds w xs
    → (p ≡ 0) ⊎ (has p xs ≡ true)
    → has e xs ≡ false
    → Fresh w.heap e
    → length xs + 2 < fuel
    → length xs + 1 < u32_mod
    → (w' : World) × (prot_insert fuel p e w ≡ done (length xs + 1, w')) × Holds w' (placed p e xs)
unfolding prot_insert set_curr
prot_insert-Holds fuel p e xs w h c out f enough room =
    let (w₁, r, g) =
      insert_run-Grows fuel p e xs (set_curr e w) (Holds-set_curr e h) c out f enough in
    let up : succ_u32 w₁.e_count ≡ length xs + 1 =
      rw (g.count_kept, h.counted) (omega (arith, room)) in
    (
      count_up w₁,
      then_done _ r (ap (λ n. done (n, count_up w₁)) up),
      record {
        linked = g.linked;
        apart = g.apart;
        at_head = g.at_head;
        at_tail = g.at_tail;
        counted = up ∙ omega arith ∙ sym (length-placed p e xs);
      },
    )
