-- ===== src/Hash/Open/Ensures.antt =====
-- `privInsert` as a whole: with room for every key it returns, and adds the one pair.
use pwxlib.Base.{
  ℕ, zero, suc, ◌+◌, ◌*◌, ◌<◌, ◌≤◌, ◌≡◌, ◌≢◌, ◌⊎◌, ◌↔◌, refl, true, [], ◌∷◌, none, some, ◌==◌,
  arith, ap, ◌∙◌, Bool-cases, inl, inr, succ_u32, pred_u32, u32_mod,
}
use mathlib.Core.Bool.{false≢true}
use pwxlib.Hash.{Key, Elem, Slot, vacated, chain, Table}
use pwxlib.Hash.Stepping.{Hashing}
use pwxlib.Hash.Open.{unlinked, priv_insert}
use pwxlib.Hash.Open.Lookup.{At, IsPlaced}
use pwxlib.Hash.Open.Round.{handed, seated, seat, recount}
use pwxlib.Hash.Open.Insert.{Offers, is_unused, Stores, seat_unused, seat_At}
use pwxlib.Hash.Open.Total.{hops_of, sum_hops, sum_hops-written, sum_hops-le, Room, Round, round}

recount_back : (n : ℕ) → n < u32_mod → succ_u32 (pred_u32 n) ≡ n
recount_back n h = omega arith

recount-lt : {K V : Type 0} (x : Slot K V) (n : ℕ) → recount x n < u32_mod
recount-lt vacated n = omega arith
recount-lt (chain []) n = omega arith
recount-lt (chain (f ∷ es)) n = omega arith

handed-unused : {K V : Type 0} (x : Slot K V) → is_unused x ≡ true → handed x ≡ none
handed-unused vacated u = refl
handed-unused (chain []) u = refl
handed-unused (chain (f ∷ es)) u = absurd (false≢true u)

module _ {K V : Type 0} ⦃key : Key K⦄ where
  -- No element has more hops than the table has places.
  abbrev pub Bounded : Table K V → Type 0
  Bounded t = (p : ℕ) (f : Elem K V) → At t p f → f.hops ≤ t.hash_size

  abbrev pub Absent : Table K V → K → Type 0
  Absent t k = (p : ℕ) (f : Elem K V) → At t p f → f.key ≢ k

  seat-Bounded :
      (t : Table K V) (p h : ℕ) (e : Elem K V)
      → Bounded t
      → h ≤ t.hash_size
      → Bounded (seat t p e h)
  seat-Bounded t p h e b le q f at = grind (arith, b q f)

  module _ (H : Hashing) where
    -- What an insertion of `e` into `t` leaves.
    pub record Inserted (t : Table K V) (e : Elem K V) (t' : Table K V) : Type 0 where
      pub placed : IsPlaced H t'
      pub size : t'.hash_size ≡ t.hash_size
      pub method : t'.method ≡ t.method
      pub count : t'.e_count ≡ succ_u32 t.e_count
      pub bounded : Bounded t'
      pub stores : (k : K) (v : V) → Stores t' k v ↔ (Stores t k v ⊎ Offers e k v)

    -- What an insertion asks of the table and of the element.
    pub record Insertable (t : Table K V) (e : Elem K V) : Type 0 where
      pub placed : IsPlaced H t
      pub bounded : Bounded t
      pub room : (k : K) → Room H t k
      pub count : t.e_count < u32_mod
      pub absent : Absent t e.key
      pub fresh : e.hops ≡ 0

    hops_of-Bounded :
        (t : Table K V) → IsPlaced H t → Bounded t → (p : ℕ) → hops_of (t.slots p) ≤ t.hash_size
    hops_of-Bounded t placed b p = go (t.slots p) refl
      where
        go : (x : Slot K V) → t.slots p ≡ x → hops_of x ≤ t.hash_size
        go vacated q = omega arith
        go (chain []) q = omega arith
        go (chain (f ∷ es)) q = b p f (q ∙ ap (λ l. chain (f ∷ l)) (placed.single p f es q))

    -- The room of a key is no place where an element stands.
    seat-Room :
        (t : Table K V) (p h : ℕ) (e f : Elem K V) (k : K)
        → At t p f
        → Room H t k
        → Room H (seat t p e h) k
    seat-Room t p h e f k at r = record {
      step = r.step;
      steps = r.steps;
      probes = r.probes;
      bound = r.bound;
      free = ground (arith, r.free);
    }

    -- The evicted element can be inserted into what the round left.
    evicted-Insertable :
        (t : Table K V) (e f : Elem K V) (r : Round H t e)
        → Insertable t e
        → At t r.place f
        → Insertable (seat t r.place e (e.hops + r.probes)) (unlinked f)
    evicted-Insertable t e f r i at = record {
      placed = r.placed;
      bounded = seat-Bounded t r.place _ e i.bounded (omega (arith, r.small, i.fresh));
      room = λ k. seat-Room t r.place _ e f k at (i.room k);
      count = recount-lt (t.slots r.place) t.e_count;
      absent = λ q g at' same. elim (Bool-cases (q == r.place)) [
        | inl here ↦ i.absent r.place f at (ground arith)
        | inr ne ↦
            let e' : q ≡ r.place = i.placed.unique q r.place g f (ground arith) at same in
            ground arith
      ];
      fresh = refl;
    }

    seat-Inserted :
        (t : Table K V) (e : Elem K V) (r : Round H t e)
        → Insertable t e
        → is_unused (t.slots r.place) ≡ true
        → Inserted t e (seat t r.place e (e.hops + r.probes))
    seat-Inserted t e r i u = record {
      placed = r.placed;
      size = refl;
      method = refl;
      count = ground arith;
      bounded = seat-Bounded t r.place _ e i.bounded (omega (arith, r.small, i.fresh));
      stores = λ k v. seat_unused t r.place (e.hops + r.probes) e k v u;
    }

    -- Inserting the evicted element completes the insertion.
    evicted-Inserted :
        (t : Table K V) (e f : Elem K V) (r : Round H t e) (t' : Table K V)
        → Insertable t e
        → At t r.place f
        → Inserted (seat t r.place e (e.hops + r.probes)) (unlinked f) t'
        → Inserted t e t'
    evicted-Inserted t e f r t' i at n = record {
      placed = n.placed;
      size = n.size;
      method = n.method;
      count = n.count ∙ ap succ_u32 (rw at (recount_back t.e_count i.count));
      bounded = n.bounded;
      stores = λ k v.
          let (to, from) = seat_At t r.place (e.hops + r.probes) e k v f at in
          (λ s. to ((n.stores k v).0 s), λ s. (n.stores k v).1 (from s));
    }

    enough :
        (t : Table K V)
        → IsPlaced H t
        → Bounded t
        → sum_hops t.slots t.hash_size ≤ t.hash_size * t.hash_size
    enough t placed b = sum_hops-le t.slots t.hash_size t.hash_size (hops_of-Bounded t placed b)

    more_hops :
        (t : Table K V) (e f : Elem K V) (r : Round H t e)
        → At t r.place f
        → f.hops + 2 ≤ e.hops + r.probes
        → sum_hops t.slots t.hash_size + 2
          ≤ sum_hops (seat t r.place e (e.hops + r.probes)).slots t.hash_size
    more_hops t e f r at le =
        let w =
          sum_hops-written t r.place (chain (seated e (e.hops + r.probes) ∷ [])) t.hash_size
            r.inside in
        let w' : sum_hops (seat t r.place e (e.hops + r.probes)).slots t.hash_size + f.hops
            ≡ sum_hops t.slots t.hash_size + (e.hops + r.probes) =
          rw at at w in
        omega (arith, w', le)

    -- `privInsert` of an element of a new key into a well-placed table where the probing of every
    -- key comes by a free place returns, with fuel above `hash_size` squared less the sum of the
    -- hops; the table is well-placed again, its size and method are the same, its count is one
    -- higher, no element has more hops than there are places, and it stores what it stored before
    -- and the new pair.
    pub insert_total :
        (fuel : ℕ) (t : Table K V) (e : Elem K V)
        → Insertable t e
        → t.hash_size * t.hash_size < fuel + sum_hops t.slots t.hash_size
        → (t' : Table K V) × (priv_insert H fuel t e ≡ some t') × Inserted t e t'
    unfolding priv_insert
    insert_total zero t e i h = absurd (omega (arith, enough t i.placed i.bounded, h))
    insert_total (suc fuel) t e i h =
        let r = round H t i.placed e i.absent (i.room e.key) in
        elim r.reason [
          | inl u ↦ (
            seat t r.place e (e.hops + r.probes),
            rw (r.run, handed-unused _ u) refl,
            seat-Inserted t e r i u,
          )
          | inr (f, at, le) ↦
              let (t', run, n) =
                insert_total fuel (seat t r.place e (e.hops + r.probes)) (unlinked f)
                  (evicted-Insertable t e f r i at) (omega (arith, more_hops t e f r at le, h)) in
              let given : handed (t.slots r.place) ≡ some (unlinked f) = ap handed at in
              (t', rw (r.run, given) run, evicted-Inserted t e f r t' i at n)
        ]
