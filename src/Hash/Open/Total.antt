-- ===== src/Hash/Open/Total.antt =====
-- `privInsert` ends, and what the table holds then. An eviction puts an element with more hops in
-- the place of one with fewer, so the sum of the hops in the table grows with every round.
use pwxlib.Base.{
  ℕ, zero, suc, ◌+◌, ◌*◌, ◌<◌, ◌≤◌, ◌≡◌, ◌≢◌, ◌⊎◌, refl, true, [], ◌∷◌, Option, some, ◌==◌, arith,
  ap, ◌∙◌, sym, Bool-cases, inl, inr, ==_iff,
}
use native.Mathlib.Decide.{dec_lt}
use mathlib.Core.Bool.{false≢true}
use pwxlib.Hash.{
  Key, Elem, Slot, vacated, chain, Table, prot_is_empty, prot_is_vacated, table_get,
  table_key_equals,
}
use pwxlib.Hash.Stepping.{Hashing}
use pwxlib.Hash.Open.{settles, settle, stepping, idx_base}
use pwxlib.Hash.Open.Path.{place_at, path-lt}
use pwxlib.Hash.Open.Lookup.{At, IsPlaced, get_index-Stops, clear-nonnull}
use pwxlib.Hash.Open.Change.{written, occupy-IsPlaced}
use pwxlib.Hash.Open.Round.{handed, seated, seat, settle-seat}
use pwxlib.Hash.Open.Insert.{is_unused}

module _ {K V : Type 0} where
  abbrev pub hops_of : Slot K V → ℕ
  hops_of (chain (f ∷ es)) = f.hops
  hops_of _ = 0

  unfoldable pub sum_hops : (ℕ → Slot K V) → ℕ → ℕ
  sum_hops σ zero = 0
  sum_hops σ (suc n) = sum_hops σ n + hops_of (σ n)

  sum_hops-lt :
      (t : Table K V) (p : ℕ) (x : Slot K V) (n : ℕ)
      → n ≤ p
      → sum_hops (written t p x) n ≡ sum_hops t.slots n
  unfolding sum_hops
  sum_hops-lt t p x zero h = refl
  sum_hops-lt t p x (suc n) h = ground (arith, sum_hops-lt t p x n)

  pub sum_hops-written :
      (t : Table K V) (p : ℕ) (x : Slot K V) (n : ℕ)
      → p < n
      → sum_hops (written t p x) n + hops_of (t.slots p) ≡ sum_hops t.slots n + hops_of x
  unfolding sum_hops
  sum_hops-written t p x zero h = absurd (omega arith)
  sum_hops-written t p x (suc n) h = elim (Bool-cases (n == p)) [
    | inl same ↦
        let e : n ≡ p = (==_iff _ _).0 same in
        let below = sum_hops-lt t p x n (omega arith) in rw (same, below) (rw e (omega arith))
    | inr ne ↦ rw ne (omega (arith, sum_hops-written t p x n (ground arith)))
  ]

  pub sum_hops-le :
      (σ : ℕ → Slot K V) (b n : ℕ) → ((p : ℕ) → hops_of (σ p) ≤ b) → sum_hops σ n ≤ n * b
  unfolding sum_hops
  sum_hops-le σ b zero h = omega arith
  sum_hops-le σ b (suc n) h = grind (arith, sum_hops-le σ b n h, h n)

module _ {K V : Type 0} ⦃key : Key K⦄ (H : Hashing) where
  -- The probing of a key comes by a place that is free.
  pub record Room (t : Table K V) (k : K) : Type 0 where
    pub step : ℕ
    pub steps : stepping H t k ≡ some step
    pub probes : ℕ
    pub bound : probes < t.hash_size
    pub free : is_unused (t.slots (place_at t (idx_base H t k) step probes)) ≡ true

  pub record Round (t : Table K V) (e : Elem K V) : Type 0 where
    pub place : ℕ
    pub probes : ℕ
    pub small : probes < t.hash_size
    pub inside : place < t.hash_size
    pub run : settle H t e ≡ some (handed (t.slots place), seat t place e (e.hops + probes))
    pub placed : IsPlaced H (seat t place e (e.hops + probes))
    pub reason :
        (is_unused (t.slots place) ≡ true)
        ⊎ ((f : Elem K V) × At t place f × (f.hops + 2 ≤ e.hops + probes))

  module _ (t : Table K V) (placed : IsPlaced H t) (e : Elem K V)
      (absent : (p : ℕ) (f : Elem K V) → At t p f → f.key ≢ e.key) where
    open placed use {live, sized, single}

    free-settles :
        (h : Option ℕ) (p : ℕ) → is_unused (t.slots p) ≡ true → settles t e.key true h p ≡ true
    unfolding settles prot_is_empty prot_is_vacated
    free-settles h p u = ground arith

    stop_reason :
        (h p : ℕ) (x : Slot K V)
        → t.slots p ≡ x
        → settles t e.key true (some h) p ≡ true
        → (is_unused (t.slots p) ≡ true) ⊎ ((f : Elem K V) × At t p f × (f.hops + 2 ≤ h))
    unfolding settles prot_is_empty prot_is_vacated table_key_equals table_get
    stop_reason h p vacated q s = inl (ground arith)
    stop_reason h p (chain []) q s = inl (ground arith)
    stop_reason h p (chain (f ∷ es)) q s =
        let at : At t p f = q ∙ ap (λ l. chain (f ∷ l)) (single p f es q) in
        inr (f, at, ground (arith, absent p f at, key.equal_iff f.key e.key))

    pub round : Room t e.key → Round t e
    round room =
        let (m, s, index) = get_index-Stops H t e.key true (some e.hops) room.step room.steps in
        let p = place_at t (idx_base H t e.key) room.step m in
        let soon : m < t.hash_size = elim (dec_lt room.probes m) [
          | yes late ↦
              absurd (false≢true (sym (s.before room.probes late) ∙ free-settles _ _ room.free))
          | no early ↦ omega (arith, room.bound)
        ] in
        let lt : p < t.hash_size = path-lt t.hash_size _ room.step m (H.scale-lt _ _ sized) in
        record {
          place = p;
          probes = m;
          small = soon;
          inside = lt;
          run = settle-seat H t placed e p (e.hops + m) index lt;
          placed =
              occupy-IsPlaced H t placed p _ (seated e (e.hops + m))
                (record {
                  step = room.step;
                  steps = room.steps;
                  probes = m;
                  bound = omega arith;
                  place = refl;
                  nonnull = λ j h. clear-nonnull t e.key true _ _ live (s.before j h);
                })
                absent;
          reason = stop_reason (e.hops + m) p _ refl (s.found soon);
        }
