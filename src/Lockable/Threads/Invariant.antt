-- ===== src/Lockable/Threads/Invariant.antt =====
-- Who owns the object, in every state that threads reach, and that each turn keeps it so.
use pwxlib.Base.{
  ℕ, suc, ◌+◌, ◌<◌, ◌≤◌, ◌≡◌, ◌≢◌, ◌⊎◌, inl, inr, Bool, true, false, not, arith, ◌==◌,
  if◌then◌else◌, u32_mod, Bool-cases, ==_iff,
}
use pwxlib.Lockable.{Lockable}
use pwxlib.Lockable.Threads.{
  Pc, idle, lock_alive, lock_switch, lock_test, lock_spin, lock_mark, lock_own, lock_one,
  lock_lower, lock_again, try_alive, try_switch, try_test, try_flag, unlock_switch, unlock_test,
  unlock_sub, unlock_disown, unlock_unmark, unlock_clear, Call, Local, turn, System, step,
}

-- The object bears the owner's id and counts `n` locks.
abbrev pub Held : ℕ → ℕ → Lockable → Type 0
Held me n s = (s.thread_id ≡ me) × (s.lock_count ≡ n) × (s.is_locked ≡ true)

-- What the owner knows at each statement.
abbrev pub Own : Pc → ℕ → ℕ → Lockable → Type 0
Own idle me d s = (0 < d) × Held me d s
Own lock_alive me d s = (0 < d) × Held me d s
Own lock_switch me d s = (0 < d) × Held me d s
Own lock_test me d s = (0 < d) × Held me d s
Own lock_mark me d s = (d ≡ 0) × (s.thread_id ≡ 0)
Own lock_own me d s = (d ≡ 0) × (s.thread_id ≡ 0) × (s.is_locked ≡ true)
Own lock_one me d s = (d ≡ 0) × (s.thread_id ≡ me) × (s.is_locked ≡ true)
Own lock_lower me d s = (d ≡ 0) × Held me 1 s
Own lock_again me d s = (0 < d) × Held me d s
Own try_alive me d s = (0 < d) × Held me d s
Own try_switch me d s = (0 < d) × Held me d s
Own try_test me d s = (0 < d) × Held me d s
Own unlock_switch me d s = Held me (d + 1) s
Own unlock_test me d s = Held me (d + 1) s
Own unlock_sub me d s = Held me (d + 1) s
Own unlock_disown me d s = (d ≡ 0) × (s.thread_id ≡ me)
Own unlock_unmark me d s = (d ≡ 0) × (s.thread_id ≡ 0)
Own unlock_clear me d s = (d ≡ 0) × (s.thread_id ≡ 0)
Own _ me d s = ⊥

-- Any other thread holds no lock, and stands where it need not be the owner.
abbrev pub Other : Pc → ℕ → Type 0
Other lock_mark d = ⊥
Other lock_own d = ⊥
Other lock_one d = ⊥
Other lock_lower d = ⊥
Other lock_again d = ⊥
Other unlock_sub d = ⊥
Other unlock_disown d = ⊥
Other unlock_unmark d = ⊥
Other unlock_clear d = ⊥
Other _ d = d ≡ 0

abbrev pub Stands : Bool → Local → ℕ → Lockable → Type 0
Stands true l me s = Own l.pc me l.depth s
Stands false l me s = Other l.pc l.depth

-- The owner after a turn: a thread that finds the flag clear, or nobody once it is cleared.
next_owner : Pc → ℕ → Lockable → ℕ → ℕ
next_owner lock_spin me s o = if s.flag then o else me
next_owner try_flag me s o = if s.flag then o else me
next_owner unlock_clear me s o = 0
next_owner _ me s o = o

pub record Shared (o : ℕ) (s : Lockable) : Type 0 where
  pub live : s.is_destroyed ≡ false
  pub on : s.do_locking ≡ true
  pub flagged : s.flag ≡ not (o == 0)
  pub id : (s.thread_id ≡ 0) ⊎ (s.thread_id ≡ o)

record Turned (pc : Pc) (c : Call) (me o d : ℕ) (s : Lockable) : Type 0 where
  shared : Shared (next_owner pc me s o) (turn pc c me d s).0
  mine : Stands (next_owner pc me s o == me) (turn pc c me d s).1 me (turn pc c me d s).0
  bound : (turn pc c me d s).1.depth ≤ d + 1

turn-Own :
    (pc : Pc) (c : Call) (me d : ℕ) (s : Lockable)
    → 0 < me
    → d + 1 < u32_mod
    → Shared me s
    → Own pc me d s
    → Turned pc c me me d s
unfolding turn next_owner
turn-Own idle Call.wants_lock me d s p b sh w = ground arith
turn-Own pc c me d s p b sh w = ground arith

turn-Other :
    (pc : Pc) (c : Call) (me o d : ℕ) (s : Lockable)
    → 0 < me
    → me ≢ o
    → Shared o s
    → Other pc d
    → Turned pc c me o d s
unfolding turn next_owner
turn-Other idle Call.wants_lock me o d s p ne sh w = ground arith
turn-Other pc c me o d s p ne sh w = ground arith

-- A thread that is not the owner writes none of what the owner relies on.
record Kept (o : ℕ) (s s' : Lockable) (o' me : ℕ) : Type 0 where
  id : s'.thread_id ≡ s.thread_id
  count : s'.lock_count ≡ s.lock_count
  marked : 0 < o → s'.is_locked ≡ s.is_locked
  owner : (o' ≡ o) ⊎ ((o' ≡ me) × (o ≡ 0))

turn-Kept :
    (pc : Pc) (c : Call) (me o d : ℕ) (s : Lockable)
    → Shared o s
    → Other pc d
    → Kept o s (turn pc c me d s).0 (next_owner pc me s o) me
unfolding turn next_owner
turn-Kept idle Call.wants_lock me o d s sh w = ground arith
turn-Kept pc c me o d s sh w = ground arith

Own-frame :
    (pc : Pc) (me d : ℕ) (s s' : Lockable)
    → s'.thread_id ≡ s.thread_id
    → s'.lock_count ≡ s.lock_count
    → s'.is_locked ≡ s.is_locked
    → Own pc me d s
    → Own pc me d s'
Own-frame idle me d s s' e f g w = ground arith
Own-frame pc me d s s' e f g w = ground arith

next_owner-own :
    (pc : Pc) (me : ℕ) (s : Lockable) → (next_owner pc me s me ≡ me) ⊎ (next_owner pc me s me ≡ 0)
unfolding next_owner
next_owner-own idle me s = ground arith
next_owner-own pc me s = ground arith

-- After `k` turns: one owner at most, and every thread stands where it may.
pub record Inv (k : ℕ) (σ : System) : Type 0 where
  pub owner : ℕ
  pub shared : Shared owner σ.shared
  pub stands : (n : ℕ) → Stands (owner == suc n) (σ.threads n) (suc n) σ.shared
  pub bound : (n : ℕ) → (σ.threads n).depth ≤ k

module _ (k : ℕ) (σ : System) (n : ℕ) (c : Call) (inv : Inv k σ) (room : k + 1 < u32_mod) where
  open inv use {owner}

  l : Local
  l = σ.threads n

  owner' : ℕ
  owner' = next_owner l.pc (suc n) σ.shared owner

  moved : Turned l.pc c (suc n) owner l.depth σ.shared
  unfolding l
  moved = elim (Bool-cases (owner == suc n)) [
    | inl own ↦
        let e : owner ≡ suc n = (==_iff _ _).0 own in
        rw e (
          turn-Own l.pc c (suc n) l.depth σ.shared (omega arith) (omega (arith, inv.bound n))
            (rw e at inv.shared) (rw own at (inv.stands n)))
    | inr other ↦
        turn-Other l.pc c (suc n) owner l.depth σ.shared (omega arith) (ground arith) inv.shared
          (rw other at (inv.stands n))
  ]

  s' : Lockable
  s' = (turn l.pc c (suc n) l.depth σ.shared).0

  still-own :
      (m : ℕ)
      → (m == n) ≡ false
      → (owner == suc n) ≡ true
      → Stands (owner' == suc m) (σ.threads m) (suc m) s'
  unfolding owner' l
  still-own m ne own =
      let e : owner ≡ suc n = (==_iff _ _).0 own in
      let was : (owner == suc m) ≡ false = ground arith in
      let now : (owner' == suc m) ≡ false = ground (arith, next_owner-own l.pc (suc n) σ.shared) in
      rw now (rw was at (inv.stands m))

  still-other :
      (m : ℕ)
      → (m == n) ≡ false
      → (owner == suc n) ≡ false
      → Stands (owner' == suc m) (σ.threads m) (suc m) s'
  unfolding owner' l s'
  still-other m ne other =
      let kept =
        turn-Kept l.pc c (suc n) owner l.depth σ.shared inv.shared (rw other at (inv.stands n)) in
      elim (Bool-cases (owner == suc m)) [
        | inl was ↦
            let now : (owner' == suc m) ≡ true = ground arith in
            rw now (
              Own-frame (σ.threads m).pc (suc m) (σ.threads m).depth σ.shared _ kept.id kept.count
                (kept.marked (ground arith)) (rw was at (inv.stands m)))
        | inr was ↦
            let now : (owner' == suc m) ≡ false = ground arith in rw now (rw was at (inv.stands m))
      ]

-- Any turn of any thread keeps the invariant.
pub step-Inv :
    (k : ℕ) (σ : System) (n : ℕ) (c : Call) → Inv k σ → k + 1 < u32_mod → Inv (k + 1) (step n c σ)
unfolding step owner' l s'
step-Inv k σ n c inv room =
    let t = moved k σ n c inv room in
    record {
      owner = owner' k σ n c inv room;
      shared = t.shared;
      stands = λ m. elim (Bool-cases (m == n)) [
        | inl same ↦ let e : m ≡ n = (==_iff m n).0 same in rw (same, e) t.mine
        | inr ne ↦ rw ne (elim (Bool-cases (inv.owner == suc n)) [
          | inl own ↦ still-own k σ n c inv room m ne own
          | inr other ↦ still-other k σ n c inv room m ne other
        ])
      ];
      bound = λ m. ground (arith, inv.bound m, inv.bound n, t.bound);
    }
