-- ===== src/Lockable/Threads/Alone.antt =====
-- A thread that nobody interrupts runs the methods of `Lockable`, turn by turn.
use pwxlib.Base.{
  pred_u32, ℕ, ◌+◌, ◌%◌, ◌<◌, ◌≡◌, Bool, true, false, none, some, Option, arith, ◌==◌,
  if◌then◌else◌, u32_mod, refl, inl, inr, Bool-cases, ◌&&◌, ==_iff,
}
use pwxlib.Lockable.{Lockable, take_lock, lock, try_lock, unlock}
use pwxlib.Lockable.Threads.{
  Pc, idle, lock_alive, lock_switch, lock_test, lock_raise, lock_mark, lock_spin, lock_again,
  try_alive, try_switch, try_test, try_raise, try_lower, unlock_switch, unlock_test, unlock_sub,
  unlock_disown, Call, at, turn,
}

abbrev is_idle : Pc → Bool
is_idle idle = true
is_idle _ = false

-- From a statement and a state, the turns of one thread until its call returns.
pub data Runs (me : ℕ) (c : Call) (s' : Lockable) (d' : ℕ) : Pc → ℕ → Lockable → Type 0 where
  done : (d : ℕ) (s : Lockable) → s ≡ s' → d ≡ d' → Runs me c s' d' idle d s
  next :
      {pc pc' : Pc} {d₁ d₂ : ℕ} {s₁ s₂ : Lockable}
      → is_idle pc ≡ false
      → turn pc c me d₁ s₁ ≡ (s₂, at pc' d₂)
      → Runs me c s' d' pc' d₂ s₂
      → Runs me c s' d' pc d₁ s₁

module _ (me : ℕ) (c : Call) where
  -- A turn that only tests.
  goto :
      {s s' : Lockable} {d d' : ℕ} {pc : Pc} (pc' : Pc)
      → is_idle pc ≡ false
      → turn pc c me d s ≡ (s, at pc' d)
      → Runs me c s' d' pc' d s
      → Runs me c s' d' pc d s
  goto pc' b e r = next b e r

  -- A turn that takes the flag if it is clear.
  grab :
      {s s' : Lockable} {d d' : ℕ} {pc : Pc} (pc' : Pc)
      → is_idle pc ≡ false
      → turn pc c me d s ≡ (record s { flag = true }, at pc' d)
      → Runs me c s' d' pc' d (record s { flag = true })
      → Runs me c s' d' pc d s
  grab pc' b e r = next b e r

module _ (me : ℕ) (c : Call) (d d' : ℕ) (s s' : Lockable) (room : s.waiting + 1 < u32_mod) where
  raised : Lockable
  raised = record s { waiting = (s.waiting + 1) % u32_mod }

  -- From the flag taken to the return.
  take-Runs :
      take_lock me s ≡ s' → d + 1 ≡ d' → Runs me c s' d' lock_mark d (record raised { flag = true })
  unfolding turn take_lock raised
  take-Runs e f =
      next refl refl (next refl refl (next refl refl (next refl refl (done _ _ (ground arith) f))))

  lock_test-Runs :
      s.is_destroyed ≡ false
      → s.do_locking ≡ true
      → lock me s ≡ some s'
      → d + 1 ≡ d'
      → Runs me c s' d' lock_test d s
  unfolding turn lock raised
  lock_test-Runs live on e f = elim (Bool-cases (s.thread_id == me)) [
    | inl same ↦ goto me c lock_again refl (rw same) (next refl refl (done _ _ (ground arith) f))
    | inr other ↦ elim (Bool-cases s.flag) [
      | inl set ↦ absurd (ground arith)
      | inr clear ↦
          goto me c lock_raise refl (rw other)
            (next refl refl (grab me c lock_mark refl (rw clear) (take-Runs (ground arith) f)))
    ]
  ]

  lock_alive-Runs :
      lock me s ≡ some s'
      → (if s.is_destroyed then d else if s.do_locking then d + 1 else d) ≡ d'
      → Runs me c s' d' lock_alive d s
  unfolding turn lock
  lock_alive-Runs e f = elim (Bool-cases s.is_destroyed) [
    | inl dead ↦ goto me c idle refl (rw dead) (done _ _ (ground arith) (ground arith))
    | inr live ↦ goto me c lock_switch refl (rw live) (elim (Bool-cases s.do_locking) [
      | inl on ↦ goto me c lock_test refl (rw on) (lock_test-Runs live on e (ground arith))
      | inr off ↦ goto me c idle refl (rw off) (done _ _ (ground arith) (ground arith))
    ])
  ]

  try_test-Runs :
      s.is_destroyed ≡ false
      → s.do_locking ≡ true
      → (try_lock me s).1 ≡ s'
      → (if (try_lock me s).0 then d + 1 else d) ≡ d'
      → Runs me c s' d' try_test d s
  unfolding turn try_lock raised
  try_test-Runs live on e f = elim (Bool-cases (s.thread_id == me)) [
    | inl same ↦
        goto me c lock_again refl (rw same)
          (next refl refl (done _ _ (ground arith) (ground arith)))
    | inr other ↦ goto me c try_raise refl (rw other) (
        next refl refl (elim (Bool-cases s.flag) [
          | inl set ↦
              grab me c try_lower refl (rw set)
                (next refl refl (done _ _ (ground arith) (ground arith)))
          | inr clear ↦
              grab me c lock_mark refl (rw clear) (take-Runs (ground arith) (ground arith))
        ]))
  ]

  try_alive-Runs :
      (try_lock me s).1 ≡ s'
      → (if s.do_locking && (try_lock me s).0 then d + 1 else d) ≡ d'
      → Runs me c s' d' try_alive d s
  unfolding turn try_lock
  try_alive-Runs e f = elim (Bool-cases s.is_destroyed) [
    | inl dead ↦ goto me c idle refl (rw dead) (done _ _ (ground arith) (ground arith))
    | inr live ↦ goto me c try_switch refl (rw live) (elim (Bool-cases s.do_locking) [
      | inl on ↦ goto me c try_test refl (rw on) (try_test-Runs live on e (ground arith))
      | inr off ↦ goto me c idle refl (rw off) (done _ _ (ground arith) (ground arith))
    ])
  ]

module _ (me : ℕ) (c : Call) (d : ℕ) (s s' : Lockable) (e : unlock me s ≡ s') where
  lowered : Lockable
  lowered = record s { lock_count = pred_u32 s.lock_count }

  unlock_sub-Runs : s.do_locking ≡ true → s.thread_id ≡ me → Runs me c s' d unlock_sub d s
  unfolding turn unlock lowered
  unlock_sub-Runs on same = elim (Bool-cases (s.lock_count == 1)) [
    | inl last ↦
        next {pc' = unlock_disown} {d₂ = d} {s₂ = lowered} refl (rw last)
          (next refl refl (next refl refl (next refl refl (done _ _ (ground arith) refl))))
    | inr more ↦
        next {pc' = idle} {d₂ = d} {s₂ = lowered} refl (rw more) (done _ _ (ground arith) refl)
  ]

  unlock_switch-Runs : Runs me c s' d unlock_switch d s
  unfolding turn unlock
  unlock_switch-Runs = elim (Bool-cases s.do_locking) [
    | inr off ↦ goto me c idle refl (rw off) (done _ _ (ground arith) refl)
    | inl on ↦ goto me c unlock_test refl (rw on) (elim (Bool-cases (s.thread_id == me)) [
      | inr other ↦ goto me c idle refl (rw other) (done _ _ (ground arith) refl)
      | inl same ↦ goto me c unlock_sub refl (rw same) (unlock_sub-Runs on ((==_iff _ _).0 same))
    ])
  ]

-- The turns come to a statement that they never leave, since each leaves all as it is.
pub data Spins (me : ℕ) (c : Call) (d : ℕ) : Pc → Lockable → Type 0 where
  stuck :
      {pc : Pc} {s : Lockable}
      → is_idle pc ≡ false
      → turn pc c me d s ≡ (s, at pc d)
      → Spins me c d pc s
  onward :
      {pc pc' : Pc} {s₁ s₂ : Lockable}
      → is_idle pc ≡ false
      → turn pc c me d s₁ ≡ (s₂, at pc' d)
      → Spins me c d pc' s₂
      → Spins me c d pc s₁

-- The turns of a `lock` with the given outcome.
abbrev pub LockRuns : (me : ℕ) (c : Call) (d : ℕ) (s : Lockable) → Option Lockable → Type 0
LockRuns me c d s none = Spins me c d lock_alive s
LockRuns me c d s (some s') =
    Runs me c s' (if s.is_destroyed then d else if s.do_locking then d + 1 else d) lock_alive d s

lock_alive-Spins :
    (me : ℕ) (c : Call) (d : ℕ) (s : Lockable) → lock me s ≡ none → Spins me c d lock_alive s
unfolding lock turn
lock_alive-Spins me c d s e =
    let live : s.is_destroyed ≡ false = ground (arith, e) in
    let on : s.do_locking ≡ true = ground (arith, e, live) in
    let other : (s.thread_id == me) ≡ false = ground (arith, e, live, on) in
    let set : s.flag ≡ true = ground (arith, e, live, on, other) in
    onward {pc' = lock_switch} {s₂ = s} refl (rw live refl) (
      onward {pc' = lock_test} {s₂ = s} refl (rw on refl) (
        onward {pc' = lock_raise} {s₂ = s} refl (rw other refl) (
          onward {pc' = lock_spin} {s₂ = record s { waiting = (s.waiting + 1) % u32_mod }} refl refl
            (stuck refl (ground (arith, set))))))

lock-LockRuns :
    (me : ℕ) (c : Call) (d : ℕ) (s : Lockable) (o : Option Lockable)
    → s.waiting + 1 < u32_mod
    → lock me s ≡ o
    → LockRuns me c d s o
lock-LockRuns me c d s none room e = lock_alive-Spins me c d s e
lock-LockRuns me c d s (some s') room e = lock_alive-Runs me c d _ s s' room e refl

-- The turns of a thread that nobody interrupts, on an object with room in `waiting`: where `lock`
-- returns in the model of whole methods, its turns come to that state, and where it waits, they
-- come to the loop on the flag and never leave it; the turns of `try_lock` and of `unlock` come to
-- the states that these give. The ledger goes up by one exactly where a lock was taken.
pub methods-Runs :
    (me : ℕ) (c : Call) (d : ℕ) (s : Lockable)
    → s.waiting + 1 < u32_mod
    → LockRuns me c d s (lock me s)
      × Runs me c
          (try_lock me s).1
          (if s.do_locking && (try_lock me s).0 then d + 1 else d)
          try_alive
          d
          s
      × Runs me c (unlock me s) d unlock_switch d s
methods-Runs me c d s room = (
  lock-LockRuns me c d s (lock me s) room refl,
  try_alive-Runs me c d _ s _ room refl refl,
  unlock_switch-Runs me c d s _ refl,
)
