-- ===== src/Lockable/Methods.antt =====
-- The methods of one object, run without interruption.
use pwxlib.Base.{
  ℕ, ◌+◌, ◌<◌, ◌≡◌, ◌≢◌, ◌↔◌, if◌then◌else◌, Bool, true, false, none, some, arith, u32_mod,
}
use pwxlib.Lockable.{
  Lockable, take_lock, lock, try_lock, unlock, clear_locks, set_locking, assign_lockable,
}

-- What holds of an object between two calls.
pub record IsValid (s : Lockable) : Type 0 where
  pub flag_iff : s.flag ≡ s.is_locked
  pub free_id : s.flag ≡ false → s.thread_id ≡ 0
  pub free_count : s.flag ≡ false → s.lock_count ≡ 0
  pub held_id : s.flag ≡ true → 0 < s.thread_id
  pub held_count : s.flag ≡ true → 0 < s.lock_count
  pub fits : s.lock_count < u32_mod

-- A thread other than the owner finds the object taken.
abbrev pub Busy : ℕ → Lockable → Type 0
Busy me s = (s.is_destroyed ≡ false) × (s.do_locking ≡ true) × (s.flag ≡ true) × (s.thread_id ≢ me)

module _ (me : ℕ) (s : Lockable) where
  try_lock-IsValid : IsValid s → 0 < me → s.lock_count + 1 < u32_mod → IsValid (try_lock me s).1
  unfolding try_lock take_lock
  try_lock-IsValid v h c = ground arith

  -- On a live object, `lock` returns with a state exactly if `try_lock` succeeds with that state.
  pub lock-try_lock :
      s.is_destroyed ≡ false
      → (s' : Lockable) → (lock me s ≡ some s') ↔ (try_lock me s ≡ (true, s'))
  unfolding lock try_lock
  lock-try_lock live s' = (λ e. ground arith, λ e. ground arith)

  -- On a valid object `lock` waits exactly if the object is alive, does locking, and its flag is
  -- held by another thread.
  pub lock-Busy : IsValid s → (lock me s ≡ none) ↔ Busy me s
  unfolding lock
  lock-Busy v = (λ e. ground arith, λ e. ground arith)

  -- On a valid object with room in the lock count, `unlock` undoes a `try_lock` that succeeded, by
  -- a thread with a positive id.
  pub unlock-try_lock :
      IsValid s
      → 0 < me
      → s.lock_count + 1 < u32_mod
      → (try_lock me s).0 ≡ true
      → unlock me (try_lock me s).1 ≡ s
  unfolding unlock try_lock take_lock
  unlock-try_lock v h c t = ground arith

-- What another thread meets on an object that is taken: nothing changes, `try_lock` and
-- `clear_locks` give false, and `lock` waits, as does `do_locking` and `operator=` with false.
pub record Untouched (me : ℕ) (on : Bool) (s src : Lockable) : Type 0 where
  pub busy : Busy me s
  pub waits : lock me s ≡ none
  pub tries : try_lock me s ≡ (false, s)
  pub unlocks : unlock me s ≡ s
  pub clears : clear_locks me s ≡ (false, s)
  pub switches : set_locking me on s ≡ (if on then some s else none)
  pub assigns : assign_lockable me s src ≡ (if src.do_locking then some s else none)

-- What any other call meets: all methods return, with valid states.
pub record Usable (me : ℕ) (on : Bool) (s src : Lockable) : Type 0 where
  pub locked : Lockable
  pub switched : Lockable
  pub assigned : Lockable
  pub locks : lock me s ≡ some locked
  pub tries : try_lock me s ≡ (true, locked)
  pub switches : set_locking me on s ≡ some switched
  pub assigns : assign_lockable me s src ≡ some assigned
  pub undone : unlock me locked ≡ s
  pub locked-IsValid : IsValid locked
  pub unlocked-IsValid : IsValid (unlock me s)
  pub cleared-IsValid : IsValid (clear_locks me s).1
  pub switched-IsValid : IsValid switched
  pub assigned-IsValid : IsValid assigned
