-- ===== src/Tests/Locks.antt =====
-- The theorems on locks, at objects that threads 1 and 2 use.
use pwxlib.Base.{◌&&◌, ℕ, ◌≡◌, true, false, List, [], ◌∷◌, some, refl, arith, ◌==◌, if◌then◌else◌}
use pwxlib.Lockable.{
  MemOrder, Lockable, new_lockable, lock, try_lock, unlock, take_lock, set_locking,
}
use pwxlib.Lockable.Methods.{IsValid}
use pwxlib.Lockable.Group.{Store, try_locks3, try_at, put}
use pwxlib.Lockable.Group.AllOrNothing.{Ready, try_locks3_fail}
use pwxlib.Lockable.Guard.{LockGuard, guard, end_guard, empty_guard}
use pwxlib.Lockable.Guard.Balance.{end_guard-guard}
use pwxlib.Lockable.Threads.{
  idle, try_alive, unlock_switch, Call, wants_lock, start, step, run, turn,
}
use pwxlib.Lockable.Threads.Alone.{Runs, LockRuns, methods-Runs}
use pwxlib.Lockable.Threads.Invariant.{Held}
use pwxlib.Lockable.Threads.Exclusion.{exclusion, holder}

new-IsValid : IsValid new_lockable
new-IsValid = record {
  flag_iff = refl;
  free_id = λ h. refl;
  free_count = λ h. refl;
  held_id = λ h. ground arith;
  held_count = λ h. ground arith;
  fits = omega arith;
}

-- Locked once by thread 1.
abbrev taken : Lockable
taken = record new_lockable { flag = true; is_locked = true; thread_id = 1; lock_count = 1 }

taken-IsValid : IsValid taken
taken-IsValid = record {
  flag_iff = refl;
  free_id = λ h. ground arith;
  free_count = λ h. ground arith;
  held_id = λ h. omega arith;
  held_count = λ h. omega arith;
  fits = omega arith;
}

-- Thread 1 locks once more.
abbrev taken_twice : Lockable
taken_twice = record taken { lock_count = 2 }

relock : lock 1 taken ≡ some taken_twice
unfolding lock
relock = refl

abbrev switched_off : Lockable
switched_off = record new_lockable {
  do_locking = false;
  mem_ord_load = MemOrder.relaxed;
  mem_ord_store = MemOrder.relaxed;
}

switch_off : set_locking 1 false taken ≡ some switched_off
unfolding set_locking
switch_off = refl

lock_new : lock 1 new_lockable ≡ some taken
unfolding lock take_lock
lock_new = refl

try_new : (try_lock 1 new_lockable).0 ≡ true
unfolding try_lock
try_new = refl

-- Object 2 is locked by thread 1, the others are free.
abbrev objects : Store
objects q = if q == 2 then taken else new_lockable

objects-Ready : (q : ℕ) → Ready (objects q)
objects-Ready q = elim (q == 2) as (λ b. Ready (if b then taken else new_lockable)) [
  | true ↦ (taken-IsValid, omega arith)
  | false ↦ (new-IsValid, omega arith)
]

fails3 : (try_locks3 2 1 2 1 objects).0 ≡ false
unfolding try_locks3 try_at try_lock put
fails3 = refl

try_locks3_fail_example : (try_locks3 2 1 2 1 objects).1 1 ≡ objects 1
try_locks3_fail_example = try_locks3_fail 2 (omega arith) 1 2 1 objects objects-Ready fails3 1

-- Thread 0 locks while thread 1 spins.
abbrev schedule : List (ℕ × Call)
schedule =
    (0, wants_lock)
    ∷ (0, wants_lock)
    ∷ (1, wants_lock)
    ∷ (0, wants_lock)
    ∷ (0, wants_lock)
    ∷ (1, wants_lock)
    ∷ (0, wants_lock)
    ∷ (1, wants_lock)
    ∷ (1, wants_lock)
    ∷ (0, wants_lock)
    ∷ (0, wants_lock)
    ∷ (1, wants_lock)
    ∷ (0, wants_lock)
    ∷ (0, wants_lock)
    ∷ (0, wants_lock)
    ∷ []

scheduled :
    (((run schedule start).threads 0).depth ≡ 1) × (((run schedule start).threads 0).pc ≡ idle)
unfolding run step turn
scheduled = (refl, refl)

exclusion_example : ◌≡◌ {A = ℕ} 0 0
exclusion_example =
    exclusion schedule 0 0 (omega arith) (omega (arith, scheduled.0)) (omega (arith, scheduled.0))

holder_example :
    ((run schedule start).shared.flag ≡ true)
    × Held 1 ((run schedule start).threads 0).depth (run schedule start).shared
holder_example = holder schedule 0 (omega arith) scheduled.1 (omega (arith, scheduled.0))

-- Thread 2 finds the object taken by thread 1.
methods-Runs_example :
    LockRuns 2 wants_lock 0 taken (lock 2 taken)
    × Runs 2 wants_lock
        (try_lock 2 taken).1
        (if taken.do_locking && (try_lock 2 taken).0 then 1 else 0)
        try_alive
        0
        taken
    × Runs 2 wants_lock (unlock 2 taken) 0 unlock_switch 0 taken
methods-Runs_example = methods-Runs 2 wants_lock 0 taken (omega arith)

works2 : (try_locks3 1 1 2 0 objects).0 ≡ true
unfolding try_locks3 try_at try_lock put take_lock
works2 = refl

end_guard-guard_example :
    (g : LockGuard) × (σ : Store) × (guard 1 1 1 2 0 objects ≡ some (g, σ))
    × (end_guard 1 1 g σ ≡ some (empty_guard, objects))
end_guard-guard_example = end_guard-guard 1 (omega arith) 0 1 2 0 objects objects-Ready works2
