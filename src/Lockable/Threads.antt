-- ===== src/Lockable/Threads.antt =====
-- `lock`, `try_lock` and `unlock` of basic/CLockable.cpp, by threads that interleave. One turn of
-- a thread is one load, store or read-modify-write of an atomic field, in the order of the code;
-- memory is taken to be sequentially consistent.
pub mod Alone
pub mod Invariant
pub mod Exclusion
use pwxlib.Base.{
  pred_u32, ℕ, zero, suc, ◌+◌, ◌-◌, ◌%◌, Bool, true, false, List, [], ◌∷◌, ◌==◌, if◌then◌else◌,
  u32_mod,
}
use pwxlib.Lockable.{Lockable, new_lockable}

-- What a thread between two calls may call next.
pub data Call : Type 0 where
  wants_lock wants_unlock wants_try : Call

-- Where a thread stands: the statement that its next turn runs.
pub data Pc : Type 0 where
  idle : Pc
  lock_alive lock_switch lock_test lock_raise lock_spin : Pc
  lock_mark lock_own lock_one lock_lower lock_again : Pc
  try_alive try_switch try_test try_raise try_flag try_lower : Pc
  unlock_switch unlock_test unlock_sub unlock_disown unlock_unmark unlock_clear : Pc

-- `depth` is the thread's own ledger: the calls that took the lock, less the calls of `unlock`.
pub record Local : Type 0 where
  pub pc : Pc
  pub depth : ℕ

abbrev pub at : Pc → ℕ → Local
at pc d = record { pc = pc; depth = d }

unfoldable pub turn : Pc → Call → ℕ → ℕ → Lockable → Lockable × Local
turn idle wants_lock me d s = (s, at lock_alive d)
turn idle wants_try me d s = (s, at try_alive d)
turn idle wants_unlock me d s = (s, at unlock_switch (d - 1))
turn lock_alive c me d s = (s, at (if s.is_destroyed then idle else lock_switch) d)
turn lock_switch c me d s = (s, at (if s.do_locking then lock_test else idle) d)
turn lock_test c me d s = (s, at (if s.thread_id == me then lock_again else lock_raise) d)
turn lock_raise c me d s = (record s { waiting = (s.waiting + 1) % u32_mod }, at lock_spin d)
turn lock_spin c me d s = (record s { flag = true }, at (if s.flag then lock_spin else lock_mark) d)
turn lock_mark c me d s = (record s { is_locked = true }, at lock_own d)
turn lock_own c me d s = (record s { thread_id = me }, at lock_one d)
turn lock_one c me d s = (record s { lock_count = 1 }, at lock_lower d)
turn lock_lower c me d s = (record s { waiting = pred_u32 s.waiting }, at idle (d + 1))
turn lock_again c me d s = (record s { lock_count = (s.lock_count + 1) % u32_mod }, at idle (d + 1))
turn try_alive c me d s = (s, at (if s.is_destroyed then idle else try_switch) d)
turn try_switch c me d s = (s, at (if s.do_locking then try_test else idle) d)
turn try_test c me d s = (s, at (if s.thread_id == me then lock_again else try_raise) d)
turn try_raise c me d s = (record s { waiting = (s.waiting + 1) % u32_mod }, at try_flag d)
turn try_flag c me d s = (record s { flag = true }, at (if s.flag then try_lower else lock_mark) d)
turn try_lower c me d s = (record s { waiting = pred_u32 s.waiting }, at idle d)
turn unlock_switch c me d s = (s, at (if s.do_locking then unlock_test else idle) d)
turn unlock_test c me d s = (s, at (if s.thread_id == me then unlock_sub else idle) d)
turn unlock_sub c me d s = (
  record s { lock_count = pred_u32 s.lock_count },
  at (if s.lock_count == 1 then unlock_disown else idle) d,
)
turn unlock_disown c me d s = (record s { thread_id = 0 }, at unlock_unmark d)
turn unlock_unmark c me d s = (record s { is_locked = false }, at unlock_clear d)
turn unlock_clear c me d s = (record s { flag = false }, at idle d)

-- Any number of threads over one object; thread `n` has the id `n + 1`.
pub record System : Type 0 where
  pub shared : Lockable
  pub threads : ℕ → Local

abbrev pub start : System
start = record { shared = new_lockable; threads = λ n. at idle 0 }

-- The scheduler names a thread, and what it calls if it stands between two calls.
unfoldable pub step : ℕ → Call → System → System
step n c σ =
    let l = σ.threads n in
    let (s', l') = turn l.pc c (suc n) l.depth σ.shared in
    record { shared = s'; threads = λ m. if m == n then l' else σ.threads m }

unfoldable pub run : List (ℕ × Call) → System → System
run [] σ = σ
run ((n, c) ∷ rest) σ = run rest (step n c σ)
