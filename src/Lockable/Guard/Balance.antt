-- ===== src/Lockable/Guard/Balance.antt =====
-- A guard gives back what it took.
use pwxlib.Base.{ℕ, suc, ◌<◌, ◌≡◌, refl, true, some, arith, ap, ◌∙◌}
use mathlib.Core.Path.{fun_ext}
use pwxlib.Lockable.Group.{Ptr, Store, put, unlock_at, try_at, try_locks3}
use pwxlib.Lockable.Group.AllOrNothing.{Ready, Ready-Undone}
use pwxlib.Lockable.Guard.{LockGuard, lock_loop, release, reset3, guard, end_guard, empty_guard}

module _ (me : ℕ) (pos : 0 < me) where
  release-try_locks3 :
      (a b c : Ptr) (σ : Store)
      → ((p : Ptr) → Ready (σ p))
      → (try_locks3 me a b c σ).0 ≡ true
      → (q : Ptr)
      → release me (record { l_a = a; l_b = b; l_c = c }) (try_locks3 me a b c σ).1 q ≡ σ q
  unfolding release try_locks3 try_at unlock_at put
  release-try_locks3 a b c σ r t q =
      let ua = Ready-Undone me pos (σ a) (r a) in
      let ub = Ready-Undone me pos (σ b) (r b) in
      let uc = Ready-Undone me pos (σ c) (r c) in ground arith

  try_null : (σ : Store) → try_locks3 me 0 0 0 σ ≡ (true, σ)
  unfolding try_locks3
  try_null σ = refl

  release_null : (σ : Store) → release me empty_guard σ ≡ σ
  unfolding release unlock_at
  release_null σ = refl

  guard_run :
      (fuel : ℕ) (a b c : Ptr) (σ : Store)
      → (try_locks3 me a b c σ).0 ≡ true
      → guard me (suc fuel) a b c σ
        ≡ some (record { l_a = a; l_b = b; l_c = c }, (try_locks3 me a b c σ).1)
  unfolding guard reset3 lock_loop
  guard_run fuel a b c σ t = rw (release_null σ, t) refl

  end_run :
      (fuel : ℕ) (g : LockGuard) (σ : Store)
      → end_guard me (suc fuel) g σ ≡ some (empty_guard, release me g σ)
  unfolding end_guard reset3 lock_loop
  end_run fuel g σ = rw (try_null (release me g σ)) refl

  -- If `try_locks` succeeds on three pointers, a `CLockGuard` over them is built in one round, and
  -- its destructor gives every object back as it was; the pointers may be null or name one object,
  -- the objects are valid, and their lock counts have room for three.
  pub end_guard-guard :
      (fuel : ℕ) (a b c : Ptr) (σ : Store)
      → ((p : Ptr) → Ready (σ p))
      → (try_locks3 me a b c σ).0 ≡ true
      → (g : LockGuard) × (σ' : Store) × (guard me (suc fuel) a b c σ ≡ some (g, σ'))
        × (end_guard me (suc fuel) g σ' ≡ some (empty_guard, σ))
  end_guard-guard fuel a b c σ r t = (
    record { l_a = a; l_b = b; l_c = c },
    (try_locks3 me a b c σ).1,
    guard_run fuel a b c σ t,
    end_run fuel _ _ ∙ ap (λ τ. some (empty_guard, τ)) (fun_ext (release-try_locks3 a b c σ r t)),
  )
