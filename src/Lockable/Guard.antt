-- ===== src/Lockable/Guard.antt =====
-- basic/CLockGuard.cpp: a guard over up to three objects. The loop on `try_locks` runs on fuel; in
-- each round that fails, the guard lets go of the objects that are destroyed.
pub mod Balance
use pwxlib.Base.{◌>>=◌, ℕ, zero, suc, Bool, true, false, Option, none, some, ◌==◌, if◌then◌else◌}
use pwxlib.Lockable.{Lockable}
use pwxlib.Lockable.Group.{Ptr, Store, is_null, unlock_at, try_locks3}

pub record LockGuard : Type 0 where
  pub l_a : Ptr
  pub l_b : Ptr
  pub l_c : Ptr

abbrev pub empty_guard : LockGuard
empty_guard = record { l_a = 0; l_b = 0; l_c = 0 }

-- `if ( l_a && l_a->destroyed() ) l_a = nullptr;`
abbrev pub drop_destroyed : Store → Ptr → Ptr
drop_destroyed σ p = if is_null p then p else if (σ p).is_destroyed then 0 else p

module _ (me : ℕ) where
  unfoldable pub lock_loop : ℕ → LockGuard → Store → Option (LockGuard × Store)
  lock_loop zero g σ = none
  lock_loop (suc fuel) g σ =
      let r = try_locks3 me g.l_a g.l_b g.l_c σ in
      let rest =
        lock_loop fuel
          (record {
            l_a = drop_destroyed r.1 g.l_a;
            l_b = drop_destroyed r.1 g.l_b;
            l_c = drop_destroyed r.1 g.l_c;
          })
          r.1 in
      if r.0 then some (g, r.1) else rest

  unfoldable pub release : LockGuard → Store → Store
  release g σ = unlock_at me g.l_c (unlock_at me g.l_b (unlock_at me g.l_a σ))

  unfoldable pub reset3 : ℕ → Ptr → Ptr → Ptr → LockGuard → Store → Option (LockGuard × Store)
  reset3 fuel a b c g σ = lock_loop fuel (record { l_a = a; l_b = b; l_c = c }) (release g σ)

  unfoldable pub reset1 : ℕ → Ptr → LockGuard → Store → Option (LockGuard × Store)
  reset1 fuel a g σ = reset3 fuel a g.l_b g.l_c g σ

  unfoldable pub reset2 : ℕ → Ptr → Ptr → LockGuard → Store → Option (LockGuard × Store)
  reset2 fuel a b g σ = reset3 fuel a b g.l_c g σ

  -- The constructor over three objects; the others pass null pointers.
  unfoldable pub guard : ℕ → Ptr → Ptr → Ptr → Store → Option (LockGuard × Store)
  guard fuel a b c σ = reset3 fuel a b c empty_guard σ

  -- The destructor.
  unfoldable pub end_guard : ℕ → LockGuard → Store → Option (LockGuard × Store)
  end_guard fuel g σ = reset3 fuel 0 0 0 g σ

  -- The copy constructor and `operator=`: the guard takes the objects of `src` over, `src` is reset
  -- first, and the reset that follows unlocks them once more. What the guard held is not unlocked.
  unfoldable pub take_over : ℕ → LockGuard → Store → Option (LockGuard × LockGuard × Store)
  take_over fuel src σ = do
    (src', σ₁) ← reset3 fuel 0 0 0 src σ
    (g, σ₂) ← reset3 fuel src.l_a src.l_b src.l_c src σ₁
    some (g, src', σ₂)
