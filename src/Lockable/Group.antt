-- ===== src/Lockable/Group.antt =====
-- The functions of basic/CLockable.cpp over two and three objects. Objects live in a store, so
-- that two pointers may name one object; the null pointer is 0.
pub mod AllOrNothing
use pwxlib.Base.{ℕ, Bool, true, false, not, ◌&&◌, ◌||◌, ◌==◌, if◌then◌else◌}
use pwxlib.Lockable.{Lockable, try_lock, unlock}

abbrev pub Ptr : Type 0
Ptr = ℕ

abbrev pub Store : Type 0
Store = Ptr → Lockable

abbrev pub is_null : Ptr → Bool
is_null p = p == 0

unfoldable pub put : Ptr → Lockable → Store → Store
put p s σ q = if p == q then s else σ q

-- `objA && objA->is_locked()`
abbrev pub is_locked_at : Ptr → Store → Bool
is_locked_at p σ = not (is_null p) && (σ p).is_locked

unfoldable pub are_locked2 : Ptr → Ptr → Store → Bool
are_locked2 a b σ = is_locked_at a σ && is_locked_at b σ

unfoldable pub are_locked3 : Ptr → Ptr → Ptr → Store → Bool
are_locked3 a b c σ = is_locked_at a σ && is_locked_at b σ && is_locked_at c σ

module _ (me : ℕ) where
  -- A null pointer counts as locked.
  unfoldable pub try_at : Ptr → Store → Bool × Store
  try_at p σ =
      if is_null p then (true, σ) else (let (done, s) = try_lock me (σ p) in (done, put p s σ))

  unfoldable pub unlock_at : Ptr → Store → Store
  unlock_at p σ = if is_null p then σ else put p (unlock me (σ p)) σ

  -- `if ( xObjA && lockedA ) xObjA->unlock();`
  unfoldable pub undo_at : Bool → Ptr → Store → Store
  undo_at locked p σ = if locked then unlock_at p σ else σ

  unfoldable pub try_locks2 : Ptr → Ptr → Store → Bool × Store
  try_locks2 a b σ =
      if is_null a && is_null b
      then (true, σ)
      else (let (la, σ₁) = try_at a σ in
          let (lb, σ₂) = try_at b σ₁ in
          if la && lb then (true, σ₂) else (false, undo_at lb b (undo_at la a σ₂)))

  unfoldable pub try_locks3 : Ptr → Ptr → Ptr → Store → Bool × Store
  try_locks3 a b c σ =
      if is_null a && is_null b && is_null c
      then (true, σ)
      else (let (la, σ₁) = try_at a σ in
          let (lb, σ₂) = try_at b σ₁ in
          let (lc, σ₃) = try_at c σ₂ in
          if la && lb && lc
          then (true, σ₃)
          else (false, undo_at lc c (undo_at lb b (undo_at la a σ₃))))

  unfoldable pub unlock_all2 : Ptr → Ptr → Store → Bool × Store
  unlock_all2 a b σ = if are_locked2 a b σ then (true, unlock_at b (unlock_at a σ)) else (false, σ)

  unfoldable pub unlock_all3 : Ptr → Ptr → Ptr → Store → Bool × Store
  unlock_all3 a b c σ =
      if are_locked3 a b c σ then (true, unlock_at c (unlock_at b (unlock_at a σ))) else (false, σ)
