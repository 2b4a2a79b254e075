-- ===== src/Lockable/Group/AllOrNothing.antt =====
-- `try_locks` takes all the locks or none, also where pointers name one object.
use pwxlib.Base.{ℕ, ◌+◌, ◌<◌, ◌≡◌, true, false, arith, u32_mod}
use pwxlib.Lockable.{Lockable, try_lock, unlock, take_lock}
use pwxlib.Lockable.Methods.{IsValid}
use pwxlib.Lockable.Group.{
  Ptr, Store, put, try_at, unlock_at, undo_at, are_locked3, try_locks2, try_locks3, unlock_all3,
}

-- Three more calls of one thread fit into the lock count.
abbrev pub Ready : Lockable → Type 0
Ready s = IsValid s × (s.lock_count + 3 < u32_mod)

module _ (me : ℕ) (pos : 0 < me) where
  -- What a call and its undoing do to one object, at most three times in a row.
  pub record Undone (s : Lockable) : Type 0 where
    pub failed : (try_lock me s).0 ≡ false → (try_lock me s).1 ≡ s
    pub undone : (try_lock me s).0 ≡ true → unlock me (try_lock me s).1 ≡ s
    pub again : (try_lock me s).0 ≡ true → (try_lock me (try_lock me s).1).0 ≡ true
    pub third : (try_lock me s).0 ≡ true → (try_lock me (try_lock me (try_lock me s).1).1).0 ≡ true
    pub undone_again :
        (try_lock me s).0 ≡ true → unlock me (try_lock me (try_lock me s).1).1 ≡ (try_lock me s).1
    pub undone_third :
        (try_lock me s).0 ≡ true
        → unlock me (try_lock me (try_lock me (try_lock me s).1).1).1
          ≡ (try_lock me (try_lock me s).1).1
    pub marked : (try_lock me s).0 ≡ true → s.do_locking ≡ true → (try_lock me s).1.is_locked ≡ true
    pub marked_again :
        (try_lock me s).0 ≡ true
        → s.do_locking ≡ true
        → (try_lock me (try_lock me s).1).1.is_locked ≡ true
    pub marked_third :
        (try_lock me s).0 ≡ true
        → s.do_locking ≡ true
        → (try_lock me (try_lock me (try_lock me s).1).1).1.is_locked ≡ true

  pub Ready-Undone : (s : Lockable) → Ready s → Undone s
  unfolding try_lock unlock take_lock
  Ready-Undone s r = ground arith

  -- A failed call leaves every object of the store as it was.
  pub try_locks2_fail :
      (a b : Ptr) (σ : Store)
      → ((p : Ptr) → Ready (σ p))
      → (try_locks2 me a b σ).0 ≡ false
      → (q : Ptr) → (try_locks2 me a b σ).1 q ≡ σ q
  unfolding try_locks2 try_at undo_at unlock_at put
  try_locks2_fail a b σ r f q =
      let ua = Ready-Undone (σ a) (r a) in let ub = Ready-Undone (σ b) (r b) in ground arith

  -- A call of `try_locks` on three pointers that fails leaves every object as it was, where the
  -- pointers may be null or name one object; the objects are valid and their lock counts have room
  -- for three.
  pub try_locks3_fail :
      (a b c : Ptr) (σ : Store)
      → ((p : Ptr) → Ready (σ p))
      → (try_locks3 me a b c σ).0 ≡ false
      → (q : Ptr) → (try_locks3 me a b c σ).1 q ≡ σ q
  unfolding try_locks3 try_at undo_at unlock_at put
  try_locks3_fail a b c σ r f q =
      let ua = Ready-Undone (σ a) (r a) in
      let ub = Ready-Undone (σ b) (r b) in let uc = Ready-Undone (σ c) (r c) in ground arith

  -- After a call of `try_locks` on three pointers that succeeds, `unlock_all` on them returns true
  -- and gives every object back as it was; the pointers are not null but may be equal, the objects
  -- are valid, do locking, and have room for three locks in their counts.
  pub unlock_all3-try_locks3 :
      (a b c : Ptr) (σ : Store)
      → ((p : Ptr) → Ready (σ p))
      → 0 < a
      → 0 < b
      → 0 < c
      → (σ a).do_locking ≡ true
      → (σ b).do_locking ≡ true
      → (σ c).do_locking ≡ true
      → (try_locks3 me a b c σ).0 ≡ true
      → ((unlock_all3 me a b c (try_locks3 me a b c σ).1).0 ≡ true)
        × ((q : Ptr) → (unlock_all3 me a b c (try_locks3 me a b c σ).1).1 q ≡ σ q)
  unfolding unlock_all3 are_locked3 try_locks3 try_at unlock_at put
  unlock_all3-try_locks3 a b c σ r pa pb pc da db dc t =
      let ua = Ready-Undone (σ a) (r a) in
      let ub = Ready-Undone (σ b) (r b) in
      let uc = Ready-Undone (σ c) (r c) in (ground arith, λ q. ground arith)
