-- ===== src/Lockable/Threads/Exclusion.antt =====
-- What the lock promises to any number of threads, under every schedule.
use mathlib.Core.Path.{subst}
use pwxlib.Base.{
  ℕ, suc, ◌+◌, ◌<◌, ◌≡◌, true, List, [], ◌∷◌, arith, ◌==◌, u32_mod, length, inl, inr, Bool-cases,
  ==_iff, inr,
}
use pwxlib.Lockable.{Lockable}
use pwxlib.Lockable.Threads.{Pc, idle, Call, Local, System, start, step, run}
use pwxlib.Lockable.Threads.Invariant.{Inv, Other, Own, Held, step-Inv}

run-Inv :
    (turns : List (ℕ × Call)) (k j : ℕ) (σ : System)
    → Inv k σ
    → k + length turns ≡ j
    → j < u32_mod
    → Inv j (run turns σ)
unfolding run
run-Inv [] k j σ inv e room = let e' : k ≡ j = omega arith in rw (← e') inv
run-Inv ((n, c) ∷ rest) k j σ inv e room =
    run-Inv rest (k + 1) j (step n c σ) (step-Inv k σ n c inv (omega arith)) (omega arith) room

start-Inv : Inv 0 start
start-Inv = record {
  owner = 0;
  shared = ground arith;
  stands = λ n. ground arith;
  bound = λ n. ground arith;
}

Other-depth : (pc : Pc) (d : ℕ) → Other pc d → d ≡ 0
Other-depth idle d w = w
Other-depth pc d w = ground arith

module _ (turns : List (ℕ × Call)) (room : length turns < u32_mod) where
  end : System
  end = run turns start

  inv : Inv (length turns) end
  unfolding end
  inv = run-Inv turns 0 (length turns) start start-Inv (omega arith) room

  owner_of : (n : ℕ) → 0 < (end.threads n).depth → inv.owner ≡ suc n
  owner_of n h = elim (Bool-cases (inv.owner == suc n)) [
    | inl own ↦ (==_iff _ _).0 own
    | inr other ↦ absurd (omega (arith, Other-depth _ _ (rw other at (inv.stands n))))
  ]

-- Under every schedule of fewer than 2 ^ 32 turns of any number of threads that call `lock`,
-- `try_lock` and `unlock` on a new object, two threads whose ledgers both hold a lock are one
-- thread.
pub exclusion :
    (turns : List (ℕ × Call)) (n m : ℕ)
    → length turns < u32_mod
    → 0 < ((run turns start).threads n).depth
    → 0 < ((run turns start).threads m).depth
    → n ≡ m
unfolding end
exclusion turns n m room hn hm = omega (arith, owner_of turns room n hn, owner_of turns room m hm)

Own-idle :
    (l : Local) (me : ℕ) (s : Lockable) → l.pc ≡ idle → Own l.pc me l.depth s → Held me l.depth s
Own-idle l me s e w = (subst (λ pc. Own pc me l.depth s) e w).1

-- Under every schedule of fewer than 2 ^ 32 turns from a new object, a thread that stands between
-- two calls with locks in its ledger is the one that the object names: the flag is set, and the
-- lock count is the ledger.
pub holder :
    (turns : List (ℕ × Call)) (n : ℕ)
    → length turns < u32_mod
    → ((run turns start).threads n).pc ≡ idle
    → 0 < ((run turns start).threads n).depth
    → ((run turns start).shared.flag ≡ true)
      × Held (suc n) ((run turns start).threads n).depth (run turns start).shared
unfolding end
holder turns n room e h =
    let i = inv turns room in
    let o : i.owner ≡ suc n = owner_of turns room n h in
    let own : (i.owner == suc n) ≡ true = ground arith in
    let σ = run turns start in
    let held = Own-idle (σ.threads n) (suc n) σ.shared e (rw own at (i.stands n)) in
    (ground arith, held)
