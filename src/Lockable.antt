-- ===== src/Lockable.antt =====
-- basic/CLockable.{h,cpp}, as it is compiled by default (PWX_USE_FLAGSPIN): the fields of one
-- object, and its methods run by a thread `me` that nobody interrupts. `Threads` interleaves the
-- same methods step by step; `Group` has the functions over two and three objects.
pub mod Methods
pub mod Group
pub mod Guard
pub mod Threads
use pwxlib.Base.{
  ℕ, ◌+◌, ◌-◌, ◌%◌, Bool, true, false, not, ◌&&◌, Option, none, some, ◌==◌, if◌then◌else◌, u32_mod,
  pred_u32,
}

pub data MemOrder : Type 0 where
  relaxed acquire release : MemOrder

-- A thread id is `CURRENT_THREAD_ID`, a pointer that is never null; 0 stands for no thread.
pub record Lockable : Type 0 where
  pub is_destroyed : Bool
  pub mem_ord_load : MemOrder
  pub mem_ord_store : MemOrder
  pub do_locking : Bool
  pub is_locked : Bool
  pub flag : Bool
  pub lock_count : ℕ
  pub thread_id : ℕ
  pub waiting : ℕ

abbrev pub new_lockable : Lockable
new_lockable = record {
  is_destroyed = false;
  mem_ord_load = MemOrder.acquire;
  mem_ord_store = MemOrder.release;
  do_locking = true;
  is_locked = false;
  flag = false;
  lock_count = 0;
  thread_id = 0;
  waiting = 0;
}

-- The copy constructor takes the memory orders and the locking switch, and no lock.
unfoldable pub copy_lockable : Lockable → Lockable
copy_lockable src = record new_lockable {
  mem_ord_load = src.mem_ord_load;
  mem_ord_store = src.mem_ord_store;
  do_locking = src.do_locking;
}

-- What the thread that took the flag stores.
unfoldable pub take_lock : ℕ → Lockable → Lockable
take_lock me s = record s { flag = true; is_locked = true; thread_id = me; lock_count = 1 }

-- `none`: the flag is set and the loop on `test_and_set` spins until another thread clears it.
unfoldable pub lock : ℕ → Lockable → Option Lockable
lock me s =
    if s.is_destroyed
    then some s
    else if not s.do_locking
    then some s
    else if s.thread_id == me
    then some (record s { lock_count = (s.lock_count + 1) % u32_mod })
    else if s.flag
    then none
    else some (take_lock me s)

-- `waiting` goes up and down again on both ways.
unfoldable pub try_lock : ℕ → Lockable → Bool × Lockable
try_lock me s =
    if s.is_destroyed
    then (false, s)
    else if not s.do_locking
    then (true, s)
    else if s.thread_id == me
    then (true, record s { lock_count = (s.lock_count + 1) % u32_mod })
    else if s.flag
    then (false, s)
    else (true, take_lock me s)

unfoldable pub unlock : ℕ → Lockable → Lockable
unlock me s =
    if s.do_locking && s.thread_id == me
    then (if s.lock_count == 1
        then record s {
          lock_count = pred_u32 s.lock_count;
          thread_id = 0;
          is_locked = false;
          flag = false;
        }
        else record s { lock_count = pred_u32 s.lock_count })
    else s

unfoldable pub clear_locks : ℕ → Lockable → Bool × Lockable
clear_locks me s =
    if s.do_locking
    then (if me == s.thread_id
        then (true, record s { lock_count = 0; thread_id = 0; is_locked = false; flag = false })
        else (false, s))
    else (true, s)

-- `none`: locking is switched off while another thread holds the flag, so the loop spins.
unfoldable pub set_locking : ℕ → Bool → Lockable → Option Lockable
set_locking me true s =
    if s.do_locking
    then some s
    else some (record s {
      mem_ord_load = MemOrder.acquire;
      mem_ord_store = MemOrder.release;
      do_locking = true;
    })
set_locking me false s =
    if not s.do_locking
    then some s
    else if not (s.thread_id == me) && s.flag
    then none
    else some (record s {
      do_locking = false;
      thread_id = 0;
      lock_count = 0;
      flag = false;
      is_locked = false;
      mem_ord_load = MemOrder.relaxed;
      mem_ord_store = MemOrder.relaxed;
    })

-- `operator=` and `beThreadSafe` only pass the switch on.
unfoldable pub assign_lockable : ℕ → Lockable → Lockable → Option Lockable
unfolding set_locking
assign_lockable me s src = set_locking me src.do_locking s

unfoldable pub count_locks : ℕ → Lockable → ℕ
count_locks me s = if me == s.thread_id then s.lock_count else 0

-- The destructor takes the object over and drops every lock.
unfoldable pub destroy_lockable : ℕ → Lockable → Lockable
unfolding clear_locks
destroy_lockable me s = (clear_locks me (record s { is_destroyed = true; thread_id = me })).1
