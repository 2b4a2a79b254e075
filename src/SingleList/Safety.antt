-- ===== src/SingleList/Safety.antt =====
-- container/TSingleList.h: the loops that switch thread safety, and `operator=` of an element.
use pwxlib.Base.{ℕ, zero, suc, Bool, true, false, not, ◌&&◌, ◌||◌, ◌==◌, if◌then◌else◌}
use pwxlib.SingleList.{Ptr, Node, World, Run, done, undefined, ◌>>=◌, deref, modify}
use pwxlib.SingleList.Numbers.{next_of}

abbrev switched : Bool → Node → Node
switched safe n = record n { thread_safe = safe }

-- The loop over the elements; it stops before the tail, unless that is the head.
unfoldable pub switch_on : ℕ → Bool → Ptr → World → Run World
switch_on zero safe x_curr w = undefined
switch_on (suc fuel) safe x_curr w = if x_curr == 0 then done w else (do
  w₁ ← modify (switched safe) x_curr w
  q ← next_of x_curr w₁
  (if q == 0 || q == w₁.tail then done w₁ else switch_on fuel safe q w₁))

-- The store drops its element when it changes its kind.
unfoldable pub store_switched : Bool → World → World
store_switched safe w =
    if (w.list_safe && safe) || (not w.list_safe && not safe) then w else record w { curr_ptr = 0 }

unfoldable pub disable_thread_safety : ℕ → World → Run World
disable_thread_safety fuel w = do
  let w₀ = store_switched false w
  w₁ ← switch_on fuel false w₀.head w₀
  done (record w₁ { list_safe = false })

unfoldable pub enable_thread_safety : ℕ → World → Run World
enable_thread_safety fuel w = do
  let w₀ = store_switched true w
  w₁ ← switch_on fuel true w₀.head w₀
  done (record w₁ { list_safe = true })

abbrev with_data : Ptr → Node → Node
with_data d n = record n { data_ptr = d }

-- `operator=` of the element at `p` from the one at `q`.
unfoldable pub assign_elem : Ptr → Ptr → World → Run World
assign_elem p q w = if p == q then done w else (do
  n ← deref p w
  m ← deref q w
  (if n.is_destroyed || m.is_destroyed then done w else modify (with_data m.data_ptr) p w))
