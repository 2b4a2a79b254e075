-- ===== src/DoubleList/Element.antt =====
-- container/TDoubleElement.h: neighbours of an element, and its own insertion and removal.
use pwxlib.Base.{Bool, true, false, not, ◌&&◌, ◌||◌, ◌==◌, if◌then◌else◌}
use pwxlib.SingleList.{Ptr}
use pwxlib.DoubleList.{
  Node, World, Run, done, thrown, illegal_insert, ◌>>=◌, deref, modify, modify_unless,
}

unfoldable pub get_next : Node → Ptr
get_next n = if n.thread_safe && n.next == 0 && n.is_removed then n.old_next else n.next

unfoldable pub get_prev : Node → Ptr
get_prev n = if n.thread_safe && n.prev == 0 && n.is_removed then n.old_prev else n.prev

-- Each element decides by its own `beThreadSafe()` whether it keeps the old neighbour.
unfoldable pub set_next : Ptr → Node → Node
set_next q n =
    if n.thread_safe && not (n.next == 0)
    then record n { next = q; old_next = n.next }
    else record n { next = q }

unfoldable pub set_prev : Ptr → Node → Node
set_prev q n =
    if n.thread_safe && not (n.prev == 0)
    then record n { prev = q; old_prev = n.prev }
    else record n { prev = q }

-- `next.store` and `prev.store`.
abbrev pub store_next : Ptr → Node → Node
store_next q n = record n { next = q }

abbrev pub store_prev : Ptr → Node → Node
store_prev q n = record n { prev = q }

-- `CThreadElementStore::invalidate`, if the element is in the store.
unfoldable pub leave_store : Ptr → Bool → World → World
leave_store e stored w = if stored && w.curr_ptr == e then record w { curr_ptr = 0 } else w

abbrev pub marked_inserted : Node → Node
marked_inserted n = record n { is_removed = false; in_store = true }

abbrev pub marked_removed : Node → Node
marked_removed n = record n { is_removed = true }

-- `insert( store )`.
unfoldable pub insert : Ptr → World → Run World
insert e w = do n ← deref e w; modify marked_inserted e (leave_store e n.in_store w)

-- The base class's `remove()`.
unfoldable pub remove_base : Ptr → World → Run World
remove_base e w = do n ← deref e w; modify marked_removed e (leave_store e n.in_store w)

-- The new element `x` goes between `p` and its neighbour `q`, with `onto` for the side of `q` and
-- `back` for the other one.
unfoldable pub link : (onto back : Ptr → Node → Node) → (p x q : Ptr) → World → Run World
link onto back p x q w = do
  w₁ ← modify (onto q) x w
  w₂ ← modify (back p) x w₁
  w₃ ← insert x w₂
  w₄ ← modify (onto x) p w₃
  modify_unless (q == 0) (back x) q w₄

-- The thread-safe branch of `insertPrev`, which sets `next` of the new element first.
unfoldable pub link_prev_safe : (p x q : Ptr) → World → Run World
link_prev_safe p x q w = do
  w₁ ← modify (set_next p) x w
  w₂ ← modify (set_prev q) x w₁
  w₃ ← insert x w₂
  w₄ ← modify (set_prev x) p w₃
  modify_unless (q == 0) (set_next x) q w₄

-- Whether the old neighbour is destroyed; a null pointer is not.
abbrev pub is_gone : Ptr → World → Run Bool
is_gone q w = if q == 0 then done false else (do n ← deref q w; done n.is_destroyed)

unfoldable pub insert_next : Ptr → Ptr → World → Run World
insert_next e x w = if x == 0 || x == e then done w else (do
  n ← deref e w
  m ← deref x w
  (if not n.thread_safe
      then link store_next store_prev e x n.next w
      else if n.is_destroyed || m.is_destroyed
      then thrown illegal_insert w
      else (do
        gone ← is_gone n.next w
        (if gone then thrown illegal_insert w else link set_next set_prev e x n.next w))))

unfoldable pub insert_prev : Ptr → Ptr → World → Run World
insert_prev e x w = if x == 0 || x == e then done w else (do
  n ← deref e w
  m ← deref x w
  (if not n.thread_safe
      then link store_prev store_next e x n.prev w
      else if n.is_destroyed || m.is_destroyed
      then thrown illegal_insert w
      else (do
        gone ← is_gone n.prev w
        (if gone then thrown illegal_insert w else link_prev_safe e x n.prev w))))

unfoldable pub insert_before : Ptr → Ptr → World → Run World
insert_before e new_next w =
    if new_next == 0 || new_next == e then insert e w else insert_prev new_next e w

abbrev pub no_neighbour : Ptr → Ptr → Bool
no_neighbour q e = q == 0 || q == e

-- Between the old neighbours `p` and `q`.
unfoldable pub unlink : (p e q : Ptr) → World → Run World
unlink p e q w = do
  w₁ ← modify_unless (no_neighbour p e) (set_next q) p w
  w₂ ← modify_unless (no_neighbour q e) (set_prev p) q w₁
  w₃ ← modify (set_prev 0) e w₂
  modify (set_next 0) e w₃

unfoldable pub remove_safe : Ptr → World → Run World
remove_safe e w = do w₁ ← remove_base e w; n ← deref e w₁; unlink n.prev e n.next w₁

unfoldable pub remove_unsafe : Ptr → World → Run World
remove_unsafe e w = do
  n ← deref e w
  w₁ ← modify_unless (no_neighbour n.next e) (store_prev n.prev) n.next w
  w₂ ← modify_unless (no_neighbour n.prev e) (store_next n.next) n.prev w₁
  w₃ ← modify (store_prev 0) e w₂
  w₄ ← modify (store_next 0) e w₃
  remove_base e w₄

unfoldable pub remove : Ptr → World → Run World
remove e w = do n ← deref e w; (if n.thread_safe then remove_safe e w else remove_unsafe e w)

abbrev pub remove_other : Ptr → Ptr → World → Run (Ptr × World)
remove_other e to_remove w =
    if to_remove == 0 || to_remove == e
    then done (0, w)
    else (do w₁ ← remove to_remove w; done (to_remove, w₁))

-- The element removed, null when there is none, and the state after it.
unfoldable pub remove_next : Ptr → World → Run (Ptr × World)
remove_next e w = do n ← deref e w; remove_other e (get_next n) w

unfoldable pub remove_prev : Ptr → World → Run (Ptr × World)
remove_prev e w = do n ← deref e w; remove_other e (get_prev n) w

-- `operator=` on another element: both share the data then.
unfoldable pub assign_elem : Ptr → Ptr → World → Run World
assign_elem e src w = do
  n ← deref e w
  m ← deref src w
  (if not (e == src) && not n.is_destroyed && not m.is_destroyed
      then modify (λ (k : Node). record k { data_ptr = m.data_ptr }) e w
      else done w)
