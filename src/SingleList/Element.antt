-- ===== src/SingleList/Element.antt =====
-- container/TSingleElement.h: neighbours of an element, and its own insertion and removal.
use pwxlib.Base.{Bool, true, false, not, ◌&&◌, ◌||◌, ◌==◌, if◌then◌else◌}
use pwxlib.SingleList.{
  Ptr, Node, World, Run, done, thrown, insert_destroyed, destroyed_inserts, ◌>>=◌, deref, modify,
}

unfoldable pub get_next : Node → Ptr
get_next n = if n.thread_safe && n.next == 0 && n.is_removed then n.old_next else n.next

unfoldable pub store_next : Ptr → Node → Node
store_next q n = record n { next = q }

unfoldable pub set_next : Ptr → Node → Node
set_next q n =
    if n.thread_safe && not (n.next == 0)
    then record n { next = q; old_next = n.next }
    else store_next q n

-- `CThreadElementStore::invalidate`.
unfoldable pub invalidate : Ptr → World → World
invalidate e w = if w.curr_ptr == e then record w { curr_ptr = 0 } else w

unfoldable pub leave_store : Ptr → Bool → World → World
leave_store e stored w = if stored then invalidate e w else w

abbrev pub marked_inserted : Node → Node
marked_inserted n = record n { is_removed = false; in_store = true }

-- `insert( store )`.
unfoldable pub insert : Ptr → World → Run World
insert e w = do n ← deref e w; modify marked_inserted e (leave_store e n.in_store w)

unfoldable pub insert_before : Ptr → Ptr → World → Run World
insert_before e new_next w = if new_next == 0 || new_next == e then insert e w else (do
  n ← deref e w
  m ← deref new_next w
  (if not n.is_destroyed && not m.is_destroyed
      then (do
        w₁ ← modify (if n.thread_safe then set_next new_next else store_next new_next) e w
        insert e w₁)
      else if n.is_destroyed
      then thrown insert_destroyed w
      else thrown destroyed_inserts w))

-- The part that runs with the locks held.
unfoldable pub link_next : Bool → Node → Ptr → Ptr → World → Run World
link_next safe n e new_next w = do
  w₁ ← modify (if safe then set_next (get_next n) else store_next n.next) new_next w
  w₂ ← insert new_next w₁
  modify (if safe then set_next new_next else store_next new_next) e w₂

unfoldable pub insert_next : Ptr → Ptr → World → Run World
insert_next e new_next w = if new_next == 0 || new_next == e then done w else (do
  n ← deref e w
  m ← deref new_next w
  (if not n.thread_safe || (not n.is_destroyed && not m.is_destroyed)
      then link_next n.thread_safe n e new_next w
      else if n.is_destroyed
      then thrown destroyed_inserts w
      else thrown insert_destroyed w))

abbrev pub marked_removed : Node → Node
marked_removed n = record n { is_removed = true }

-- The base class's `remove()`.
unfoldable pub remove_base : Ptr → World → Run World
remove_base e w = do n ← deref e w; modify marked_removed e (leave_store e n.in_store w)

unfoldable pub remove : Ptr → World → Run World
remove e w = do
  n ← deref e w
  (if n.thread_safe
      then (do w₁ ← remove_base e w; modify (set_next 0) e w₁)
      else (do w₁ ← modify (store_next 0) e w; remove_base e w₁))

unfoldable pub unlink_next : Ptr → Ptr → Node → World → Run (Ptr × World)
unlink_next e to_remove n w = if to_remove == e then done (0, w) else (do
  m ← deref to_remove w
  w₁ ← modify (if n.thread_safe then set_next (get_next m) else store_next m.next) e w
  w₂ ← remove to_remove w₁
  done (to_remove, w₂))

abbrev pub remove_unless_null : Ptr → Ptr → Node → World → Run (Ptr × World)
remove_unless_null e to_remove n w =
    if to_remove == 0 then done (0, w) else unlink_next e to_remove n w

-- The element removed, null when there is none, and the state after it.
unfoldable pub remove_next : Ptr → World → Run (Ptr × World)
remove_next e w = do n ← deref e w; remove_unless_null e n.next n w
