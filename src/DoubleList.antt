-- ===== src/DoubleList.antt =====
-- container/TDoubleElement.h and container/TDoubleList.h: a doubly linked list on a heap of elements.
-- An element is named by its address, 0 is `nullptr`; one call runs at a time.
pub mod Element
pub mod Edit
pub mod Splice
pub mod Removal
pub mod Chained
pub mod Unchained
pub mod Ahead
pub mod Numbers
pub mod Insert
pub mod Remove
pub mod Find
pub mod Numbered
pub mod Held
pub mod Left
pub mod Undone
pub mod Last
use pwxlib.Base.{ℕ, Bool, true, false, not, ◌&&◌, Option, none, some, ◌==◌, if◌then◌else◌}
use pwxlib.SingleList.{Ptr}

-- `data_ptr` names what the element's `data` points at; `in_store` says that the element's
-- `currStore` is the list's store, else it is null.
pub record Node : Type 0 where
  pub data_ptr : Ptr
  pub next : Ptr
  pub prev : Ptr
  pub old_next : Ptr
  pub old_prev : Ptr
  pub e_nr : ℕ
  pub is_removed : Bool
  pub is_destroyed : Bool
  pub thread_safe : Bool
  pub in_store : Bool

-- Memory without an element, never allocated or freed, is `none`.
abbrev pub Heap : Type 0
Heap = Ptr → Option Node

-- `next_free` is the address of the next `new elem_t`; `curr_ptr` is what `currStore` holds for the
-- thread that calls.
pub record World : Type 0 where
  pub heap : Heap
  pub next_free : Ptr
  pub head : Ptr
  pub tail : Ptr
  pub e_count : ℕ
  pub curr_ptr : Ptr
  pub do_renumber : Bool
  pub list_safe : Bool

pub data Thrown : Type 0 where
  illegal_insert not_found out_of_range delete_inserted source_destroyed : Thrown

-- A call returns, throws with the state it leaves, or has no behaviour that the language defines,
-- since it uses an address that holds no element, or fuel ran out.
pub data Run (A : Type 0) : Type 0 where
  done : A → Run A
  thrown : Thrown → World → Run A
  undefined : Run A

infixl 5 ◌>>=◌
abbrev pub ◌>>=◌ : {A B : Type 0} → Run A → (A → Run B) → Run B
done a >>= f = f a
thrown x w >>= f = thrown x w
undefined >>= f = undefined

unfoldable pub load : Ptr → Heap → Option Node
load p h = if p == 0 then none else h p

unfoldable pub write : Ptr → Option Node → Heap → Heap
write p o h q = if p == q then o else h q

abbrev pub read : Option Node → Run Node
read none = undefined
read (some n) = done n

abbrev pub deref : Ptr → World → Run Node
deref p w = read (load p w.heap)

unfoldable pub modify : (Node → Node) → Ptr → World → Run World
modify f p w = do n ← deref p w; done (record w { heap = write p (some (f n)) w.heap })

-- On a neighbour that may be null.
abbrev pub modify_unless : Bool → (Node → Node) → Ptr → World → Run World
modify_unless skip f p w = if skip then done w else modify f p w
