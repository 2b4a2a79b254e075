-- ===== src/SingleList/Numbers.antt =====
-- container/TSingleList.h: the ends of the list and the numbers of its elements.
pub mod Walks
pub mod Ends
use pwxlib.Base.{ℕ, zero, suc, Bool, true, false, not, ◌&&◌, ◌||◌, ◌==◌, if◌then◌else◌, succ_u32}
use pwxlib.SingleList.{Ptr, Node, World, Run, done, undefined, ◌>>=◌, deref, modify}
use pwxlib.SingleList.Element.{get_next}

unfoldable pub next_of : Ptr → World → Run Ptr
next_of p w = do n ← deref p w; done (get_next n)

-- `xCurr ? xCurr->getNext() : nullptr`.
unfoldable pub next_or_null : Ptr → World → Run Ptr
next_or_null p w = if p == 0 then done 0 else next_of p w

abbrev pub numbered : ℕ → Node → Node
numbered k n = record n { e_nr = k }

unfoldable pub set_nr : ℕ → Ptr → World → Run World
set_nr k p w = modify (numbered k) p w

unfoldable pub set_tail : Ptr → World → World
set_tail p w = record w { tail = p }

-- `curr()` and `curr( new_curr )`.
unfoldable pub curr : World → Ptr
curr w = if w.curr_ptr == 0 then w.head else w.curr_ptr

unfoldable pub set_curr : Ptr → World → World
set_curr p w = record w { curr_ptr = p }

unfoldable pub empty : World → Bool
empty w = w.e_count == 0

unfoldable pub size : World → ℕ
size w = w.e_count

-- The loops stop at a null pointer or when both pointers are one.
abbrev pub walk_on : Ptr → Ptr → Bool
walk_on x_curr x_next = not (x_curr == 0) && not (x_next == 0) && not (x_curr == x_next)

-- The loop of `head( new_head )`, whose two pointers change places in each round.
unfoldable pub number_on : ℕ → Ptr → Ptr → World → Run World
number_on zero x_curr x_next w = undefined
number_on (suc fuel) x_curr x_next w = if not (walk_on x_curr x_next) then done w else (do
  n ← deref x_curr w
  w₁ ← set_nr (succ_u32 n.e_nr) x_next w
  q ← next_of x_curr w₁
  number_on fuel q x_curr w₁)

unfoldable pub set_head : ℕ → Ptr → World → Run World
set_head fuel p w = do
  w₁ ← set_nr 0 p w
  q ← next_or_null p w₁
  number_on fuel p q (record w₁ { head = p })

-- The loop of `protRenumber()`.
unfoldable pub copy_number : ℕ → Ptr → Ptr → World → Run World
copy_number zero x_curr x_next w = undefined
copy_number (suc fuel) x_curr x_next w = if not (walk_on x_curr x_next) then done w else (do
  n ← deref x_curr w
  w₁ ← set_nr n.e_nr x_next w
  q ← next_of x_next w₁
  copy_number fuel x_next q w₁)

-- The numbering that `protRenumber()` does when it is due, from the head on.
unfoldable pub number_from : ℕ → Ptr → World → Run World
number_from fuel x_head w = do
  q ← next_or_null x_head w
  w₁ ← (if x_head == 0 then done w else set_nr 0 x_head w)
  copy_number fuel x_head q w₁

abbrev pub renumbered : World → World
renumbered w = record w { do_renumber = false }

unfoldable pub renumber : ℕ → World → Run World
renumber fuel w = if w.do_renumber then number_from fuel w.head (renumbered w) else done w
