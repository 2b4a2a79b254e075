-- ===== src/DoubleList/Numbers.antt =====
-- container/TSingleList.h: the ends and the numbers of a list, on elements that lead both ways.
use pwxlib.Base.{ℕ, zero, suc, Bool, false, not, ◌&&◌, ◌==◌, if◌then◌else◌, succ_u32}
use pwxlib.SingleList.{Ptr}
use pwxlib.DoubleList.{Node, World, Run, done, undefined, ◌>>=◌, deref, modify}
use pwxlib.DoubleList.Element.{get_next, get_prev}

unfoldable pub next_of : Ptr → World → Run Ptr
next_of p w = do n ← deref p w; done (get_next n)

unfoldable pub prev_of : Ptr → World → Run Ptr
prev_of p w = do n ← deref p w; done (get_prev n)

abbrev pub numbered : ℕ → Node → Node
numbered k n = record n { e_nr = k }

unfoldable pub set_nr : ℕ → Ptr → World → Run World
set_nr k p w = modify (numbered k) p w

abbrev pub set_tail : Ptr → World → World
set_tail p w = record w { tail = p }

abbrev pub curr : World → Ptr
curr w = if w.curr_ptr == 0 then w.head else w.curr_ptr

abbrev pub set_curr : Ptr → World → World
set_curr p w = record w { curr_ptr = p }

abbrev pub empty : World → Bool
empty w = w.e_count == 0

abbrev pub walk_on : Ptr → Ptr → Bool
walk_on x_curr x_next = not (x_curr == 0) && not (x_next == 0) && not (x_curr == x_next)

-- The loop of `head( new_head )`, whose two pointers change places in each round.
unfoldable pub number_on : ℕ → Ptr → Ptr → World → Run World
number_on zero x_curr x_next w = undefined
number_on (suc fuel) x_curr x_next w = if not (walk_on x_curr x_next) then done w else (do
  n ← deref x_curr w
  w₁ ← set_nr (succ_u32 n.e_nr) x_next w
  q ← next_of x_curr w₁
  number_on fuel q x_curr w₁)

unfoldable pub set_head : ℕ → Ptr → World → Run World
set_head fuel p w = do
  w₁ ← set_nr 0 p w
  q ← next_of p w₁
  number_on fuel p q (record w₁ { head = p })

-- The loop of `protRenumber()`.
unfoldable pub copy_number : ℕ → Ptr → Ptr → World → Run World
copy_number zero x_curr x_next w = undefined
copy_number (suc fuel) x_curr x_next w = if not (walk_on x_curr x_next) then done w else (do
  n ← deref x_curr w
  w₁ ← set_nr n.e_nr x_next w
  q ← next_of x_next w₁
  copy_number fuel x_next q w₁)

-- From the head on, if the list has one.
unfoldable pub number_from : ℕ → Ptr → World → Run World
number_from fuel x_head w =
    if x_head == 0
    then done w
    else (do q ← next_of x_head w; w₁ ← set_nr 0 x_head w; copy_number fuel x_head q w₁)

unfoldable pub renumber : ℕ → World → Run World
renumber fuel w =
    if w.do_renumber then number_from fuel w.head (record w { do_renumber = false }) else done w
