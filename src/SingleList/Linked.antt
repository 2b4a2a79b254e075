-- ===== src/SingleList/Linked.antt =====
-- What a list of container/TSingleList.h stands for: the addresses that its `next` pointers lead
-- through, from the head to the tail.
use pwxlib.Base.{
  ◌≡◌, ◌∙◌, Bool, true, false, not, ◌&&◌, ◌||◌, List, [], ◌∷◌, some, ◌==◌, arith, length,
}
use pwxlib.SingleList.{Ptr, Node, Heap, World, load}

abbrev pub has : Ptr → List Ptr → Bool
has a [] = false
has a (x ∷ xs) = (a == x) || has a xs

abbrev pub distinct : List Ptr → Bool
distinct [] = true
distinct (x ∷ xs) = not (has x xs) && distinct xs

-- The first and the last element; `p` for the empty list.
abbrev pub first : List Ptr → Ptr → Ptr
first [] p = p
first (x ∷ xs) p = x

abbrev pub last : List Ptr → Ptr → Ptr
last [] p = p
last (x ∷ xs) p = last xs x

-- A live, inserted element at `p` whose next one is `q`.
pub record At (h : Heap) (p q : Ptr) : Type 0 where
  pub node : Node
  pub here : load p h ≡ some node
  pub onto : node.next ≡ q
  pub stays : node.is_removed ≡ false
  pub alive : node.is_destroyed ≡ false

-- The elements `xs` in order, the last of which leads to `stop`.
pub data Linked (h : Heap) (stop : Ptr) : List Ptr → Type 0 where
  nil : Linked h stop []
  cons :
      {x : Ptr} {xs : List Ptr} → At h x (first xs stop) → Linked h stop xs → Linked h stop (x ∷ xs)

pub record Holds (w : World) (xs : List Ptr) : Type 0 where
  pub linked : Linked w.heap 0 xs
  pub apart : distinct xs ≡ true
  pub at_head : w.head ≡ first xs 0
  pub at_tail : w.tail ≡ last xs 0
  pub counted : w.e_count ≡ length xs

pub At_kept : {h g : Heap} {p q : Ptr} → load p g ≡ load p h → At h p q → At g p q
At_kept e a = record {
  node = a.node;
  here = e ∙ a.here;
  onto = a.onto;
  stays = a.stays;
  alive = a.alive;
}

pub frame :
    {h g : Heap} {stop : Ptr} {xs : List Ptr}
    → Linked h stop xs
    → ((a q : Ptr) → has a xs ≡ true → At h a q → At g a q)
    → Linked g stop xs
frame nil keep = nil
frame (cons {x} {xs} a l) keep =
    cons (keep x _ (ground arith) a) (frame l λ a q i. keep a q (ground arith))
