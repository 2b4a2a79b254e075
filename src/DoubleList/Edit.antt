-- ===== src/DoubleList/Edit.antt =====
-- How the operations of container/TDoubleElement.h change the heap, one element after the other.
use pwxlib.Base.{
  ◌≡◌, inl, inr, refl, ap, ◌∙◌, sym, Bool, true, false, not, ◌&&◌, Option, some, ◌==◌, arith,
  Bool-cases,
}
use pwxlib.SingleList.{Ptr}
use pwxlib.DoubleList.{Node, Heap, World, Run, done, ◌>>=◌, load, write, modify}
use pwxlib.DoubleList.Element.{
  set_next, set_prev, store_next, store_prev, leave_store, insert, marked_inserted, remove_base,
  marked_removed,
}

-- The list's own fields; the store may have lost its element.
pub record Same (w w' : World) : Type 0 where
  pub head_same : w'.head ≡ w.head
  pub tail_same : w'.tail ≡ w.tail
  pub count_same : w'.e_count ≡ w.e_count
  pub renumber_same : w'.do_renumber ≡ w.do_renumber
  pub safe_same : w'.list_safe ≡ w.list_safe
  pub free_same : w'.next_free ≡ w.next_free

pub Same-refl : (w : World) → Same w w
Same-refl w = record {
  head_same = refl;
  tail_same = refl;
  count_same = refl;
  renumber_same = refl;
  safe_same = refl;
  free_same = refl;
}

pub Same-trans : {u v w : World} → Same u v → Same v w → Same u w
Same-trans s t = record {
  head_same = t.head_same ∙ s.head_same;
  tail_same = t.tail_same ∙ s.tail_same;
  count_same = t.count_same ∙ s.count_same;
  renumber_same = t.renumber_same ∙ s.renumber_same;
  safe_same = t.safe_same ∙ s.safe_same;
  free_same = t.free_same ∙ s.free_same;
}

-- From `w` to `w'` the element at `p` became `n'`, and no other element changed.
pub record Edit (p : Ptr) (n' : Node) (w w' : World) : Type 0 where
  pub at : load p w'.heap ≡ some n'
  pub other : (a : Ptr) → (a == p) ≡ false → load a w'.heap ≡ load a w.heap
  pub same : Same w w'

pub then_done :
    {A B : Type 0} {r : Run A} {a : A} (f : A → Run B) {s : Run B}
    → r ≡ done a
    → f a ≡ s
    → (r >>= f) ≡ s
then_done f e g = ap (λ t. t >>= f) e ∙ g

load-write :
    (p : Ptr) (n m : Node) (h : Heap) → load p h ≡ some n → load p (write p (some m) h) ≡ some m
unfolding load write
load-write p n m h e = ground arith

load-write_other :
    (p q : Ptr) (o : Option Node) (h : Heap) → (p == q) ≡ false → load p (write q o h) ≡ load p h
unfolding load write
load-write_other p q o h ne = ground arith

pub modify-Edit :
    (f : Node → Node) (p : Ptr) (n : Node) (w : World)
    → load p w.heap ≡ some n
    → (w' : World) × (modify f p w ≡ done w') × Edit p (f n) w w'
unfolding modify
modify-Edit f p n w e = (
  record w { heap = write p (some (f n)) w.heap },
  (rw e refl),
  record {
    at = load-write p n (f n) w.heap e;
    other = λ a ne. load-write_other a p (some (f n)) w.heap ne;
    same = record {
      head_same = refl;
      tail_same = refl;
      count_same = refl;
      renumber_same = refl;
      safe_same = refl;
      free_same = refl;
    };
  },
)

leave_store-heap : (e : Ptr) (b : Bool) (w : World) → (leave_store e b w).heap ≡ w.heap
unfolding leave_store
leave_store-heap e b w = elim (Bool-cases (b && w.curr_ptr == e)) [
  | inl h ↦ rw h refl
  | inr h ↦ rw h refl
]

leave_store-Same : (e : Ptr) (b : Bool) (w : World) → Same w (leave_store e b w)
unfolding leave_store
leave_store-Same e b w = elim (Bool-cases (b && w.curr_ptr == e)) [
  | inl h ↦ rw h (record {
    head_same = refl;
    tail_same = refl;
    count_same = refl;
    renumber_same = refl;
    safe_same = refl;
    free_same = refl;
  })
  | inr h ↦ rw h (Same-refl w)
]

-- An edit after the element may have left the store.
left_Edit :
    (f : Node → Node) (p : Ptr) (b : Bool) (n : Node) (w : World)
    → load p w.heap ≡ some n
    → (w' : World) × (modify f p (leave_store p b w) ≡ done w') × Edit p (f n) w w'
left_Edit f p b n w e =
    let kept = leave_store-heap p b w in
    let (w', run, d) = modify-Edit f p n (leave_store p b w) (ap (load p) kept ∙ e) in
    (
      w',
      run,
      record {
        at = d.at;
        other = λ a ne. d.other a ne ∙ ap (load a) kept;
        same = Same-trans (leave_store-Same p b w) d.same;
      },
    )

pub insert-Edit :
    (p : Ptr) (n : Node) (w : World)
    → load p w.heap ≡ some n
    → (w' : World) × (insert p w ≡ done w') × Edit p (marked_inserted n) w w'
unfolding insert
insert-Edit p n w e =
    let (w', run, d) = left_Edit marked_inserted p n.in_store n w e in (w', (rw e run), d)

pub remove_base-Edit :
    (p : Ptr) (n : Node) (w : World)
    → load p w.heap ≡ some n
    → (w' : World) × (remove_base p w ≡ done w') × Edit p (marked_removed n) w w'
unfolding remove_base
remove_base-Edit p n w e =
    let (w', run, d) = left_Edit marked_removed p n.in_store n w e in (w', (rw e run), d)

-- The neighbour on a side: behind with `true`, in front with `false`.
abbrev pub side : Bool → Node → Ptr
side true n = n.next
side false n = n.prev

-- A live, inserted element at `a`, with `q` on the side `d` and `p` on the other.
pub record At (h : Heap) (d : Bool) (p a q : Ptr) : Type 0 where
  pub node : Node
  pub here : load a h ≡ some node
  pub back : side (not d) node ≡ p
  pub onto : side d node ≡ q
  pub stays : node.is_removed ≡ false
  pub alive : node.is_destroyed ≡ false

pub At-kept :
    {h g : Heap} {d : Bool} {p a q : Ptr} → load a g ≡ load a h → At h d p a q → At g d p a q
At-kept e t = record {
  node = t.node;
  here = e ∙ t.here;
  back = t.back;
  onto = t.onto;
  stays = t.stays;
  alive = t.alive;
}

pub side_twice : (d : Bool) (n : Node) → side (not (not d)) n ≡ side d n
side_twice true n = refl
side_twice false n = refl

-- Seen from the other side.
abbrev pub flip : {h : Heap} (d : Bool) {p a q : Ptr} → At h d p a q → At h (not d) q a p
flip d t = record {
  node = t.node;
  here = t.here;
  back = side_twice d t.node ∙ t.onto;
  onto = t.back;
  stays = t.stays;
  alive = t.alive;
}

abbrev pub unflip : {h : Heap} (d : Bool) {p a q : Ptr} → At h (not d) q a p → At h d p a q
unflip d t = record {
  node = t.node;
  here = t.here;
  back = t.onto;
  onto = sym (side_twice d t.node) ∙ t.back;
  stays = t.stays;
  alive = t.alive;
}

-- A function that sets the neighbour on the side `d`: all else that counts stays.
pub record Sets (d : Bool) (f : Ptr → Node → Node) : Type 0 where
  pub sets : (q : Ptr) (n : Node) → side d (f q n) ≡ q
  pub keeps : (q : Ptr) (n : Node) → side (not d) (f q n) ≡ side (not d) n
  pub removed : (q : Ptr) (n : Node) → (f q n).is_removed ≡ n.is_removed
  pub destroyed : (q : Ptr) (n : Node) → (f q n).is_destroyed ≡ n.is_destroyed

pub store_next-Sets : Sets true store_next
store_next-Sets = record {
  sets = λ q n. refl;
  keeps = λ q n. refl;
  removed = λ q n. refl;
  destroyed = λ q n. refl;
}

pub store_prev-Sets : Sets false store_prev
store_prev-Sets = record {
  sets = λ q n. refl;
  keeps = λ q n. refl;
  removed = λ q n. refl;
  destroyed = λ q n. refl;
}

pub set_next-Sets : Sets true set_next
unfolding set_next
set_next-Sets = record {
  sets = λ q n. ground arith;
  keeps = λ q n. ground arith;
  removed = λ q n. ground arith;
  destroyed = λ q n. ground arith;
}

pub set_prev-Sets : Sets false set_prev
unfolding set_prev
set_prev-Sets = record {
  sets = λ q n. ground arith;
  keeps = λ q n. ground arith;
  removed = λ q n. ground arith;
  destroyed = λ q n. ground arith;
}
