-- ===== src/SingleList/Edit.antt =====
-- How the operations of container/TSingleElement.h change one element of the heap.
use pwxlib.Base.{
  sym, Bool-cases, inl, inr, ℕ, none, ◌⊎◌, ==_iff, ◌≡◌, refl, ap, ◌∙◌, Bool, true, false, Option,
  some, ◌==◌, if◌then◌else◌, arith,
}
use pwxlib.SingleList.{Ptr, Node, Heap, World, Run, done, ◌>>=◌, write, load, read, modify, deref}
use pwxlib.SingleList.Element.{
  set_next, store_next, invalidate, leave_store, insert, marked_inserted, remove, remove_base,
  marked_removed,
}

-- The list's own fields; the store may have lost its element.
pub record Same (w w' : World) : Type 0 where
  pub head_same : w'.head ≡ w.head
  pub tail_same : w'.tail ≡ w.tail
  pub count_same : w'.e_count ≡ w.e_count
  pub renumber_same : w'.do_renumber ≡ w.do_renumber
  pub safe_same : w'.list_safe ≡ w.list_safe
  pub free_same : w'.next_free ≡ w.next_free
  pub curr_kept : (w'.curr_ptr ≡ w.curr_ptr) ⊎ (w'.curr_ptr ≡ 0)

pub Same-refl : (w : World) → Same w w
Same-refl w = record {
  head_same = refl;
  tail_same = refl;
  count_same = refl;
  renumber_same = refl;
  safe_same = refl;
  free_same = refl;
  curr_kept = inl refl;
}

kept_on : {a b c : Ptr} → (b ≡ a) ⊎ (b ≡ 0) → (c ≡ b) ⊎ (c ≡ 0) → (c ≡ a) ⊎ (c ≡ 0)
kept_on (inl e) (inl f) = inl (f ∙ e)
kept_on (inr e) (inl f) = inr (f ∙ e)
kept_on d (inr f) = inr f

pub Same-trans : {u v w : World} → Same u v → Same v w → Same u w
Same-trans s t = record {
  head_same = t.head_same ∙ s.head_same;
  tail_same = t.tail_same ∙ s.tail_same;
  count_same = t.count_same ∙ s.count_same;
  renumber_same = t.renumber_same ∙ s.renumber_same;
  safe_same = t.safe_same ∙ s.safe_same;
  free_same = t.free_same ∙ s.free_same;
  curr_kept = kept_on s.curr_kept t.curr_kept;
}

pub load-write :
    (p : Ptr) (n : Node) (o : Option Node) (h : Heap) → load p h ≡ some n → load p (write p o h) ≡ o
unfolding load write
load-write p n o h e = ground arith

pub load-write_other :
    (p q : Ptr) (o : Option Node) (h : Heap) → (p == q) ≡ false → load p (write q o h) ≡ load p h
unfolding load write
load-write_other p q o h ne = ground arith

-- From `w` to `w'` the element at `p` became `n'`, and no other element changed.
pub record Edit (p : Ptr) (n' : Node) (w w' : World) : Type 0 where
  pub now : load p w'.heap ≡ some n'
  pub others : (a : Ptr) → (a == p) ≡ false → load a w'.heap ≡ load a w.heap
  pub same : Same w w'

-- The number that the element at `p` shows.
abbrev pub Shows : World → Ptr → ℕ → Type 0
Shows w p k = (n : Node) × (load p w.heap ≡ some n) × (n.e_nr ≡ k)

pub some-inj : {A : Type 0} {a b : A} → some a ≡ some b → a ≡ b
some-inj {A} {a} {b} e = ap (λ o. elim o [ none ↦ a | some c ↦ c ]) e

-- An edit that keeps the number keeps all of them.
pub Edit-Shows :
    {p : Ptr} {n' : Node} {w w' : World} (n : Node) (a : Ptr) (k : ℕ)
    → Edit p n' w w'
    → load p w.heap ≡ some n
    → n'.e_nr ≡ n.e_nr
    → Shows w a k
    → Shows w' a k
Edit-Shows {p} {n'} {w} {w'} n a k d h e (m, mh, mk) = elim (Bool-cases (a == p)) [
  | inl same ↦
      let at : a ≡ p = (==_iff a p).0 same in
      let eq : n ≡ m = some-inj (sym h ∙ ap (λ q. load q w.heap) (sym at) ∙ mh) in
      (n', ap (λ q. load q w'.heap) at ∙ d.now, e ∙ ap (λ q. q.e_nr) eq ∙ mk)
  | inr other ↦ (m, d.others a other ∙ mh, mk)
]

abbrev pub Edits : Run World → Ptr → Node → World → Type 0
Edits r p n' w = (w' : World) × (r ≡ done w') × Edit p n' w w'

pub deref-some : (p : Ptr) (w : World) (n : Node) → load p w.heap ≡ some n → deref p w ≡ done n
deref-some p w n e = ap read e

pub then_done :
    {A B : Type 0} {r : Run A} {a : A} (f : A → Run B) {s : Run B}
    → r ≡ done a
    → f a ≡ s
    → (r >>= f) ≡ s
then_done f e t = ap (λ r. r >>= f) e ∙ t

module _ {A : Type 0} {b : Bool} (x y : A) {z : A} where
  pub if_so : b ≡ true → x ≡ z → (if b then x else y) ≡ z
  if_so e r = ap (λ c. if c then x else y) e ∙ r

  pub if_not : b ≡ false → y ≡ z → (if b then x else y) ≡ z
  if_not e r = ap (λ c. if c then x else y) e ∙ r

pub Edits-then :
    {r : Run World} {p : Ptr} {n n' : Node} {w : World} (k : World → Run World)
    → Edits r p n w
    → ((w' : World) → load p w'.heap ≡ some n → Edits (k w') p n' w')
    → Edits (r >>= k) p n' w
Edits-then k (w₁, e, d) next =
    let (w₂, e₂, d₂) = next w₁ d.now in
    (
      w₂,
      then_done k e e₂,
      record {
        now = d₂.now;
        others = λ a ne. d₂.others a ne ∙ d.others a ne;
        same = Same-trans d.same d₂.same;
      },
    )

pub modify-Edits :
    (f : Node → Node) (p : Ptr) (w : World) (n : Node)
    → load p w.heap ≡ some n
    → Edits (modify f p w) p (f n) w
unfolding modify
modify-Edits f p w n e = (
  record w { heap = write p (some (f n)) w.heap },
  then_done _ (deref-some p w n e) refl,
  record {
    now = load-write p n _ w.heap e;
    others = λ a ne. load-write_other a p _ w.heap ne;
    same = record {
      head_same = refl;
      tail_same = refl;
      count_same = refl;
      renumber_same = refl;
      safe_same = refl;
      free_same = refl;
      curr_kept = inl refl;
    };
  },
)

heap-leave_store : (e : Ptr) (b : Bool) (w : World) → (leave_store e b w).heap ≡ w.heap
unfolding leave_store invalidate
heap-leave_store e b w = ground arith

curr-leave_store :
    (e : Ptr) (b : Bool) (w : World)
    → ((leave_store e b w).curr_ptr ≡ w.curr_ptr) ⊎ ((leave_store e b w).curr_ptr ≡ 0)
unfolding leave_store invalidate
curr-leave_store e false w = inl refl
curr-leave_store e true w = elim (Bool-cases (w.curr_ptr == e)) [
  | inl same ↦ inr (rw (same) refl)
  | inr other ↦ inl (rw (other) refl)
]

leave_store-Same : (e : Ptr) (b : Bool) (w : World) → Same w (leave_store e b w)
unfolding leave_store invalidate
leave_store-Same e b w = record {
  head_same = ground arith;
  tail_same = ground arith;
  count_same = ground arith;
  renumber_same = ground arith;
  safe_same = ground arith;
  free_same = ground arith;
  curr_kept = curr-leave_store e b w;
}

leave-Edits :
    (f : Node → Node) (e : Ptr) (b : Bool) (w : World) (n : Node)
    → load e w.heap ≡ some n
    → Edits (modify f e (leave_store e b w)) e (f n) w
leave-Edits f e b w n h =
    let v = leave_store e b w in
    let kept = heap-leave_store e b w in
    let (w', r, d) = modify-Edits f e v n (rw kept h) in
    (
      w',
      r,
      record {
        now = d.now;
        others = λ a ne. d.others a ne ∙ ap (load a) kept;
        same = Same-trans (leave_store-Same e b w) d.same;
      },
    )

pub insert-Edits :
    (e : Ptr) (w : World) (n : Node)
    → load e w.heap ≡ some n
    → Edits (insert e w) e (marked_inserted n) w
unfolding insert
insert-Edits e w n h =
    let (w', r, d) = leave-Edits marked_inserted e n.in_store w n h in
    (w', then_done _ (deref-some e w n h) r, d)

remove_base-Edits :
    (e : Ptr) (w : World) (n : Node)
    → load e w.heap ≡ some n
    → Edits (remove_base e w) e (marked_removed n) w
unfolding remove_base
remove_base-Edits e w n h =
    let (w', r, d) = leave-Edits marked_removed e n.in_store w n h in
    (w', then_done _ (deref-some e w n h) r, d)

-- The element as `remove()` leaves it, thread-safe or not.
abbrev pub removed_as : Bool → Node → Node
removed_as true n = set_next 0 (marked_removed n)
removed_as false n = marked_removed (store_next 0 n)

remove_as-Edits :
    (safe : Bool) (e : Ptr) (w : World) (n : Node)
    → load e w.heap ≡ some n
    → n.thread_safe ≡ safe
    → Edits (remove e w) e (removed_as safe n) w
unfolding remove
remove_as-Edits true e w n h same =
    let (w', r, d) =
      Edits-then (modify (set_next 0) e) (remove_base-Edits e w n h)
        (λ w₁. modify-Edits (set_next 0) e w₁ _) in
    (w', then_done _ (deref-some e w n h) (if_so _ _ same r), d)
remove_as-Edits false e w n h same =
    let (w', r, d) =
      Edits-then (remove_base e) (modify-Edits (store_next 0) e w n h)
        (λ w₁. remove_base-Edits e w₁ _) in
    (w', then_done _ (deref-some e w n h) (if_not _ _ same r), d)

pub remove-Edits :
    (e : Ptr) (w : World) (n : Node)
    → load e w.heap ≡ some n
    → Edits (remove e w) e (removed_as n.thread_safe n) w
remove-Edits e w n h = remove_as-Edits n.thread_safe e w n h refl
