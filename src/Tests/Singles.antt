-- ===== src/Tests/Singles.antt =====
-- A small singly linked list, and what the theorems say of it.
use pwxlib.Base.{ℕ, ◌≡◌, true, false, none, some, [], ◌∷◌, ◌<◌, refl, arith, inl, inr}
use pwxlib.SingleList.Index.{negsuc, wrap_index}
use pwxlib.SingleList.Index.Bounds.{Congruent, wrap_index-Congruent}
use pwxlib.SingleList.Index.Walk.{InOrder, stop, step}
use pwxlib.SingleList.Index.Place.{get-nth}
use pwxlib.SingleList.Index.{priv_get_element_by_index}
use pwxlib.Tests.Tables.{number_key}
use pwxlib.SingleList.Insert.Tail.{Settled}
use pwxlib.Stack.{push, pop}
use pwxlib.Stack.Lifo.{pop-push}
use pwxlib.SingleList.{Ptr, Node, Heap, World, done, ◌>>=◌, load, write}
use pwxlib.SingleList.Element.{get_next}
use pwxlib.SingleList.Numbers.{set_curr}
use pwxlib.SingleList.Linked.{nil, cons, Holds}
use pwxlib.SingleList.Insert.{prot_insert}
use pwxlib.SingleList.Insert.Grown.{Fresh}
use pwxlib.SingleList.Insert.Holds.{prot_insert-Holds}
use pwxlib.SingleList.Remove.{priv_remove_after_element}
use pwxlib.SingleList.Remove.Holds.{Gone, priv_remove_after_element-Holds}
use pwxlib.SingleList.Find.{prot_find}
use pwxlib.SingleList.Find.Found.{Outcome, prot_find-Finds}

abbrev node_at : Ptr → Ptr → ℕ → Node
node_at d q k = record {
  data_ptr = d;
  next = q;
  old_next = 0;
  e_nr = k;
  is_removed = false;
  is_destroyed = false;
  thread_safe = true;
  in_store = true;
}

abbrev new_node : Ptr → Node
new_node d = record {
  data_ptr = d;
  next = 0;
  old_next = 0;
  e_nr = 0;
  is_removed = true;
  is_destroyed = false;
  thread_safe = true;
  in_store = false;
}

-- The elements 1 and 2 are in the list, and 3 is a new one.
abbrev memory : Heap
memory =
    write 1 (some (node_at 10 2 0))
      (write 2 (some (node_at 20 0 1)) (write 3 (some (new_node 30)) (λ p. none)))

abbrev pair : World
pair = record {
  heap = memory;
  next_free = 4;
  head = 1;
  tail = 2;
  e_count = 2;
  curr_ptr = 0;
  do_renumber = true;
  list_safe = true;
}

pair-Holds : Holds pair (1 ∷ 2 ∷ [])
unfolding load write
pair-Holds = record {
  linked =
      cons (record { node = node_at 10 2 0; here = refl; onto = refl; stays = refl; alive = refl })
        (cons
          (record { node = node_at 20 0 1; here = refl; onto = refl; stays = refl; alive = refl })
          nil);
  apart = refl;
  at_head = refl;
  at_tail = refl;
  counted = refl;
}

new-Fresh : Fresh memory 3
unfolding load write get_next
new-Fresh = record { node = new_node 30; here = refl; alive = refl; ends = refl; leads = refl }

prot_insert-Holds_example :
    (w' : World) × (prot_insert 9 1 3 pair ≡ done (3, w')) × Holds w' (1 ∷ 3 ∷ 2 ∷ [])
prot_insert-Holds_example =
    prot_insert-Holds 9 1 3 (1 ∷ 2 ∷ []) pair pair-Holds (inr refl) refl new-Fresh (omega arith)
      (omega arith)

priv_remove_after_element-Holds_example :
    (w' : World) × (priv_remove_after_element 9 0 pair ≡ done (1, w'))
    × Holds w' (2 ∷ [])
    × Gone w' 1
priv_remove_after_element-Holds_example =
    priv_remove_after_element-Holds 9 0 1 2 [] pair pair-Holds (inl refl) (omega arith)
      (omega arith)

prot_find-Finds_example :
    (p : Ptr) × (w' : World) × (prot_find 9 20 pair ≡ done (p, w'))
    × Outcome 20 (1 ∷ 2 ∷ []) pair p w'
prot_find-Finds_example = prot_find-Finds 9 20 (1 ∷ 2 ∷ []) pair pair-Holds (inl refl) (omega arith)

wrap_index-Congruent_example :
    (wrap_index (negsuc 4) 3 < 3) × Congruent (negsuc 4) (wrap_index (negsuc 4) 3) 3
wrap_index-Congruent_example = wrap_index-Congruent (negsuc 4) 3 (omega arith)

abbrev settled : World
settled = record pair { do_renumber = false }

settled-Holds : Holds settled (1 ∷ 2 ∷ [])
settled-Holds = record {
  linked = pair-Holds.linked;
  apart = refl;
  at_head = refl;
  at_tail = refl;
  counted = refl;
}

settled-InOrder : InOrder settled 0 (1 ∷ 2 ∷ [])
unfolding load write
settled-InOrder = step (node_at 10 2 0, refl, refl) (step (node_at 20 0 1, refl, refl) stop)

get-nth_example :
    (c : Ptr) × (priv_get_element_by_index 9 (negsuc 0) settled ≡ done (2, set_curr c settled))
unfolding wrap_index
get-nth_example =
    get-nth 9 (negsuc 0) 1 (2 ∷ []) settled settled-Holds settled-InOrder refl (inl refl)
      (omega arith) (omega arith)

settled-Settled : Settled settled (1 ∷ 2 ∷ [])
settled-Settled = record {
  holds = settled-Holds;
  order = settled-InOrder;
  fresh_numbers = refl;
  current = inl refl;
}

pop-push_example :
    (w' : World) × ((do (n, w₁) ← push 9 70 settled; pop 9 w₁) ≡ done (4, w'))
    × Holds w' (1 ∷ 2 ∷ [])
    × Gone w' 4
pop-push_example =
    pop-push 9 70 1 (2 ∷ []) settled settled-Settled refl refl (omega arith) (omega arith)
