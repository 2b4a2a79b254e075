-- ===== src/Tests/Doubles.antt =====
-- A small doubly linked list, and what the theorems say of it.
use pwxlib.Base.{ℕ, ◌≡◌, true, false, none, some, [], ◌∷◌, refl, arith, if◌then◌else◌, ◌==◌}
use pwxlib.DoubleList.{Node, Heap, World, done, undefined, ◌>>=◌, load}
use pwxlib.DoubleList.Removal.{IsOut}
use pwxlib.DoubleList.Chained.{nil, cons, IsFree}
use pwxlib.DoubleList.Insert.{prot_insert}
use pwxlib.DoubleList.Remove.{priv_remove, priv_remove_after_element, pop_back}
use pwxlib.DoubleList.Held.{IsList, prot_insert-IsList}
use pwxlib.DoubleList.Left.{priv_remove-IsList}
use pwxlib.DoubleList.Last.{priv_remove-only}
use pwxlib.DoubleList.Undone.{prot_insert-front, priv_remove-prot_insert}

abbrev node_at : (d p q k : ℕ) → Node
node_at d p q k = record {
  data_ptr = d;
  next = q;
  prev = p;
  old_next = 0;
  old_prev = 0;
  e_nr = k;
  is_removed = false;
  is_destroyed = false;
  thread_safe = true;
  in_store = true;
}

abbrev fresh_node : Node
fresh_node = record (node_at 40 0 0 0) { is_removed = true; in_store = false }

-- The elements 1, 2 and 3 are in the list, and 4 is a new one.
abbrev memory : Heap
memory a =
    if a == 1
    then some (node_at 10 0 2 0)
    else if a == 2
    then some (node_at 20 1 3 1)
    else if a == 3
    then some (node_at 30 2 0 2)
    else if a == 4
    then some fresh_node
    else none

abbrev three : World
three = record {
  heap = memory;
  next_free = 5;
  head = 1;
  tail = 3;
  e_count = 3;
  curr_ptr = 0;
  do_renumber = false;
  list_safe = true;
}

three-IsList : IsList three (1 ∷ 2 ∷ 3 ∷ [])
unfolding load
three-IsList = record {
  chained =
      cons
        (record {
          node = node_at 10 0 2 0;
          here = refl;
          back = refl;
          onto = refl;
          stays = refl;
          alive = refl;
        })
        (cons
          (record {
            node = node_at 20 1 3 1;
            here = refl;
            back = refl;
            onto = refl;
            stays = refl;
            alive = refl;
          })
          (cons
            (record {
              node = node_at 30 2 0 2;
              here = refl;
              back = refl;
              onto = refl;
              stays = refl;
              alive = refl;
            })
            nil));
  apart = refl;
  at_head = refl;
  at_tail = refl;
  counted = refl;
}

four-IsFree : IsFree 4 (1 ∷ 2 ∷ 3 ∷ []) three
unfolding load
four-IsFree = record { node = fresh_node; here = refl; alive = refl; outside = refl }

prot_insert-IsList_example :
    (w' : World) × (prot_insert 9 2 4 three ≡ done (4, w')) × IsList w' (1 ∷ 2 ∷ 4 ∷ 3 ∷ [])
prot_insert-IsList_example =
    prot_insert-IsList 9 (1 ∷ []) (3 ∷ []) 2 4 three three-IsList four-IsFree (omega arith)

prot_insert-front_example :
    (w' : World) × (prot_insert 9 0 4 three ≡ done (4, w')) × IsList w' (4 ∷ 1 ∷ 2 ∷ 3 ∷ [])
prot_insert-front_example =
    prot_insert-front 9 1 4 (2 ∷ 3 ∷ []) three three-IsList four-IsFree (omega arith) (omega arith)

priv_remove-IsList_example :
    (w' : World) × (priv_remove 9 1 three ≡ done (1, w')) × IsList w' (2 ∷ 3 ∷ []) × IsOut 1 w'
priv_remove-IsList_example =
    priv_remove-IsList 9 [] (2 ∷ 3 ∷ []) 1 three three-IsList (omega arith) refl (omega arith)

priv_remove-prot_insert_example :
    (w' : World) × ((do (n, v) ← prot_insert 9 3 4 three; priv_remove 9 4 v) ≡ done (4, w'))
    × IsList w' (1 ∷ 2 ∷ 3 ∷ [])
    × IsOut 4 w'
priv_remove-prot_insert_example =
    priv_remove-prot_insert 9 (1 ∷ 2 ∷ []) [] 3 4 three three-IsList four-IsFree (omega arith)
      (omega arith)

abbrev single : World
single = record three {
  heap = λ a. if a == 1 then some (node_at 10 0 0 0) else none;
  tail = 1;
  e_count = 1;
}

single-IsList : IsList single (1 ∷ [])
unfolding load
single-IsList = record {
  chained =
      cons
        (record {
          node = node_at 10 0 0 0;
          here = refl;
          back = refl;
          onto = refl;
          stays = refl;
          alive = refl;
        })
        nil;
  apart = refl;
  at_head = refl;
  at_tail = refl;
  counted = refl;
}

priv_remove-only_example :
    (priv_remove 9 1 single ≡ undefined)
    × (priv_remove_after_element 9 0 single ≡ undefined)
    × (pop_back 9 single ≡ undefined)
priv_remove-only_example = priv_remove-only 9 1 single single-IsList
