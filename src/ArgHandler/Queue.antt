-- ===== src/ArgHandler/Queue.antt =====
-- container/TQueue.h as the argument handler uses it: a list, of which an operation that takes the
-- last element out has no result, since `head( new_head )` dereferences the null pointer there
-- (DoubleList.Last, SingleList.Remove.Last).
use pwxlib.Base.{List, [], ◌∷◌, Option, none, some}

-- `pop()` of a queue with a first element: this, and what stands behind it.
unfoldable pub pop : {A : Type 0} → A → List A → Option (A × List A)
pop a [] = none
pop a (b ∷ as') = some (a, b ∷ as')

unfoldable pub clear_queue : {A : Type 0} → List A → Option (List A)
clear_queue [] = some []
clear_queue (a ∷ as') = none
