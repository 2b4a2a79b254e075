-- ===== src/Stack.antt =====
-- container/TStack.h: the stack, whose methods are the list's under other names.
pub mod Lifo
use pwxlib.Base.{ℕ}
use pwxlib.SingleList.{Ptr, World, Run}
use pwxlib.SingleList.Public.{push_back, push_front, pop_front, pop_back}

module _ (fuel : ℕ) where
  unfoldable pub push : Ptr → World → Run (ℕ × World)
  push d w = push_back fuel d w

  unfoldable pub pop : World → Run (Ptr × World)
  pop w = pop_back fuel w

  unfoldable pub shift : World → Run (Ptr × World)
  shift w = pop_front fuel w

  unfoldable pub unshift : Ptr → World → Run (ℕ × World)
  unshift d w = push_front fuel d w

  -- The ends of the list change places.
  unfoldable pub stack_pop_back : World → Run (Ptr × World)
  stack_pop_back w = pop_front fuel w

  unfoldable pub stack_pop_front : World → Run (Ptr × World)
  stack_pop_front w = pop_back fuel w

  unfoldable pub stack_push_back : Ptr → World → Run (ℕ × World)
  stack_push_back d w = push_front fuel d w

  unfoldable pub stack_push_front : Ptr → World → Run (ℕ × World)
  stack_push_front d w = push_back fuel d w
