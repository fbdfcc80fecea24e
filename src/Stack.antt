-- ===== src/Stack.antt =====
-- quic_probe/src/stack.c: a stack of pointers, linked in the heap. The structure itself is a value
-- that each function returns anew. `elements_left` counts allocated nodes and cannot overflow.
mod Contents
mod Tests
use thesis_share.Base.{
  ℕ, zero, suc, ◌+◌, ◌-◌, Bool, true, false, List, [], ◌∷◌, none, ◌==◌, if◌then◌else◌,
}
use thesis_share.Memory.{Ptr, null, Cmd, pure, ◌>>=◌, ◌>>◌, load, alloc, release}
use thesis_share.Memory.Chain.{Node, node}

pub record PrimitiveStack : Type 0 where
  pub elements_left : ℕ
  pub next_node : Ptr

pub init_stack : PrimitiveStack
init_stack = record { elements_left = 0; next_node = null }

-- `fresh` is what `malloc` returns.
pub put_stack_element : Ptr → PrimitiveStack → Ptr → Cmd Node PrimitiveStack
unfolding alloc
put_stack_element fresh s data_ref = do
  alloc fresh (node data_ref s.next_node)
  pure (record { elements_left = s.elements_left + 1; next_node = fresh })

-- The data, NULL for an empty stack, and the stack.
pub pull_stack_element : PrimitiveStack → Cmd Node (Ptr × PrimitiveStack)
unfolding load release
pull_stack_element s = if s.elements_left == 0 then pure (null, s) else do
  n ← load s.next_node
  release s.next_node
  pure (n.data_ref, record { elements_left = s.elements_left - 1; next_node = n.next })

-- The loop of `destroy_stack`; the result is the data that it frees, in order, and the stack as it
-- leaves it. Each round but the last takes an element away, so `elements_left + 1` rounds do.
pub destroy_loop : ℕ → PrimitiveStack → Cmd Node (List Ptr × PrimitiveStack)
destroy_loop zero s = λ _. none
destroy_loop (suc fuel) s = do
  (d, s') ← pull_stack_element s
  if d == null then pure ([], s') else do (ds, s'') ← destroy_loop fuel s'; pure (d ∷ ds, s'')

pub destroy_stack : PrimitiveStack → Cmd Node (List Ptr × PrimitiveStack)
unfolding destroy_loop
destroy_stack s = destroy_loop (s.elements_left + 1) s

pub get_stack_length : PrimitiveStack → ℕ
get_stack_length s = s.elements_left
