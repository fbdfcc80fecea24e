-- ===== src/Queue.antt =====
-- quic_probe/src/queue.c: a queue of pointers, doubly linked in the heap between a start and an
-- end container. Data is put in behind the start and pulled from in front of the end. `length`
-- counts allocated containers and cannot overflow.
mod Links
mod Fifo
mod Tests
use thesis_share.Base.{ℕ, zero, suc, ◌+◌, ◌-◌, List, [], ◌∷◌, none, ◌==◌, if◌then◌else◌}
use thesis_share.Memory.{Ptr, null, Cmd, pure, ◌>>=◌, ◌>>◌, load, alloc, store, release}

pub record QueueContainer : Type 0 where
  pub data_ref : Ptr
  pub previous_container : Ptr
  pub next_container : Ptr

pub record Queue : Type 0 where
  pub start : Ptr
  pub end : Ptr
  pub length : ℕ

-- `init_container_with_data`, at the address that `malloc` returns.
pub init_container_with_data : Ptr → Ptr → Ptr → Ptr → Cmd QueueContainer (Unit {0})
init_container_with_data fresh prev next data_ref =
    alloc fresh (record { data_ref = data_ref; previous_container = prev; next_container = next })

pub init_empty_container : Ptr → Cmd QueueContainer (Unit {0})
init_empty_container fresh =
    alloc fresh (record { data_ref = null; previous_container = null; next_container = null })

-- `p->next_container = q` and `p->previous_container = q`.
pub set_next : Ptr → Ptr → Cmd QueueContainer (Unit {0})
set_next p q = do n ← load p; store p (record n { next_container = q })

pub set_previous : Ptr → Ptr → Cmd QueueContainer (Unit {0})
set_previous p q = do n ← load p; store p (record n { previous_container = q })

pub queue_put_data : Ptr → Queue → Ptr → Cmd QueueContainer Queue
unfolding init_container_with_data
queue_put_data fresh q data_ref = do
  s ← load q.start
  init_container_with_data fresh q.start s.next_container data_ref
  s' ← load q.start
  set_previous s'.next_container fresh
  set_next q.start fresh
  pure (record q { length = q.length + 1 })

-- The data, NULL for an empty queue, and the queue.
pub queue_pull_data : Queue → Cmd QueueContainer (Ptr × Queue)
queue_pull_data q = if q.length == 0 then pure (null, q) else do
  e ← load q.end
  l ← load e.previous_container
  set_next l.previous_container q.end
  set_previous q.end l.previous_container
  release e.previous_container
  pure (l.data_ref, record q { length = q.length - 1 })

-- The two arguments are the addresses of the start and the end container.
pub init_queue : Ptr → Ptr → Cmd QueueContainer Queue
unfolding init_empty_container set_next set_previous
init_queue start end = do
  init_empty_container start
  init_empty_container end
  set_next start end
  set_previous end start
  pure (record { start = start; end = end; length = 0 })

-- `while (length != 0) queue_pull_data(queue)`: the data is dropped, and not freed.
pub destroy_loop : ℕ → Queue → Cmd QueueContainer Queue
unfolding queue_pull_data
destroy_loop zero q = λ _. none
destroy_loop (suc fuel) q =
    if q.length == 0 then pure q else do (_, q') ← queue_pull_data q; destroy_loop fuel q'

pub destroy_queue : Queue → Cmd QueueContainer (Unit {0})
unfolding destroy_loop
destroy_queue q = do q' ← destroy_loop (q.length + 1) q; release q'.start; release q'.end
