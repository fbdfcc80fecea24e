-- ===== src/Queue/Tests.antt =====
-- A queue of two elements, the address 3 in the middle.
use thesis_share.Base.{◌≡◌, refl, some, none, [], ◌∷◌, ◌++◌, arith, ◌==◌, if◌then◌else◌}
use thesis_share.Memory.{Heap, Returns}
use thesis_share.Memory.Chain.{Cells}
use thesis_share.Queue.{QueueContainer, Queue, queue_put_data, queue_pull_data}
use thesis_share.Queue.Links.{container}
use thesis_share.Queue.Fifo.{IsQueue, queued, queue_put_data-append, queue_pull_data-oldest}

abbrev heap : Heap QueueContainer
heap a =
    if a == 1
    then some (container 0 0 3)
    else if a == 3
    then some (container 60 1 4)
    else if a == 4
    then some (container 50 3 2)
    else if a == 2
    then some (container 0 4 0)
    else none

abbrev queue : Queue
queue = record { start = 1; end = 2; length = 2 }

abbrev cells : Cells
cells = (3, 60) ∷ (4, 50) ∷ []

queue-IsQueue : IsQueue heap queue cells
queue-IsQueue = record {
  counts = refl;
  links = (
    omega arith,
    refl,
    refl,
    (omega arith, refl, refl, (omega arith, refl, refl, (omega arith, refl, refl, tt))),
  );
}

queue_put_data-append_example :
    Returns
      (λ q' g.
        IsQueue g q' ((5, 70) ∷ cells) × (queued ((5, 70) ∷ cells) ≡ queued cells ++ 70 ∷ []))
      (queue_put_data 5 queue 70 heap)
queue_put_data-append_example = queue_put_data-append 5 70 queue-IsQueue (omega arith) refl

queue_pull_data-oldest_example :
    (queued cells ≡ 50 ∷ 60 ∷ [])
    × Returns
        (λ (out, q') g. (out ≡ 50) × IsQueue g q' ((3, 60) ∷ []) × (g 4 ≡ none))
        (queue_pull_data queue heap)
queue_pull_data-oldest_example = queue_pull_data-oldest ((3, 60) ∷ []) 4 50 queue-IsQueue
