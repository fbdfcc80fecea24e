-- ===== src/CycleBuffer/Tests.antt =====
-- Three streams over ten bytes: the fourth call is handed the last byte for three.
use thesis_share.Base.{ℕ, ◌+◌, ◌*◌, ◌≤◌, ◌<◌, ◌≡◌, arith}
use thesis_share.CycleBuffer.{
  CycleBuffer, init_memory_buffer, reset_memory_buffer_allocations, get_memory_pointer, after_calls,
}
use thesis_share.CycleBuffer.Partitions.{get_memory_pointer-partitions}

abbrev buffer : CycleBuffer
buffer = record { max_size = 10; partition_size = 3; current_pointer = 0 }

get_memory_pointer-partitions_example :
    ((k : ℕ) → k * 3 ≤ 10 → (get_memory_pointer (after_calls k buffer)).0 ≡ k * 3)
    × (10 < (get_memory_pointer (after_calls 3 buffer)).0 + 3)
    × ((get_memory_pointer (after_calls 4 buffer)).0 ≡ 0)
unfolding init_memory_buffer reset_memory_buffer_allocations
get_memory_pointer-partitions_example = get_memory_pointer-partitions 77 10 3 (omega arith)
