-- ===== src/CycleBuffer.antt =====
-- quic_probe/src/cycle_buffer.c: a buffer that hands out partitions of equal size in turn. The
-- memory itself is its offsets: `get_memory_pointer` returns the offset of the pointer from
-- `buffer`. Sizes are size_t values; their sums stay below 2^64, since a pointer that is handed
-- out lies in an object.
mod Partitions
mod Tests
use thesis_share.Base.{ℕ, ◌+◌, ◌/◌, ltb, if◌then◌else◌}

pub record CycleBuffer : Type 0 where
  pub max_size : ℕ
  pub partition_size : ℕ
  pub current_pointer : ℕ

-- `partition_size` is left as `malloc` of the structure gave it.
pub init_memory_buffer : ℕ → ℕ → CycleBuffer
init_memory_buffer garbage max_size = record {
  max_size = max_size;
  partition_size = garbage;
  current_pointer = 0;
}

pub reset_memory_buffer_allocations : CycleBuffer → ℕ → CycleBuffer
reset_memory_buffer_allocations b streams_count = record b {
  partition_size = b.max_size / streams_count;
  current_pointer = 0;
}

pub get_memory_pointer : CycleBuffer → ℕ × CycleBuffer
get_memory_pointer b =
    let start = if ltb b.max_size b.current_pointer then 0 else b.current_pointer in
    (start, record b { current_pointer = start + b.partition_size })

-- The state after `k` calls, and so the offset that call number `k` returns.
pub after_calls : ℕ → CycleBuffer → CycleBuffer
unfolding get_memory_pointer
after_calls ℕ.zero b = b
after_calls (ℕ.suc k) b = after_calls k (get_memory_pointer b).1
