-- ===== src/CycleBuffer/Partitions.antt =====
-- Which offsets the cyclic buffer hands out.
use native.Mathlib.Nat.{div-add-mod', mod-lt}
use thesis_share.Base.{ℕ, zero, suc, ◌+◌, ◌*◌, ◌/◌, ◌≤◌, ◌<◌, ◌≡◌, refl, arith}
use thesis_share.CycleBuffer.{
  CycleBuffer, init_memory_buffer, reset_memory_buffer_allocations, get_memory_pointer, after_calls,
}

-- The sizes never change; `k` calls from the pointer `c` leave it at `c + k * partition_size` as
-- long as no call starts behind the end.
after_calls-linear :
    (k c : ℕ) (b : CycleBuffer)
    → c + k * b.partition_size ≤ b.max_size + b.partition_size
    → b.current_pointer ≡ c
    → after_calls k b ≡ record b { current_pointer = c + k * b.partition_size }
unfolding after_calls get_memory_pointer
after_calls-linear zero c b h e = ground arith
after_calls-linear (suc k) c b h e = ground (
  arith,
  after_calls-linear k (c + b.partition_size) (record b { current_pointer = c + b.partition_size }),
)

-- After a reset with `n` streams the calls return the partitions in order, each from the multiple
-- of the partition size with its number, as long as that multiple is not behind the end; so the
-- last of them, number `max_size / partition_size`, is handed out although it reaches behind the
-- end of the buffer. The call after that starts again at offset 0.
pub get_memory_pointer-partitions :
    (garbage max_size n : ℕ)
    → let b = reset_memory_buffer_allocations (init_memory_buffer garbage max_size) n in
      let q = max_size / n in
      0 < q
      → ((k : ℕ) → k * q ≤ max_size → (get_memory_pointer (after_calls k b)).0 ≡ k * q)
        × (max_size < (get_memory_pointer (after_calls (max_size / q) b)).0 + q)
        × ((get_memory_pointer (after_calls (suc (max_size / q)) b)).0 ≡ 0)
unfolding get_memory_pointer init_memory_buffer reset_memory_buffer_allocations
get_memory_pointer-partitions garbage max_size n hq = (
  λ k h. ground (arith, linear k (omega arith)),
  ground (arith, linear (max_size / (max_size / n)) (omega (arith, whole)), whole),
  ground (arith, linear (suc (max_size / (max_size / n))) (grind (arith, whole)), whole),
)
  where
    b : CycleBuffer
    b = reset_memory_buffer_allocations (init_memory_buffer garbage max_size) n

    whole :
        (max_size / (max_size / n) * (max_size / n) ≤ max_size)
        × (max_size < max_size / (max_size / n) * (max_size / n) + max_size / n)
    whole =
        let e = div-add-mod' max_size (max_size / n) in
        let l = mod-lt max_size hq in (omega arith, omega arith)

    linear :
        (k : ℕ)
        → 0 + k * (max_size / n) ≤ max_size + max_size / n
        → after_calls k b ≡ record b { current_pointer = 0 + k * (max_size / n) }
    linear k h = after_calls-linear k 0 b h refl
