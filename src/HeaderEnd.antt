-- ===== src/HeaderEnd.antt =====
-- `check_end_sequence` of quic_probe/src/connection_read_handler.c: the search for the blank line
-- that ends an HTTP header. Memory behind a `char*` is a function from offsets to bytes.
pub mod First
pub mod Window
mod Tests
use thesis_share.Base.{ℕ, zero, suc, ◌+◌, ◌-◌, ◌*◌, Bool, true, false, ltb, ◌==◌, if◌then◌else◌}

abbrev pub Bytes : Type 0
Bytes = ℕ → ℕ

abbrev pub end_header_size : ℕ
end_header_size = 4

-- `END_HEADER`, "\r\n\r\n" with its final NUL.
abbrev pub end_header : ℕ → ℕ
end_header zero = 13
end_header (suc zero) = 10
end_header (suc (suc zero)) = 13
end_header (suc (suc (suc zero))) = 10
end_header _ = 0

-- The value 1 with `*end_position`, or the value 0; `out_of_fuel` stands for a loop that goes on.
pub data Search : Type 0 where
  found : ℕ → Search
  not_found : Search
  out_of_fuel : Search

-- The loop, from its variables `pos` and `current_header_sequence`. The size_t subtraction
-- `pos -= current_header_sequence` is exact, since the sequence has been read up to `pos`.
pub check_loop : ℕ → Bytes → ℕ → ℕ → ℕ → Search
check_loop zero data_ref length pos sequence = out_of_fuel
check_loop (suc fuel) data_ref length pos sequence =
    let again = check_loop fuel data_ref length (pos + 1) (sequence + 1) in
    let back = check_loop fuel data_ref length (pos - sequence + 1) 0 in
    let on = check_loop fuel data_ref length (pos + 1) sequence in
    if ltb pos length
    then (if data_ref pos == end_header sequence
        then (if sequence + 1 == end_header_size then found (pos + 1) else again)
        else (if sequence == 0 then on else back))
    else not_found

-- Every round moves on in the sequence or moves its start: 5 rounds for each byte are enough.
unfoldable pub check_end_sequence : Bytes → ℕ → Search
unfolding check_loop
check_end_sequence data_ref length = check_loop (5 * length + 1) data_ref length 0 0
