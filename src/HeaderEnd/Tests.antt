-- ===== src/HeaderEnd/Tests.antt =====
-- A blank line that straddles two reads.
use thesis_share.Base.{◌+◌, suc, zero, arith}
use thesis_share.HeaderEnd.{Bytes, check_end_sequence}
use thesis_share.HeaderEnd.First.{IsFirstEnd, check_end_sequence-IsFirstEnd}
use thesis_share.HeaderEnd.Window.{shifted, window-IsFirstEnd}

-- "a\r\r\n\r\nb"
abbrev bytes : Bytes
bytes zero = 97
bytes (suc zero) = 13
bytes (suc (suc zero)) = 13
bytes (suc (suc (suc zero))) = 10
bytes (suc (suc (suc (suc zero)))) = 13
bytes (suc (suc (suc (suc (suc zero))))) = 10
bytes _ = 98

check_end_sequence-IsFirstEnd_example : IsFirstEnd bytes 7 (check_end_sequence bytes 7)
check_end_sequence-IsFirstEnd_example = check_end_sequence-IsFirstEnd bytes 7

window-IsFirstEnd_example :
    IsFirstEnd bytes 7 (shifted 0 (check_end_sequence (λ i. bytes (0 + i)) 7))
window-IsFirstEnd_example = window-IsFirstEnd bytes 3 4 (λ t o. omega (arith, o.0))
