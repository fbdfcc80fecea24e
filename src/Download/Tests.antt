-- ===== src/Download/Tests.antt =====
-- A stream of ten bytes a second.
use thesis_share.Base.{true, [], ◌∷◌, refl, arith}
use thesis_share.Base.Int.{pos}
use thesis_share.Download.{VideoUrl}
use thesis_share.Download.Coverage.{rounds, IsContiguous, rounds-IsContiguous}

abbrev url : VideoUrl
url = record { bitrate = 10; range0 = 0; range1 = 0; playing = true }

rounds-IsContiguous_example : IsContiguous 0 (rounds 40 (pos 0 ∷ pos 38 ∷ pos 50 ∷ pos 3 ∷ []) url)
rounds-IsContiguous_example =
    rounds-IsContiguous 40 (pos 0 ∷ pos 38 ∷ pos 50 ∷ pos 3 ∷ []) url (omega arith) refl
