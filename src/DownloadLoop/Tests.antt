-- ===== src/DownloadLoop/Tests.antt =====
-- One stream, whose second answer is short.
use thesis_share.Base.{◌≡◌, ◌≢◌, ◌∷◌, ℕ, refl, some, none, Bool, true, false, [], List}
use thesis_share.Base.Int.{pos}
use thesis_share.Choice.{itworked}
use thesis_share.DownloadLoop.{Answer, State, Round, find_request_index, downloadfiles}
use thesis_share.DownloadLoop.Finished.{IsEnded, downloadfiles-IsEnded}

abbrev state : State
state = record {
  urls = record { bitrate = 10; range0 = 0; range1 = 0; playing = false } ∷ [];
  totals = record { totalbytes = pos 0; downloadtime = pos 0; connection_time = pos 0 } ∷ [];
  errorcode = 0;
  last_http_code = 0;
}

abbrev answer : ℕ → Answer
answer used_size = record {
  request = 7;
  error_code = 0;
  http_code = 200;
  used_size = used_size;
  download_time = 1000;
  connection_time = 500;
}

abbrev round : List Answer → Round
round answers = record {
  len_for_stream = λ i. pos 0;
  start_fails = false;
  answers = answers;
  now = 2000;
  initialprebuftime = none;
}

abbrev rounds : List Round
rounds = round (answer 50 ∷ []) ∷ round (answer 3 ∷ []) ∷ round [] ∷ []

downloadfiles-IsEnded_example :
    (left : Bool) × (s' : State) × (downloadfiles (7 ∷ []) (pos 0) 0 60 40 rounds state
      ≡ some (left, s'))
    × (left ≡ true → s'.errorcode ≢ 0)
    × (left ≡ true → s'.errorcode ≡ itworked → IsEnded s'.urls)
unfolding find_request_index
downloadfiles-IsEnded_example =
    downloadfiles-IsEnded (7 ∷ []) (pos 0) 0 60 40 rounds state refl
      (((0, refl), tt), (((0, refl), tt), (tt, tt)))
