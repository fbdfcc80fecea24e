-- ===== src/DownloadLoop.antt =====
-- The loop of youtube_test/src/download_ops.c: downloadfiles with process_outputs and what it calls,
-- on the streams of `Download`. A request is known by the address of its url text. What the client,
-- the playout and the clock answer in a round is a `Round`. `none` is a fault: an access before the
-- start of an array. Times are in microseconds.
mod Answers
mod Finished
mod Tests
use thesis_share.Base.{
  ◌>>=◌, ℕ, zero, suc, ◌+◌, Bool, true, false, ◌&&◌, Option, none, some, List, [], ◌∷◌, ◌==◌,
  if◌then◌else◌, length, ltb, get_elem?,
}
use thesis_share.Base.Int.{ℤ, pos, negsuc, ◌+ℤ◌, ltb_ℤ}
use thesis_share.Choice.{itworked}
use thesis_share.Download.{VideoUrl, load_streams, update_stream_progress, check_max_test_time}

abbrev pub maxtestruntime : ℕ
maxtestruntime = 604

abbrev pub lsquic_engine_error : ℕ
lsquic_engine_error = 610

abbrev pub lsquic_timeout_error : ℕ
lsquic_timeout_error = 612

abbrev pub quic_client_code_timeout : ℕ
quic_client_code_timeout = 101

-- The fields of an output that are read; `request` is the address of its url text.
pub record Answer : Type 0 where
  pub request : ℕ
  pub error_code : ℕ
  pub http_code : ℕ
  pub used_size : ℕ
  pub download_time : ℕ
  pub connection_time : ℕ

-- What `metric` keeps for a stream.
pub record Totals : Type 0 where
  pub totalbytes : ℤ
  pub downloadtime : ℤ
  pub connection_time : ℤ

pub record State : Type 0 where
  pub urls : List VideoUrl
  pub totals : List Totals
  pub errorcode : ℕ
  pub last_http_code : ℕ

-- The outputs that `get_download_result` returns before NULL, the playout of each stream, whether
-- `start_downloading` fails, and the clock.
pub record Round : Type 0 where
  pub len_for_stream : ℕ → ℤ
  pub start_fails : Bool
  pub answers : List Answer
  pub now : ℕ
  pub initialprebuftime : Option ℕ

-- An element of an array, changed.
unfoldable pub change_at : {A : Type 0} → ℕ → (A → A) → List A → List A
change_at i f [] = []
change_at zero f (x ∷ xs) = f x ∷ xs
change_at (suc i) f (x ∷ xs) = x ∷ change_at i f xs

abbrev is_zero : ℤ → Bool
is_zero (pos n) = n == 0
is_zero (negsuc n) = false

pub put_error_metrics : Totals → Totals
put_error_metrics t = record t {
  totalbytes = negsuc 0;
  downloadtime = negsuc 0;
  connection_time = if is_zero t.connection_time then negsuc 0 else t.connection_time;
}

-- `process_output`, without what it copies for the report.
pub process_output : Answer → Totals → Totals
process_output answer t = record t {
  totalbytes = t.totalbytes +ℤ pos answer.used_size;
  downloadtime = t.downloadtime +ℤ pos answer.download_time;
  connection_time =
      if is_zero t.connection_time then pos answer.connection_time else t.connection_time;
}

-- `find_request_index` in the requests from number `i` on.
pub find_request_index : ℕ → List ℕ → ℕ → Option ℕ
find_request_index i [] request = none
find_request_index i (r ∷ requests) request =
    let rest = find_request_index (i + 1) requests request in if request == r then some i else rest

-- `check_errors`: -1, or `none` where the function ends without a value.
pub check_errors : Answer → ℕ → State → Option ℤ × State
unfolding change_at put_error_metrics
check_errors answer idx s = if answer.error_code == 0 then (none, s) else (
  some (negsuc 0),
  record s {
    errorcode =
        if answer.error_code == quic_client_code_timeout
        then lsquic_timeout_error
        else lsquic_engine_error;
    totals = change_at idx put_error_metrics s.totals;
  },
)

-- `update_stream_progress` on stream `idx` and its totals, which count the answer if the stream
-- plays on.
pub update_stream : Answer → ℕ → State → ℤ × State
unfolding change_at process_output update_stream_progress
update_stream answer idx s =
    let s' = record s { urls = change_at idx (update_stream_progress answer.used_size) s.urls } in
    elim (get_elem? s'.urls idx) [
      | none ↦ (pos 0, s')
      | some url ↦
          if url.playing
          then (pos 1, record s' { totals = change_at idx (process_output answer) s'.totals })
          else (pos 0, s')
    ]

-- `cleanup_download_loop` as it is called, for the error code.
pub cleanup_download_loop : State → State
cleanup_download_loop s = if s.errorcode == 0 then record s { errorcode = itworked } else s

-- The addresses of the url texts of the requests, the value that is read where `check_errors`
-- returns none, the start of the download, and the command line.
module _ (requests : List ℕ) (unset : ℤ) (stime max_test_time playout_buffer_seconds : ℕ) where
  pub value_of : Option ℤ → ℤ
  value_of none = unset
  value_of (some status) = status

  -- The body of the loop over the outputs.
  pub process_answer : Answer → State → Option (ℤ × State)
  unfolding find_request_index check_errors value_of update_stream
  process_answer answer s = do
    idx ← find_request_index 0 requests answer.request
    (let (status, checked) =
          check_errors answer idx (record s { last_http_code = answer.http_code }) in
        if ltb_ℤ (value_of status) (pos 0)
        then some (value_of status, checked)
        else some (update_stream answer idx checked))

  pub process_answers : List Answer → State → Option (ℤ × State)
  unfolding process_answer
  process_answers [] s = some (pos 0, s)
  process_answers (answer ∷ answers) s = do
    (status, s') ← process_answer answer s
    (let rest = process_answers answers s' in
        if ltb_ℤ status (pos 0) then some (status, s') else rest)

  -- The end of `process_outputs`.
  pub check_round : Round → State → ℤ × State
  unfolding check_max_test_time
  check_round round s =
      let timed =
        if check_max_test_time round.now stime round.initialprebuftime max_test_time
        then record s { errorcode = maxtestruntime }
        else s in
      if timed.errorcode == 0 then (pos 0, timed) else (negsuc 0, timed)

  pub process_outputs : Round → State → Option (ℤ × State)
  unfolding process_answers check_round
  process_outputs round s = do
    (status, s') ←
        process_answers round.answers
          (if length round.answers == 0 then record s { errorcode = lsquic_engine_error } else s)
    if ltb_ℤ status (pos 0) then some (status, s') else some (check_round round s')

  -- The loop of `downloadfiles`: whether it has been left, and the state.
  pub download_loop : List Round → State → Option (Bool × State)
  unfolding load_streams process_outputs
  download_loop [] s = some (false, s)
  download_loop (round ∷ rounds) s =
      let (urls, run, new_requests) =
        load_streams playout_buffer_seconds round.len_for_stream 0 s.urls in
      let loaded = record s { urls = urls } in
      if run == 0
      then some (true, loaded)
      else (if ltb 0 (length new_requests) && round.start_fails
          then some (true, record loaded { errorcode = lsquic_engine_error })
          else (do
            (status, s') ← process_outputs round loaded
            (let rest = download_loop rounds s' in
                if ltb_ℤ status (pos 0) then some (true, s') else rest)))

  -- `downloadfiles` over so many rounds, and whether it has returned.
  pub downloadfiles : List Round → State → Option (Bool × State)
  unfolding download_loop cleanup_download_loop
  downloadfiles rounds s = do
    (ended, s') ← download_loop rounds (record s { errorcode = 0; last_http_code = 0 })
    if ended then some (true, cleanup_download_loop s') else some (false, s')
