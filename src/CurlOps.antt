-- ===== src/CurlOps.antt =====
-- The download over curl, youtube_tcp_test/src/curlops.c: downloadfiles with what it calls, and
-- getfilesize. What curl, select, the playout and the clock answer in a round is a `Turn`; times are
-- in microseconds. `none` is a fault: memory or a handle of curl is used or released after its
-- release. Coroutines, the
-- options of a handle, printing, the address of the server and the time of TLS are left out.
pub mod Loop
mod Released
mod Loading
pub mod FileSize
mod Tests
use thesis_share.Base.{
  ◌>>=◌, ℕ, zero, suc, ◌+◌, Bool, true, false, not, ◌&&◌, ◌||◌, Option, none, some, List, [], ◌∷◌,
  ◌==◌, if◌then◌else◌, length, get_elem?, leb,
}
use thesis_share.Base.Int.{ℤ, pos, negsuc, ◌+ℤ◌, ◌-ℤ◌, ltb_ℤ, eqb_ℤ}
use thesis_share.Choice.{itworked}
use thesis_share.Download.{VideoUrl, load_stream, check_max_test_time}
use thesis_share.DownloadLoop.{Totals, change_at, maxtestruntime}

abbrev pub codetrouble : ℕ
codetrouble = 606

abbrev pub curlerror : ℕ
curlerror = 610

abbrev pub curlerror_getinfo : ℕ
curlerror_getinfo = 611

-- An entry of `http_handle`: NULL, or the address of a handle that is open or has been released.
pub data Handle : Type 0 where
  null : Handle
  open_at : ℕ → Handle
  closed_at : ℕ → Handle

-- What curl_easy_getinfo answers for a handle, `none` for an error, which it always is for NULL.
pub record CurlInfo : Type 0 where
  pub size_download : Option ℕ
  pub total_time : Option ℕ
  pub starttransfer_time : Option ℕ
  pub connect_time : Option ℕ
  pub namelookup_time : Option ℕ
  pub response_code : Option ℕ

abbrev pub no_info : CurlInfo
no_info = record {
  size_download = none;
  total_time = none;
  starttransfer_time = none;
  connect_time = none;
  namelookup_time = none;
  response_code = none;
}

-- `initialize_curl_handle`: the address of the new handle, if there is one, and whether it could be
-- added to the transfers.
pub record Initialized : Type 0 where
  pub handle : Option ℕ
  pub is_added : Bool

-- A round of the loop in `process_running`: whether the file descriptors can be prepared, whether
-- curl_multi_perform succeeds, the handles of the transfers that are done, and the clock.
pub record Running : Type 0 where
  pub prepared : Bool
  pub performed : Bool
  pub done : List ℕ
  pub now : ℕ

-- A round of the loop in `downloadfiles`, with the rounds of `process_running`: transfers are still
-- running after each but the last.
pub record Turn : Type 0 where
  pub len_for_stream : ℕ → ℤ
  pub initialized : ℕ → Initialized
  pub performed : Bool
  pub running : List Running
  pub last_running : Running

-- The streams and totals of `metric`, and what the download holds: the handles, whether the multi
-- handle and `prog` are there, and the open handles that nothing points to any more.
pub record Curl : Type 0 where
  pub urls : List VideoUrl
  pub totals : List Totals
  pub errorcode : ℕ
  pub run : ℕ
  pub http_handle : List Handle
  pub multi_handle : Bool
  pub prog : Bool
  pub leaked : ℕ

is_minus_one : ℤ → Bool
is_minus_one n = eqb_ℤ n (negsuc 0)

-- A total, increased by an answer; -1 stands for an error, and stays.
pub add_answer : Option ℤ → ℤ → ℤ
unfolding is_minus_one
add_answer none total = negsuc 0
add_answer (some n) total = if is_minus_one total then negsuc 0 else total +ℤ n

-- The difference of two answers.
unfoldable pub difference : Option ℕ → Option ℕ → Option ℤ
difference (some a) (some b) = some (pos a -ℤ pos b)
difference (some a) none = none
difference none b = none

unfoldable pub connected : Option ℤ → ℤ
connected none = negsuc 0
connected (some n) = n

as_total : Option ℕ → Option ℤ
as_total none = none
as_total (some n) = some (pos n)

pub update_curl_progress : CurlInfo → Totals → Totals
unfolding add_answer difference connected as_total
update_curl_progress info t = record t {
  totalbytes = add_answer (as_total info.size_download) t.totalbytes;
  downloadtime = add_answer (difference info.total_time info.starttransfer_time) t.downloadtime;
  connection_time =
      if eqb_ℤ t.connection_time (pos 0)
      then connected (difference info.connect_time info.namelookup_time)
      else t.connection_time;
}

-- `curl_easy_cleanup`
pub curl_easy_cleanup : Handle → Option Handle
curl_easy_cleanup null = some null
curl_easy_cleanup (open_at a) = some (closed_at a)
curl_easy_cleanup (closed_at a) = none

pub is_playing : ℕ → List VideoUrl → Bool
is_playing j urls = elim (get_elem? urls j) [ none ↦ false | some url ↦ url.playing ]

-- The error code that the response code of a stream that played to the end gives.
pub code_of_response : Option ℕ → ℕ
code_of_response none = codetrouble
code_of_response (some code) = if code == 200 then 0 else (if code == 0 then curlerror else code)

-- `initialize_curl_handle` at an entry of `http_handle`: its answer, the entry, and the handles
-- that are open without a pointer to them. The old handle is only removed from the transfers.
pub replace_handle : Option ℕ → Handle → Option (Handle × ℕ)
replace_handle none (closed_at a) = none
replace_handle none null = some (null, 0)
replace_handle none (open_at a) = some (open_at a, 0)
replace_handle (some b) (closed_at a) = none
replace_handle (some b) null = some (open_at b, 0)
replace_handle (some b) (open_at a) = some (open_at b, 1)

pub is_initialized : Initialized → Bool
is_initialized answer = elim answer.handle [ none ↦ false | some a ↦ answer.is_added ]

pub initialize_curl_handle : Initialized → ℕ → Curl → Option (Bool × Curl)
unfolding replace_handle is_initialized
initialize_curl_handle answer i s =
    if s.prog && s.multi_handle
    then (do
      handle ← get_elem? s.http_handle i
      (new, leaked) ← replace_handle answer.handle handle
      some (
        is_initialized answer,
        record s { http_handle = change_at i (λ _. new) s.http_handle; leaked = s.leaked + leaked },
      ))
    else none

pub is_request : {A : Type 0} → Option A → Bool
is_request none = false
is_request (some r) = true

pub find_handler_index : ℕ → ℕ → List Handle → Option ℕ
find_handler_index easy_handle idx [] = none
find_handler_index easy_handle idx (null ∷ handles) =
    find_handler_index easy_handle (idx + 1) handles
find_handler_index easy_handle idx (open_at a ∷ handles) =
    let rest = find_handler_index easy_handle (idx + 1) handles in
    if easy_handle == a then some idx else rest
find_handler_index easy_handle idx (closed_at a ∷ handles) =
    let rest = find_handler_index easy_handle (idx + 1) handles in
    if easy_handle == a then some idx else rest

pub stop : VideoUrl → VideoUrl
stop url = record url { playing = false }

-- The end of `update_stream_progress`, with the size that has been downloaded.
pub check_size : ℕ → Option ℕ → Curl → Curl
unfolding stop
check_size idx none s = record s { urls = change_at idx stop s.urls; errorcode = curlerror_getinfo }
check_size idx (some bytes_now) s = record s {
  urls =
      change_at idx
        (λ url. if ltb_ℤ (pos bytes_now) (pos url.range1 -ℤ pos url.range0) then stop url else url)
        s.urls;
}

-- The answers for the handle at an address.
module _ (info : ℕ → CurlInfo) where
  pub info_of : Handle → CurlInfo
  info_of null = no_info
  info_of (open_at a) = info a
  info_of (closed_at a) = info a

  -- The totals with the answer for the handle of a stream.
  pub count_progress : ℕ → Handle → Curl → Curl
  unfolding update_curl_progress info_of
  count_progress j handle s = record s {
    totals = change_at j (update_curl_progress (info_of handle)) s.totals;
  }

  -- The body of the loop in `my_curl_cleanup`, but for the release of the handle.
  pub report_stream : ℕ → ℕ → Handle → Curl → Curl
  unfolding count_progress code_of_response is_playing
  report_stream code j handle s =
      let counted = if is_playing j s.urls then count_progress j handle s else s in
      if (code == itworked) && is_playing j s.urls && (s.errorcode == 0)
      then record counted { errorcode = code_of_response (info_of handle).response_code }
      else counted

  -- The loop in `my_curl_cleanup` from stream `j` on, over the handles from there.
  pub close_streams : ℕ → ℕ → ℕ → List Handle → Curl → Option (List Handle × Curl)
  unfolding report_stream curl_easy_cleanup
  close_streams code zero j handles s = some (handles, s)
  close_streams code (suc num) j [] s = none
  close_streams code (suc num) j (handle ∷ handles) s = do
    closed ← curl_easy_cleanup handle
    (rest, s') ← close_streams code num (j + 1) handles (report_stream code j handle s)
    some (closed ∷ rest, s')

  pub my_curl_cleanup : ℕ → ℕ → Curl → Option Curl
  unfolding close_streams
  my_curl_cleanup num code s =
      if s.prog && s.multi_handle
      then (do
        (handles, s') ← close_streams code num 0 s.http_handle s
        some (record s' {
          http_handle = handles;
          multi_handle = false;
          prog = false;
          errorcode = if s'.errorcode == 0 then code else s'.errorcode;
        }))
      else none

  -- `report_curl_error` and the same call after an error of select.
  pub report_curl_error : Curl → Option Curl
  unfolding my_curl_cleanup
  report_curl_error s = my_curl_cleanup (length s.urls) curlerror s

  -- The rest of the body of the loop in `load_streams`, for the stream that has been loaded and
  -- whether it makes a request.
  pub start_stream : Turn → ℕ → Bool → Curl → Option Curl
  unfolding initialize_curl_handle my_curl_cleanup
  start_stream turn i false s = some s
  start_stream turn i true s = do
    (is_ready, s') ← initialize_curl_handle (turn.initialized i) i s
    if is_ready then some s' else my_curl_cleanup i curlerror s'

  pub update_stream_progress : ℕ → Handle → Curl → Curl
  unfolding count_progress is_playing check_size
  update_stream_progress idx handle s =
      check_size idx (info_of handle).size_download
        (if is_playing idx s.urls then count_progress idx handle s else s)

  -- The message of a transfer that is done.
  pub read_message : ℕ → Option ℕ → Curl → Curl
  unfolding update_stream_progress
  read_message easy_handle none s = s
  read_message easy_handle (some idx) s = update_stream_progress idx (open_at easy_handle) s

  pub read_messages : List ℕ → Curl → Curl
  unfolding find_handler_index read_message
  read_messages [] s = s
  read_messages (easy_handle ∷ done) s =
      read_messages done
        (read_message easy_handle (find_handler_index easy_handle 0 s.http_handle) s)

-- The size of the playout buffer.
module _ (info : ℕ → CurlInfo) (playout_buffer_seconds : ℕ) where
  -- The loop in `load_streams`, over the streams from `i` on, which follow the ones before.
  pub load_streams : Turn → ℕ → List VideoUrl → Curl → Option Curl
  unfolding load_stream start_stream is_request
  load_streams turn i [] s = some s
  load_streams turn i (url ∷ urls) s =
      let (loaded, request) = load_stream playout_buffer_seconds i (turn.len_for_stream i) url in
      (do
        s' ← start_stream info turn i (is_request request) (record s {
          urls = change_at i (λ _. loaded) s.urls;
          run = if loaded.playing then s.run + 1 else s.run;
        })
        load_streams turn (i + 1) urls s')

-- The start of the download and the longest time of a test.
module _ (stime max_test_time : ℕ) where
  pub check_time : Option ℕ → ℕ → Curl → Curl
  unfolding check_max_test_time
  check_time prebuf now s =
      if check_max_test_time now stime prebuf max_test_time
      then record s { errorcode = maxtestruntime }
      else s
