-- ===== src/Download.antt =====
-- youtube_test/src/download_ops.c: which byte ranges of the streams are requested, and when a
-- stream has ended. The playout length of a stream, in seconds, is a function of its number. Urls
-- are left out of the requests, and byte positions stay below 2^63.
mod Coverage
mod Tests
use thesis_share.Base.{
  ℕ, zero, suc, ◌+◌, ◌-◌, ◌*◌, ◌/◌, ◌%◌, ◌^◌, Bool, true, false, not, ◌&&◌, Option, none, some,
  List, [], ◌∷◌, ltb, leb, ◌==◌, if◌then◌else◌,
}
use thesis_share.Arguments.{len_chunk_minimum}
use thesis_share.Base.Int.{ℤ, pos, ◌-ℤ◌, ltb_ℤ, leb_ℤ}

abbrev pub len_chunk_fetch : ℕ
len_chunk_fetch = 1

-- The first and the last byte to be fetched.
pub record VideoUrl : Type 0 where
  pub bitrate : ℕ
  pub range0 : ℕ
  pub range1 : ℕ
  pub playing : Bool

-- A request as `form_url` writes it for a `playout_buffer_seconds` above 0, which set_arguments
-- keeps at 5 at least, with the `max_size` of its progress structure.
pub record Request : Type 0 where
  pub stream : ℕ
  pub first_byte : ℕ
  pub last_byte : ℕ
  pub max_size : ℕ

unfoldable pub adjust_range : VideoUrl → VideoUrl
adjust_range url =
    if ltb 0 url.range1
    then record url { range0 = url.range1 + 1 }
    else record url { range0 = url.range1; playing = true }

-- How much is asked for, given the seconds that the playout has left.
unfoldable pub range_addition : ℕ → ℤ → VideoUrl → ℕ
range_addition playout_buffer_seconds tv_sec url =
    if leb_ℤ (pos len_chunk_minimum) (pos playout_buffer_seconds -ℤ tv_sec)
    then url.bitrate * len_chunk_minimum
    else url.bitrate * len_chunk_fetch

-- What `load_streams` asks for a stream whose range has been adjusted.
unfoldable pub load_adjusted : ℕ → ℕ → ℤ → VideoUrl → VideoUrl × Option Request
unfolding range_addition
load_adjusted playout_buffer_seconds i tv_sec url =
    if url.playing && not (ltb_ℤ (pos playout_buffer_seconds) tv_sec)
    then (
      record url { range1 = url.range1 + range_addition playout_buffer_seconds tv_sec url },
      some (record {
        stream = i;
        first_byte = url.range0;
        last_byte = url.range1 + range_addition playout_buffer_seconds tv_sec url;
        max_size = url.bitrate * len_chunk_minimum;
      }),
    )
    else (url, none)

-- One round of the loop of `load_streams`: the stream, and its request if it makes one.
unfoldable pub load_stream : ℕ → ℕ → ℤ → VideoUrl → VideoUrl × Option Request
unfolding adjust_range load_adjusted
load_stream playout_buffer_seconds i tv_sec url =
    load_adjusted playout_buffer_seconds i tv_sec (adjust_range url)

abbrev pub listed : Option Request → List Request → List Request
listed none rs = rs
listed (some r) rs = r ∷ rs

-- `load_streams` from stream `i` on: the streams, the count `run` of those that play, and the new
-- requests.
unfoldable pub load_streams : ℕ → (ℕ → ℤ) → ℕ → List VideoUrl → List VideoUrl × ℕ × List Request
unfolding load_stream
load_streams playout_buffer_seconds len_for_stream i [] = ([], 0, [])
load_streams playout_buffer_seconds len_for_stream i (url ∷ urls) =
    let (url', request) = load_stream playout_buffer_seconds i (len_for_stream i) url in
    let (urls', run, requests) = load_streams playout_buffer_seconds len_for_stream (i + 1) urls in
    (url' ∷ urls', (if url'.playing then run + 1 else run), listed request requests)

-- The part of `update_stream_progress` that ends a stream; the comparison is one of size_t.
unfoldable pub update_stream_progress : ℕ → VideoUrl → VideoUrl
update_stream_progress used_size url =
    if ltb used_size ((url.range1 + 2 ^ 64 - url.range0) % 2 ^ 64)
    then record url { playing = false }
    else url

-- `check_max_test_time`: whether it sets MAXTESTRUNTIME, at a time not before the playback began.
unfoldable pub check_max_test_time : ℕ → ℕ → Option ℕ → ℕ → Bool
check_max_test_time now stime initialprebuftime max_test_time = elim initialprebuftime [
  | none ↦ false
  | some p ↦ ltb max_test_time ((now - (stime + p)) / 1_000_000)
]
