-- ===== src/StreamRead/Faults.antt =====
-- The end of a read of a stream: what `http_client_on_read` comes to on an early end of the stream,
-- on an overlong header and on a read error.
use thesis_share.Base.{
  ℕ, ◌+◌, ◌-◌, ◌≤◌, ◌<◌, ◌≡◌, ◌⊎◌, refl, inl, inr, Bool, true, false, none, some, List, [], ◌∷◌,
  ◌&&◌, arith, min, ltb, leb, ◌==◌, ◌%◌, ◌^◌, length, Bool-cases, if◌then◌else◌,
}
use thesis_share.HttpHeader.{Regex, HeaderInfo}
use thesis_share.StreamRead.{
  ClientCode, Stream, OutputData, Transport, end_of_stream, failure, connection_fail, client_ok,
  bad_response, max_http_header_size, process_finished_stream, report_stream_error, mark_read,
  lsquic_stream_close, receive_header, read_header, read_data, read_loop, http_client_on_read,
  post_ready_data, copy_http_version, break_if_last,
}

-- A stream that ends while its header is incomplete, with room left in `temp_buffer`, is a fault of `http_client_on_read`: the
-- finished stream is taken to have a header.
pub http_client_on_read-early_end :
    (regex : Regex) (s : Stream) (o : OutputData) (t : Transport) (ts : List Transport)
    → s.header_info_ref ≡ none
    → s.data_pointer ≡ some o
    → s.used_temp_buffer < max_http_header_size
    → t (min (max_http_header_size - s.used_temp_buffer) o.max_write_size) ≡ end_of_stream
    → http_client_on_read regex (t ∷ ts) s ≡ none
unfolding http_client_on_read read_loop read_data read_header receive_header process_finished_stream
    mark_read lsquic_stream_close
http_client_on_read-early_end regex s o t ts headless pointed room ends = ground arith

-- A header that fills `temp_buffer` is a fault, when `errno` is not EWOULDBLOCK: the stream's error
-- is reported once by the read, and once more when the read has failed.
pub http_client_on_read-overlong_header :
    (regex : Regex) (s : Stream) (o : OutputData) (ts : List Transport)
    → s.header_info_ref ≡ none
    → s.data_pointer ≡ some o
    → max_http_header_size ≤ s.used_temp_buffer
    → s.would_block ≡ false
    → http_client_on_read regex ts s ≡ none
unfolding http_client_on_read read_loop read_data read_header report_stream_error
    lsquic_stream_close mark_read
http_client_on_read-overlong_header regex s o [] headless pointed full errno = ground arith
http_client_on_read-overlong_header regex s o (t ∷ ts) headless pointed full errno = ground arith

-- An error of the transport while the header is read, other than that it would block, reports the
-- stream as failed once, and marks and closes it, but leaves it in the count of streams that are
-- read.
pub http_client_on_read-failure :
    (regex : Regex) (s : Stream) (o : OutputData) (t : Transport) (ts : List Transport)
    → s.header_info_ref ≡ none
    → s.data_pointer ≡ some o
    → s.used_temp_buffer < max_http_header_size
    → t (min (max_http_header_size - s.used_temp_buffer) o.max_write_size) ≡ failure false
    → (s' : Stream) × (http_client_on_read regex (t ∷ ts) s ≡ some (tt, s'))
      × (s'.posted ≡ record o { error_code = connection_fail } ∷ s.posted)
      × (s'.data_pointer ≡ none)
      × (s'.is_read ≡ true)
      × (s'.closes ≡ s.closes + 1)
      × (s'.reading_streams_count ≡ s.reading_streams_count)
unfolding http_client_on_read read_loop read_data read_header receive_header report_stream_error
    lsquic_stream_close mark_read
http_client_on_read-failure regex s o t ts headless pointed room fails = (
  record s {
    would_block = false;
    posted = record o { error_code = connection_fail } ∷ s.posted;
    data_pointer = none;
    is_read = true;
    closes = s.closes + 1;
  },
  ground arith,
  refl,
  refl,
  refl,
  refl,
  refl,
)

-- The error code that a finished stream is posted with, unless it is redirected.
abbrev pub final_code : ℕ → ℕ → Bool
final_code lo code = leb lo code && ltb code (lo + 100)

-- A stream that is read to its end, with a version that fits into its 10 bytes and counted among
-- the streams that are read, leaves the count, and ends in exactly one way: its output is posted
-- with its size, as good for a code 2xx and as a bad response for other codes, or for a code 3xx
-- its redirection is charged. The loop is left when the last stream is posted, but not when it is
-- redirected.
pub process_finished_stream-once :
    (s : Stream) (o : OutputData) (info : HeaderInfo)
    → s.data_pointer ≡ some o
    → s.header_info_ref ≡ some info
    → length info.http_version ≤ 10
    → 0 < s.reading_streams_count
    → s.reading_streams_count < 2 ^ 32
    → (s' : Stream) × (process_finished_stream s ≡ some (tt, s'))
      × (s'.data_pointer ≡ none)
      × (s'.reading_streams_count ≡ s.reading_streams_count - 1)
      × ((final_code 300 info.response_code ≡ true)
            × (s'.charged ≡ info.redirect_url ∷ s.charged)
            × (s'.posted ≡ s.posted)
            × (s'.loopbreaks ≡ s.loopbreaks)
          ⊎ (final_code 300 info.response_code ≡ false)
            × (s'.charged ≡ s.charged)
            × ((o' : OutputData) × (s'.posted ≡ o' ∷ s.posted)
                × (o'.data_size ≡ (if o.header_only then info.content_length else some o.used_size))
                × (o'.error_code
                    ≡ (if final_code 200 info.response_code then client_ok else bad_response)))
            × (s'.loopbreaks
                ≡ (if s.reading_streams_count == 1 then s.loopbreaks + 1 else s.loopbreaks)))
unfolding process_finished_stream post_ready_data copy_http_version break_if_last
    report_stream_error
process_finished_stream-once s o info pointed header fits counted small =
    elim (Bool-cases (final_code 300 info.response_code)) [
      | inl redirected ↦ (
        record left { charged = info.redirect_url ∷ s.charged },
        ground arith,
        refl,
        one_less,
        inl (redirected, refl, refl, refl),
      )
      | inr final ↦ (
        ended (if final_code 200 info.response_code then client_ok else bad_response),
        ground arith,
        refl,
        one_less,
        inr (final, refl, (_, refl, refl, refl), refl),
      )
    ]
  where
    count : ℕ
    count = (s.reading_streams_count + 2 ^ 32 - 1) % 2 ^ 32

    one_less : count ≡ s.reading_streams_count - 1
    one_less = ground arith

    left : Stream
    left = record s { reading_streams_count = count; data_pointer = none }

    ended : ClientCode → Stream
    ended code = record left {
      posted =
          record o {
            error_code = code;
            data_size = if o.header_only then info.content_length else some o.used_size;
          }
          ∷ s.posted;
      loopbreaks = if s.reading_streams_count == 1 then s.loopbreaks + 1 else s.loopbreaks;
    }
