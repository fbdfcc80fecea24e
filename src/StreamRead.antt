-- ===== src/StreamRead.antt =====
-- The reading half of quic_probe/src/connection_read_handler.c, with the error report of
-- engine_structs.c: how the bytes of one stream become a header and a body. The transport is a
-- parameter: each call of `lsquic_stream_read` is answered by a `Transport`, which is given the
-- size of the destination. A step returns `none` on a fault: an access through NULL, or a write
-- behind the end of an array.
mod Delivery
mod Phases
mod Searched
mod HeaderPhase
mod Faults
mod Tests
use thesis_share.Base.{
  ℕ, zero, suc, ◌+◌, ◌-◌, ◌*◌, ◌%◌, ◌^◌, Bool, true, false, not, ◌&&◌, ◌||◌, Option, none, some,
  List, [], ◌∷◌, ◌++◌, min, ltb, leb, ◌==◌, if◌then◌else◌, length,
}
use thesis_share.HeaderEnd.{
  Bytes, Search, found, not_found, out_of_fuel, check_end_sequence, end_header_size,
}
use thesis_share.Memory.Bytes.{read_bytes, put_bytes}
use thesis_share.HttpHeader.{Regex, Text, HeaderInfo, Result, ok, err, get_response_header}

abbrev pub max_http_header_size : ℕ
max_http_header_size = 16384

-- The codes QUIC_CLIENT_CODE_... of args_data.h.
pub data ClientCode : Type 0 where
  client_ok timeout connection_fail socket_fail buffer_overflow bad_response : ClientCode

-- `struct output_data`, as far as the read handler sets it, with the request that it points to.
pub record OutputData : Type 0 where
  pub error_code : ClientCode
  pub http_code : ℕ
  pub on_write : Bool
  pub max_write_size : ℕ
  pub header_only : Bool
  pub used_size : ℕ
  pub data_size : Option ℕ

-- `struct stream_parameters`, with the caller's buffer that `data_ref` points into, the calls of
-- `on_write` with their bytes, what it does to the engine (the results posted on the output stack,
-- the redirected requests charged, the count of streams that are read, the breaks of the event
-- loop), the number of calls of `lsquic_stream_close`, and whether `errno` is EWOULDBLOCK.
pub record Stream : Type 0 where
  pub temp_buffer : Bytes
  pub used_temp_buffer : ℕ
  pub header_info_ref : Option HeaderInfo
  pub data_pointer : Option OutputData
  pub data_ref : Option ℕ
  pub buffer_left : ℕ
  pub allocated : ℕ
  pub memory : Bytes
  pub is_read : Bool
  pub written : List Text
  pub posted : List OutputData
  pub closes : ℕ
  pub charged : List (Option Text)
  pub reading_streams_count : ℕ
  pub loopbreaks : ℕ
  pub would_block : Bool

-- What `lsquic_stream_read` answers: bytes (one at least), the end of the stream, or an error.
pub data ReadResult : Type 0 where
  bytes : ℕ → Text → ReadResult
  end_of_stream : ReadResult
  failure : (would_block : Bool) → ReadResult

abbrev pub Transport : Type 0
Transport = ℕ → ReadResult

-- An `ssize_t` that a read function returns: a size, or -1.
pub data ReadLen : Type 0 where
  len : ℕ → ReadLen
  minus_one : ReadLen

abbrev pub Step : Type 0 → Type 0
Step A = Stream → Option (A × Stream)

abbrev pub fault : {A : Type 0} → Step A
fault s = none

abbrev pub pure : {A : Type 0} → A → Step A
pure a s = some (a, s)

abbrev pub continue : {A B : Type 0} → Option (A × Stream) → (A → Step B) → Option (B × Stream)
continue none k = none
continue (some (a, s)) k = k a s

infixl 5 ◌>>=◌ ◌>>◌
abbrev pub ◌>>=◌ : {A B : Type 0} → Step A → (A → Step B) → Step B
m >>= k = λ s. continue (m s) k

abbrev pub ◌>>◌ : {B : Type 0} → Step (Unit {0}) → Step B → Step B
m >> k = m >>= λ _. k

-- The answer of `lsquic_stream_read`: 0 and -1 are returned, a chunk is worked on.
abbrev pub answered : ReadResult → (Text → Step ReadLen) → Step ReadLen
answered end_of_stream k s = some (len 0, s)
answered (failure w) k s = some (minus_one, record s { would_block = w })
answered (bytes c cs) k s = k (c ∷ cs) s

-- `report_stream_error`: it writes the error into the output, which must not be NULL, posts it and
-- takes it from the stream.
unfoldable pub report_stream_error : ClientCode → Step (Unit {0})
report_stream_error code s = elim s.data_pointer [
  | none ↦ none
  | some o ↦
      some
        (tt, record s { posted = record o { error_code = code } ∷ s.posted; data_pointer = none })
]

pub lsquic_stream_close : Step (Unit {0})
lsquic_stream_close s = some (tt, record s { closes = s.closes + 1 })

-- `destroy_report` on a report whose two texts `report_error` has destroyed: a double free.
pub destroy_report_again : Step ReadLen
destroy_report_again = fault

-- The caller's function is given the bytes of the chunk.
pub call_on_write : OutputData → Text → Stream → Stream
call_on_write o chunk s = if o.on_write then record s { written = s.written ++ chunk ∷ [] } else s

pub on_read_to_buffer : ℕ → Step ReadLen
unfolding report_stream_error lsquic_stream_close call_on_write
on_read_to_buffer added s = elim s.data_pointer [
  | none ↦ none
  | some o ↦
      let s1 = record s { data_pointer = some (record o { used_size = o.used_size + added }) } in
      elim s.data_ref [
        | none ↦ some (len added, call_on_write o (read_bytes s.temp_buffer 0 added) s1)
        | some at_byte ↦
            let s2 = call_on_write o (read_bytes s.memory at_byte added) s1 in
            let left = (s.buffer_left + 2 ^ 64 - added) % 2 ^ 64 in
            let s3 = record s2 { buffer_left = left; data_ref = some (at_byte + added) } in
            if left == 0
            then (do report_stream_error buffer_overflow; lsquic_stream_close; pure minus_one) s3
            else some (len added, s3)
      ]
]

-- `memcpy` to the caller's buffer, which has `allocated` bytes.
pub copy_to_memory : ℕ → Text → Step (Unit {0})
copy_to_memory at_byte chunk s =
    if ltb s.allocated (at_byte + length chunk)
    then none
    else some (tt, record s { memory = put_bytes s.memory at_byte chunk })

-- Bytes put into `temp_buffer`, which has MAX_HTTP_HEADER_SIZE bytes.
pub copy_to_temp : ℕ → Text → Step (Unit {0})
copy_to_temp at_byte chunk s =
    if ltb max_http_header_size (at_byte + length chunk)
    then none
    else some (tt, record s { temp_buffer = put_bytes s.temp_buffer at_byte chunk })

pub copy_header_remainder_to_buffer : ℕ → Step ReadLen
unfolding on_read_to_buffer copy_to_memory copy_to_temp
copy_header_remainder_to_buffer start s =
    let added = s.used_temp_buffer - start in
    let chunk = read_bytes s.temp_buffer start added in
    if added == 0 then some (len 0, s) else (elim s.data_ref [
      | none ↦ (do copy_to_temp 0 chunk; on_read_to_buffer added) s
      | some at_byte ↦ (do copy_to_memory at_byte chunk; on_read_to_buffer added) s
    ])

-- `has_end_code` of the loop: a header with a code other than 200 and 0.
pub has_end_code : Option HeaderInfo → Bool
has_end_code none = false
has_end_code (some info) = not (info.response_code == 200) && not (info.response_code == 0)

pub mark_read : Step (Unit {0})
mark_read s = some (tt, record s { is_read = true })

pub break_if_last : Step (Unit {0})
break_if_last s =
    some
      (tt, if s.reading_streams_count == 0 then record s { loopbreaks = s.loopbreaks + 1 } else s)

-- `post_ready_data`, for an output that is not NULL.
pub post_ready_data : OutputData → Step (Unit {0})
unfolding break_if_last
post_ready_data o s = break_if_last (record s { posted = o ∷ s.posted; data_pointer = none })

-- `strncpy` of the version to `http_header`, which has 10 bytes, copies its whole size.
pub copy_http_version : HeaderInfo → Step (Unit {0})
copy_http_version info s = if ltb 10 (length info.http_version) then none else some (tt, s)

-- `process_finished_stream`: it needs an output and a header, neither of which it tests. The clock
-- is left out, and so is the memory of the header that it frees.
pub process_finished_stream : Step (Unit {0})
unfolding post_ready_data copy_http_version report_stream_error break_if_last
process_finished_stream s = elim s.data_pointer [
  | none ↦ none
  | some o ↦
      let s1 = record s {
        reading_streams_count = (s.reading_streams_count + 2 ^ 32 - 1) % 2 ^ 32;
      } in
      elim s.header_info_ref [
        | none ↦ none
        | some info ↦
            let sized = if o.header_only then info.content_length else some o.used_size in
            let o1 = record o { data_size = sized } in
            let s2 = record s1 { data_pointer = some o1 } in
            let code = info.response_code in
            (do
              copy_http_version info
              if leb 200 code && ltb code 300
                  then post_ready_data (record o1 { error_code = client_ok })
                  else if leb 300 code && ltb code 400
                  then (λ s3. some (
                    tt,
                    record s3 { charged = info.redirect_url ∷ s3.charged; data_pointer = none },
                  ))
                  else (do report_stream_error bad_response; break_if_last))
              s2
      ]
]

-- A chunk of the body, read into `temp_buffer`.
pub read_to_temp : Transport → Step ReadLen
unfolding copy_to_temp on_read_to_buffer
read_to_temp transport s =
    answered (transport max_http_header_size)
      (λ chunk. do copy_to_temp 0 chunk; on_read_to_buffer (length chunk)) s

-- A chunk of the body, read into the caller's buffer.
pub read_to_memory : ℕ → Transport → Step ReadLen
unfolding copy_to_memory on_read_to_buffer
read_to_memory at_byte transport s = elim s.data_pointer [
  | none ↦ none
  | some o ↦
      answered (transport (min s.buffer_left o.max_write_size))
        (λ chunk. do copy_to_memory at_byte chunk; on_read_to_buffer (length chunk)) s
]

pub read_body : Transport → Step ReadLen
unfolding read_to_temp read_to_memory
read_body transport s = elim s.data_ref [
  | none ↦ read_to_temp transport s
  | some at_byte ↦ read_to_memory at_byte transport s
]

-- By the parser's result: a header is kept and, if the body is wanted, the bytes behind it go to the
-- caller.
pub on_header_parsed : OutputData → (start read_len : ℕ) → Result HeaderInfo → Step ReadLen
unfolding report_stream_error copy_header_remainder_to_buffer destroy_report_again
on_header_parsed o start read_len (err e) s =
    (do report_stream_error bad_response; destroy_report_again) s
on_header_parsed o start read_len (ok info) s =
    let s1 = record s {
      header_info_ref = some info;
      data_pointer = some (record o { http_code = info.response_code });
    } in
    if o.header_only
    then some (len read_len, s1)
    else (do _ ← copy_header_remainder_to_buffer start; pure (len read_len)) s1

module _ (regex : Regex) where
  -- What follows the end of a header: the parser is given `header_len`, which counts from the start
  -- of the searched window.
  pub on_header_ended : OutputData → (window header_len read_len : ℕ) → Step ReadLen
  unfolding on_header_parsed
  on_header_ended o window header_len read_len s =
      on_header_parsed o (window + header_len) read_len
        (get_response_header regex s.temp_buffer header_len o.header_only) s

  -- After `lsquic_stream_read` has put `chunk` behind the old bytes: the search for the end of the
  -- header in the new bytes and the last four old ones.
  pub search_header : OutputData → ℕ → Text → Step ReadLen
  unfolding on_header_ended
  search_header o prev chunk s =
      let offset = min end_header_size prev in
      let window = prev - offset in
      let s1 = record s { used_temp_buffer = prev + length chunk } in
      elim (check_end_sequence (λ i. s.temp_buffer (window + i)) (length chunk + offset)) [
        | found header_len ↦ on_header_ended o window header_len (length chunk) s1
        | not_found ↦ some (len (length chunk), s1)
        | out_of_fuel ↦ none
      ]

  pub receive_header : Transport → OutputData → Step ReadLen
  unfolding copy_to_temp search_header
  receive_header transport o s =
      answered (transport (min (max_http_header_size - s.used_temp_buffer) o.max_write_size))
        (λ chunk. do
          copy_to_temp s.used_temp_buffer chunk
          search_header o s.used_temp_buffer chunk)
        s

  pub read_header : Transport → Step ReadLen
  unfolding report_stream_error lsquic_stream_close receive_header
  read_header transport s =
      if leb max_http_header_size s.used_temp_buffer
      then (do report_stream_error buffer_overflow; lsquic_stream_close; pure minus_one) s
      else (elim s.data_pointer [ none ↦ none | some o ↦ receive_header transport o s ])

  pub read_data : Transport → Step ReadLen
  unfolding read_header read_body
  read_data transport s = elim s.header_info_ref [
    | none ↦ read_header transport s
    | some info ↦ read_body transport s
  ]

  -- The `do ... while` loop, over the answers of the transport; when there are no more, it answers
  -- that a read would block.
  pub read_loop : List Transport → Step ReadLen
  unfolding read_data has_end_code
  read_loop [] s = read_data (λ _. failure true) s
  read_loop (t ∷ ts) s = elim (read_data t s) [
    | none ↦ none
    | some (minus_one, s1) ↦ some (minus_one, s1)
    | some (len n, s1) ↦
        let rest = read_loop ts s1 in
        if n == 0 || has_end_code s1.header_info_ref then some (len n, s1) else rest
  ]

  pub http_client_on_read : List Transport → Step (Unit {0})
  unfolding read_loop report_stream_error mark_read lsquic_stream_close process_finished_stream
  http_client_on_read ts s = elim s.data_pointer [
    | none ↦ some (tt, s)
    | some o ↦ elim (read_loop ts s) [
      | none ↦ none
      | some (minus_one, s1) ↦
          if s1.would_block
          then some (tt, s1)
          else (do report_stream_error connection_fail; mark_read; lsquic_stream_close) s1
      | some (len n, s1) ↦ (do mark_read; lsquic_stream_close; process_finished_stream) s1
    ]
  ]
