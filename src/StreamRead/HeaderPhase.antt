-- ===== src/StreamRead/HeaderPhase.antt =====
-- One read of a response without a caller's buffer, while its header is not yet complete.
use mathlib.Core.Path.{subst}
use thesis_share.Base.{
  ℕ, ◌+◌, ◌-◌, ◌≤◌, ◌<◌, ◌≡◌, refl, ap, sym, ◌∙◌, Option, false, none, some, ◌∷◌, arith, min,
  length, if◌then◌else◌,
}
use thesis_share.HeaderEnd.{check_end_sequence, end_header_size}
use thesis_share.HeaderEnd.Window.{window-IsFirstEnd}
use thesis_share.Memory.Bytes.{put_bytes}
use thesis_share.HttpHeader.{Regex, Text}
use thesis_share.StreamRead.{
  Stream, OutputData, Transport, ReadLen, bytes, minus_one, Step, max_http_header_size,
  buffer_overflow, pure, lsquic_stream_close, receive_header, report_stream_error, search_header,
  read_header, read_data, ◌>>◌, answered, copy_to_temp,
}
use thesis_share.StreamRead.Delivery.{
  Obeys, IsStreaming, InHeader, continue-some, copy_to_temp-some,
}
use thesis_share.StreamRead.Phases.{read_data-header}
use thesis_share.StreamRead.Searched.{ReadOutcome, appended_kept, not_yet, searched}

-- `read_header`, with room in `temp_buffer` and an output.
read_header-receive :
    (regex : Regex) (t : Transport) (s : Stream) (o : OutputData)
    → s.used_temp_buffer < max_http_header_size
    → s.data_pointer ≡ some o
    → read_header regex t s ≡ receive_header regex t o s
unfolding read_header
read_header-receive regex t s o room pointed =
    ap (λ b. if b then overflow else go) {y = false} (ground arith)
    ∙ ap
        (λ d. elim d as (λ _. Option (ReadLen × Stream)) [
          | none ↦ none
          | some o ↦ receive_header regex t o s
        ])
        pointed
  where
    overflow : Option (ReadLen × Stream)
    overflow = (do report_stream_error buffer_overflow; lsquic_stream_close; pure minus_one) s

    go : Option (ReadLen × Stream)
    go = elim s.data_pointer [ none ↦ none | some o ↦ receive_header regex t o s ]

-- `receive_header`, when the transport answers `chunk`: the search of the bytes put behind.
receive_header-search :
    (regex : Regex) (t : Transport) (s : Stream) (o : OutputData) (n c : ℕ) (cs : Text)
    → s.used_temp_buffer ≡ n
    → n + length (c ∷ cs) ≤ max_http_header_size
    → t (min (max_http_header_size - n) o.max_write_size) ≡ bytes c cs
    → receive_header regex t o s
      ≡ search_header regex o n
          (c ∷ cs)
          (record s { temp_buffer = put_bytes s.temp_buffer n (c ∷ cs) })
unfolding receive_header
receive_header-search regex t s o n c cs used fits answer =
    ap (λ k. answered (t (min (max_http_header_size - k) o.max_write_size)) (work k) s) used
    ∙ ap (λ r. answered r (work n) s) answer
    ∙ continue-some (λ _. search_header regex o n (c ∷ cs)) (copy_to_temp-some s n (c ∷ cs) fits)
        refl
  where
    work : ℕ → Text → Step ReadLen
    work k chunk = do copy_to_temp k chunk; search_header regex o k chunk

-- For a request without a buffer of its own, with a function to write to, that wants the body: a
-- read while the header is incomplete, with room left in `temp_buffer` and a transport that gives
-- bytes and no more than asked for. If there is still no header end in all that is received, it is
-- kept, and the read returns the size of the chunk. Otherwise the header is parsed, with the place
-- of the first header end as the size, but counted from where the search has begun, which is
-- `end_header_size` before the chunk or at the start. If the parser accepts it, the stream keeps what
-- it gives, all that stands behind the first header end has been written, wherever the reads have
-- cut the header and the body, and the read returns the size of the chunk. If the parser rejects it,
-- the read is a fault.
pub read_data-header_phase :
    (regex : Regex) (s : Stream) (received : Text) (t : Transport) (c : ℕ) (cs : Text)
    → (is : IsStreaming s) → InHeader s received
    → length received < max_http_header_size
    → Obeys t
    → t (min (max_http_header_size - length received) is.output.max_write_size) ≡ bytes c cs
    → ReadOutcome regex
        (length received - min end_header_size (length received))
        received
        (c ∷ cs)
        (read_data regex t s)
unfolding search_header
read_data-header_phase regex s received t c cs is ph room obeys answer =
    let n = length received in
    let chunk = c ∷ cs in
    let fits : n + length chunk ≤ max_http_header_size =
      omega (arith, obeys (min (max_http_header_size - n) is.output.max_write_size) c cs answer) in
    subst (ReadOutcome regex (n - min end_header_size n) received chunk)
      (sym (
        read_data-header regex t s ph.no_header
        ∙ read_header-receive regex t s is.output (rw ph.used room) is.pointed
        ∙ receive_header-search regex t s is.output n c cs ph.used fits answer))
      (searched regex (s2 chunk) received chunk (is2 chunk) (n - min end_header_size n) refl fits
        (appended_kept s.temp_buffer received chunk ph.kept) ph.unwritten
        (check_end_sequence (λ i. put_bytes s.temp_buffer n chunk (n - min end_header_size n + i))
          (length chunk + min end_header_size n))
        (window-IsFirstEnd (put_bytes s.temp_buffer n chunk) n (length chunk)
          (not_yet s.temp_buffer n chunk ph.open_end))
        ph.no_header)
  where
    s2 : Text → Stream
    s2 chunk = record s {
      temp_buffer = put_bytes s.temp_buffer (length received) chunk;
      used_temp_buffer = length received + length chunk;
    }

    is2 : (chunk : Text) → IsStreaming (s2 chunk)
    is2 chunk = record {
      output = is.output;
      no_buffer = is.no_buffer;
      pointed = is.pointed;
      has_on_write = is.has_on_write;
      wants_body = is.wants_body;
    }
