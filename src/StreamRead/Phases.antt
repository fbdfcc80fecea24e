-- ===== src/StreamRead/Phases.antt =====
-- One read of a response without a caller's buffer, while its header is received and after it.
use thesis_share.Base.{
  ℕ, ◌≤◌, ◌≡◌, refl, ap, sym, ◌∙◌, Option, none, some, ◌∷◌, ◌++◌, arith, length, length-append,
  take-append_of_le, drop-append_of_le,
}
use thesis_share.HeaderEnd.{Bytes, found}
use thesis_share.HeaderEnd.First.{IsFirstEnd}
use thesis_share.HttpHeader.{Regex, Text, HeaderInfo}
use thesis_share.StreamRead.{
  Stream, Transport, ReadLen, bytes, len, max_http_header_size, on_read_to_buffer, copy_to_temp,
  ◌>>◌, answered, read_to_temp, read_to_memory, read_header, read_body, read_data,
}
use thesis_share.StreamRead.Delivery.{Obeys, IsStreaming, InBody, chunk-written}

-- `read_data`, before the header is complete.
pub read_data-header :
    (regex : Regex) (t : Transport) (s : Stream)
    → s.header_info_ref ≡ none
    → read_data regex t s ≡ read_header regex t s
unfolding read_data
read_data-header regex t s e =
    ap
      (λ h. elim h as (λ _. Option (ReadLen × Stream)) [
        | none ↦ read_header regex t s
        | some info ↦ read_body t s
      ])
      e

-- `read_data` behind the header, without a caller's buffer.
pub read_data-read_to_temp :
    (regex : Regex) (t : Transport) (s : Stream) (info : HeaderInfo)
    → s.header_info_ref ≡ some info
    → s.data_ref ≡ none
    → read_data regex t s ≡ read_to_temp t s
unfolding read_data read_body
read_data-read_to_temp regex t s info e unbuffered =
    ap
      (λ h. elim h as (λ _. Option (ReadLen × Stream)) [
        | none ↦ read_header regex t s
        | some info ↦ read_body t s
      ])
      e
    ∙ ap
        (λ d. elim d as (λ _. Option (ReadLen × Stream)) [
          | none ↦ read_to_temp t s
          | some at_byte ↦ read_to_memory at_byte t s
        ])
        unbuffered

IsFirstEnd-le : (d : Bytes) (n e : ℕ) {m : ℕ} → n ≤ m → IsFirstEnd d n (found e) → e ≤ m
IsFirstEnd-le d n e h (s, ends, o, first) = omega (arith, o.0)

-- For a request without a buffer of its own, with a function to write to, that wants the body: a
-- read behind the header, by a transport that gives bytes and no more than
-- asked for, returns the chunk's size and writes all its bytes behind those already written, so
-- that what is written stays all that was received behind the first header end.
pub read_data-body :
    (regex : Regex) (s : Stream) (received : Text) (t : Transport) (c : ℕ) (cs : Text)
    → IsStreaming s
    → InBody s received
    → Obeys t
    → t max_http_header_size ≡ bytes c cs
    → (s' : Stream) × (read_data regex t s ≡ some (len (length (c ∷ cs)), s'))
      × IsStreaming s'
      × InBody s' (received ++ c ∷ cs)
unfolding read_to_temp
read_data-body regex s received t c cs is body obeys answer =
    let chunk = c ∷ cs in
    let (s', run, is', kept, wrote) =
      chunk-written s chunk (length chunk) refl is (obeys max_http_header_size c cs answer) in
    (
      s',
      read_data-read_to_temp regex t s body.header body.has_header is.no_buffer
          ∙ ap
              (λ r.
                answered r (λ chunk. do copy_to_temp 0 chunk; on_read_to_buffer (length chunk)) s)
              answer
          ∙ run,
      is',
      record {
        header = body.header;
        has_header = kept ∙ body.has_header;
        image = body.image;
        seen = body.seen;
        header_end = body.header_end;
        enough = omega (arith, body.enough, length-append received chunk);
        shown = body.shown ∙ sym (take-append_of_le body.seen received chunk body.enough);
        first_end = body.first_end;
        handed_on =
            wrote
            ∙ ap (λ x. x ++ chunk) body.handed_on
            ∙ sym (
                drop-append_of_le body.header_end received chunk
                  (IsFirstEnd-le body.image body.seen body.header_end body.enough body.first_end));
      },
    )
