-- ===== src/StreamRead/Searched.antt =====
-- What follows the search for the header end in what has been received.
use mathlib.Core.Path.{ap₂}
use thesis_share.Base.{
  subst, ℕ, ◌+◌, ◌-◌, ◌≤◌, ◌≡◌, refl, ap, sym, ◌∙◌, Option, false, none, some, [], ◌∷◌, ◌++◌, arith,
  length, length-append, take, drop, take-length, if◌then◌else◌,
}
use thesis_share.HeaderEnd.{Bytes, Search, found, not_found, out_of_fuel}
use thesis_share.HeaderEnd.First.{Occurs, IsFirstEnd}
use thesis_share.HeaderEnd.Window.{shifted}
use thesis_share.Memory.Bytes.{
  read_bytes, put_bytes, read_bytes-put, read_bytes-append, drop-read_bytes, put_bytes-before,
  read_bytes-cong,
}
use thesis_share.HttpHeader.{
  Regex, Text, HeaderInfo, ParseError, Result, ok, err, get_response_header,
}
use thesis_share.StreamRead.{
  Stream, ReadLen, len, continue, max_http_header_size, copy_header_remainder_to_buffer,
  bad_response, on_header_parsed, report_stream_error, destroy_report_again, on_header_ended,
}
use thesis_share.StreamRead.Delivery.{
  joined, IsStreaming, InHeader, InBody, continue-some, remainder-written,
}

-- `image` shows `all` that has been received, and its first header end stands `p` bytes behind
-- `start`.
pub record EndsAt (image : Bytes) (all : Text) (start p : ℕ) : Type 0 where
  pub shown : read_bytes image 0 (length all) ≡ all
  pub first_end : IsFirstEnd image (length all) (found (start + p))

-- What a read of `chunk` after `received` comes to, if the search for the header end begins at
-- `start`: there is none yet; or the parser, which is given the bytes from 0 on and as size the place
-- of the header end behind `start`, accepts the header, which is then that of the stream; or it
-- rejects it, and the read is a fault.
pub data ReadOutcome (regex : Regex) (start : ℕ) (received chunk : Text)
    (run : Option (ReadLen × Stream)) : Type 0 where
  waits :
      (s' : Stream)
      → run ≡ some (len (length chunk), s')
      → IsStreaming s'
      → InHeader s' (received ++ chunk)
      → ReadOutcome regex start received chunk run
  accepted :
      (image : Bytes) (p : ℕ) (info : HeaderInfo) (s' : Stream)
      → EndsAt image (received ++ chunk) start p
      → get_response_header regex image p false ≡ ok info
      → run ≡ some (len (length chunk), s')
      → IsStreaming s'
      → s'.header_info_ref ≡ some info
      → InBody s' (received ++ chunk)
      → ReadOutcome regex start received chunk run
  rejected :
      (image : Bytes) (p : ℕ) (e : ParseError)
      → EndsAt image (received ++ chunk) start p
      → get_response_header regex image p false ≡ err e
      → run ≡ none
      → ReadOutcome regex start received chunk run

pub appended_kept :
    (b : Bytes) (received chunk : Text)
    → read_bytes b 0 (length received) ≡ received
    → read_bytes (put_bytes b (length received) chunk) 0 (length received + length chunk)
      ≡ received ++ chunk
appended_kept b received chunk kept =
    read_bytes-append (put_bytes b (length received) chunk) 0 (length received) (length chunk)
    ∙ ap₂ ◌++◌
        (read_bytes-cong (put_bytes b (length received) chunk) b 0 (length received)
            (λ i l h. put_bytes-before b (length received) chunk i (omega arith))
          ∙ kept)
        (ap (λ k. read_bytes (put_bytes b (length received) chunk) k (length chunk)) (omega arith)
          ∙ read_bytes-put b (length received) chunk)

pub not_yet :
    (b : Bytes) (n : ℕ) (chunk : Text)
    → ((t : ℕ) → ¬ Occurs b n t)
    → (t : ℕ) → ¬ Occurs (put_bytes b n chunk) n t
not_yet b n chunk old t o =
    old t (o.0, λ j h. sym (put_bytes-before b n chunk (t + j) (omega (arith, o.0))) ∙ o.1 j h)

-- After the chunk is in place and counted: what the search of the window comes to.
module _ (regex : Regex) (s : Stream) (received chunk : Text) (is : IsStreaming s) (w : ℕ)
    (counted : s.used_temp_buffer ≡ length received + length chunk)
    (fits : s.used_temp_buffer ≤ max_http_header_size)
    (kept : read_bytes s.temp_buffer 0 (length received + length chunk) ≡ received ++ chunk)
    (unwritten : s.written ≡ []) where
  pointed_at : HeaderInfo → Stream
  pointed_at info = record s {
    header_info_ref = some info;
    data_pointer = some (record is.output { http_code = info.response_code });
  }

  still_streaming : (info : HeaderInfo) → IsStreaming (pointed_at info)
  unfolding pointed_at
  still_streaming info = record {
    output = record is.output { http_code = info.response_code };
    no_buffer = is.no_buffer;
    pointed = refl;
    has_on_write = is.has_on_write;
    wants_body = is.wants_body;
  }

  parsed_by :
      (p : ℕ) (r : Result HeaderInfo)
      → get_response_header regex s.temp_buffer p false ≡ r
      → on_header_parsed is.output
          (w + p)
          (length chunk)
          (get_response_header regex s.temp_buffer p is.output.header_only)
          s
        ≡ on_header_parsed is.output (w + p) (length chunk) r s
  parsed_by p r e =
      ap
        (λ b.
          on_header_parsed is.output (w + p) (length chunk)
            (get_response_header regex s.temp_buffer p b) s)
        is.wants_body
      ∙ ap (λ r. on_header_parsed is.output (w + p) (length chunk) r s) e

  ends_at :
      (p : ℕ)
      → IsFirstEnd s.temp_buffer (length received + length chunk) (found (w + p))
      → EndsAt s.temp_buffer (received ++ chunk) w p
  ends_at p first =
      let all : length (received ++ chunk) ≡ length received + length chunk =
        length-append received chunk in
      record {
        shown = ap (read_bytes s.temp_buffer 0) all ∙ kept;
        first_end = subst (λ n. IsFirstEnd s.temp_buffer n (found (w + p))) (sym all) first;
      }

  header_accepted :
      (p : ℕ) (info : HeaderInfo)
      → IsFirstEnd s.temp_buffer (length received + length chunk) (found (w + p))
      → get_response_header regex s.temp_buffer p false ≡ ok info
      → ReadOutcome regex w received chunk (
          on_header_parsed is.output
            (w + p)
            (length chunk)
            (get_response_header regex s.temp_buffer p is.output.header_only)
            s)
  unfolding on_header_parsed pointed_at
  header_accepted p info first parsed =
      let (r, s', run, is', header, wrote) =
        remainder-written (pointed_at info) (w + p) (still_streaming info) fits in
      let all : length (received ++ chunk) ≡ length received + length chunk =
        length-append received chunk in
      accepted s.temp_buffer p info s' (ends_at p first) parsed
        (parsed_by p (ok info) parsed
          ∙ ap
              (λ b.
                if b
                then some (len (length chunk), pointed_at info)
                else continue (copy_header_remainder_to_buffer (w + p) (pointed_at info))
                    (λ _ s2. some (len (length chunk), s2)))
              is.wants_body
          ∙ continue-some (λ _ s2. some (len (length chunk), s2)) run refl)
        is' header
        (record {
          header = info;
          has_header = header;
          image = s.temp_buffer;
          seen = length received + length chunk;
          header_end = w + p;
          enough = omega (arith, all);
          shown =
              kept
              ∙ sym (take-length (received ++ chunk))
              ∙ ap (λ n. take n (received ++ chunk)) all;
          first_end = first;
          handed_on =
              wrote
              ∙ ap₂ (λ xs n. joined xs ++ read_bytes s.temp_buffer (w + p) (n - (w + p))) unwritten
                  counted
              ∙ ap (λ k. read_bytes s.temp_buffer k (length received + length chunk - (w + p)))
                  {y = 0 + (w + p)} (omega arith)
              ∙ sym (drop-read_bytes s.temp_buffer 0 (length received + length chunk) (w + p))
              ∙ ap (drop (w + p)) kept;
        })

  header_rejected :
      (p : ℕ) (e : ParseError)
      → IsFirstEnd s.temp_buffer (length received + length chunk) (found (w + p))
      → get_response_header regex s.temp_buffer p false ≡ err e
      → ReadOutcome regex w received chunk (
          on_header_parsed is.output
            (w + p)
            (length chunk)
            (get_response_header regex s.temp_buffer p is.output.header_only)
            s)
  unfolding on_header_parsed report_stream_error destroy_report_again
  header_rejected p e first parsed = rejected s.temp_buffer p e (ends_at p first) parsed (
      parsed_by p (err e) parsed
      ∙ ap
          (λ o.
            continue
              (elim o as (λ _. Option (Unit {0} × Stream)) [
                | none ↦ none
                | some o ↦ some (
                  tt,
                  record s {
                    posted = record o { error_code = bad_response } ∷ s.posted;
                    data_pointer = none;
                  },
                )
              ])
              (λ _. destroy_report_again))
          is.pointed)

  pub searched :
      (r : Search)
      → IsFirstEnd s.temp_buffer (length received + length chunk) (shifted w r)
      → s.header_info_ref ≡ none
      → ReadOutcome regex w received chunk (elim r as (λ _. Option (ReadLen × Stream)) [
        | found p ↦ on_header_ended regex is.output w p (length chunk) s
        | not_found ↦ some (len (length chunk), s)
        | out_of_fuel ↦ none
      ])
  unfolding on_header_ended
  searched (found p) first headless =
      parse p first (get_response_header regex s.temp_buffer p false) refl
    where
      parse :
          (p : ℕ)
          → IsFirstEnd s.temp_buffer (length received + length chunk) (found (w + p))
          → (r : Result HeaderInfo) → get_response_header regex s.temp_buffer p false ≡ r
          → ReadOutcome regex w received chunk (
              on_header_parsed is.output
                (w + p)
                (length chunk)
                (get_response_header regex s.temp_buffer p is.output.header_only)
                s)
      parse p first (ok info) e = header_accepted p info first e
      parse p first (err e) parsed = header_rejected p e first parsed
  searched not_found first headless =
      let all : length (received ++ chunk) ≡ length received + length chunk =
        length-append received chunk in
      waits s refl is (
        (record {
          no_header = headless;
          used = counted ∙ sym all;
          kept = ap (read_bytes s.temp_buffer 0) all ∙ kept;
          open_end = rw all first;
          unwritten = unwritten;
        }))
  searched out_of_fuel first headless = absurd first
