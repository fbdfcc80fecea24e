-- ===== src/StreamWrite/Sent.antt =====
-- What the calls of the write handler come to.
use thesis_share.Base.{
  ◌>>=◌, bind-some, ℕ, zero, suc, ◌+◌, ◌≡◌, refl, ap, ◌∙◌, Bool, true, false, Option, none, some,
  [], ◌∷◌, if◌then◌else◌, arith,
}
use thesis_share.HttpHeader.{Text}
use thesis_share.Arguments.{codes}
use thesis_share.StreamRead.{Stream, OutputData, socket_fail, report_stream_error}
use thesis_share.StreamWrite.{
  Header, Sender, try_fix_empty_path, headers_arr, send_header, print_url, http_client_on_write,
  write_calls,
}

-- A stream whose output has been posted with an error.
abbrev pub failed : OutputData → Stream → Stream
failed output stream = record stream {
  posted = record output { error_code = socket_fail } ∷ stream.posted;
  data_pointer = none;
}

abbrev pub path_or_root : Text → Text
path_or_root [] = codes "/"
path_or_root (c ∷ cs) = c ∷ cs

-- The one header of a request.
abbrev pub header_of : OutputData → Sender → Header
header_of output s =
    (codes ":method", if output.header_only then codes "HEAD" else codes "GET")
    ∷ (codes ":scheme", codes "HTTP")
    ∷ (codes ":path", path_or_root s.path)
    ∷ (codes ":authority", s.hostname)
    ∷ []

fix-root : (path : Text) → try_fix_empty_path path ≡ path_or_root path
unfolding try_fix_empty_path
fix-root [] = refl
fix-root (c ∷ cs) = refl

report-failed :
    (output : OutputData) (stream : Stream)
    → stream.data_pointer ≡ some output
    → report_stream_error socket_fail stream ≡ some (tt, failed output stream)
unfolding report_stream_error
report-failed output stream there =
    ap
      (λ o. elim o [
        | none ↦ none
        | some o ↦ some (
          tt,
          record stream {
            posted = record o { error_code = socket_fail } ∷ stream.posted;
            data_pointer = none;
          },
        )
      ])
      there

-- Whether the stream wants to read after so many calls behind the first one.
abbrev pub wants : ℕ → Bool → Bool
wants zero wanted = wanted
wants (suc calls) wanted = true

wants-true : (calls : ℕ) → wants calls true ≡ true
wants-true zero = refl
wants-true (suc calls) = refl

module _ (lsquic_stream_send_headers : Header → Bool) where
  -- The stream that has been given its header.
  abbrev pub with_header : OutputData → Sender → Sender
  with_header output s = record s {
    path = path_or_root s.path;
    headers = header_of output s ∷ s.headers;
    stream =
        if lsquic_stream_send_headers (header_of output s)
        then s.stream
        else failed output s.stream;
  }

  -- The stream behind the first call and `calls` more.
  abbrev pub after_calls : OutputData → ℕ → Sender → Sender
  after_calls output calls s = record (with_header output s) {
    is_header_sent = true;
    shutdowns = s.shutdowns + calls;
    wants_read = wants calls s.wants_read;
  }

  -- Once the header has been sent, each call ends the writing and asks for what arrives.
  write_calls-sent :
      (calls : ℕ) (s : Sender)
      → s.is_header_sent ≡ true
      → write_calls lsquic_stream_send_headers false calls s
        ≡ some (record s { shutdowns = s.shutdowns + calls; wants_read = wants calls s.wants_read })
  unfolding write_calls http_client_on_write print_url
  write_calls-sent zero s sent =
      let same : s.shutdowns ≡ s.shutdowns + 0 = omega arith in
      ap (λ n. some (record s { shutdowns = n })) same
  write_calls-sent (suc calls) s sent =
      let next = record s { shutdowns = s.shutdowns + 1; wants_read = true } in
      let counted : s.shutdowns + 1 + calls ≡ s.shutdowns + suc calls = omega arith in
      bind-some (write_calls lsquic_stream_send_headers false calls)
        (ap
          (λ b. if b then some next else (do
            first ← send_header lsquic_stream_send_headers s
            some (record first { is_header_sent = true })))
          sent)
        (write_calls-sent calls next sent
          ∙ ap (λ n. some (record s { shutdowns = n; wants_read = wants calls true })) counted
          ∙ ap (λ w. some (record s { shutdowns = s.shutdowns + suc calls; wants_read = w }))
              (wants-true calls))

  send_header-first :
      (output : OutputData) (s : Sender)
      → s.stream.data_pointer ≡ some output
      → send_header lsquic_stream_send_headers s ≡ some (with_header output s)
  unfolding send_header
  send_header-first output s there =
      bind-some _ there
        (ap sending (fix-root s.path) ∙ choose (lsquic_stream_send_headers (header_of output s)))
    where
      with_path : Text → Stream → Sender
      with_path path stream = record s {
        path = path;
        headers = headers_arr output.header_only path s.hostname ∷ s.headers;
        stream = stream;
      }

      sending : Text → Option Sender
      sending path =
          if lsquic_stream_send_headers (headers_arr output.header_only path s.hostname)
          then some (with_path path s.stream)
          else (do
            (_, stream) ← report_stream_error socket_fail s.stream
            some (with_path path stream))

      choose :
          (b : Bool)
          → (if b then some (with_path (path_or_root s.path) s.stream) else (do
            (_, stream) ← report_stream_error socket_fail s.stream
            some (with_path (path_or_root s.path) stream)))
            ≡ some
                (with_path (path_or_root s.path) (if b then s.stream else failed output s.stream))
      choose true = refl
      choose false =
          bind-some (λ r. some (with_path (path_or_root s.path) r.1))
            (report-failed output s.stream there) refl

  -- From a stream that has an output and whose header has not been sent, and without `is_debug`, the
  -- first call gives lsquic one header, HEAD or GET with the path or `/`, and each further call ends
  -- the writing and asks for what arrives: no header is sent again, even if lsquic has refused it.
  -- Then the output is posted, once, with the error, and taken from the stream.
  pub write_calls-once :
      (output : OutputData) (calls : ℕ) (s : Sender)
      → s.stream.data_pointer ≡ some output
      → s.is_header_sent ≡ false
      → write_calls lsquic_stream_send_headers false (suc calls) s
        ≡ some (after_calls output calls s)
  unfolding write_calls http_client_on_write print_url
  write_calls-once output calls s there unsent =
      bind-some (write_calls lsquic_stream_send_headers false calls)
        (ap
            (λ b.
              if b then some (record s { shutdowns = s.shutdowns + 1; wants_read = true }) else (do
                first ← send_header lsquic_stream_send_headers s
                some (record first { is_header_sent = true })))
            unsent
          ∙ bind-some {A = Sender} (λ first. some (record first { is_header_sent = true }))
              (send_header-first output s there) refl)
        (write_calls-sent calls (record (with_header output s) { is_header_sent = true }) refl)
