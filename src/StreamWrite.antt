-- ===== src/StreamWrite.antt =====
-- quic_probe/src/connection_write_handler.c: the header of a request. The stream is the one of
-- `StreamRead`, with what the write handler keeps beside. lsquic_stream_send_headers is a parameter:
-- whether it takes a header. `none` is a fault, an access through NULL.
mod Sent
mod Tests
use thesis_share.Base.{
  ◌>>=◌, ℕ, zero, suc, ◌+◌, Bool, true, false, Option, none, some, List, [], ◌∷◌, ◌==◌,
  if◌then◌else◌, length,
}
use thesis_share.HttpHeader.{Text}
use thesis_share.Arguments.{codes}
use thesis_share.StreamRead.{Stream, socket_fail, report_stream_error}

-- A header field: name and value.
abbrev pub Header : Type 0
Header = List (Text × Text)

-- `path` and the hostname of the connection, whether the header has been sent, the headers that have
-- been given to lsquic, the latest first, the calls of lsquic_stream_shutdown, and whether the
-- stream wants to read.
pub record Sender : Type 0 where
  pub path : Text
  pub hostname : Text
  pub is_header_sent : Bool
  pub stream : Stream
  pub headers : List Header
  pub shutdowns : ℕ
  pub wants_read : Bool

pub try_fix_empty_path : Text → Text
try_fix_empty_path [] = codes "/"
try_fix_empty_path (c ∷ cs) = c ∷ cs

abbrev pub method : Bool → Text
method header_only = if header_only then codes "HEAD" else codes "GET"

abbrev pub headers_arr : Bool → Text → Text → Header
headers_arr header_only path hostname =
    (codes ":method", method header_only)
    ∷ (codes ":scheme", codes "HTTP")
    ∷ (codes ":path", path)
    ∷ (codes ":authority", hostname)
    ∷ []

module _ (lsquic_stream_send_headers : Header → Bool) where
  pub send_header : Sender → Option Sender
  unfolding try_fix_empty_path report_stream_error
  send_header s = do
    output ← s.stream.data_pointer
    (let path = try_fix_empty_path s.path in
        let header = headers_arr output.header_only path s.hostname in
        let sent = record s { path = path; headers = header ∷ s.headers } in
        if lsquic_stream_send_headers header then some sent else (do
          (_, stream) ← report_stream_error socket_fail s.stream
          some (record sent { stream = stream })))

  -- The printing of the url with `is_debug`.
  pub print_url : Bool → Sender → Option (Unit {0})
  print_url true s = do output ← s.stream.data_pointer; some tt
  print_url false s = some tt

  pub http_client_on_write : Bool → Sender → Option Sender
  unfolding print_url send_header
  http_client_on_write is_debug s = do
    _ ← print_url is_debug s
    (if s.is_header_sent
        then some (record s { shutdowns = s.shutdowns + 1; wants_read = true })
        else (do sent ← send_header s; some (record sent { is_header_sent = true })))

  -- So many calls of the handler, one after the other.
  pub write_calls : Bool → ℕ → Sender → Option Sender
  unfolding http_client_on_write
  write_calls is_debug zero s = some s
  write_calls is_debug (suc calls) s = do
    s' ← http_client_on_write is_debug s
    write_calls is_debug calls s'
