-- ===== src/Events.antt =====
-- The events of the engine of quic_probe/src: the callbacks of connection_init_handler.c and the
-- timeout of event_handlers.c, on the engine of `Connect`. A stream is named by the number of its
-- connection and its place in the list of streams. What the read handler does to the engine is a
-- `ReadEffect`. `none` is a fault: an access through NULL or through a pointer that has not been set,
-- or one of the faults of the read handler. An exception is the write to the freed stream at the end
-- of `http_client_on_stream_close`, which is left out.
pub mod Tracking
mod Steps
pub mod Callbacks
pub mod TimedOut
pub mod Timeout
mod Unmade
mod Tests
use thesis_share.Base.{
  ◌>>=◌, ℕ, zero, suc, ◌+◌, ◌-◌, ◌%◌, ◌^◌, Bool, true, false, not, ◌&&◌, Option, none, some, List,
  [], ◌∷◌, ◌++◌, ◌==◌, if◌then◌else◌, length,
}
use thesis_share.StreamRead.{
  ClientCode, client_ok, timeout, connection_fail, bad_response, buffer_overflow,
}
use thesis_share.Connect.Slots.{
  get_stream, remove_stream, set_stream, get_connection, set_streams, remove_connection,
}
use thesis_share.Connect.{
  Network, Stream, Connection, QueuedRequest, Engine, Output, stream_output, engine_error,
  report_engine_error, charge_request, connect_event_handler,
}

-- `reading_streams_count--` on a uint.
unfoldable pub uncount_stream : Engine → Engine
uncount_stream engine = record engine {
  reading_streams_count = (engine.reading_streams_count + 2 ^ 32 - 1) % 2 ^ 32;
}

unfoldable pub break_if_last : Engine → Engine
break_if_last engine =
    if engine.reading_streams_count == 0
    then record engine { loopbreaks = engine.loopbreaks + 1 }
    else engine

-- `report_stream_error`: the output of the stream, which must not be NULL, is posted and taken.
unfoldable pub report_stream_error : ClientCode → Stream → Engine → Option (Stream × Engine)
report_stream_error code s engine = elim s.data_pointer [
  | none ↦ none
  | some request ↦ some (
    record s { data_pointer = none },
    record engine { output_stack = stream_output request code ∷ engine.output_stack },
  )
]

-- `find_not_created_stream_parameters`.
unfoldable pub find_not_created : List Stream → Option ℕ
find_not_created [] = none
find_not_created (s ∷ ss) =
    let rest = find_not_created ss in
    if s.is_created then (elim rest [ none ↦ none | some j ↦ some (suc j) ]) else some 0

-- The stream that lsquic has made becomes that of the first parameters that have none; there must
-- be such parameters.
unfoldable pub http_client_on_new_stream : ℕ → Engine → Option Engine
unfolding get_connection find_not_created get_stream set_streams set_stream
http_client_on_new_stream i engine = do
  c ← get_connection i engine.connections
  j ← find_not_created c.stream_list
  s ← get_stream j c.stream_list
  some (record engine {
    connections =
        set_streams i
          (set_stream j (record s { is_created = true; is_header_sent = false; is_read = false })
            c.stream_list)
          engine.connections;
  })

-- What a call of `http_client_on_read` does to the engine: it keeps reading; it finishes, with a
-- code of the response and, for a redirection, the new url; it meets a read error; the output
-- buffer overflows, and errno tells of a read that would block; or it is a fault, as for a response
-- that ends within its header, and a header that is too long or that the parser rejects.
pub data ReadEffect : Type 0 where
  keeps_reading : ReadEffect
  delivers : ClientCode → ReadEffect
  redirects : List ℕ → ReadEffect
  fails : ReadEffect
  overflows : ReadEffect
  faults : ReadEffect

-- The stream afterwards and the engine, without its connections.
unfoldable pub apply_effect : ReadEffect → Stream → Engine → Option (Stream × Engine)
unfolding report_stream_error uncount_stream break_if_last charge_request
apply_effect keeps_reading s engine = some (s, engine)
apply_effect (delivers code) s engine = do
  (s', e) ← report_stream_error code s (uncount_stream engine)
  some (record s' { is_read = true }, break_if_last e)
apply_effect (redirects url) s engine = do
  request ← s.data_pointer
  some (
    record s { data_pointer = none; is_read = true },
    charge_request (record { request = request; final_url = url }) (uncount_stream engine),
  )
apply_effect fails s engine = do
  (s', e) ← report_stream_error connection_fail s engine
  some (record s' { is_read = true }, e)
apply_effect overflows s engine = report_stream_error buffer_overflow s engine
apply_effect faults s engine = none

-- `http_client_on_read`, which returns at once for a stream without an output.
unfoldable pub http_client_on_read : ℕ → ℕ → ReadEffect → Engine → Option Engine
unfolding get_connection get_stream apply_effect set_streams set_stream
http_client_on_read i j effect engine = do
  c ← get_connection i engine.connections
  s ← get_stream j c.stream_list
  elim s.data_pointer [
    | none ↦ some engine
    | some request ↦ do
      (s', e) ← apply_effect effect s engine
      some (record e { connections = set_streams i (set_stream j s' c.stream_list) e.connections })
  ]

-- The part of `http_client_on_stream_close` for a stream that has not been read.
unfoldable pub close_unread : Stream → Engine → Option Engine
unfolding report_stream_error uncount_stream break_if_last
close_unread s engine = if s.is_read then some engine else (do
  (s', e) ← report_stream_error connection_fail s engine
  some (break_if_last (uncount_stream e)))

unfoldable pub http_client_on_stream_close : ℕ → ℕ → Engine → Option Engine
unfolding get_connection get_stream close_unread set_streams remove_stream
http_client_on_stream_close i j engine = do
  c ← get_connection i engine.connections
  s ← get_stream j c.stream_list
  e ← close_unread s engine
  some (record e { connections = set_streams i (remove_stream j c.stream_list) e.connections })

abbrev pub returned_port : Option ℕ → List ℕ
returned_port none = []
returned_port (some port) = port ∷ []

-- The port, if one was asked for, is free again. What is left in the list of streams is freed.
unfoldable pub http_client_on_conn_closed : ℕ → Engine → Option Engine
unfolding get_connection remove_connection
http_client_on_conn_closed i engine = do
  c ← get_connection i engine.connections
  some (record engine {
    connections = remove_connection i engine.connections;
    free_ports_queue = engine.free_ports_queue ++ returned_port c.port_number;
  })

pub http_client_on_connection_handshake : Bool → Engine → Engine
unfolding report_engine_error
http_client_on_connection_handshake ok engine =
    if ok then engine else report_engine_error connection_fail engine

-- The loop of `run_connection_streams_timeout`. It reports each stream, also one whose output is
-- NULL, and closes its lsquic stream, which must have been made.
pub time_out_streams : List Stream → Engine → Option (List Stream × Engine)
unfolding report_stream_error uncount_stream
time_out_streams [] engine = some ([], engine)
time_out_streams (s ∷ ss) engine = do
  (s', e) ← report_stream_error timeout s engine
  (ss', e') ← time_out_streams ss (uncount_stream e)
  if s.is_created then some (record s' { is_read = true } ∷ ss', e') else none

-- `run_timeout`.
pub time_out_connections : List Connection → Engine → Option (List Connection × Engine)
unfolding time_out_streams
time_out_connections [] engine = some ([], engine)
time_out_connections (c ∷ cs) engine = do
  (ss, e) ← time_out_streams c.stream_list engine
  (cs', e') ← time_out_connections cs e
  some (record c { stream_list = ss } ∷ cs', e')

pub on_timeout : Engine → Option Engine
unfolding time_out_connections
on_timeout engine = if engine.reading_streams_count == 0 then some engine else (do
  (cs, e) ← time_out_connections engine.connections engine
  some (record e { connections = cs }))

-- The callbacks of lsquic.
pub data Callback : Type 0 where
  new_stream : (i : ℕ) → Callback
  read : (i j : ℕ) → ReadEffect → Callback
  stream_close : (i j : ℕ) → Callback
  conn_closed : (i : ℕ) → Callback
  handshake : (ok : Bool) → Callback

unfoldable pub callback : Callback → Engine → Option Engine
unfolding http_client_on_new_stream http_client_on_read http_client_on_stream_close
    http_client_on_conn_closed http_client_on_connection_handshake
callback (new_stream i) engine = http_client_on_new_stream i engine
callback (read i j effect) engine = http_client_on_read i j effect engine
callback (stream_close i j) engine = http_client_on_stream_close i j engine
callback (conn_closed i) engine = http_client_on_conn_closed i engine
callback (handshake ok) engine = some (http_client_on_connection_handshake ok engine)

-- `lsquic_engine_process_conns`, as the callbacks that it makes.
unfoldable pub process_conns : List Callback → Engine → Option Engine
unfolding callback
process_conns [] engine = some engine
process_conns (cb ∷ cbs) engine = do e ← callback cb engine; process_conns cbs e

-- The loop for streams that are counted and have no connection: `count` rounds.
pub time_out_rest : ℕ → Engine → Engine
unfolding report_engine_error uncount_stream
time_out_rest zero engine = engine
time_out_rest (suc count) engine =
    time_out_rest count (uncount_stream (report_engine_error timeout engine))

-- `timer_handler`.
unfoldable pub timer_handler : List Callback → Engine → Option Engine
unfolding on_timeout process_conns time_out_rest
timer_handler cbs engine = do
  e ← on_timeout (record engine { loopbreaks = engine.loopbreaks + 1 })
  e' ← process_conns cbs e
  if length e'.output_stack == 0 then some (time_out_rest e'.reading_streams_count e') else some e'
