-- ===== src/Connect.antt =====
-- The start of requests in quic_probe/src/connection_establisher.c, with find_connection of
-- connection_params.c and parse_url of address_finder.c. The queue of requests, the queue of free
-- ports and the lists of connections and streams are lists of what they hold. The regex of
-- parse_url, the name resolution and the socket are the parameter `Network`. `none` is a fault: the
-- texts of a report are freed twice. Clocks, messages and the calls of lsquic are left out; the
-- callbacks of the `lsquic_engine_process_conns` within quic_connect are among those that come after
-- the handler.
pub mod Slots
mod Sharing
pub mod Creation
pub mod Tracked
mod Tests
use thesis_share.Base.{
  ◌>>=◌, ℕ, zero, suc, ◌+◌, ◌-◌, ◌≤◌, ◌%◌, ◌^◌, ◌≡◌, Bool, true, false, not, ◌&&◌, ◌||◌, Option,
  none, some, List, [], ◌∷◌, ◌++◌, ◌==◌, if◌then◌else◌, length, take, drop,
}
use thesis_share.HttpHeader.{Text}
use thesis_share.Arguments.{text_eq}
use thesis_share.StreamRead.{ClientCode}

pub record Network : Type 0 where
  -- Group 1 of the pattern for a host name, in the text.
  pub host_group : Text → Option (ℕ × ℕ)
  -- Whether `get_sockaddr` finds an address, and `open_socket` binds the port (0 for any).
  pub resolves : Text → Bool
  pub binds : ℕ → Bool

pub record ParsedUrl : Type 0 where
  pub hostname : Text
  pub path : Text

-- `struct stream_parameters`, as far as the engine uses it: `data_pointer` is the output of a
-- request, by the request's number. The flags are set anew when lsquic has made the stream.
pub record Stream : Type 0 where
  pub path : Text
  pub data_pointer : Option ℕ
  pub is_created : Bool
  pub is_header_sent : Bool
  pub is_read : Bool

pub record Connection : Type 0 where
  pub hostname : Text
  pub stream_list : List Stream
  pub port_number : Option ℕ

pub record QueuedRequest : Type 0 where
  pub request : ℕ
  pub final_url : Text

-- What is posted on the output stack: the result of a request, or an error of the engine.
pub data Output : Type 0 where
  stream_output : (request : ℕ) → ClientCode → Output
  engine_error : ClientCode → Output

-- The fields of the engine, the oldest request and port and the latest output first, with the
-- number of breaks of the event loop.
pub record Engine : Type 0 where
  pub connections : List Connection
  pub request_queue : List QueuedRequest
  pub free_ports_queue : List ℕ
  pub is_one_conn_per_stream : Bool
  pub reading_streams_count : ℕ
  pub is_closed : Bool
  pub output_stack : List Output
  pub loopbreaks : ℕ

unfoldable pub charge_request : QueuedRequest → Engine → Engine
charge_request queued engine = record engine { request_queue = engine.request_queue ++ queued ∷ [] }

-- `report_engine_error`, which destroys the texts of its report. `report_engine_error_with_report`
-- destroys them again after it, which is a fault: where that is called, `none` is returned.
unfoldable pub report_engine_error : ClientCode → Engine → Engine
report_engine_error code engine = record engine {
  output_stack = engine_error code ∷ engine.output_stack;
  is_closed = true;
  loopbreaks = engine.loopbreaks + 1;
}

-- Whether the loop of `find_connection` stops at a connection.
pub fits_connection : Text → Bool → Connection → Bool
unfolding text_eq
fits_connection hostname is_dedicated_stream c =
    text_eq hostname c.hostname && (length c.stream_list == 0 || not is_dedicated_stream)

-- The number of the first connection that fits.
unfoldable pub find_connection : List Connection → Text → Bool → Option ℕ
unfolding fits_connection
find_connection [] hostname is_dedicated_stream = none
find_connection (c ∷ cs) hostname is_dedicated_stream =
    let rest = find_connection cs hostname is_dedicated_stream in
    if fits_connection hostname is_dedicated_stream c
    then some 0
    else (elim rest [ none ↦ none | some i ↦ some (suc i) ])

-- `create_connection_stream` with `prepare_stream_output`.
unfoldable pub create_connection_stream : ParsedUrl → ℕ → Stream
create_connection_stream parsed_url request = record {
  path = parsed_url.path;
  data_pointer = some request;
  is_created = false;
  is_header_sent = false;
  is_read = false;
}

-- `insert_list_element(connection->stream_list, 0, stream)` for connection number `i`.
unfoldable pub insert_stream : ℕ → Stream → List Connection → List Connection
insert_stream i stream [] = []
insert_stream zero stream (c ∷ cs) = record c { stream_list = stream ∷ c.stream_list } ∷ cs
insert_stream (suc i) stream (c ∷ cs) = c ∷ insert_stream i stream cs

unfoldable pub count_stream : Engine → Engine
count_stream engine = record engine {
  reading_streams_count = (engine.reading_streams_count + 1) % 2 ^ 32;
}

-- The connection to a host, at the port that it has got.
unfoldable pub connection_at : Text → Option ℕ × Engine → Connection × Engine
connection_at hostname (port, e) =
    (record { hostname = hostname; stream_list = []; port_number = port }, e)

-- A stream that joins connection number `i`.
unfoldable pub join_connection : ℕ → Stream → Engine → Bool × Engine
unfolding insert_stream count_stream
join_connection i stream engine =
    (true, count_stream (record engine { connections = insert_stream i stream engine.connections }))

-- A stream that joins a new connection, inserted at the front.
unfoldable pub join_new : Stream → Connection × Engine → Bool × Engine
unfolding join_connection
join_new stream (c, e) = join_connection 0 stream (record e { connections = c ∷ e.connections })

module _ (network : Network) where
  unfoldable pub parse_url : Text → Option ParsedUrl
  parse_url url = elim (network.host_group url) [
    | none ↦ none
    | some (so, eo) ↦ some (record { hostname = take (eo - so) (drop so url); path = drop eo url })
  ]

  -- The port of a new connection, if one is asked for, and the engine. A socket that is not opened
  -- is reported with the report that was made of it.
  unfoldable pub occupy_port : Engine → Option (Option ℕ × Engine)
  occupy_port engine = elim engine.free_ports_queue [
    | [] ↦ if network.binds 0 then some (none, engine) else none
    | port ∷ ports ↦
        if network.binds port
        then some (some port, record engine { free_ports_queue = ports })
        else none
  ]

  -- A host that is not found is reported the same way.
  unfoldable pub create_connection : ParsedUrl → Engine → Option (Connection × Engine)
  unfolding occupy_port connection_at
  create_connection parsed_url engine =
      let occupied = occupy_port engine in
      if network.resolves parsed_url.hostname
      then (do made ← occupied; some (connection_at parsed_url.hostname made))
      else none

  -- A parsed request: its stream joins a connection that fits, or a new one at the front.
  unfoldable pub connect_stream : ParsedUrl → ℕ → Engine → Option (Bool × Engine)
  unfolding create_connection_stream find_connection join_connection join_new create_connection
  connect_stream parsed_url request engine =
      let stream : Stream = create_connection_stream parsed_url request in
      elim (find_connection engine.connections parsed_url.hostname engine.is_one_conn_per_stream) [
        | some i ↦ some (join_connection i stream engine)
        | none ↦ do made ← create_connection parsed_url engine; some (join_new stream made)
      ]

  -- Whether the request has got a stream, and the engine.
  unfoldable pub quic_connect : ℕ → Text → Engine → Option (Bool × Engine)
  unfolding parse_url connect_stream
  quic_connect request url engine =
      if engine.is_closed then some (false, engine) else (elim (parse_url url) [
        | none ↦ some (false, engine)
        | some parsed_url ↦ connect_stream parsed_url request engine
      ])

  -- The loop of `connect_event_handler` over the requests that are queued.
  unfoldable pub connect_all : List QueuedRequest → Engine → Option Engine
  unfolding quic_connect
  connect_all [] engine = some engine
  connect_all (queued ∷ rest) engine = do
    (joined, e) ← quic_connect queued.request queued.final_url engine
    connect_all rest e

  unfoldable pub connect_event_handler : Engine → Option Engine
  unfolding connect_all
  connect_event_handler engine =
      connect_all engine.request_queue (record engine { request_queue = [] })
