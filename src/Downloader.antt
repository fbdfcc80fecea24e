-- ===== src/Downloader.antt =====
-- The library's entry points of quic_probe/src: start_downloading and get_download_result of
-- quic_downloader.c and init_engine of quic_engine_holder.c, with the events that libevent
-- dispatches as an explicit sequence. `none` is a fault.
mod Life
mod Tests
use thesis_share.Base.{
  ◌>>=◌, ℕ, zero, suc, ◌+◌, Bool, true, false, ◌&&◌, Option, none, some, List, [], ◌∷◌, ◌==◌,
  if◌then◌else◌, length,
}
use thesis_share.Base.Int.{ℤ, pos, negsuc}
use thesis_share.Connect.{
  Network, QueuedRequest, Engine, Output, charge_request, report_engine_error,
  connect_event_handler,
}
use thesis_share.StreamRead.{connection_fail}
use thesis_share.Events.{Callback, process_conns, timer_handler}

-- `init_engine`, as far as the state of the engine goes.
pub init_engine : List ℕ → Bool → Engine
init_engine local_port_numbers is_one_conn_per_stream = record {
  connections = [];
  request_queue = [];
  free_ports_queue = local_port_numbers;
  is_one_conn_per_stream = is_one_conn_per_stream;
  reading_streams_count = 0;
  is_closed = false;
  output_stack = [];
  loopbreaks = 0;
}

pub charge_all : List QueuedRequest → Engine → Engine
unfolding charge_request
charge_all [] engine = engine
charge_all (request ∷ requests) engine = charge_all requests (charge_request request engine)

-- `start_downloading`; the timer that it schedules is an event.
pub start_downloading : List QueuedRequest → Engine → ℤ × Engine
unfolding charge_all
start_downloading requests engine =
    if engine.is_closed then (negsuc 0, engine) else (pos 0, charge_all requests engine)

-- The events that are dispatched: the connection of queued requests, packets and the timer, with
-- the callbacks that lsquic makes when it processes its connections.
pub data Event : Type 0 where
  connects : Network → List Callback → Event
  packets : (decrypted : Option Bool) → List Callback → Event
  timer : List Callback → Event

-- `read_socket_packet`: `none` if the socket cannot be read, and otherwise whether lsquic takes the
-- packets. The first is reported by `report_engine_error_with_report`, a fault. The engine that is
-- destroyed after a hundred errors in a row is left out.
pub read_socket_packet : Option Bool → List Callback → Engine → Option Engine
unfolding report_engine_error process_conns
read_socket_packet none cbs engine = none
read_socket_packet (some decrypted) cbs engine =
    process_conns cbs (if decrypted then engine else report_engine_error connection_fail engine)

pub dispatch : Event → Engine → Option Engine
unfolding connect_event_handler process_conns read_socket_packet timer_handler
dispatch (connects network cbs) engine = do
  e ← connect_event_handler network engine
  process_conns cbs e
dispatch (packets decrypted cbs) engine = read_socket_packet decrypted cbs engine
dispatch (timer cbs) engine = timer_handler cbs engine

-- `event_base_loop`, as the events that it dispatches before it is left.
pub event_base_loop : List Event → Engine → Option Engine
unfolding dispatch
event_base_loop [] engine = some engine
event_base_loop (event ∷ events) engine = do e ← dispatch event engine; event_base_loop events e

abbrev pub first_output : List Output → Option Output
first_output [] = none
first_output (output ∷ outputs) = some output

abbrev pub other_outputs : List Output → List Output
other_outputs [] = []
other_outputs (output ∷ outputs) = outputs

-- `pull_stack_element` on the outputs, with NULL for an empty stack.
pub pull_output : Engine → Option Output × Engine
pull_output engine = (
  first_output engine.output_stack,
  record engine { output_stack = other_outputs engine.output_stack },
)

-- `get_download_result`, where `events` are dispatched if the loop runs.
pub get_download_result : List Event → Engine → Option (Option Output × Engine)
unfolding pull_output event_base_loop
get_download_result events engine =
    if engine.is_closed
    then some (none, engine)
    else (if length engine.output_stack == 0
        then (if (engine.reading_streams_count == 0) && (length engine.request_queue == 0)
            then some (none, engine)
            else (do e ← event_base_loop events engine; some (pull_output e)))
        else some (pull_output engine))
