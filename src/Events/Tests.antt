-- ===== src/Events/Tests.antt =====
-- A connection with one stream, through its callbacks and into a timeout.
use thesis_share.Base.{ℕ, ◌+◌, ◌≤◌, ◌≡◌, refl, true, false, none, some, List, [], ◌∷◌, arith}
use thesis_share.Arguments.{codes}
use thesis_share.Connect.{Stream, Connection, Engine}
use thesis_share.Connect.Slots.{
  get_stream, remove_stream, set_stream, get_connection, set_streams, remove_connection,
}
use thesis_share.Events.{
  keeps_reading, fails, Callback, new_stream, read, stream_close, conn_closed, handshake, callback,
  process_conns, http_client_on_new_stream, http_client_on_read, http_client_on_stream_close,
  http_client_on_conn_closed, http_client_on_connection_handshake, find_not_created, apply_effect,
  report_stream_error, uncount_stream, break_if_last, close_unread, on_timeout,
  time_out_connections, time_out_streams, timer_handler,
}
use thesis_share.Events.Callbacks.{process_conns-IsTracked}
use thesis_share.Events.Tracking.{accounted, IsTracked, IsWhole, Then, FitEach, all_failures}
use thesis_share.Events.Timeout.{IsAnswered, timer_handler-IsAnswered}
use thesis_share.Events.Unmade.{on_timeout-unmade}

abbrev stream : Stream
stream = record {
  path = codes "/a";
  data_pointer = some 1;
  is_created = false;
  is_header_sent = false;
  is_read = false;
}

abbrev made : Stream
made = record stream { is_created = true }

abbrev connection : Stream → Connection
connection s = record { hostname = codes "one"; stream_list = s ∷ []; port_number = some 5000 }

abbrev engine : Stream → Engine
engine s = record {
  connections = connection s ∷ [];
  request_queue = [];
  free_ports_queue = [];
  is_one_conn_per_stream = false;
  reading_streams_count = 1;
  is_closed = false;
  output_stack = [];
  loopbreaks = 0;
}

abbrev callbacks : List Callback
callbacks =
    handshake true
    ∷ new_stream 0
    ∷ read 0 0 keeps_reading
    ∷ read 0 0 fails
    ∷ stream_close 0 0
    ∷ conn_closed 0
    ∷ []

callbacks_fit : FitEach callbacks (engine stream)
unfolding callback http_client_on_new_stream http_client_on_read http_client_on_stream_close
    http_client_on_conn_closed http_client_on_connection_handshake find_not_created apply_effect
    report_stream_error uncount_stream break_if_last close_unread get_stream remove_stream
    set_stream get_connection set_streams remove_connection
callbacks_fit = (
  tt,
  (
    (_, refl, (0, refl)),
    (
      (_, refl, (_, refl, refl), (λ e. absurd (cc), λ e. absurd (cc))),
      (
        (_, refl, (_, refl, refl), (λ e. absurd (cc), λ e. absurd (cc))),
        ((_, refl, (_, refl)), ((_, refl, refl), tt)),
      ),
    ),
  ),
)

process_conns-IsTracked_example :
    (k : ℕ) × (e' : Engine) × (process_conns callbacks (engine stream) ≡ some e')
    × (k ≤ all_failures callbacks)
    × IsTracked (0 + k) e'
    × (accounted e' ≡ accounted (engine stream))
process_conns-IsTracked_example =
    process_conns-IsTracked callbacks 0 (engine stream) (record { whole = refl; counted = refl })
      callbacks_fit

timer_callbacks_fit :
    Then (FitEach (stream_close 0 0 ∷ [])) (on_timeout (record (engine made) { loopbreaks = 1 }))
unfolding on_timeout time_out_connections time_out_streams report_stream_error uncount_stream
    get_stream get_connection callback http_client_on_stream_close close_unread set_streams
    remove_stream
timer_callbacks_fit = ((_, refl, (_, refl)), tt)

timer_handler-IsAnswered_example :
    (e' : Engine) × (timer_handler (stream_close 0 0 ∷ []) (engine made) ≡ some e')
    × IsAnswered e'
    × IsWhole e'
    × (accounted e' ≡ accounted (engine made))
timer_handler-IsAnswered_example =
    timer_handler-IsAnswered (stream_close 0 0 ∷ []) 0 (engine made)
      (record { whole = refl; counted = refl }) refl timer_callbacks_fit

on_timeout-unmade_example : on_timeout (engine stream) ≡ none
unfolding get_stream get_connection
on_timeout-unmade_example =
    on_timeout-unmade 0 0 (connection stream) stream (engine stream) refl refl refl (omega arith)
