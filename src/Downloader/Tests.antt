-- ===== src/Downloader/Tests.antt =====
-- A request from its start to its result.
use thesis_share.Base.{◌≤◌, ◌≡◌, refl, true, false, Option, some, List, [], ◌∷◌}
use thesis_share.StreamRead.{client_ok}
use thesis_share.Arguments.{codes}
use thesis_share.Connect.Slots.{get_stream, remove_stream, set_stream, get_connection, set_streams}
use thesis_share.Connect.{
  Network, QueuedRequest, Engine, Output, charge_request, connect_event_handler, connect_all,
  quic_connect, parse_url, connect_stream, create_connection_stream, find_connection,
  join_connection, join_new, create_connection, occupy_port, connection_at, insert_stream,
  count_stream,
}
use thesis_share.Events.{
  delivers, new_stream, read, stream_close, callback, process_conns, http_client_on_new_stream,
  http_client_on_read, http_client_on_stream_close, find_not_created, apply_effect,
  report_stream_error, uncount_stream, break_if_last, close_unread,
}
use thesis_share.Downloader.{
  init_engine, charge_all, start_downloading, Event, connects, packets, dispatch,
  read_socket_packet, event_base_loop, get_download_result,
}
use thesis_share.Downloader.Life.{
  FitCalls, FitEvents, all_answers, take_results, get_download_result-at_most_once,
}

-- The host is the three bytes behind "https://", and each host is found.
abbrev network : Network
network = record { host_group = λ url. some (8, 11); resolves = λ host. true; binds = λ port. true }

abbrev request : QueuedRequest
request = record { request = 1; final_url = codes "https://one/a" }

abbrev engine : Engine
engine = record (init_engine (5000 ∷ []) false) { request_queue = request ∷ [] }

abbrev events : List Event
events =
    connects network []
    ∷ packets (some true) (new_stream 0 ∷ [])
    ∷ packets (some true) (read 0 0 (delivers client_ok) ∷ stream_close 0 0 ∷ [])
    ∷ []

fits : FitEvents events engine
unfolding init_engine dispatch read_socket_packet connect_event_handler connect_all quic_connect
    parse_url connect_stream create_connection_stream find_connection join_connection join_new
    create_connection occupy_port connection_at insert_stream count_stream process_conns callback
    http_client_on_new_stream http_client_on_read http_client_on_stream_close find_not_created
    apply_effect report_stream_error uncount_stream break_if_last close_unread get_stream
    remove_stream set_stream get_connection set_streams
fits = (
  (record { found = λ host. refl; bound = λ port. refl }, tt),
  (
    ((_, refl, (0, refl)), tt),
    (
      (
        (_, refl, (_, refl, refl), (λ e. absurd (cc), λ e. absurd (cc))),
        ((_, refl, (_, refl)), tt),
      ),
      tt,
    ),
  ),
)

calls_fit :
    FitCalls (events ∷ []) (start_downloading (request ∷ []) (init_engine (5000 ∷ []) false)).1
unfolding init_engine start_downloading charge_all charge_request get_download_result
    event_base_loop dispatch read_socket_packet connect_event_handler connect_all quic_connect
    parse_url connect_stream create_connection_stream find_connection join_connection join_new
    create_connection occupy_port connection_at insert_stream count_stream process_conns callback
    http_client_on_new_stream http_client_on_read http_client_on_stream_close find_not_created
    apply_effect report_stream_error uncount_stream break_if_last close_unread get_stream
    remove_stream set_stream get_connection set_streams
calls_fit = (fits, tt)

get_download_result-at_most_once_example :
    (os : List (Option Output)) × (e' : Engine) × (take_results
        (events ∷ [])
        (start_downloading (request ∷ []) (init_engine (5000 ∷ []) false)).1
      ≡ some (os, e'))
    × (all_answers os ≤ 1)
get_download_result-at_most_once_example =
    get_download_result-at_most_once (5000 ∷ []) false (request ∷ []) (events ∷ []) calls_fit
