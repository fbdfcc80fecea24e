-- ===== src/Connect/Tests.antt =====
-- Two requests to one host, and one whose url has no host.
use thesis_share.Base.{true, false, none, if◌then◌else◌, ltb, some, [], ◌∷◌, length}
use thesis_share.Arguments.{codes}
use thesis_share.Connect.{Network, Engine}

-- The host is the three bytes behind "https://", if there are any.
abbrev network : Network
network = record {
  host_group = λ url. if ltb 8 (length url) then some (8, 11) else none;
  resolves = λ host. true;
  binds = λ port. true;
}

abbrev engine : Engine
engine = record {
  connections = [];
  request_queue =
      record { request = 1; final_url = codes "https://one/a" }
      ∷ record { request = 2; final_url = codes "https://one/b" }
      ∷ record { request = 3; final_url = codes "https://" }
      ∷ [];
  free_ports_queue = 5000 ∷ [];
  is_one_conn_per_stream = false;
  reading_streams_count = 0;
  is_closed = false;
  output_stack = [];
  loopbreaks = 0;
}
