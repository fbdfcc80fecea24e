-- ===== src/StreamWrite/Tests.antt =====
-- A request without a path whose header is refused, and one whose header is taken.
use thesis_share.Base.{◌≡◌, refl, true, false, none, some, []}
use thesis_share.Arguments.{codes}
use thesis_share.StreamRead.{OutputData, client_ok}
use thesis_share.StreamWrite.{Sender, write_calls}
use thesis_share.StreamWrite.Sent.{after_calls, write_calls-once}

abbrev output : OutputData
output = record {
  error_code = client_ok;
  http_code = 0;
  on_write = false;
  max_write_size = 1000;
  header_only = true;
  used_size = 0;
  data_size = none;
}

abbrev sender : Sender
sender = record {
  path = [];
  hostname = codes "www.example.com";
  is_header_sent = false;
  stream = record {
    temp_buffer = λ i. 0;
    used_temp_buffer = 0;
    header_info_ref = none;
    data_pointer = some output;
    data_ref = none;
    buffer_left = 0;
    allocated = 0;
    memory = λ i. 0;
    is_read = false;
    written = [];
    posted = [];
    closes = 0;
    charged = [];
    reading_streams_count = 1;
    loopbreaks = 0;
    would_block = false;
  };
  headers = [];
  shutdowns = 0;
  wants_read = false;
}

write_calls-once_example :
    write_calls (λ header. false) false 3 sender
    ≡ some (after_calls (λ header. false) output 2 sender)
write_calls-once_example = write_calls-once (λ header. false) output 2 sender refl refl
