-- ===== src/StreamRead/Tests.antt =====
-- A short response, and the ends of a stream.
use thesis_share.Base.{
  ◌≡◌, ◌⊎◌, refl, ap, true, false, none, some, [], ◌∷◌, ◌++◌, arith, leb, if◌then◌else◌,
}
use thesis_share.HeaderEnd.{end_header}
use thesis_share.HttpHeader.{Text, HeaderInfo}
use thesis_share.HttpHeader.Tests.{whole_text}
use thesis_share.StreamRead.{
  Stream, OutputData, Transport, bytes, end_of_stream, failure, len, client_ok, connection_fail,
  read_data, http_client_on_read, process_finished_stream,
}
use thesis_share.StreamRead.Delivery.{Obeys, IsStreaming, InHeader, InBody}
use thesis_share.StreamRead.Phases.{read_data-body}
use thesis_share.StreamRead.HeaderPhase.{read_data-header_phase}
use thesis_share.StreamRead.Searched.{ReadOutcome}
use thesis_share.StreamRead.Faults.{
  http_client_on_read-early_end, http_client_on_read-overlong_header, http_client_on_read-failure,
  process_finished_stream-once, final_code,
}

abbrev output : OutputData
output = record {
  error_code = client_ok;
  http_code = 0;
  on_write = true;
  max_write_size = 1000;
  header_only = false;
  used_size = 0;
  data_size = none;
}

abbrev stream : Stream
stream = record {
  temp_buffer = end_header;
  used_temp_buffer = 0;
  header_info_ref = none;
  data_pointer = some output;
  data_ref = none;
  buffer_left = 0;
  allocated = 0;
  memory = λ i. 0;
  is_read = false;
  written = [];
  posted = [];
  closes = 0;
  charged = [];
  reading_streams_count = 1;
  loopbreaks = 0;
  would_block = false;
}

abbrev info : HeaderInfo
info = record {
  response_code = 200;
  redirect_url = none;
  http_version = 49 ∷ [];
  content_length = none;
}

abbrev blank_line : Text
blank_line = 13 ∷ 10 ∷ 13 ∷ 10 ∷ []

-- It sends the blank line and one byte of the body, if they fit.
abbrev transport : Transport
transport n = if leb 5 n then bytes 13 (10 ∷ 13 ∷ 10 ∷ 65 ∷ []) else failure true

transport-Obeys : Obeys transport
transport-Obeys n c cs e = ground arith

abbrev streaming : IsStreaming stream
streaming = record {
  output = output;
  no_buffer = refl;
  pointed = refl;
  has_on_write = refl;
  wants_body = refl;
}

in_header : InHeader stream []
in_header = record {
  no_header = refl;
  used = refl;
  kept = refl;
  open_end = λ t o. omega (arith, o.0);
  unwritten = refl;
}

read_data-header_phase_example :
    ReadOutcome whole_text 0 [] (blank_line ++ 65 ∷ []) (read_data whole_text transport stream)
read_data-header_phase_example =
    read_data-header_phase whole_text stream [] transport 13 (10 ∷ 13 ∷ 10 ∷ 65 ∷ []) streaming
      in_header (omega arith) transport-Obeys refl

abbrev stream_in_body : Stream
stream_in_body = record stream { header_info_ref = some info; used_temp_buffer = 4 }

abbrev streaming_body : IsStreaming stream_in_body
streaming_body = record {
  output = output;
  no_buffer = refl;
  pointed = refl;
  has_on_write = refl;
  wants_body = refl;
}

in_body : InBody stream_in_body blank_line
in_body = record {
  header = info;
  has_header = refl;
  image = end_header;
  seen = 4;
  header_end = 4;
  enough = omega arith;
  shown = refl;
  first_end = (0, refl, (omega arith, λ j h. ap end_header (omega arith)), λ t h o. omega arith);
  handed_on = refl;
}

read_data-body_example :
    (s' : Stream) × (read_data whole_text transport stream_in_body ≡ some (len 5, s'))
    × IsStreaming s'
    × InBody s' (blank_line ++ blank_line ++ 65 ∷ [])
read_data-body_example =
    read_data-body whole_text stream_in_body blank_line transport 13 (10 ∷ 13 ∷ 10 ∷ 65 ∷ [])
      streaming_body in_body transport-Obeys refl

http_client_on_read-early_end_example :
    http_client_on_read whole_text ((λ n. end_of_stream) ∷ []) stream ≡ none
http_client_on_read-early_end_example =
    http_client_on_read-early_end whole_text stream output (λ n. end_of_stream) [] refl refl
      (omega arith) refl

abbrev stream_full : Stream
stream_full = record stream { used_temp_buffer = 16384 }

http_client_on_read-overlong_header_example :
    http_client_on_read whole_text (transport ∷ []) stream_full ≡ none
http_client_on_read-overlong_header_example =
    http_client_on_read-overlong_header whole_text stream_full output (transport ∷ []) refl refl
      (omega arith) refl

http_client_on_read-failure_example :
    (s' : Stream) × (http_client_on_read whole_text ((λ n. failure false) ∷ []) stream
      ≡ some (tt, s'))
    × (s'.posted ≡ record output { error_code = connection_fail } ∷ [])
    × (s'.data_pointer ≡ none)
    × (s'.is_read ≡ true)
    × (s'.closes ≡ 1)
    × (s'.reading_streams_count ≡ 1)
http_client_on_read-failure_example =
    http_client_on_read-failure whole_text stream output (λ n. failure false) [] refl refl
      (omega arith) refl

process_finished_stream-once_example :
    (s' : Stream) × (process_finished_stream stream_in_body ≡ some (tt, s'))
    × (s'.data_pointer ≡ none)
    × (s'.reading_streams_count ≡ 0)
    × ((final_code 300 200 ≡ true)
          × (s'.charged ≡ none ∷ [])
          × (s'.posted ≡ [])
          × (s'.loopbreaks ≡ 0)
        ⊎ (final_code 300 200 ≡ false)
          × (s'.charged ≡ [])
          × ((o' : OutputData) × (s'.posted ≡ o' ∷ [])
              × (o'.data_size ≡ some 0)
              × (o'.error_code ≡ client_ok))
          × (s'.loopbreaks ≡ 1))
process_finished_stream-once_example =
    process_finished_stream-once stream_in_body output info refl refl (omega arith) (omega arith)
      (omega arith)
