-- ===== src/Choice/Tests.antt =====
-- Two video formats with one audio format, and one format that is not adaptive.
use thesis_share.Base.{◌≡◌, ◌≤◌, ◌∷◌, ℕ, refl, some, none, Bool, true, false, [], List, length}
use thesis_share.Base.Int.{ℤ, pos}
use thesis_share.HttpHeader.{Text}
use thesis_share.Arguments.{ipv_system, codes, ProgramArguments}
use thesis_share.Replace.{starts_with, strstr}
use thesis_share.Choice.{
  Format, zero_format, Attempt, Session, text_behind, is_url_left, process_adaptive,
}
use thesis_share.Choice.Attempts.{IsTyped}
use thesis_share.Choice.Ends.{process_adaptive-single}

abbrev arguments : ProgramArguments
arguments = record {
  instantaneous_output = false;
  ip_version = ipv_system;
  max_bitrate = pos 300;
  min_test_time = pos 10;
  max_test_time = pos 60;
  one_bitrate = false;
  buffer_len = pos 40;
  quic_version = codes "Q039";
  port_numbers = [];
  is_connection_level_debug = false;
  one_stream_per_connection = false;
}

abbrev format : Text → ℕ → Format
format type bitrate = record { url = codes "a"; type = type; bitrate = bitrate }

abbrev session : Session
session = record {
  url0 = zero_format;
  url1 = zero_format;
  ft = none;
  numofstreams = 0;
  errorcode = 0;
  downloadtime = pos 0;
  fail_on_stall = true;
  attempts = [];
  printed = 0;
}

-- Each download stalls.
abbrev stalls : List Attempt → ℕ × ℤ
stalls attempts = (607, pos 0)

videos-IsTyped :
    IsTyped (codes "video/") (format (codes "video/mp4") 400 ∷ format (codes "video/mp4") 200 ∷ [])
unfolding text_behind strstr starts_with
videos-IsTyped = ((_, refl), ((_, refl), tt))

audios-IsTyped : IsTyped (codes "audio/") (format (codes "audio/mp4") 50 ∷ [])
unfolding text_behind strstr starts_with
audios-IsTyped = ((_, refl), tt)

process_adaptive-single_example :
    (end : Bool × Session) × (process_adaptive arguments stalls
        (format (codes "video/mp4") 400 ∷ format (codes "video/mp4") 200 ∷ [])
        (format (codes "audio/mp4") 50 ∷ [])
        (format (codes "video/mp4") 100 ∷ [])
        session
      ≡ some end)
    × (length end.1.attempts ≤ 1)
unfolding is_url_left
process_adaptive-single_example =
    process_adaptive-single arguments stalls (format (codes "video/mp4") 400)
      (format (codes "video/mp4") 200 ∷ []) (format (codes "audio/mp4") 50) []
      (format (codes "video/mp4") 100 ∷ []) session videos-IsTyped audios-IsTyped refl refl
