-- ===== src/CurlOps/Tests.antt =====
-- A stream whose first chunk arrives, and one whose transfer fails.
use thesis_share.Base.{◌≡◌, refl, ℕ, true, false, none, some, [], ◌∷◌, arith}
use thesis_share.Base.Int.{pos, ◌-ℤ◌}
use thesis_share.Download.{VideoUrl, load_stream, adjust_range, load_adjusted, range_addition}
use thesis_share.DownloadLoop.{change_at}
use thesis_share.CurlOps.{
  CurlInfo, Running, Turn, Curl, is_initialized, load_streams, start_stream, is_request,
  initialize_curl_handle, replace_handle, null, open_at,
}
use thesis_share.CurlOps.Loop.{download_loop, downloadfiles}
use thesis_share.CurlOps.FileSize.{SizeAnswers, Sizing}
use thesis_share.CurlOps.Loop.Rounds.{Runs, downloadfiles-Runs}
use thesis_share.CurlOps.Loop.Failed.{download_loop-after_error}

-- 1000 bytes in two seconds.
abbrev info : ℕ → CurlInfo
info a = record {
  size_download = some 1000;
  total_time = some 2_000_000;
  starttransfer_time = some 500_000;
  connect_time = some 90_000;
  namelookup_time = some 40_000;
  response_code = some 200;
}

abbrev url : VideoUrl
url = record { bitrate = 500; range0 = 0; range1 = 0; playing = false }

abbrev start : Curl
start = record {
  urls = url ∷ [];
  totals = [];
  errorcode = 0;
  run = 0;
  http_handle = [];
  multi_handle = false;
  prog = false;
  leaked = 0;
}

abbrev done : Running
done = record { prepared = true; performed = true; done = 1 ∷ []; now = 0 }

abbrev turn : Turn
turn = record {
  len_for_stream = λ i. pos 0;
  initialized = λ i. record { handle = some 1; is_added = true };
  performed = true;
  running = [];
  last_running = done;
}

downloadfiles-Runs_example : Runs (downloadfiles info 0 60 40 none (turn ∷ turn ∷ []) start)
unfolding is_initialized
downloadfiles-Runs_example =
    downloadfiles-Runs info 0 60 40 none (turn ∷ turn ∷ []) start
      ((λ i. refl, tt, refl), ((λ i. refl, tt, refl), tt)) (omega arith)

abbrev held : Curl
held = record start { run = 1; http_handle = null ∷ null ∷ []; multi_handle = true; prog = true }

abbrev loaded : Curl
loaded = record held {
  urls = (load_stream 40 0 (pos 0) url).0 ∷ [];
  http_handle = open_at 1 ∷ null ∷ [];
}

abbrev failing : Turn
failing = record turn {
  last_running = record { prepared = false; performed = true; done = []; now = 0 };
}

download_loop-after_error_example :
    download_loop info 0 60 40 none (failing ∷ turn ∷ []) held ≡ none
unfolding is_initialized load_streams start_stream is_request initialize_curl_handle replace_handle
    change_at load_stream adjust_range load_adjusted range_addition ◌-ℤ◌
download_loop-after_error_example =
    download_loop-after_error info 0 60 40 none failing turn [] held loaded refl refl refl refl refl

-- A file that is missing.
abbrev missing : SizeAnswers
missing = record {
  handle = some 3;
  options = true ∷ true ∷ [];
  is_performed = true;
  has_code = true;
  http_code = 404;
  content_length = none;
}

abbrev sizing : Sizing
sizing = record { errorcode = 0; open_handles = 2 ∷ [] }
