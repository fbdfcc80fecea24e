-- ===== src/CurlOps/Loop.antt =====
-- The loops of downloadfiles and process_running in youtube_tcp_test/src/curlops.c.
pub mod Rounds
pub mod Failed
use thesis_share.Base.{
  ◌>>=◌, ℕ, Bool, true, false, ◌&&◌, Option, none, some, List, [], ◌∷◌, ◌==◌, if◌then◌else◌, length,
}
use thesis_share.Choice.{itworked}
use thesis_share.CurlOps.{
  CurlInfo, Running, Turn, Curl, null, load_streams, my_curl_cleanup, report_curl_error,
  read_messages, check_time,
}

-- The end of a round: whether the error code lets the loop go on.
pub end_round : Curl → Bool × Curl
end_round s = if s.errorcode == 0 then (true, s) else (false, record s { run = 0 })

module _ (info : ℕ → CurlInfo) (stime max_test_time playout_buffer_seconds : ℕ) where
  -- The body of the loop in `process_running`: whether the loop goes on while transfers are running.
  pub process_round : Option ℕ → Running → Curl → Option (Bool × Curl)
  unfolding report_curl_error read_messages check_time end_round
  process_round prebuf r s =
      if s.multi_handle
      then (if r.prepared && r.performed
          then some (
              end_round (check_time stime max_test_time prebuf r.now (read_messages info r.done s)))
          else (do ended ← report_curl_error info s; some (false, ended)))
      else none

  -- `process_running`, over its rounds; what it returns is not looked at.
  pub process_running : Option ℕ → List Running → Running → Curl → Option Curl
  unfolding process_round
  process_running prebuf [] r s = do (goes_on, s') ← process_round prebuf r s; some s'
  process_running prebuf (r ∷ rounds) last s = do
    (goes_on, s') ← process_round prebuf r s
    (let rest = process_running prebuf rounds last s' in if goes_on then rest else some s')

  -- The loop of `downloadfiles`, to its end or to the end of the answers: whether it has returned.
  pub download_loop : Option ℕ → List Turn → Curl → Option (Bool × Curl)
  unfolding load_streams process_running report_curl_error my_curl_cleanup
  download_loop prebuf [] s = some (false, s)
  download_loop prebuf (turn ∷ turns) s =
      if s.run == 0
      then (do ended ← my_curl_cleanup info (length s.urls) itworked s; some (true, ended))
      else (do
        loaded ← load_streams info playout_buffer_seconds turn 0 s.urls (record s { run = 0 })
        (if loaded.run == 0
            then (do
              ended ← my_curl_cleanup info (length loaded.urls) itworked loaded
              some (true, ended))
            else (if loaded.multi_handle
                then (if turn.performed
                    then (do
                      s' ← process_running prebuf turn.running turn.last_running loaded
                      download_loop prebuf turns s')
                    else (do ended ← report_curl_error info loaded; some (true, ended)))
                else none)))

  -- `downloadfiles`, if there is a multi handle.
  pub downloadfiles : Option ℕ → List Turn → Curl → Option (Bool × Curl)
  unfolding download_loop
  downloadfiles prebuf turns s = download_loop prebuf turns (record s {
    run = length s.urls;
    http_handle = null ∷ null ∷ [];
    multi_handle = true;
    prog = true;
    leaked = 0;
  })
