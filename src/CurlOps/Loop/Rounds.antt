-- ===== src/CurlOps/Loop/Rounds.antt =====
-- The rounds of the download over curl, and what it holds after each.
use thesis_share.Base.{
  ◌>>=◌, bind-some, subst, ℕ, ◌≤◌, ◌≡◌, refl, sym, ap, ◌∙◌, Bool, true, false, ◌&&◌, Option, none,
  some, List, [], ◌∷◌, ◌==◌, if◌then◌else◌, length, arith,
}
use thesis_share.Choice.{itworked}
use thesis_share.Download.{check_max_test_time}
use thesis_share.CurlOps.{
  null, CurlInfo, Running, Turn, Curl, curlerror, my_curl_cleanup, report_curl_error, read_messages,
  check_time,
}
use thesis_share.CurlOps.Loop.{
  end_round, process_round, process_running, download_loop, downloadfiles,
}
use thesis_share.CurlOps.Released.{
  IsHeld, IsReleased, IsFramed, IsFramed-refl, IsFramed-trans, IsFramed-if, IsHeld-framed,
  my_curl_cleanup-IsReleased,
}
use thesis_share.CurlOps.Loading.{IsLoading, load_streams-IsHeld, read_messages-IsFramed}

-- The descriptors can be prepared, and the transfers go on.
abbrev pub IsPerformed : Running → Type 0
IsPerformed r = (r.prepared && r.performed) ≡ true

abbrev pub AllPerformed : List Running → Type 0
AllPerformed [] = Unit {0}
AllPerformed (r ∷ rounds) = IsPerformed r × AllPerformed rounds

-- No call of curl or of select fails in a turn, but for the first curl_multi_perform perhaps.
abbrev pub IsAnswered : Turn → Type 0
IsAnswered turn = IsLoading turn × AllPerformed turn.running × IsPerformed turn.last_running

abbrev pub AllAnswered : List Turn → Type 0
AllAnswered [] = Unit {0}
AllAnswered (turn ∷ turns) = IsAnswered turn × AllAnswered turns

check_time-IsFramed :
    (stime max_test_time : ℕ) (prebuf : Option ℕ) (now : ℕ) (s : Curl)
    → IsFramed s (check_time stime max_test_time prebuf now s)
unfolding check_time
check_time-IsFramed stime max_test_time prebuf now s =
    IsFramed-if (check_max_test_time now stime prebuf max_test_time)
      (record { prog = refl; multi = refl; handles = refl; counted = refl }) (IsFramed-refl s)

end_round-IsFramed : (s : Curl) → IsFramed s (end_round s).1
unfolding end_round
end_round-IsFramed s = choose (s.errorcode == 0)
  where
    ended : Bool → Bool × Curl
    ended b = if b then (true, s) else (false, record s { run = 0 })

    choose : (b : Bool) → IsFramed s (ended b).1
    choose true = IsFramed-refl s
    choose false = record { prog = refl; multi = refl; handles = refl; counted = refl }

-- What the download holds at its end, and before it.
abbrev pub Holds : Bool → Curl → Type 0
Holds true s = IsReleased s
Holds false s = IsHeld s

-- A run of the loop that does not fault, and what is held then.
abbrev pub Runs : Option (Bool × Curl) → Type 0
Runs run = (ended : Bool) × (s : Curl) × (run ≡ some (ended, s)) × Holds ended s

Runs-if : {x y : Option (Bool × Curl)} (b : Bool) → Runs x → Runs y → Runs (if b then x else y)
Runs-if true h k = h
Runs-if false h k = k

Runs-bind :
    {m : Option Curl} {a : Curl} (k : Curl → Option (Bool × Curl))
    → m ≡ some a
    → Runs (k a)
    → Runs (m >>= k)
Runs-bind k e h = subst (λ m. Runs (m >>= k)) (sym e) h

Runs-held : (x : Option (Bool × Curl)) {b : Bool} → b ≡ true → Runs x → Runs (if b then x else none)
Runs-held x e h = subst (λ b. Runs (if b then x else none)) (sym e) h

module _ (info : ℕ → CurlInfo) (stime max_test_time playout_buffer_seconds : ℕ)
    (prebuf : Option ℕ) where
  process_round-IsHeld :
      (r : Running) (s : Curl)
      → IsPerformed r
      → IsHeld s
      → (goes_on : Bool) × (s' : Curl) × (process_round info stime max_test_time
            playout_buffer_seconds prebuf r s
          ≡ some (goes_on, s'))
        × IsHeld s'
  unfolding process_round
  process_round-IsHeld r s performed held =
      let read = read_messages info r.done s in
      let timed = check_time stime max_test_time prebuf r.now read in
      let ended = end_round timed in
      (
        ended.0,
        ended.1,
        ap (λ b. if b then performing else none) held.multi
            ∙ ap (λ b. if b then some ended else reporting) performed,
        IsHeld-framed
            (IsFramed-trans (read_messages-IsFramed info r.done s) (
              IsFramed-trans (check_time-IsFramed stime max_test_time prebuf r.now read)
                (end_round-IsFramed timed)))
            held,
      )
    where
      reporting : Option (Bool × Curl)
      reporting = do released ← report_curl_error info s; some (false, released)

      performing : Option (Bool × Curl)
      performing =
          if r.prepared && r.performed
          then some (
              end_round (check_time stime max_test_time prebuf r.now (read_messages info r.done s)))
          else reporting

  process_running-IsHeld :
      (rounds : List Running) (last : Running) (s : Curl)
      → AllPerformed rounds
      → IsPerformed last
      → IsHeld s
      → (s' : Curl) × (process_running info stime max_test_time playout_buffer_seconds prebuf rounds
            last s
          ≡ some s')
        × IsHeld s'
  unfolding process_running
  process_running-IsHeld [] last s all performed held =
      let (goes_on, s', run, held') = process_round-IsHeld last s performed held in
      (s', bind-some _ run refl, held')
  process_running-IsHeld (r ∷ rounds) last s (first, all) performed held =
      let (goes_on, s', run, held') = process_round-IsHeld r s first held in
      let (s2, run', held2) = process_running-IsHeld rounds last s' all performed held' in
      let (s3, run3, held3) = go_on_if goes_on s' s2 _ run' held' held2 in
      (s3, bind-some _ run run3, held3)
    where
      go_on_if :
          (goes_on : Bool) (s' s2 : Curl) (rest : Option Curl)
          → rest ≡ some s2
          → IsHeld s'
          → IsHeld s2
          → (s3 : Curl) × ((if goes_on then rest else some s') ≡ some s3) × IsHeld s3
      go_on_if true s' s2 rest run held' held2 = (s2, run, held2)
      go_on_if false s' s2 rest run held' held2 = (s', refl, held')

  -- The end of the download with a cleanup.
  cleanup-Runs :
      (code : ℕ) (s : Curl)
      → IsHeld s
      → Runs (my_curl_cleanup info (length s.urls) code s >>= λ ended. some (true, ended))
  cleanup-Runs code s held =
      let (s', run, released) = my_curl_cleanup-IsReleased info code s held in
      (true, s', bind-some (λ ended. some (true, ended)) run refl, released)

  -- The loop, from a state that holds everything.
  download_loop-Runs :
      (turns : List Turn) (s : Curl)
      → AllAnswered turns
      → IsHeld s
      → Runs (download_loop info stime max_test_time playout_buffer_seconds prebuf turns s)
  unfolding download_loop report_curl_error
  download_loop-Runs [] s answered held = (false, s, refl, held)
  download_loop-Runs (turn ∷ turns) s ((loading, running, last), answered) held =
      let (loaded, load, held1) =
        load_streams-IsHeld info playout_buffer_seconds turn 0 s.urls (record s { run = 0 }) loading
          (record { prog = held.prog; multi = held.multi; live = held.live; room = held.room })
          (omega (arith, held.room)) in
      let (s2, run, held2) =
        process_running-IsHeld turn.running turn.last_running loaded running last held1 in
      Runs-if (s.run == 0) (cleanup-Runs itworked s held) (
        Runs-bind _ load (
          Runs-if (loaded.run == 0) (cleanup-Runs itworked loaded held1) (
            Runs-held _ held1.multi (
              Runs-if turn.performed (Runs-bind _ run (download_loop-Runs turns s2 answered held2))
                (cleanup-Runs curlerror loaded held1)))))

  -- If no call of curl or of select fails but the first curl_multi_perform of a turn, downloadfiles,
  -- for at most two streams, does not use or release anything that has been released, and when it
  -- returns it has released the multi handle, the progress data and the handle of each stream.
  pub downloadfiles-Runs :
      (turns : List Turn) (s : Curl)
      → AllAnswered turns
      → length s.urls ≤ 2
      → Runs (downloadfiles info stime max_test_time playout_buffer_seconds prebuf turns s)
  unfolding downloadfiles
  downloadfiles-Runs turns s answered two =
      download_loop-Runs turns
        (record s {
          run = length s.urls;
          http_handle = null ∷ null ∷ [];
          multi_handle = true;
          prog = true;
          leaked = 0;
        })
        answered (record { prog = refl; multi = refl; live = tt; room = omega (arith, two) })
