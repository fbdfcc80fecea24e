-- ===== src/CurlOps/Loop/Failed.antt =====
-- The download over curl behind an error that process_running has met.
use thesis_share.Base.{
  ◌>>=◌, bind-some, ℕ, ◌+◌, ◌≡◌, ◌⊎◌, inl, inr, refl, ap, ◌∙◌, Bool, true, false, ◌&&◌, Option,
  none, some, List, [], ◌∷◌, ◌==◌, if◌then◌else◌, length, arith,
}
use thesis_share.Choice.{itworked}
use thesis_share.Download.{VideoUrl, load_stream}
use thesis_share.DownloadLoop.{change_at}
use thesis_share.CurlOps.{
  Handle, CurlInfo, Running, Turn, Curl, curlerror, close_streams, my_curl_cleanup,
  initialize_curl_handle, start_stream, is_request, load_streams, report_curl_error, check_time,
  read_messages,
}
use thesis_share.CurlOps.Loop.{end_round, process_round, process_running, download_loop}

-- The multi handle and the progress data have been released.
abbrev pub IsGone : Curl → Type 0
IsGone s = (s.prog ≡ false) × (s.multi_handle ≡ false)

-- A run that faults, or leaves them released.
abbrev Stays : Option Curl → Type 0
Stays run = (run ≡ none) ⊎ ((s : Curl) × (run ≡ some s) × IsGone s)

unless_gone :
    {A : Type 0} (s : Curl) (x : Option A)
    → IsGone s
    → (if s.prog && s.multi_handle then x else none) ≡ none
unless_gone s x (prog, multi) = ap (λ b. if b && s.multi_handle then x else none) prog

if-none :
    {A : Type 0} {x y : Option A} (b : Bool) → x ≡ none → y ≡ none → (if b then x else y) ≡ none
if-none true e f = e
if-none false e f = f

none-else :
    {A : Type 0} {b : Bool} {y : Option A} (x : Option A)
    → b ≡ false
    → y ≡ none
    → (if b then x else y) ≡ none
none-else {b} {y} x e f = ap (λ c. if c then x else y) e ∙ f

none-then :
    {A : Type 0} {b : Bool} {x : Option A} (y : Option A)
    → b ≡ true
    → x ≡ none
    → (if b then x else y) ≡ none
none-then {b} {x} y e f = ap (λ c. if c then x else y) e ∙ f

-- What the loop goes on with, if a part of it stays so.
Stays-bind :
    {B : Type 0} (run : Option Curl) (k : Curl → Option B)
    → Stays run
    → ((s : Curl) → IsGone s → k s ≡ none)
    → (run >>= k) ≡ none
Stays-bind run k (inl fault) next = ap (λ m. m >>= k) fault
Stays-bind run k (inr (s, returns, gone)) next = bind-some k returns (next s gone)

module _ (info : ℕ → CurlInfo) where
  my_curl_cleanup-gone :
      (num code : ℕ) (s : Curl) → IsGone s → my_curl_cleanup info num code s ≡ none
  unfolding my_curl_cleanup
  my_curl_cleanup-gone num code s gone = unless_gone s _ gone

  -- A cleanup faults or releases them.
  my_curl_cleanup-Stays : (num code : ℕ) (s : Curl) → Stays (my_curl_cleanup info num code s)
  unfolding my_curl_cleanup
  my_curl_cleanup-Stays num code s =
      choose (s.prog && s.multi_handle) (close_streams info code num 0 s.http_handle s)
    where
      choose :
          (b : Bool) (closing : Option (List Handle × Curl))
          → Stays (
              if b
              then (do
                (handles, s') ← closing
                some (record s' {
                  http_handle = handles;
                  multi_handle = false;
                  prog = false;
                  errorcode = if s'.errorcode == 0 then code else s'.errorcode;
                }))
              else none)
      choose false closing = inl refl
      choose true none = inl refl
      choose true (some (handles, s')) = inr (_, refl, (refl, refl))

  start_stream-gone :
      (turn : Turn) (i : ℕ) (asks : Bool) (s : Curl)
      → IsGone s
      → Stays (start_stream info turn i asks s)
  unfolding start_stream initialize_curl_handle
  start_stream-gone turn i false s gone = inr (s, refl, gone)
  start_stream-gone turn i true s gone = inl (ap (λ m. m >>= checked) (unless_gone s _ gone))
    where
      checked : Bool × Curl → Option Curl
      checked (is_ready, s') = if is_ready then some s' else my_curl_cleanup info i curlerror s'

  load_streams-gone :
      (playout_buffer_seconds : ℕ) (turn : Turn) (i : ℕ) (urls : List VideoUrl) (s : Curl)
      → IsGone s
      → Stays (load_streams info playout_buffer_seconds turn i urls s)
  unfolding load_streams
  load_streams-gone buffer turn i [] s gone = inr (s, refl, gone)
  load_streams-gone buffer turn i (url ∷ urls) s gone =
      let out = load_stream buffer i (turn.len_for_stream i) url in
      let loaded = record s {
        urls = change_at i (λ _. out.0) s.urls;
        run = if out.0.playing then s.run + 1 else s.run;
      } in
      elim (start_stream-gone turn i (is_request out.1) loaded gone) [
        | inl fault ↦ inl (ap (λ m. m >>= load_streams info buffer turn (i + 1) urls) fault)
        | inr (s', started, gone') ↦ elim (load_streams-gone buffer turn (i + 1) urls s' gone') [
          | inl fault ↦ inl (bind-some (load_streams info buffer turn (i + 1) urls) started fault)
          | inr (s'', rest, gone'') ↦
              inr (s'', bind-some (load_streams info buffer turn (i + 1) urls) started rest, gone'')
        ]
      ]

-- A round that faults, or ends the loop and leaves them released.
abbrev Fails : Option (Bool × Curl) → Type 0
Fails run = (run ≡ none) ⊎ ((s : Curl) × (run ≡ some (false, s)) × IsGone s)

-- The first round of `process_running`.
abbrev pub first_of : List Running → Running → Running
first_of [] last = last
first_of (r ∷ rounds) last = r

abbrev pub first_round : Turn → Running
first_round turn = first_of turn.running turn.last_running

module _ (info : ℕ → CurlInfo) (stime max_test_time playout_buffer_seconds : ℕ)
    (prebuf : Option ℕ) where
  -- Any further round of the loop faults.
  download_loop-gone :
      (turn : Turn) (turns : List Turn) (s : Curl)
      → IsGone s
      → download_loop info stime max_test_time playout_buffer_seconds prebuf (turn ∷ turns) s ≡ none
  unfolding download_loop
  download_loop-gone turn turns s gone = if-none (s.run == 0) (cleaning s gone) (
      Stays-bind (load_streams info playout_buffer_seconds turn 0 s.urls (record s { run = 0 })) _
        (load_streams-gone info playout_buffer_seconds turn 0 s.urls (record s { run = 0 }) gone)
        λ loaded gone'.
          if-none (loaded.run == 0) (cleaning loaded gone')
            (ap (λ b. if b then performing loaded else none) gone'.1))
    where
      returned : Curl → Option (Bool × Curl)
      returned ended = some (true, ended)

      cleaning :
          (s' : Curl)
          → IsGone s'
          → (my_curl_cleanup info (length s'.urls) itworked s' >>= returned) ≡ none
      cleaning s' gone' =
          ap (λ m. m >>= returned) (my_curl_cleanup-gone info (length s'.urls) itworked s' gone')

      performing : Curl → Option (Bool × Curl)
      performing loaded =
          if turn.performed
          then (do
            s' ←
                process_running info stime max_test_time playout_buffer_seconds prebuf turn.running
                  turn.last_running loaded
            download_loop info stime max_test_time playout_buffer_seconds prebuf turns s')
          else (do ended ← report_curl_error info loaded; some (true, ended))

  -- A round in which curl or select fails.
  process_round-failed :
      (r : Running) (s : Curl)
      → (r.prepared && r.performed) ≡ false
      → Fails (process_round info stime max_test_time playout_buffer_seconds prebuf r s)
  unfolding process_round report_curl_error
  process_round-failed r s failed =
      choose s.multi_handle (r.prepared && r.performed) failed
        (my_curl_cleanup info (length s.urls) curlerror s)
        (my_curl_cleanup-Stays info (length s.urls) curlerror s)
    where
      choose :
          (multi performed : Bool)
          → performed ≡ false
          → (reporting : Option Curl) → Stays reporting
          → Fails (
              if multi
              then (if performed
                  then some (
                      end_round
                        (check_time stime max_test_time prebuf r.now (read_messages info r.done s)))
                  else (do ended ← reporting; some (false, ended)))
              else none)
      choose false performed e reporting stays = inl refl
      choose true true e reporting stays = absurd (ground (arith, e))
      choose true false e reporting (inl fault) =
          inl (ap (λ m. m >>= λ ended. some (false, ended)) fault)
      choose true false e reporting (inr (s', reported, gone)) =
          inr (s', bind-some (λ ended. some (false, ended)) reported refl, gone)

  process_running-failed :
      (rounds : List Running) (last : Running) (s : Curl)
      → ((first_of rounds last).prepared && (first_of rounds last).performed) ≡ false
      → Stays (process_running info stime max_test_time playout_buffer_seconds prebuf rounds last s)
  unfolding process_running
  process_running-failed [] last s failed = elim (process_round-failed last s failed) [
    | inl fault ↦ inl (ap (λ m. m >>= λ r. some r.1) fault)
    | inr (s', run, gone) ↦ inr (s', bind-some (λ r. some r.1) run refl, gone)
  ]
  process_running-failed (r ∷ rounds) last s failed = elim (process_round-failed r s failed) [
    | inl fault ↦ inl (ap (λ m. m >>= going) fault)
    | inr (s', run, gone) ↦ inr (s', bind-some going run refl, gone)
  ]
    where
      going : Bool × Curl → Option Curl
      going (goes_on, s') =
          let rest =
            process_running info stime max_test_time playout_buffer_seconds prebuf rounds last s' in
          if goes_on then rest else some s'

  -- Where process_running meets an error of curl or of select in its first round, it releases the
  -- multi handle and the progress data, and downloadfiles does not look at its answer: the next round
  -- of the loop, whatever curl answers then, uses or releases them again.
  pub download_loop-after_error :
      (turn next : Turn) (turns : List Turn) (s loaded : Curl)
      → (s.run == 0) ≡ false
      → load_streams info playout_buffer_seconds turn 0 s.urls (record s { run = 0 }) ≡ some loaded
      → (loaded.run == 0) ≡ false
      → turn.performed ≡ true
      → ((first_round turn).prepared && (first_round turn).performed) ≡ false
      → download_loop info stime max_test_time playout_buffer_seconds prebuf (turn ∷ next ∷ turns) s
        ≡ none
  unfolding download_loop
  download_loop-after_error turn next turns s loaded running load loading performed failed =
      let further =
        Stays-bind
          (process_running info stime max_test_time playout_buffer_seconds prebuf turn.running
            turn.last_running loaded)
          (download_loop info stime max_test_time playout_buffer_seconds prebuf (next ∷ turns))
          (process_running-failed turn.running turn.last_running loaded failed)
          (download_loop-gone next turns) in
      none-else _ running (
        bind-some _ load
          (none-else _ loading (if-none loaded.multi_handle (none-then _ performed further) refl)))
