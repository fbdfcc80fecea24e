-- ===== src/Downloader/Life.antt =====
-- The life of the engine between its start and the results that are taken: what becomes of the
-- requests over any sequence of events.
use thesis_share.Base.{
  ◌>>=◌, bind-some, ℕ, ◌+◌, ◌-◌, ◌*◌, ◌^◌, ◌≤◌, ◌≡◌, inl, inr, refl, ap, sym, subst, ◌∙◌, Bool,
  true, false, ◌&&◌, Option, none, some, List, [], ◌∷◌, ◌++◌, ◌==◌, if◌then◌else◌, length,
  length-append, arith, Bool-cases,
}
use mathlib.Core.List.{append-nil, append_assoc}
use thesis_share.Base.Int.{pos, negsuc}
use thesis_share.StreamRead.{connection_fail}
use thesis_share.Connect.Slots.{sum_all}
use thesis_share.Connect.Creation.{Reaches}
use thesis_share.Connect.Tracked.{connect_event_handler-IsTracked}
use thesis_share.Connect.{
  QueuedRequest, Engine, Output, stream_output, engine_error, charge_request, report_engine_error,
  connect_event_handler,
}
use thesis_share.Events.{Callback, process_conns, on_timeout}
use thesis_share.Events.Callbacks.{process_conns-IsTracked}
use thesis_share.Events.Tracking.{unread, results, accounted, IsTracked, IsWhole, Then, FitEach}
use thesis_share.Events.Timeout.{timer_handler-IsAnswered}
use thesis_share.Downloader.{
  init_engine, charge_all, start_downloading, Event, connects, packets, timer, dispatch,
  read_socket_packet, event_base_loop, first_output, other_outputs, pull_output,
  get_download_result,
}
use thesis_share.Events.TimedOut.{unready}

-- Such an engine counts its streams, and perhaps others.
IsWhole-IsTracked : (e : Engine) → IsWhole e → (leaked : ℕ) × IsTracked leaked e
IsWhole-IsTracked e (whole, small) = (
  e.reading_streams_count + (2 ^ 32 - 1) * sum_all unread e.connections,
  record { whole = whole; counted = omega (arith, small) },
)

-- Hosts are found, ports bound and sockets read, the callbacks fit, and at a timeout each stream has been made and none has been read.
abbrev pub FitEvent : Event → Engine → Type 0
FitEvent (connects network cbs) e =
    Reaches network × Then (FitEach cbs) (connect_event_handler network e)
FitEvent (packets none cbs) e = ⊥
FitEvent (packets (some decrypted) cbs) e =
    FitEach cbs (if decrypted then e else report_engine_error connection_fail e)
FitEvent (timer cbs) e =
    (sum_all unready e.connections ≡ 0)
    × Then (FitEach cbs) (on_timeout (record e { loopbreaks = e.loopbreaks + 1 }))

abbrev pub FitEvents : List Event → Engine → Type 0
FitEvents [] e = Unit {0}
FitEvents (event ∷ events) e = FitEvent event e × Then (FitEvents events) (dispatch event e)

process-IsWhole :
    (cbs : List Callback) (leaked : ℕ) (e : Engine)
    → IsTracked leaked e
    → FitEach cbs e
    → (e' : Engine) × (process_conns cbs e ≡ some e') × IsWhole e' × (accounted e' ≤ accounted e)
process-IsWhole cbs leaked e t fits =
    let (k, e', ran, few, t', same) = process_conns-IsTracked cbs leaked e t fits in
    (e', ran, (t'.whole, omega (arith, t'.counted)), omega (arith, same))

dispatch-IsWhole :
    (event : Event) (e : Engine)
    → IsWhole e
    → FitEvent event e
    → (e' : Engine) × (dispatch event e ≡ some e') × IsWhole e' × (accounted e' ≤ accounted e)
unfolding dispatch read_socket_packet report_engine_error
dispatch-IsWhole (connects network cbs) e w (reaches, fits) =
    let (leaked, t) = IsWhole-IsTracked e w in
    let (e1, connected, t1, less, same) =
      connect_event_handler-IsTracked network leaked e reaches t in
    let (e', ran, w', less') =
      process-IsWhole cbs leaked e1 t1 (subst (Then (FitEach cbs)) connected fits) in
    (e', bind-some _ connected ran, w', omega (arith, less, less'))
dispatch-IsWhole (packets none cbs) e w fits = absurd fits
dispatch-IsWhole (packets (some false) cbs) e w fits =
    let (leaked, t) = IsWhole-IsTracked e w in
    process-IsWhole cbs leaked (report_engine_error connection_fail e)
      (record { whole = t.whole; counted = t.counted }) fits
dispatch-IsWhole (packets (some true) cbs) e w fits =
    let (leaked, t) = IsWhole-IsTracked e w in process-IsWhole cbs leaked e t fits
dispatch-IsWhole (timer cbs) e w (ready, fits) =
    let (leaked, t) = IsWhole-IsTracked e w in
    let (e', ran, answered, w', same) = timer_handler-IsAnswered cbs leaked e t ready fits in
    (e', ran, w', omega (arith, same))

-- From an engine whose streams have their outputs until they are read, over any events that fit,
-- the loop returns, the streams still have their outputs until they are read, and the requests that
-- are queued, held by a stream or answered have not become more.
pub event_base_loop-IsWhole :
    (events : List Event) (e : Engine)
    → IsWhole e
    → FitEvents events e
    → (e' : Engine) × (event_base_loop events e ≡ some e')
      × IsWhole e'
      × (accounted e' ≤ accounted e)
unfolding event_base_loop
event_base_loop-IsWhole [] e w fits = (e, refl, w, omega arith)
event_base_loop-IsWhole (event ∷ events) e w (fits, next) =
    let (e1, ran, w1, less) = dispatch-IsWhole event e w fits in
    let (e2, ran', w2, less') =
      event_base_loop-IsWhole events e1 w1 (subst (Then (FitEvents events)) ran next) in
    (e2, bind-some _ ran ran', w2, omega (arith, less, less'))

-- The requests that an output answers.
abbrev pub answers : Option Output → ℕ
answers none = 0
answers (some output) = results (output ∷ [])

results-first :
    (outputs : List Output)
    → answers (first_output outputs) + results (other_outputs outputs) ≡ results outputs
results-first [] = refl
results-first (stream_output request code ∷ outputs) = omega arith
results-first (engine_error code ∷ outputs) = omega arith

-- What a call that takes an output leaves.
abbrev Taken : Engine → Option Output × Engine → Type 0
Taken e (o, e') = IsWhole e' × (answers o + accounted e' ≤ accounted e)

pull_output-Taken : (e : Engine) → IsWhole e → Taken e (pull_output e)
unfolding pull_output
pull_output-Taken e w = (w, omega (arith, results-first e.output_stack))

-- Over events that fit, a call of `get_download_result` returns, the streams still have their
-- outputs until they are read, and a result of a request that it returns is counted off: the
-- request is not queued, held by a stream or answered again.
pub get_download_result-Taken :
    (events : List Event) (e : Engine)
    → IsWhole e
    → FitEvents events e
    → (o : Option Output) × (e' : Engine) × (get_download_result events e ≡ some (o, e'))
      × IsWhole e'
      × (answers o + accounted e' ≤ accounted e)
unfolding get_download_result
get_download_result-Taken events e w fits = elim (Bool-cases e.is_closed) [
  | inl closed ↦ (none, e, ap (λ b. choose b is_empty is_idle) closed, w, omega arith)
  | inr running ↦ elim (Bool-cases is_empty) [
    | inr ready ↦
        let (w', less) = pull_output-Taken e w in
        (
          (pull_output e).0,
          (pull_output e).1,
          ap (λ b. choose b is_empty is_idle) running ∙ ap (λ b. choose false b is_idle) ready,
          w',
          less,
        )
    | inl empty ↦ elim (Bool-cases is_idle) [
      | inl idle ↦ (none, e, chosen running empty ∙ ap (choose false true) idle, w, omega arith)
      | inr busy ↦
          let (e1, ran, w1, less) = event_base_loop-IsWhole events e w fits in
          let (w2, less') = pull_output-Taken e1 w1 in
          (
            (pull_output e1).0,
            (pull_output e1).1,
            chosen running empty ∙ ap (choose false true) busy ∙ bind-some _ ran refl,
            w2,
            omega (arith, less, less'),
          )
    ]
  ]
]
  where
    is_empty : Bool
    is_empty = length e.output_stack == 0

    is_idle : Bool
    is_idle = (e.reading_streams_count == 0) && (length e.request_queue == 0)

    choose : Bool → Bool → Bool → Option (Option Output × Engine)
    choose closed empty idle =
        if closed
        then some (none, e)
        else (if empty
            then (if idle
                then some (none, e)
                else (do e' ← event_base_loop events e; some (pull_output e')))
            else some (pull_output e))

    chosen :
        e.is_closed ≡ false
        → is_empty ≡ true
        → choose e.is_closed is_empty is_idle ≡ choose false true is_idle
    chosen running empty =
        ap (λ b. choose b is_empty is_idle) running ∙ ap (λ b. choose false b is_idle) empty

charge_all-queue :
    (requests : List QueuedRequest) (e : Engine)
    → charge_all requests e ≡ record e { request_queue = e.request_queue ++ requests }
unfolding charge_all charge_request
charge_all-queue [] e = ap (λ q. record e { request_queue = q }) (sym (append-nil e.request_queue))
charge_all-queue (r ∷ rs) e =
    charge_all-queue rs (charge_request r e)
    ∙ ap (λ q. record e { request_queue = q }) (append_assoc e.request_queue (r ∷ []) rs)

-- An engine that is open queues all requests behind those that are queued, in order, and each is
-- accounted for once; a closed one refuses them and stays as it is.
pub start_downloading-accounted :
    (requests : List QueuedRequest) (e : Engine)
    → (e.is_closed ≡ true → start_downloading requests e ≡ (negsuc 0, e))
      × (e.is_closed ≡ false
          → (start_downloading requests e
              ≡ (pos 0, record e { request_queue = e.request_queue ++ requests }))
            × (accounted (start_downloading requests e).1 ≡ accounted e + length requests))
unfolding start_downloading
start_downloading-accounted requests e = (
  λ closed. ap (λ b. if b then (negsuc 0, e) else (pos 0, charge_all requests e)) closed,
  λ running.
      let started : start_downloading requests e
          ≡ (pos 0, record e { request_queue = e.request_queue ++ requests }) =
        ap (λ b. if b then (negsuc 0, e) else (pos 0, charge_all requests e)) running
        ∙ ap (λ e'. (pos 0, e')) (charge_all-queue requests e) in
      (
        started,
        ap (λ r. accounted r.1) started ∙ omega (arith, length-append {0} e.request_queue requests),
      ),
)

-- Calls of `get_download_result` one after another, and all that they return.
abbrev pub take_results : List (List Event) → Engine → Option (List (Option Output) × Engine)
take_results [] e = some ([], e)
take_results (events ∷ calls) e = do
  (o, e') ← get_download_result events e
  (os, e'') ← take_results calls e'
  some (o ∷ os, e'')

abbrev pub all_answers : List (Option Output) → ℕ
all_answers [] = 0
all_answers (o ∷ os) = answers o + all_answers os

abbrev ThenTaken : (Engine → Type 0) → Option (Option Output × Engine) → Type 0
ThenTaken P none = Unit {0}
ThenTaken P (some (o, e)) = P e

abbrev pub FitCalls : List (List Event) → Engine → Type 0
FitCalls [] e = Unit {0}
FitCalls (events ∷ calls) e =
    FitEvents events e × ThenTaken (FitCalls calls) (get_download_result events e)

take_results-answers :
    (calls : List (List Event)) (e : Engine)
    → IsWhole e
    → FitCalls calls e
    → (os : List (Option Output)) × (e' : Engine) × (take_results calls e ≡ some (os, e'))
      × (all_answers os + accounted e' ≤ accounted e)
take_results-answers [] e w fits = ([], e, refl, omega arith)
take_results-answers (events ∷ calls) e w (fits, next) =
    let (o, e1, ran, w1, less) = get_download_result-Taken events e w fits in
    let (os, e2, ran', less') =
      take_results-answers calls e1 w1 (subst (ThenTaken (FitCalls calls)) ran next) in
    (o ∷ os, e2, bind-some _ ran (bind-some _ ran' refl), omega (arith, less, less'))

-- Of a new engine that has been given requests, calls of `get_download_result` return, and all of
-- them together give no more results than there are requests. The events that are dispatched fit:
-- hosts are found, ports bound and sockets read; lsquic calls back for streams and connections that
-- there are, no read is a fault or overflows an output buffer, and a connection is closed after its
-- streams; and at a timeout each stream has been made and none has been read.
pub get_download_result-at_most_once :
    (ports : List ℕ) (dedicated : Bool) (requests : List QueuedRequest) (calls : List (List Event))
    → FitCalls calls (start_downloading requests (init_engine ports dedicated)).1
    → (os : List (Option Output)) × (e' : Engine) × (take_results calls
          (start_downloading requests (init_engine ports dedicated)).1
        ≡ some (os, e'))
      × (all_answers os ≤ length requests)
unfolding init_engine
get_download_result-at_most_once ports dedicated requests calls fits =
    let engine = init_engine ports dedicated in
    let (queued, count) = (start_downloading-accounted requests engine).1 refl in
    let whole : IsWhole (start_downloading requests engine).1 =
      subst (λ r. IsWhole r.1) (sym queued) (refl, omega arith) in
    let (os, e', ran, less) =
      take_results-answers calls (start_downloading requests engine).1 whole fits in
    (os, e', ran, omega (arith, less, count))
