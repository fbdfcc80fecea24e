-- ===== src/Events/Timeout.antt =====
-- The timeout of event_handlers.c: what it reports, and that the wait for results ends.
use thesis_share.Base.{
  ◌>>=◌, bind-some, ℕ, zero, suc, ◌+◌, ◌^◌, ◌<◌, ◌≡◌, ◌≢◌, ◌⊎◌, refl, ap, subst, ◌∙◌, inl, inr,
  false, Option, some, List, ◌==◌, if◌then◌else◌, length, arith, Bool-cases,
}
use thesis_share.StreamRead.{timeout}
use thesis_share.Connect.{Engine, report_engine_error}
use thesis_share.Connect.Slots.{sum_all}
use thesis_share.Events.Callbacks.{process_conns-IsTracked}
use thesis_share.Events.Tracking.{
  unread, holding, torn, results, accounted, IsTracked, IsWhole, Then, FitEach,
}
use thesis_share.Events.{
  uncount_stream, time_out_connections, on_timeout, time_out_rest, timer_handler, Callback,
}
use thesis_share.Events.TimedOut.{unready, time_out_connections-TimedOut}

-- With a count that is not 0, where each stream has been made and none has been read, the timeout
-- returns and answers each request that a stream holds: afterwards, no stream holds one or is not
-- read, the requests are as many as before, and the engine counts what has been leaked.
pub on_timeout-answers :
    (leaked : ℕ) (e : Engine)
    → IsTracked leaked e
    → sum_all unready e.connections ≡ 0
    → e.reading_streams_count ≢ 0
    → (e' : Engine) × (on_timeout e ≡ some e')
      × (results e'.output_stack ≡ results e.output_stack + sum_all holding e.connections)
      × (sum_all holding e'.connections ≡ 0)
      × (sum_all unread e'.connections ≡ 0)
      × (accounted e' ≡ accounted e)
      × IsTracked leaked e'
unfolding on_timeout
on_timeout-answers leaked e t ready waits =
    let (cs', e', ran, out) =
      time_out_connections-TimedOut e.connections e t.whole ready (omega (arith, t.counted)) in
    let some_left : (e.reading_streams_count == 0) ≡ false = ground (arith, waits) in
    (
      record e' { connections = cs' },
      ap (λ b. if b then some e else run) some_left ∙ bind-some _ ran refl,
      out.answered,
      out.none_held,
      out.none_waits,
      omega (arith, out.answered, out.none_held, ap length out.same_queue),
      record {
        whole = out.whole;
        counted = omega (arith, out.uncounted, out.none_waits, out.small, t.counted);
      },
    )
  where
    run : Option Engine
    run = do (cs, e') ← time_out_connections e.connections e; some (record e' { connections = cs })

on_timeout-IsTracked :
    (leaked : ℕ) (e : Engine)
    → IsTracked leaked e
    → sum_all unready e.connections ≡ 0
    → (e' : Engine) × (on_timeout e ≡ some e') × IsTracked leaked e' × (accounted e' ≡ accounted e)
unfolding on_timeout
on_timeout-IsTracked leaked e t ready = elim (Bool-cases (e.reading_streams_count == 0)) [
  | inl none_left ↦ (
    e,
    ap
        (λ b. if b then some e else (do
          (cs, e') ← time_out_connections e.connections e
          some (record e' { connections = cs })))
        none_left,
    t,
    refl,
  )
  | inr waits ↦
      let (e', ran, all, held, left, same, t') =
        on_timeout-answers leaked e t ready (ground (arith, waits)) in
      (e', ran, t', same)
]

-- The rounds for the streams that are still counted leave none, and post an error each.
time_out_rest-zero :
    (count : ℕ) (e : Engine)
    → e.reading_streams_count ≡ count
    → count < 2 ^ 32
    → ((time_out_rest count e).reading_streams_count ≡ 0)
      × (length (time_out_rest count e).output_stack ≡ length e.output_stack + count)
unfolding time_out_rest report_engine_error uncount_stream
time_out_rest-zero zero e counted small = (counted, omega arith)
time_out_rest-zero (suc count) e counted small =
    let (none_left, posted) =
      time_out_rest-zero count (uncount_stream (report_engine_error timeout e))
        (omega (arith, counted, small)) (omega (arith, small)) in
    (none_left, omega (arith, posted))

-- An end of the wait for results: there is an output to take, or no stream is counted.
abbrev pub IsAnswered : Engine → Type 0
IsAnswered e = (length e.output_stack ≢ 0) ⊎ (e.reading_streams_count ≡ 0)

time_out_rest-same :
    (count : ℕ) (e : Engine)
    → ((time_out_rest count e).connections ≡ e.connections)
      × ((time_out_rest count e).request_queue ≡ e.request_queue)
      × (results (time_out_rest count e).output_stack ≡ results e.output_stack)
unfolding time_out_rest report_engine_error uncount_stream
time_out_rest-same zero e = (refl, refl, refl)
time_out_rest-same (suc count) e =
    time_out_rest-same count (uncount_stream (report_engine_error timeout e))

finish-IsAnswered :
    (e : Engine)
    → IsWhole e
    → (e' : Engine) × ((if length e.output_stack == 0
          then some (time_out_rest e.reading_streams_count e)
          else some e)
        ≡ some e')
      × IsAnswered e'
      × IsWhole e'
      × (accounted e' ≡ accounted e)
finish-IsAnswered e (whole, small) = elim (Bool-cases (length e.output_stack == 0)) [
  | inl empty ↦ (
    time_out_rest e.reading_streams_count e,
    ground (arith, empty),
    inr (time_out_rest-zero e.reading_streams_count e refl small).0,
    (
      ap (sum_all torn) (time_out_rest-same e.reading_streams_count e).0 ∙ whole,
      omega (arith, (time_out_rest-zero e.reading_streams_count e refl small).0),
    ),
    rested (time_out_rest e.reading_streams_count e) (time_out_rest-same e.reading_streams_count e),
  )
  | inr waits ↦ (e, ground (arith, waits), inl (ground (arith, waits)), (whole, small), refl)
]
  where
    rested :
        (e' : Engine)
        → (e'.connections ≡ e.connections)
          × (e'.request_queue ≡ e.request_queue)
          × (results e'.output_stack ≡ results e.output_stack)
        → accounted e' ≡ accounted e
    rested e' (connections, queue, answered) =
        omega (arith, ap (sum_all holding) connections, ap length queue, answered)

-- In an engine that tracks its streams, where each has been made and none has been read, and the
-- callbacks that follow the timeout fit, the timer handler returns, and then there is an output to
-- take or no stream is counted. The requests that are queued, the streams that hold one and the
-- results are as many together as before.
pub timer_handler-IsAnswered :
    (cbs : List Callback) (leaked : ℕ) (e : Engine)
    → IsTracked leaked e
    → sum_all unready e.connections ≡ 0
    → Then (FitEach cbs) (on_timeout (record e { loopbreaks = e.loopbreaks + 1 }))
    → (e' : Engine) × (timer_handler cbs e ≡ some e')
      × IsAnswered e'
      × IsWhole e'
      × (accounted e' ≡ accounted e)
unfolding timer_handler
timer_handler-IsAnswered cbs leaked e t ready fits =
    let broken : Engine = record e { loopbreaks = e.loopbreaks + 1 } in
    let (e1, ran, t1, kept) =
      on_timeout-IsTracked leaked broken (record { whole = t.whole; counted = t.counted }) ready in
    let (k, e2, ran', few, t2, same) =
      process_conns-IsTracked cbs leaked e1 t1 (subst (Then (FitEach cbs)) ran fits) in
    let (e3, ran'', answered, w, kept') =
      finish-IsAnswered e2 (t2.whole, omega (arith, t2.counted)) in
    (e3, bind-some _ ran (bind-some _ ran' ran''), answered, w, kept' ∙ same ∙ kept)
