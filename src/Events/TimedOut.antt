-- ===== src/Events/TimedOut.antt =====
-- What the timeout does to the streams of the connections.
use thesis_share.Base.{
  bind-some, ℕ, ◌+◌, ◌%◌, ◌^◌, ◌<◌, ◌≡◌, refl, ap, ◌∙◌, inl, inr, true, false, not, ◌&&◌, Option,
  none, some, List, [], ◌∷◌, if◌then◌else◌, arith, Option-cases,
}
use thesis_share.StreamRead.{timeout}
use thesis_share.Connect.{Stream, Connection, Engine, stream_output}
use thesis_share.Connect.Slots.{sum, sum_all}
use thesis_share.Events.Tracking.{unread, holding, torn, results}
use thesis_share.Events.{
  report_stream_error, uncount_stream, time_out_streams, time_out_connections,
}

-- 1 for a stream that lsquic has not made, or that has been read.
abbrev pub unready : Stream → ℕ
unready s = if s.is_created && not s.is_read then 0 else 1

-- The lists of streams weigh `held` outputs, `waiting` streams that are not read, and nothing
-- afterwards.
pub record TimedOut (held waiting torn' held' waiting' : ℕ) (e e' : Engine) : Type 0 where
  pub whole : torn' ≡ 0
  pub none_held : held' ≡ 0
  pub none_waits : waiting' ≡ 0
  pub same_queue : e'.request_queue ≡ e.request_queue
  pub answered : results e'.output_stack ≡ results e.output_stack + held
  pub small : e'.reading_streams_count < 2 ^ 32
  pub uncounted : (e'.reading_streams_count + waiting) % 2 ^ 32 ≡ e.reading_streams_count

time_out_streams-TimedOut :
    (ss : List Stream) (e : Engine)
    → sum torn ss ≡ 0
    → sum unready ss ≡ 0
    → e.reading_streams_count < 2 ^ 32
    → (ss' : List Stream) × (e' : Engine) × (time_out_streams ss e ≡ some (ss', e'))
      × TimedOut
          (sum holding ss)
          (sum unread ss)
          (sum torn ss')
          (sum holding ss')
          (sum unread ss')
          e
          e'
unfolding time_out_streams report_stream_error uncount_stream
time_out_streams-TimedOut [] e whole ready small = (
  [],
  e,
  refl,
  record {
    whole = refl;
    none_held = refl;
    none_waits = refl;
    same_queue = refl;
    answered = omega arith;
    small = small;
    uncounted = omega (arith, small);
  },
)
time_out_streams-TimedOut (s ∷ ss) e whole ready small = elim (Option-cases s.data_pointer) [
  | inl gone ↦ absurd (ground arith)
  | inr (r, held) ↦
      let e1 : Engine =
        uncount_stream (record e { output_stack = stream_output r timeout ∷ e.output_stack }) in
      let (ss', e', ran, out) =
        time_out_streams-TimedOut ss e1 (omega (arith, whole)) (omega (arith, ready))
          (omega arith) in
      let made : s.is_created ≡ true = ground (arith, ready) in
      let waits : s.is_read ≡ false = ground (arith, ready) in
      (
        record s { data_pointer = none; is_read = true } ∷ ss',
        e',
        bind-some _ (posted r held) (
            bind-some _ ran (
              ap
                (λ b.
                  if b
                  then some (record s { data_pointer = none; is_read = true } ∷ ss', e')
                  else none)
                made)),
        record {
          whole = ground (arith, made, out.whole);
          none_held = ground (arith, out.none_held);
          none_waits = ground (arith, out.none_waits);
          same_queue = out.same_queue;
          answered = ground (arith, held, out.answered);
          small = out.small;
          uncounted = ground (arith, waits, out.uncounted);
        },
      )
]
  where
    posted :
        (r : ℕ)
        → s.data_pointer ≡ some r
        → report_stream_error timeout s e
          ≡ some (
            record s { data_pointer = none },
            record e { output_stack = stream_output r timeout ∷ e.output_stack },
          )
    posted r held =
        ap
          (λ d. elim d as (λ _. Option (Stream × Engine)) [
            | none ↦ none
            | some request ↦ some (
              record s { data_pointer = none },
              record e { output_stack = stream_output request timeout ∷ e.output_stack },
            )
          ])
          held

pub time_out_connections-TimedOut :
    (cs : List Connection) (e : Engine)
    → sum_all torn cs ≡ 0
    → sum_all unready cs ≡ 0
    → e.reading_streams_count < 2 ^ 32
    → (cs' : List Connection) × (e' : Engine) × (time_out_connections cs e ≡ some (cs', e'))
      × TimedOut
          (sum_all holding cs)
          (sum_all unread cs)
          (sum_all torn cs')
          (sum_all holding cs')
          (sum_all unread cs')
          e
          e'
unfolding time_out_connections
time_out_connections-TimedOut [] e whole ready small = (
  [],
  e,
  refl,
  record {
    whole = refl;
    none_held = refl;
    none_waits = refl;
    same_queue = refl;
    answered = omega arith;
    small = small;
    uncounted = omega (arith, small);
  },
)
time_out_connections-TimedOut (c ∷ cs) e whole ready small =
    let (ss', e1, ran, out) =
      time_out_streams-TimedOut c.stream_list e (omega (arith, whole)) (omega (arith, ready))
        small in
    let (cs', e2, ran', out') =
      time_out_connections-TimedOut cs e1 (omega (arith, whole)) (omega (arith, ready)) out.small in
    (
      record c { stream_list = ss' } ∷ cs',
      e2,
      bind-some _ ran (bind-some _ ran' refl),
      record {
        whole = omega (arith, out.whole, out'.whole);
        none_held = omega (arith, out.none_held, out'.none_held);
        none_waits = omega (arith, out.none_waits, out'.none_waits);
        same_queue = out'.same_queue ∙ out.same_queue;
        answered = omega (arith, out.answered, out'.answered);
        small = out'.small;
        uncounted = omega (arith, out.uncounted, out'.uncounted, out.small, out'.small, small);
      },
    )
