-- ===== src/Events/Steps.antt =====
-- What the callbacks do to one stream, and what that does to the engine.
use thesis_share.Base.{
  ℕ, zero, suc, ◌+◌, ◌-◌, ◌%◌, ◌^◌, ◌≤◌, ◌<◌, ◌≡◌, refl, ap, ◌∙◌, inl, inr, true, false, none, some,
  List, [], ◌∷◌, length, length-append, arith, Option-cases, Bool-cases,
}
use thesis_share.StreamRead.{connection_fail}
use thesis_share.Connect.{Stream, Connection, Engine, stream_output, charge_request}
use thesis_share.Connect.Slots.{
  get_stream, set_stream, get_connection, set_streams, sum_all, sum_all-set_stream,
  sum_all-remove_stream,
}
use thesis_share.Events.{
  ReadEffect, keeps_reading, delivers, redirects, fails, overflows, faults, apply_effect,
  report_stream_error, uncount_stream, break_if_last, find_not_created, close_unread,
}
use thesis_share.Events.Tracking.{
  unread, holding, torn, results, accounted, IsTracked, IsSound, leaks, unread-le,
}

-- A step on one stream, which leaks `k` counts.
pub record StreamStep (k : ℕ) (s s' : Stream) (e e' : Engine) : Type 0 where
  pub others : e'.connections ≡ e.connections
  pub still_whole : torn s' ≡ 0
  pub conserved :
      length e'.request_queue + results e'.output_stack + holding s'
      ≡ length e.request_queue + results e.output_stack + holding s
  pub recounted :
      e'.reading_streams_count
      ≡ (e.reading_streams_count + 2 ^ 32 + unread s' + k - unread s) % 2 ^ 32

-- A stream that has been read, and posted or redirected.
abbrev settled : Stream → Stream
settled s = record s { data_pointer = none; is_read = true }

unread_of_held :
    (s : Stream) (request : ℕ) → s.data_pointer ≡ some request → torn s ≡ 0 → s.is_read ≡ false
unread_of_held s request held whole = ground arith

pub apply_effect-StreamStep :
    (effect : ReadEffect) (s : Stream) (e : Engine) (request : ℕ)
    → IsSound effect
    → s.is_created ≡ true
    → s.data_pointer ≡ some request
    → torn s ≡ 0
    → e.reading_streams_count < 2 ^ 32
    → (s' : Stream) × (e' : Engine) × (apply_effect effect s e ≡ some (s', e'))
      × StreamStep (leaks effect) s s' e e'
unfolding apply_effect report_stream_error uncount_stream break_if_last charge_request
apply_effect-StreamStep keeps_reading s e r sound made held whole small = (
  s,
  e,
  refl,
  record { others = refl; still_whole = whole; conserved = refl; recounted = ground arith },
)
apply_effect-StreamStep (delivers code) s e r sound made held whole small = (
  settled s,
  break_if_last
      (record (uncount_stream e) { output_stack = stream_output r code ∷ e.output_stack }),
  ground (arith, held),
  record {
    others = ground arith;
    still_whole = ground (arith, made);
    conserved = ground (arith, held);
    recounted = ground (arith, unread_of_held s r held whole);
  },
)
apply_effect-StreamStep (redirects url) s e r sound made held whole small = (
  settled s,
  charge_request (record { request = r; final_url = url }) (uncount_stream e),
  ground (arith, held),
  record {
    others = refl;
    still_whole = ground (arith, made);
    conserved = ground (
      arith,
      held,
      length-append {0} e.request_queue (record { request = r; final_url = url } ∷ []),
    );
    recounted = ground (arith, unread_of_held s r held whole);
  },
)
apply_effect-StreamStep fails s e r sound made held whole small = (
  settled s,
  record e { output_stack = stream_output r connection_fail ∷ e.output_stack },
  ground (arith, held),
  record {
    others = refl;
    still_whole = ground (arith, made);
    conserved = ground (arith, held);
    recounted = ground (arith, unread_of_held s r held whole);
  },
)
apply_effect-StreamStep overflows s e r sound made held whole small = absurd (sound.0 refl)
apply_effect-StreamStep faults s e r sound made held whole small = absurd (sound.1 refl)

-- The engine with such a step made in its lists.
pub set_stream-IsTracked :
    (leaked k i j : ℕ) (c : Connection) (s s' : Stream) (e e' : Engine)
    → IsTracked leaked e
    → get_connection i e.connections ≡ some c
    → get_stream j c.stream_list ≡ some s
    → StreamStep k s s' e e'
    → let after = record e' {
      connections = set_streams i (set_stream j s' c.stream_list) e'.connections;
    } in
      IsTracked (leaked + k) after × (accounted after ≡ accounted e)
set_stream-IsTracked leaked k i j c s s' e e' t at_i at_j st = (
  record {
    whole = omega (arith, t.whole, st.still_whole, moved torn, had torn);
    counted = omega (arith, t.counted, st.recounted, moved unread, had unread, unread-le s);
  },
  omega (arith, st.conserved, moved holding, had holding),
)
  where
    had : (weight : Stream → ℕ) → weight s ≤ sum_all weight e.connections
    had weight = omega (arith, sum_all-remove_stream weight i j c s e.connections at_i at_j)

    moved :
        (weight : Stream → ℕ)
        → sum_all weight (set_streams i (set_stream j s' c.stream_list) e'.connections) + weight s
          ≡ sum_all weight e.connections + weight s'
    moved weight =
        ap (λ cs. sum_all weight (set_streams i (set_stream j s' c.stream_list) cs) + weight s)
          st.others
        ∙ sum_all-set_stream weight i j c s e.connections at_i at_j s'

pub find_not_created-some :
    (ss : List Stream) (j : ℕ)
    → find_not_created ss ≡ some j
    → (s : Stream) × (get_stream j ss ≡ some s) × (s.is_created ≡ false)
unfolding find_not_created get_stream
find_not_created-some [] j e = absurd (cc)
find_not_created-some (s ∷ ss) zero e = elim (Bool-cases s.is_created) [
  | inr free ↦ (s, refl, free)
  | inl made ↦ absurd (ground (arith, e, made))
]
find_not_created-some (s ∷ ss) (suc j) e = elim (Bool-cases s.is_created) [
  | inr free ↦ absurd (ground (arith, e, free))
  | inl made ↦ find_not_created-some ss j (ground (arith, e, made))
]

pub torn-zero :
    (leaked i j : ℕ) (c : Connection) (s : Stream) (e : Engine)
    → IsTracked leaked e
    → get_connection i e.connections ≡ some c
    → get_stream j c.stream_list ≡ some s
    → torn s ≡ 0
torn-zero leaked i j c s e t at_i at_j =
    omega (arith, t.whole, sum_all-remove_stream torn i j c s e.connections at_i at_j)

-- The engine after `close_unread`, before the stream is removed.
pub record CloseStep (s : Stream) (e e' : Engine) : Type 0 where
  pub others : e'.connections ≡ e.connections
  pub conserved :
      length e'.request_queue + results e'.output_stack
      ≡ length e.request_queue + results e.output_stack + holding s
  pub recounted : e'.reading_streams_count ≡ (e.reading_streams_count + 2 ^ 32 - unread s) % 2 ^ 32

pub close_unread-CloseStep :
    (s : Stream) (e : Engine)
    → torn s ≡ 0
    → e.reading_streams_count < 2 ^ 32
    → (e' : Engine) × (close_unread s e ≡ some e') × CloseStep s e e'
unfolding close_unread report_stream_error uncount_stream break_if_last
close_unread-CloseStep s e whole small = elim (Bool-cases s.is_read) [
  | inl done ↦ (
    e,
    ground (arith, done),
    record {
      others = refl;
      conserved = ground (arith, done, whole);
      recounted = ground (arith, done);
    },
  )
  | inr waits ↦ elim (Option-cases s.data_pointer) [
    | inl gone ↦ absurd (ground (arith, waits, gone, whole))
    | inr (r, held) ↦ (
      break_if_last (
          uncount_stream
            (record e { output_stack = stream_output r connection_fail ∷ e.output_stack })),
      ground (arith, waits, held),
      record {
        others = ground (arith);
        conserved = ground (arith, held);
        recounted = ground (arith, waits);
      },
    )
  ]
]
