-- ===== src/Events/Unmade.antt =====
-- The timeout of event_handlers.c on a stream that lsquic has not made yet.
use thesis_share.Base.{
  ◌>>=◌, ℕ, zero, suc, ◌≡◌, ◌≢◌, refl, ap, ◌∙◌, false, Option, none, some, List, [], ◌∷◌, ◌==◌,
  if◌then◌else◌, arith,
}
use thesis_share.StreamRead.{timeout}
use thesis_share.Connect.{Stream, Connection, Engine}
use thesis_share.Connect.Slots.{get_stream, get_connection}
use thesis_share.Events.{
  report_stream_error, uncount_stream, time_out_streams, time_out_connections, on_timeout,
}

bind-none :
    {A B : Type 0} (m : Option A) (k : A → Option B) → ((a : A) → k a ≡ none) → (m >>= k) ≡ none
bind-none none k f = refl
bind-none (some a) k f = f a

none_first : {A B : Type 0} {m : Option A} (k : A → Option B) → m ≡ none → (m >>= k) ≡ none
none_first k e = ap (λ m. m >>= k) e

time_out_streams-unmade :
    (j : ℕ) (s : Stream) (ss : List Stream) (e : Engine)
    → get_stream j ss ≡ some s
    → s.is_created ≡ false
    → time_out_streams ss e ≡ none
unfolding time_out_streams get_stream
time_out_streams-unmade j s [] e at_j unmade = absurd (cc)
time_out_streams-unmade zero s (t ∷ ss) e at_j unmade =
    bind-none (report_stream_error timeout t e) _ (λ (t', e1).
      bind-none (time_out_streams ss (uncount_stream e1)) _
        (λ (ss', e2). ground (arith, at_j, unmade)))
time_out_streams-unmade (suc j) s (t ∷ ss) e at_j unmade =
    bind-none (report_stream_error timeout t e) _
      (λ (t', e1). none_first _ (time_out_streams-unmade j s ss (uncount_stream e1) at_j unmade))

time_out_connections-unmade :
    (i j : ℕ) (c : Connection) (s : Stream) (cs : List Connection) (e : Engine)
    → get_connection i cs ≡ some c
    → get_stream j c.stream_list ≡ some s
    → s.is_created ≡ false
    → time_out_connections cs e ≡ none
unfolding time_out_connections get_connection
time_out_connections-unmade i j c s [] e at_i at_j unmade = absurd (cc)
time_out_connections-unmade zero j c s (d ∷ cs) e at_i at_j unmade =
    none_first _ (time_out_streams-unmade j s d.stream_list e (ap streams at_i ∙ at_j) unmade)
  where
    streams : Option Connection → Option Stream
    streams none = none
    streams (some x) = get_stream j x.stream_list
time_out_connections-unmade (suc i) j c s (d ∷ cs) e at_i at_j unmade =
    bind-none (time_out_streams d.stream_list e) _
      (λ (ss, e1). none_first _ (time_out_connections-unmade i j c s cs e1 at_i at_j unmade))

-- With a count that is not 0, the timeout closes the lsquic stream of each stream; where one has
-- none yet, that is a fault, whatever the engine's other streams are.
pub on_timeout-unmade :
    (i j : ℕ) (c : Connection) (s : Stream) (e : Engine)
    → get_connection i e.connections ≡ some c
    → get_stream j c.stream_list ≡ some s
    → s.is_created ≡ false
    → e.reading_streams_count ≢ 0
    → on_timeout e ≡ none
unfolding on_timeout
on_timeout-unmade i j c s e at_i at_j unmade waits =
    let some_left : (e.reading_streams_count == 0) ≡ false = ground (arith, waits) in
    ap (λ b. if b then some e else run) some_left
    ∙ none_first _ (time_out_connections-unmade i j c s e.connections e at_i at_j unmade)
  where
    run : Option Engine
    run = do (cs, e') ← time_out_connections e.connections e; some (record e' { connections = cs })
