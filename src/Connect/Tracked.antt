-- ===== src/Connect/Tracked.antt =====
-- `connect_event_handler` of connection_establisher.c keeps track of the streams.
use thesis_share.Base.{
  ◌>>=◌, bind-some, ℕ, zero, suc, ◌+◌, ◌-◌, take, drop, ◌%◌, ◌^◌, ◌≤◌, ◌≡◌, ◌≢◌, refl, ap, sym, ◌∙◌,
  Bool, true, false, Option, none, some, List, [], ◌∷◌, if◌then◌else◌, arith, length,
}
use thesis_share.HttpHeader.{Text}
use thesis_share.Connect.Slots.{sum, sum_all}
use thesis_share.Connect.{
  Network, ParsedUrl, Stream, Connection, QueuedRequest, Engine, create_connection_stream,
  find_connection, insert_stream, count_stream, join_connection, join_new, create_connection,
  connect_stream, parse_url, quic_connect, connect_all, connect_event_handler,
}
use thesis_share.Connect.Sharing.{total_streams, Found, find_connection-Found}
use thesis_share.Events.Tracking.{results, unread, holding, torn, accounted, IsTracked}
use thesis_share.Connect.Creation.{Reaches, Alike, create_connection-Alike}

sum_all-insert_stream :
    (weight : Stream → ℕ) (i : ℕ) (s : Stream) (cs : List Connection)
    → total_streams (insert_stream i s cs) ≡ suc (total_streams cs)
    → sum_all weight (insert_stream i s cs) ≡ weight s + sum_all weight cs
unfolding insert_stream
sum_all-insert_stream weight i s [] e = absurd (omega (arith, e))
sum_all-insert_stream weight zero s (c ∷ cs) e = omega arith
sum_all-insert_stream weight (suc i) s (c ∷ cs) e =
    omega (arith, sum_all-insert_stream weight i s cs (omega (arith, e)))

-- `most` requests have got streams at most, and all of them if `works`.
record Joined (works : Type 0) (leaked most : ℕ) (e e' : Engine) : Type 0 where
  tracked : IsTracked leaked e'
  few : accounted e' ≤ accounted e + most
  all : works → accounted e' ≡ accounted e + most
  still_open : e'.is_closed ≡ e.is_closed

join_connection-Joined :
    (works : Type 0) (leaked i : ℕ) (s : Stream) (e : Engine)
    → IsTracked leaked e
    → total_streams (insert_stream i s e.connections) ≡ suc (total_streams e.connections)
    → torn s ≡ 0
    → unread s ≡ 1
    → holding s ≡ 1
    → Joined works leaked 1 e (join_connection i s e).1
unfolding join_connection count_stream
join_connection-Joined works leaked i s e t one_more whole waits holds = record {
  tracked = record {
    whole = omega (arith, t.whole, whole, sum_all-insert_stream torn i s e.connections one_more);
    counted =
        omega (arith, t.counted, waits, sum_all-insert_stream unread i s e.connections one_more);
  };
  few = omega (arith, holds, sum_all-insert_stream holding i s e.connections one_more);
  all = λ w. omega (arith, holds, sum_all-insert_stream holding i s e.connections one_more);
  still_open = refl;
}

IsTracked-Alike :
    (leaked : ℕ) (e e' : Engine)
    → IsTracked leaked e
    → Alike e e'
    → IsTracked leaked e' × (accounted e' ≡ accounted e)
IsTracked-Alike leaked e e' t a = (
  record {
    whole = ap (sum_all torn) a.connections ∙ t.whole;
    counted =
        a.count ∙ t.counted ∙ ap (λ cs. (sum_all unread cs + leaked) % 2 ^ 32) (sym a.connections);
  },
  omega
      (arith, ap (sum_all holding) a.connections, ap length a.request_queue, ap results a.outputs),
)

not-Joined :
    (works : Type 0) (leaked : ℕ) (e : Engine)
    → IsTracked leaked e
    → ¬ works
    → Joined works leaked 1 e e
not-Joined works leaked e t broken = record {
  tracked = record { whole = t.whole; counted = t.counted };
  few = omega arith;
  all = λ w. absurd (broken w);
  still_open = refl;
}

join_new-Joined :
    (works : Type 0) (leaked : ℕ) (s : Stream) (e : Engine) (c : Connection) (e' : Engine)
    → IsTracked leaked e
    → Alike e e'
    → c.stream_list ≡ []
    → torn s ≡ 0
    → unread s ≡ 1
    → holding s ≡ 1
    → Joined works leaked 1 e (join_new s (c, e')).1
unfolding join_new insert_stream
join_new-Joined works leaked s e c e' t a new whole waits holds =
    let (t', same) = IsTracked-Alike leaked e e' t a in
    let none_yet : (weight : Stream → ℕ) → sum weight c.stream_list ≡ 0 =
      λ weight. ap (sum weight) new in
    let joined =
      join_connection-Joined works leaked 0 s (record e' { connections = c ∷ e'.connections })
        (record {
          whole = omega (arith, t'.whole, none_yet torn);
          counted = omega (arith, t'.counted, none_yet unread);
        })
        (omega arith) whole waits holds in
    record {
      tracked = joined.tracked;
      few = omega (arith, joined.few, same, none_yet holding);
      all = λ w. omega (arith, joined.all w, same, none_yet holding);
      still_open = joined.still_open ∙ a.still_open;
    }

-- A run that returns, with requests joined.
abbrev JoinedBy : Type 0 → ℕ → Engine → Option (Bool × Engine) → Type 0
JoinedBy works leaked e run = (r : Bool × Engine) × (run ≡ some r) × Joined works leaked 1 e r.1

connect_stream-Joined :
    (works : Type 0) (network : Network) (leaked : ℕ) (url : ParsedUrl) (request : ℕ) (e : Engine)
    → Reaches network
    → IsTracked leaked e
    → JoinedBy works leaked e (connect_stream network url request e)
unfolding connect_stream create_connection_stream
connect_stream-Joined works network leaked url request e w t =
    go (find_connection e.connections url.hostname e.is_one_conn_per_stream)
      (find_connection-Found e.is_one_conn_per_stream url.hostname e.connections)
  where
    stream : Stream
    stream = create_connection_stream url request

    go :
        (r : Option ℕ)
        → Found e.is_one_conn_per_stream url.hostname e.connections r
        → JoinedBy works leaked e (elim r as (λ _. Option (Bool × Engine)) [
          | some n ↦ some (join_connection n stream e)
          | none ↦ create_connection network url e >>= λ made. some (join_new stream made)
        ])
    go (some n) f = (
      join_connection n stream e,
      refl,
      join_connection-Joined works leaked n stream e t (f stream).0 refl refl refl,
    )
    go none f =
        let (c, e', ran, alike, new) = create_connection-Alike network w e url in
        (
          join_new stream (c, e'),
          bind-some _ ran refl,
          join_new-Joined works leaked stream e c e' t alike new refl refl refl,
        )

-- Each url has a host, and the engine is open.
abbrev pub Serves : Network → Engine → Type 0
Serves network e = ((url : Text) → network.host_group url ≢ none) × (e.is_closed ≡ false)

quic_connect-Joined :
    (network : Network) (leaked request : ℕ) (url : Text) (e : Engine)
    → Reaches network
    → IsTracked leaked e
    → JoinedBy (Serves network e) leaked e (quic_connect network request url e)
unfolding quic_connect parse_url
quic_connect-Joined network leaked request url e w t =
    closed_or e.is_closed (λ (p, o). o) (network.host_group url) (λ (p, o). p url)
  where
    closed_or :
        (b : Bool)
        → (Serves network e → b ≡ false)
        → (g : Option (ℕ × ℕ)) → (Serves network e → g ≢ none)
        → JoinedBy (Serves network e) leaked e (
            if b
            then some (false, e)
            else (elim (elim g as (λ _. Option ParsedUrl) [
              | none ↦ none
              | some (so, eo) ↦
                  some (record { hostname = take (eo - so) (drop so url); path = drop eo url })
            ])
                as (λ _. Option (Bool × Engine)) [
                  | none ↦ some (false, e)
                  | some parsed_url ↦ connect_stream network parsed_url request e
                ]))
    closed_or true is_open g parsed = (
      (false, e),
      refl,
      not-Joined (Serves network e) leaked e t (λ w. absurd (ground (arith, is_open w))),
    )
    closed_or false is_open none parsed =
        ((false, e), refl, not-Joined (Serves network e) leaked e t (λ w. parsed w refl))
    closed_or false is_open (some (so, eo)) parsed =
        connect_stream-Joined (Serves network e) network leaked
          (record { hostname = take (eo - so) (drop so url); path = drop eo url }) request e w t

connect_all-Joined :
    (network : Network) (leaked : ℕ) (queue : List QueuedRequest) (e : Engine)
    → Reaches network
    → IsTracked leaked e
    → (e' : Engine) × (connect_all network queue e ≡ some e')
      × Joined (Serves network e) leaked (length queue) e e'
unfolding connect_all
connect_all-Joined network leaked [] e w t =
    (e, refl, record { tracked = t; few = omega arith; all = λ w. omega arith; still_open = refl })
connect_all-Joined network leaked (q ∷ queue) e w t =
    let (r, ran, one) = quic_connect-Joined network leaked q.request q.final_url e w t in
    let (e', ran', rest) = connect_all-Joined network leaked queue r.1 w one.tracked in
    let serves : Serves network e → Serves network r.1 = λ (p, o). (p, one.still_open ∙ o) in
    (
      e',
      bind-some _ ran ran',
      record {
        tracked = rest.tracked;
        few = omega (arith, one.few, rest.few);
        all = λ w. omega (arith, one.all w, rest.all (serves w));
        still_open = rest.still_open ∙ one.still_open;
      },
    )

pub connect_event_handler-IsTracked :
    (network : Network) (leaked : ℕ) (e : Engine)
    → Reaches network
    → IsTracked leaked e
    → (e' : Engine) × (connect_event_handler network e ≡ some e')
      × IsTracked leaked e'
      × (accounted e' ≤ accounted e)
      × (Serves network e → accounted e' ≡ accounted e)
unfolding connect_event_handler
connect_event_handler-IsTracked network leaked e w t =
    let emptied : Engine = record e { request_queue = [] } in
    let (e', ran, joined) =
      connect_all-Joined network leaked e.request_queue emptied w
        (record { whole = t.whole; counted = t.counted }) in
    (e', ran, joined.tracked, omega (arith, joined.few), λ w. omega (arith, joined.all w))
