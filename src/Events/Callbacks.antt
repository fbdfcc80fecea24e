-- ===== src/Events/Callbacks.antt =====
-- The callbacks keep track of the streams.
use thesis_share.Base.{
  ◌>>=◌, bind-some, ℕ, ◌+◌, ◌≤◌, ◌≡◌, refl, ap, subst, ◌∙◌, inl, inr, Bool, true, false, Option,
  none, some, List, [], ◌∷◌, arith, Option-cases,
}
use thesis_share.Connect.{Stream, Connection, Engine, report_engine_error}
use thesis_share.Connect.Slots.{
  get_stream, remove_stream, set_stream, set_streams, remove_connection, sum, sum_all,
  sum_all-remove_connection, sum_all-remove_stream,
}
use thesis_share.Events.{
  ReadEffect, apply_effect, find_not_created, http_client_on_new_stream, http_client_on_read,
  http_client_on_stream_close, http_client_on_conn_closed, http_client_on_connection_handshake,
  Callback, new_stream, read, stream_close, conn_closed, handshake, callback, process_conns,
}
use thesis_share.Events.Tracking.{
  unread, holding, torn, accounted, IsTracked, leaks, unread-le, Fits, failures, Then, FitEach,
  all_failures,
}
use thesis_share.Events.Steps.{
  StreamStep, apply_effect-StreamStep, set_stream-IsTracked, find_not_created-some, torn-zero,
  CloseStep, close_unread-CloseStep,
}

-- A callback that returns, keeps track of the streams and accounts for the requests.
abbrev Kept : ℕ → ℕ → Engine → Option Engine → Type 0
Kept leaked most e run =
    (k : ℕ) × (e' : Engine) × (run ≡ some e')
    × (k ≤ most)
    × IsTracked (leaked + k) e'
    × (accounted e' ≡ accounted e)

new_stream-Kept :
    (leaked i : ℕ) (e : Engine)
    → IsTracked leaked e
    → Fits (new_stream i) e
    → Kept leaked 0 e (http_client_on_new_stream i e)
unfolding http_client_on_new_stream
new_stream-Kept leaked i e t (c, at_i, (j, free)) =
    let (s, at_j, unmade) = find_not_created-some c.stream_list j free in
    let s' : Stream = record s { is_created = true; is_header_sent = false; is_read = false } in
    let whole : torn s ≡ 0 = torn-zero leaked i j c s e t at_i at_j in
    let st : StreamStep 0 s s' e e = record {
      others = refl;
      still_whole = ground (arith, unmade, whole);
      conserved = refl;
      recounted = ground (arith, unmade, whole, t.counted);
    } in
    let (t', same) = set_stream-IsTracked leaked 0 i j c s s' e e t at_i at_j st in
    (
      0,
      _,
      bind-some
          (λ c. do
            j ← find_not_created c.stream_list
            s ← get_stream j c.stream_list
            some (record e {
              connections =
                  set_streams i
                    (set_stream j
                      (record s { is_created = true; is_header_sent = false; is_read = false })
                      c.stream_list)
                    e.connections;
            }))
          at_i (bind-some _ free (bind-some _ at_j refl)),
      omega arith,
      t',
      same,
    )

read-Kept :
    (leaked i j : ℕ) (effect : ReadEffect) (e : Engine)
    → IsTracked leaked e
    → Fits (read i j effect) e
    → Kept leaked (leaks effect) e (http_client_on_read i j effect e)
unfolding http_client_on_read
read-Kept leaked i j effect e t (c, at_i, (s, at_j, made), sound) =
    elim (Option-cases s.data_pointer) [
      | inl done ↦ (
        0,
        e,
        bind-some _ at_i (bind-some _ at_j (ap (λ d. read_if d c s) done)),
        omega arith,
        record { whole = t.whole; counted = omega (arith, t.counted) },
        refl,
      )
      | inr (r, held) ↦
          let (s', e', applied, st) =
            apply_effect-StreamStep effect s e r sound made held
              (torn-zero leaked i j c s e t at_i at_j) (omega (arith, t.counted)) in
          let (t', same) =
            set_stream-IsTracked leaked (leaks effect) i j c s s' e e' t at_i at_j st in
          (
            leaks effect,
            _,
            bind-some _ at_i
                (bind-some _ at_j (ap (λ d. read_if d c s) held ∙ bind-some _ applied refl)),
            omega arith,
            t',
            same,
          )
    ]
  where
    read_if : Option ℕ → Connection → Stream → Option Engine
    read_if d c s = elim d [
      | none ↦ some e
      | some request ↦ do
        (s', e') ← apply_effect effect s e
        some (record e' {
          connections = set_streams i (set_stream j s' c.stream_list) e'.connections;
        })
    ]

stream_close-Kept :
    (leaked i j : ℕ) (e : Engine)
    → IsTracked leaked e
    → Fits (stream_close i j) e
    → Kept leaked 0 e (http_client_on_stream_close i j e)
unfolding http_client_on_stream_close
stream_close-Kept leaked i j e t (c, at_i, (s, at_j)) =
    let (e', closed, st) =
      close_unread-CloseStep s e (torn-zero leaked i j c s e t at_i at_j)
        (omega (arith, t.counted)) in
    (
      0,
      _,
      bind-some _ at_i (bind-some _ at_j (bind-some _ closed refl)),
      omega arith,
      record {
        whole = omega (arith, t.whole, moved torn e' st);
        counted = omega (arith, t.counted, st.recounted, moved unread e' st, unread-le s);
      },
      omega (arith, st.conserved, moved holding e' st),
    )
  where
    moved :
        (weight : Stream → ℕ) (e' : Engine)
        → CloseStep s e e'
        → sum_all weight (set_streams i (remove_stream j c.stream_list) e'.connections) + weight s
          ≡ sum_all weight e.connections
    moved weight e' st =
        ap (λ cs. sum_all weight (set_streams i (remove_stream j c.stream_list) cs) + weight s)
          st.others
        ∙ sum_all-remove_stream weight i j c s e.connections at_i at_j

conn_closed-Kept :
    (leaked i : ℕ) (e : Engine)
    → IsTracked leaked e
    → Fits (conn_closed i) e
    → Kept leaked 0 e (http_client_on_conn_closed i e)
unfolding http_client_on_conn_closed
conn_closed-Kept leaked i e t (c, at_i, ended) = (
  0,
  _,
  bind-some _ at_i refl,
  omega arith,
  record {
    whole = omega (arith, t.whole, moved torn);
    counted = omega (arith, t.counted, moved unread);
  },
  omega (arith, moved holding),
)
  where
    moved :
        (weight : Stream → ℕ)
        → sum_all weight (remove_connection i e.connections) ≡ sum_all weight e.connections
    moved weight =
        omega
          (arith, sum_all-remove_connection weight i c e.connections at_i, ap (sum weight) ended)

handshake-Kept :
    (leaked : ℕ) (ok : Bool) (e : Engine)
    → IsTracked leaked e
    → Kept leaked 0 e (some (http_client_on_connection_handshake ok e))
unfolding http_client_on_connection_handshake report_engine_error
handshake-Kept leaked true e t =
    (0, e, refl, omega arith, record { whole = t.whole; counted = omega (arith, t.counted) }, refl)
handshake-Kept leaked false e t =
    (0, _, refl, omega arith, record { whole = t.whole; counted = omega (arith, t.counted) }, refl)

-- A callback that fits returns, keeps track of the streams, of which a read error leaks one count,
-- and loses no request.
pub callback-IsTracked :
    (cb : Callback) (leaked : ℕ) (e : Engine)
    → IsTracked leaked e
    → Fits cb e
    → (k : ℕ) × (e' : Engine) × (callback cb e ≡ some e')
      × (k ≤ failures cb)
      × IsTracked (leaked + k) e'
      × (accounted e' ≡ accounted e)
unfolding callback
callback-IsTracked (new_stream i) leaked e t fits = new_stream-Kept leaked i e t fits
callback-IsTracked (read i j effect) leaked e t fits = read-Kept leaked i j effect e t fits
callback-IsTracked (stream_close i j) leaked e t fits = stream_close-Kept leaked i j e t fits
callback-IsTracked (conn_closed i) leaked e t fits = conn_closed-Kept leaked i e t fits
callback-IsTracked (handshake ok) leaked e t fits = handshake-Kept leaked ok e t

-- For callbacks that fit, which are for streams and connections that there are, where no read is a
-- fault or overflows an output buffer, and which close a connection after its streams,
-- `process_conns` returns. Afterwards,
-- each stream still has its output until it is read, the streams that are not read are still
-- counted, where each read error has leaked at most one count, and the requests that are queued, the
-- streams that hold one and the results are as many together as before.
pub process_conns-IsTracked :
    (cbs : List Callback) (leaked : ℕ) (e : Engine)
    → IsTracked leaked e
    → FitEach cbs e
    → (k : ℕ) × (e' : Engine) × (process_conns cbs e ≡ some e')
      × (k ≤ all_failures cbs)
      × IsTracked (leaked + k) e'
      × (accounted e' ≡ accounted e)
unfolding process_conns
process_conns-IsTracked [] leaked e t fits =
    (0, e, refl, omega arith, record { whole = t.whole; counted = omega (arith, t.counted) }, refl)
process_conns-IsTracked (cb ∷ cbs) leaked e t (fits, next) =
    let (k, e1, ran, few, t1, same) = callback-IsTracked cb leaked e t fits in
    let (l, e2, ran', few', t2, same') =
      process_conns-IsTracked cbs (leaked + k) e1 t1 (subst (Then (FitEach cbs)) ran next) in
    (
      k + l,
      e2,
      bind-some _ ran ran',
      omega (arith, few, few'),
      record { whole = t2.whole; counted = omega (arith, t2.counted) },
      same' ∙ same,
    )
