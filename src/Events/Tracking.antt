-- ===== src/Events/Tracking.antt =====
-- What the engine knows of its streams: the count of the streams that are not read, and what has
-- become of each request.
use thesis_share.Base.{
  ℕ, suc, ◌+◌, ◌%◌, ◌^◌, ◌≤◌, ◌<◌, ◌≡◌, ◌≢◌, true, not, ◌&&◌, ◌||◌, Option, none, some, List, [],
  ◌∷◌, ◌==◌, if◌then◌else◌, length, arith,
}
use thesis_share.Connect.{Stream, Connection, Engine, Output, stream_output, engine_error}
use thesis_share.Connect.Slots.{get_stream, get_connection, sum_all}
use thesis_share.Events.{
  ReadEffect, fails, overflows, faults, find_not_created, Callback, new_stream, read, stream_close,
  conn_closed, handshake, callback,
}

-- 1 for a stream that is not read; for one that has its output; for one where these differ, or that
-- has been read before it was made.
abbrev pub unread : Stream → ℕ
unread s = if s.is_read then 0 else 1

abbrev pub holding : Stream → ℕ
holding s = elim s.data_pointer [ none ↦ 0 | some request ↦ 1 ]

abbrev pub torn : Stream → ℕ
torn s = if (unread s == holding s) && (s.is_created || not s.is_read) then 0 else 1

-- The results of requests among the outputs.
abbrev pub results : List Output → ℕ
results [] = 0
results (stream_output request code ∷ os) = suc (results os)
results (engine_error code ∷ os) = results os

-- The requests that are queued, are held by a stream, or have been answered.
abbrev pub accounted : Engine → ℕ
accounted e = length e.request_queue + sum_all holding e.connections + results e.output_stack

-- Each stream has its output until it is read.
abbrev pub IsWhole : Engine → Type 0
IsWhole e = (sum_all torn e.connections ≡ 0) × (e.reading_streams_count < 2 ^ 32)

-- Each stream has its output until it is read, and `reading_streams_count` counts the streams that
-- are not read, and `leaked` others.
pub record IsTracked (leaked : ℕ) (e : Engine) : Type 0 where
  pub whole : sum_all torn e.connections ≡ 0
  pub counted : e.reading_streams_count ≡ (sum_all unread e.connections + leaked) % 2 ^ 32

-- The counts that an effect leaks.
abbrev pub leaks : ReadEffect → ℕ
leaks fails = 1
leaks _ = 0

pub unread-le : (s : Stream) → unread s ≤ 1
unread-le s = ground arith

-- A read that is no fault and does not overflow the output buffer.
abbrev pub IsSound : ReadEffect → Type 0
IsSound effect = (effect ≢ overflows) × (effect ≢ faults)

-- The calls that lsquic makes: a new stream for a connection that waits for one, reads of and the
-- end of a stream that it has made, and the end of a connection whose streams have ended.
abbrev pub Fits : Callback → Engine → Type 0
Fits (new_stream i) e =
    (c : Connection) × (get_connection i e.connections ≡ some c)
    × ((j : ℕ) × (find_not_created c.stream_list ≡ some j))
Fits (read i j effect) e =
    (c : Connection) × (get_connection i e.connections ≡ some c)
    × ((s : Stream) × (get_stream j c.stream_list ≡ some s) × (s.is_created ≡ true))
    × IsSound effect
Fits (stream_close i j) e =
    (c : Connection) × (get_connection i e.connections ≡ some c)
    × ((s : Stream) × (get_stream j c.stream_list ≡ some s))
Fits (conn_closed i) e =
    (c : Connection) × (get_connection i e.connections ≡ some c) × (c.stream_list ≡ [])
Fits (handshake ok) e = Unit {0}

-- The read errors among the callbacks.
abbrev pub failures : Callback → ℕ
failures (read i j effect) = leaks effect
failures _ = 0

-- What is returned, if anything is.
abbrev pub Then : (Engine → Type 0) → Option Engine → Type 0
Then P none = Unit {0}
Then P (some e) = P e

-- Each callback of the list fits the engine that the callbacks before it leave.
abbrev pub FitEach : List Callback → Engine → Type 0
FitEach [] e = Unit {0}
FitEach (cb ∷ cbs) e = Fits cb e × Then (FitEach cbs) (callback cb e)

abbrev pub all_failures : List Callback → ℕ
all_failures [] = 0
all_failures (cb ∷ cbs) = failures cb + all_failures cbs
