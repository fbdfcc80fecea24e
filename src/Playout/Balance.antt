-- ===== src/Playout/Balance.antt =====
-- The accounts of a playout: wall-clock time is media played and time stalled.
use thesis_share.Base.{
  ℕ, ◌+◌, ◌-◌, ◌*◌, ◌^◌, ◌≤◌, ◌<◌, ◌≡◌, ◌≢◌, Option-cases, inl, inr, Bool, none, some, arith,
}
use thesis_share.Playout.{
  Metrics, ts_diff, synchronise, initial_run, check_played_out, check_prebuffered, checkstall,
}

-- When the playout began, or will have gone on from: the start of what is played now, or of the
-- stall that is waited out.
abbrev pub mark : Metrics → ℕ
mark m = elim m.tmin [ none ↦ m.tmin0 | some t ↦ t ]

-- The playout has begun, at `start` with the timestamp `from`, and since then the clock has run
-- over the media played and over the stalls, each once.
pub record IsBalanced (start from : ℕ) (m : Metrics) : Type 0 where
  pub begun : m.t0 ≢ none
  pub prebuffered : m.initialprebuftime ≢ none
  pub onward : from ≤ m.ts0
  pub balance : mark m ≡ start + m.totalstalltime + (m.ts0 - from) * 1000

-- What holds between the steps of `checkstall`.
record InStep (start from timenow : ℕ) (m : Metrics) : Type 0 where
  is_balanced : IsBalanced start from m
  early : mark m ≤ timenow
  ahead : m.ts0 ≤ m.ts_now
  wide : m.ts_now < 2 ^ 64

initial_run-InStep :
    (start from timenow : ℕ) (m : Metrics)
    → InStep start from timenow m
    → InStep start from timenow (initial_run timenow m)
unfolding initial_run
initial_run-InStep start from timenow m i = elim (Option-cases m.t0) [
  | inl unset ↦ absurd (i.is_balanced.begun unset)
  | inr (t, set) ↦ ground (arith, i)
]

check_played_out-InStep :
    (start from timenow : ℕ) (m : Metrics)
    → InStep start from timenow m
    → InStep start from timenow (check_played_out timenow m)
unfolding check_played_out ts_diff
check_played_out-InStep start from timenow m i = elim (Option-cases m.tmin) [
  | inl waiting ↦ ground (arith, i)
  | inr (t, playing) ↦ ground (arith, i)
]

check_prebuffered-InStep :
    (start from timenow : ℕ) (end : Bool) (m : Metrics)
    → InStep start from timenow m
    → InStep start from timenow (check_prebuffered timenow end m)
unfolding check_prebuffered ts_diff
check_prebuffered-InStep start from timenow end m i = elim (Option-cases m.tmin) [
  | inl waiting ↦ ground (arith, i)
  | inr (t, playing) ↦ ground (arith, i)
]

-- `checkstall` keeps the balance: at a time not before the mark, and timestamps not before the one
-- that is played from, the wall-clock time up to the mark is the media played, in microseconds,
-- and the stall time that is counted, whether the playout goes on, stalls, waits or resumes.
pub checkstall-IsBalanced :
    (start from timenow : ℕ) (end : Bool) (m : Metrics)
    → IsBalanced start from m
    → mark m ≤ timenow
    → m.ts0 ≤ m.ts_list.0
    → m.ts0 ≤ m.ts_list.1
    → m.ts_list.0 < 2 ^ 64
    → m.ts_list.1 < 2 ^ 64
    → IsBalanced start from (checkstall timenow end m) × (mark (checkstall timenow end m) ≤ timenow)
unfolding checkstall synchronise
checkstall-IsBalanced start from timenow end m b now h0 h1 w0 w1 = (step.is_balanced, step.early)
  where
    synchronised : InStep start from timenow (synchronise m)
    synchronised = record {
      is_balanced = record {
        begun = b.begun;
        prebuffered = b.prebuffered;
        onward = b.onward;
        balance = b.balance;
      };
      early = now;
      ahead = ground arith;
      wide = ground arith;
    }

    step : InStep start from timenow (checkstall timenow end m)
    step =
        check_prebuffered-InStep start from timenow end
          (check_played_out timenow (initial_run timenow (synchronise m)))
          (check_played_out-InStep start from timenow (initial_run timenow (synchronise m))
            (initial_run-InStep start from timenow (synchronise m) synchronised))
