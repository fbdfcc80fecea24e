-- ===== src/Playout.antt =====
-- The playout of youtube_test: `checkstall` of metrics.c and the buffer length of mm_parser.c. A
-- time is a number of microseconds, and a field that is -1 until it is set is an Option. Sums of
-- times stay below 2^63 and within the integers that a double holds exactly; the difference of two
-- uint64_t timestamps wraps. `gettimelong` is the argument `timenow`.
mod Balance
mod Begin
mod Tests
use thesis_share.Base.{
  ℕ, ◌+◌, ◌-◌, ◌*◌, ◌%◌, ◌^◌, Bool, true, false, ◌||◌, Option, none, some, ltb, leb, if◌then◌else◌,
}
use thesis_share.Base.Int.{ℤ, pos, ◌-ℤ◌}

abbrev pub min_prebuffer : ℕ
min_prebuffer = 2000

abbrev pub min_stallbuffer : ℕ
min_stallbuffer = 1000

-- The fields of `metrics` for the playout, with the global `minbuffer`. `stalled` says whether
-- `errorcode` has been set to ERROR_STALL.
pub record Metrics : Type 0 where
  pub ts_list : ℕ × ℕ
  pub ts_now : ℕ
  pub ts0 : ℕ
  pub t0 : Option ℕ
  pub tmin : Option ℕ
  pub tmin0 : ℕ
  pub stime : ℕ
  pub initialprebuftime : Option ℕ
  pub numofstalls : ℕ
  pub totalstalltime : ℕ
  pub minbuffer : ℕ
  pub fail_on_stall : Bool
  pub stalled : Bool

-- `a - b` on uint64_t.
pub ts_diff : ℕ → ℕ → ℕ
ts_diff a b = (a + 2 ^ 64 - b) % 2 ^ 64

-- The highest timestamp that both streams have reached.
pub synchronise : Metrics → Metrics
synchronise m = record m {
  ts_now = if ltb m.ts_list.1 m.ts_list.0 then m.ts_list.1 else m.ts_list.0;
}

-- The first packet.
pub initial_run : ℕ → Metrics → Metrics
initial_run timenow m = elim m.t0 [
  | some t ↦ m
  | none ↦ record m { t0 = some timenow; tmin0 = timenow; ts0 = m.ts_now }
]

-- A stall: all that could be played has been played.
pub check_played_out : ℕ → Metrics → Metrics
unfolding ts_diff
check_played_out timenow m = elim m.tmin [
  | none ↦ m
  | some t ↦
      let played = ts_diff m.ts_now m.ts0 * 1000 in
      if leb (t + played) timenow
      then record m {
        tmin0 = t + played;
        tmin = none;
        ts0 = m.ts_now;
        stalled = m.stalled || m.fail_on_stall;
      }
      else m
]

-- The time since `from`, as the double that it is kept as: a negative one counts as not set.
abbrev pub time_since : ℕ → ℕ → Option ℕ
time_since from timenow = if leb from timenow then some (timenow - from) else none

-- The end of the prebuffering, the first one or that of a stall.
pub check_prebuffered : ℕ → Bool → Metrics → Metrics
unfolding ts_diff
check_prebuffered timenow end m = elim m.tmin [
  | some t ↦ m
  | none ↦
      if leb m.minbuffer (ts_diff m.ts_now m.ts0) || end
      then elim m.initialprebuftime [
        | none ↦ record m {
          tmin = some timenow;
          initialprebuftime = time_since m.stime timenow;
          minbuffer = min_stallbuffer;
        }
        | some p ↦ record m {
          tmin = some timenow;
          numofstalls = m.numofstalls + 1;
          totalstalltime = m.totalstalltime + (timenow - m.tmin0);
        }
      ]
      else m
]

pub checkstall : ℕ → Bool → Metrics → Metrics
unfolding synchronise initial_run check_played_out check_prebuffered
checkstall timenow end m =
    check_prebuffered timenow end (check_played_out timenow (initial_run timenow (synchronise m)))

-- `get_curr_playoutbuf_len_for_ts`, as its number of microseconds.
pub get_curr_playoutbuf_len_for_ts : ℕ → Metrics → ℕ → ℤ
unfolding ts_diff
get_curr_playoutbuf_len_for_ts timenow m ts = elim m.tmin [
  | none ↦ pos 0
  | some t ↦ pos (ts_diff ts m.ts0 * 1000) -ℤ (pos timenow -ℤ pos t)
]
