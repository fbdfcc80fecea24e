-- ===== src/TimeDifference.antt =====
-- quic_probe/src/timedifference.c, the conversions of youtube_test/src/timespec_convertor.c and
-- the elapsed time of quic_probe/src/main.c. A tv_sec is an integer, a tv_nsec a number (no clock
-- gives a negative one); the unsigned subtraction of nanoseconds wraps at 2^64, as 1000000000UL
-- makes it. The overflow of tv_sec itself is left out. `clock_gettime` is the argument `now`.
mod Elapsed
use thesis_share.Base.{ℕ, ◌+◌, ◌-◌, ◌/◌, ◌%◌, ◌^◌, ltb, if◌then◌else◌}
use thesis_share.Base.Int.{ℤ, pos, ◌+ℤ◌, ◌-ℤ◌, scale, ltb_ℤ}

pub record Timespec : Type 0 where
  pub tv_sec : ℤ
  pub tv_nsec : ℕ

abbrev pub nanoseconds_in_second : ℕ
nanoseconds_in_second = 1_000_000_000

-- The answers 1, 0 and -1 of `compare_timespec`.
pub data Comparison : Type 0 where
  greater less even : Comparison

pub compare_timespec : Timespec → Timespec → Comparison
compare_timespec timespec1 timespec2 =
    if ltb_ℤ timespec2.tv_sec timespec1.tv_sec
    then greater
    else if ltb_ℤ timespec1.tv_sec timespec2.tv_sec
    then less
    else if ltb timespec2.tv_nsec timespec1.tv_nsec
    then greater
    else if ltb timespec1.tv_nsec timespec2.tv_nsec
    then less
    else even

-- The subtraction with its borrow: `timespec_diff`, and the end of `fill_time_difference`.
unfoldable pub timespec_diff : Timespec → Timespec → Timespec
timespec_diff greater_time less_time =
    let sec = greater_time.tv_sec -ℤ less_time.tv_sec in
    if ltb greater_time.tv_nsec less_time.tv_nsec
    then record {
      tv_sec = sec -ℤ pos 1;
      tv_nsec =
          (nanoseconds_in_second + 2 ^ 64 - less_time.tv_nsec + greater_time.tv_nsec) % 2 ^ 64;
    }
    else record { tv_sec = sec; tv_nsec = greater_time.tv_nsec - less_time.tv_nsec }

-- `if (compare_timespec(...))` takes both 1 and -1 for true.
unfoldable pub fill_time_difference : Timespec → Timespec → Timespec
unfolding compare_timespec timespec_diff
fill_time_difference timespec1 timespec2 = elim (compare_timespec timespec1 timespec2) [
  | less ↦ timespec_diff timespec2 timespec1
  | _ ↦ timespec_diff timespec1 timespec2
]

unfoldable pub fill_time_difference_with_now : Timespec → Timespec → Timespec
unfolding fill_time_difference
fill_time_difference_with_now now timespec = fill_time_difference now timespec

-- `timespec_to_usec`.
unfoldable pub timespec_to_usec : Timespec → ℤ
timespec_to_usec time = scale 1_000_000 time.tv_sec +ℤ pos (time.tv_nsec / 1000)

-- `get_time_diff` of main.c, before the cast of its result to size_t.
unfoldable pub get_time_diff : Timespec → Timespec → ℤ
get_time_diff now start_time =
    let now_sec = if ltb now.tv_nsec start_time.tv_nsec then now.tv_sec -ℤ pos 1 else now.tv_sec in
    let nano_secs =
      if ltb now.tv_nsec start_time.tv_nsec
      then now.tv_nsec + nanoseconds_in_second - start_time.tv_nsec
      else now.tv_nsec - start_time.tv_nsec in
    scale nanoseconds_in_second (now_sec -ℤ start_time.tv_sec) +ℤ pos nano_secs
