-- ===== src/TimeDifference/Elapsed.antt =====
-- What the time differences of timedifference.c, timespec_convertor.c and main.c mean.
use thesis_share.Base.{
  ℕ, ◌+◌, ◌-◌, ◌*◌, ◌<◌, ◌≡◌, ◌⊎◌, inl, inr, sym, ◌∙◌, arith, ltb, Bool-cases, ltb→lt, nltb→le,
}
use thesis_share.Base.Int.{
  ℤ, pos, ◌+ℤ◌, ◌-ℤ◌, ◌≤ℤ◌, scale, pos_part, neg_part, +ℤ_parts, -ℤ_parts, scale_parts, eq_of_parts,
}
use thesis_share.TimeDifference.{
  Timespec, nanoseconds_in_second, timespec_diff, fill_time_difference, get_time_diff,
}

abbrev pub IsNormal : Timespec → Type 0
IsNormal t = t.tv_nsec < nanoseconds_in_second

-- The instant that a time stands for, in nanoseconds.
unfoldable pub nanoseconds : Timespec → ℤ
nanoseconds t = scale nanoseconds_in_second t.tv_sec +ℤ pos t.tv_nsec

nanoseconds_parts :
    (t : Timespec)
    → pos_part (nanoseconds t) + 1_000_000_000 * neg_part t.tv_sec
      ≡ neg_part (nanoseconds t) + 1_000_000_000 * pos_part t.tv_sec + t.tv_nsec
unfolding nanoseconds
nanoseconds_parts t = omega (
  arith,
  +ℤ_parts (scale nanoseconds_in_second t.tv_sec) (pos t.tv_nsec),
  scale_parts nanoseconds_in_second t.tv_sec,
)

sum_parts :
    (a b : ℤ) (n : ℕ)
    → pos_part (scale nanoseconds_in_second (a -ℤ b) +ℤ pos n)
        + 1_000_000_000 * (neg_part a + pos_part b)
      ≡ neg_part (scale nanoseconds_in_second (a -ℤ b) +ℤ pos n)
        + 1_000_000_000 * (pos_part a + neg_part b)
        + n
sum_parts a b n = omega (
  arith,
  +ℤ_parts (scale nanoseconds_in_second (a -ℤ b)) (pos n),
  scale_parts nanoseconds_in_second (a -ℤ b),
  -ℤ_parts a b,
)

diff_parts :
    (t u : Timespec)
    → IsNormal t
    → IsNormal u
    → IsNormal (timespec_diff t u)
      × (1_000_000_000 * pos_part (timespec_diff t u).tv_sec
            + (timespec_diff t u).tv_nsec
            + 1_000_000_000 * (neg_part t.tv_sec + pos_part u.tv_sec)
            + u.tv_nsec
          ≡ 1_000_000_000 * neg_part (timespec_diff t u).tv_sec
            + 1_000_000_000 * (pos_part t.tv_sec + neg_part u.tv_sec)
            + t.tv_nsec)
unfolding timespec_diff
diff_parts t u ht hu =
    ground (arith, -ℤ_parts t.tv_sec u.tv_sec, -ℤ_parts (t.tv_sec -ℤ u.tv_sec) (pos 1))

-- The difference of two normal times is normal and is the exact signed distance in nanoseconds,
-- the borrow of a second included, whichever time is the later one.
pub timespec_diff-nanoseconds :
    (t u : Timespec)
    → IsNormal t
    → IsNormal u
    → IsNormal (timespec_diff t u)
      × (nanoseconds (timespec_diff t u) ≡ nanoseconds t -ℤ nanoseconds u)
timespec_diff-nanoseconds t u ht hu = (
  (diff_parts t u ht hu).0,
  eq_of_parts _ _ (
      omega (
        arith,
        (diff_parts t u ht hu).1,
        nanoseconds_parts t,
        nanoseconds_parts u,
        nanoseconds_parts (timespec_diff t u),
        -ℤ_parts (nanoseconds t) (nanoseconds u),
      )),
)

-- `fill_time_difference` of two normal times is normal, and gives the distance from the earlier
-- to the later one, in whichever order they are passed: it is never negative.
pub fill_time_difference-distance :
    (t u : Timespec)
    → IsNormal t
    → IsNormal u
    → IsNormal (fill_time_difference t u)
      × (pos 0 ≤ℤ nanoseconds (fill_time_difference t u))
      × ((nanoseconds (fill_time_difference t u) ≡ nanoseconds t -ℤ nanoseconds u)
          ⊎ (nanoseconds (fill_time_difference t u) ≡ nanoseconds u -ℤ nanoseconds t))
unfolding fill_time_difference
fill_time_difference-distance t u ht hu = ground (
  arith,
  timespec_diff-nanoseconds t u ht hu,
  timespec_diff-nanoseconds u t hu ht,
  nanoseconds_parts t,
  nanoseconds_parts u,
  -ℤ_parts (nanoseconds t) (nanoseconds u),
  -ℤ_parts (nanoseconds u) (nanoseconds t),
)

elapsed_parts :
    (now start : Timespec)
    → IsNormal now
    → IsNormal start
    → pos_part (get_time_diff now start)
        + 1_000_000_000 * (neg_part now.tv_sec + pos_part start.tv_sec)
        + start.tv_nsec
      ≡ neg_part (get_time_diff now start)
        + 1_000_000_000 * (pos_part now.tv_sec + neg_part start.tv_sec)
        + now.tv_nsec
unfolding get_time_diff
elapsed_parts now start hn hs = elim (Bool-cases (ltb now.tv_nsec start.tv_nsec)) [
  | inl borrow ↦ rw borrow (
      ground (
        arith,
        ltb→lt now.tv_nsec start.tv_nsec borrow,
        sum_parts (now.tv_sec -ℤ pos 1) start.tv_sec
            (now.tv_nsec + nanoseconds_in_second - start.tv_nsec),
        -ℤ_parts now.tv_sec (pos 1),
      ))
  | inr plain ↦ rw plain (
      ground (
        arith,
        nltb→le now.tv_nsec start.tv_nsec plain,
        sum_parts now.tv_sec start.tv_sec (now.tv_nsec - start.tv_nsec),
      ))
]

-- `get_time_diff` of two normal times is their exact signed distance in nanoseconds, as the
-- subtraction of timespec_convertor.c gives it.
pub get_time_diff-nanoseconds :
    (now start : Timespec)
    → IsNormal now
    → IsNormal start
    → (get_time_diff now start ≡ nanoseconds now -ℤ nanoseconds start)
      × (get_time_diff now start ≡ nanoseconds (timespec_diff now start))
get_time_diff-nanoseconds now start hn hs =
    (exact, exact ∙ sym (timespec_diff-nanoseconds now start hn hs).1)
  where
    exact : get_time_diff now start ≡ nanoseconds now -ℤ nanoseconds start
    exact = eq_of_parts _ _ (
        omega (
          arith,
          elapsed_parts now start hn hs,
          nanoseconds_parts now,
          nanoseconds_parts start,
          -ℤ_parts (nanoseconds now) (nanoseconds start),
        ))
