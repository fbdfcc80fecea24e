-- ===== src/Playout/Tests.antt =====
-- A playout that stalls, and one that begins.
use thesis_share.Base.{ℕ, ◌≤◌, ◌≢◌, refl, false, Option, none, some, arith}
use thesis_share.Playout.{Metrics, checkstall}
use thesis_share.Playout.Balance.{mark, IsBalanced, checkstall-IsBalanced}
use thesis_share.Playout.Begin.{Begins, checkstall-Begins}

set_ne_none : (t : ℕ) → ◌≢◌ {A = Option ℕ} (some t) none
set_ne_none t e = ground arith

-- It has played from 1000000 on, and stalled for 500 microseconds before.
abbrev playing : Metrics
playing = record {
  ts_list = (3000, 2600);
  ts_now = 2500;
  ts0 = 2000;
  t0 = some 400_000;
  tmin = some 1_000_000;
  tmin0 = 999_500;
  stime = 300_000;
  initialprebuftime = some 200_000;
  numofstalls = 1;
  totalstalltime = 500;
  minbuffer = 1000;
  fail_on_stall = false;
  stalled = false;
}

abbrev begun_at : ℕ
begun_at = 999_500

playing-IsBalanced : IsBalanced begun_at 2000 playing
playing-IsBalanced = record {
  begun = set_ne_none 400_000;
  prebuffered = set_ne_none 200_000;
  onward = omega arith;
  balance = refl;
}

checkstall-IsBalanced_example :
    IsBalanced begun_at 2000 (checkstall 1_700_000 false playing)
    × (mark (checkstall 1_700_000 false playing) ≤ 1_700_000)
checkstall-IsBalanced_example =
    checkstall-IsBalanced begun_at 2000 1_700_000 false playing playing-IsBalanced (omega arith)
      (omega arith) (omega arith) (omega arith) (omega arith)

abbrev waiting : Metrics
waiting = record playing {
  tmin = none;
  initialprebuftime = none;
  totalstalltime = 0;
  numofstalls = 0;
  ts0 = 0;
  minbuffer = 2000;
}

checkstall-Begins_example : Begins 700_000 false 2600 waiting (checkstall 700_000 false waiting)
checkstall-Begins_example =
    checkstall-Begins 700_000 false waiting (set_ne_none 400_000) refl refl refl (omega arith)
