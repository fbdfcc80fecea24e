-- ===== src/Playout/Begin.antt =====
-- The beginning of a playout, and the length of its buffer.
use mathlib.Core.Path.{subst}
use thesis_share.Base.{
  sym, ap, ◌∙◌, ℕ, ◌+◌, ◌-◌, ◌*◌, ◌^◌, ◌≤◌, ◌<◌, ◌≡◌, ◌≢◌, ◌⊎◌, Option-cases, Bool-cases, inl, inr,
  Bool, true, false, ◌||◌, ◌%◌, ltb, if◌then◌else◌, none, some, arith, leb,
}
use thesis_share.Base.Int.{pos, ◌-ℤ◌, ◌≤ℤ◌, -ℤ_parts}
use thesis_share.Playout.{
  Metrics, ts_diff, synchronise, initial_run, check_played_out, check_prebuffered, checkstall,
  get_curr_playoutbuf_len_for_ts,
}
use thesis_share.Playout.Balance.{IsBalanced}

initial_run-same : (timenow : ℕ) (m : Metrics) → m.t0 ≢ none → initial_run timenow m ≡ m
unfolding initial_run
initial_run-same timenow m begun = elim (Option-cases m.t0) [
  | inl unset ↦ absurd (begun unset)
  | inr (t, set) ↦ ground (arith, set)
]

check_played_out-same : (timenow : ℕ) (m : Metrics) → m.tmin ≡ none → check_played_out timenow m ≡ m
unfolding check_played_out
check_played_out-same timenow m waiting = ground (arith, waiting)

checkstall-check_prebuffered :
    (timenow : ℕ) (end : Bool) (m : Metrics)
    → m.t0 ≢ none
    → m.tmin ≡ none
    → checkstall timenow end m ≡ check_prebuffered timenow end (synchronise m)
unfolding checkstall synchronise
checkstall-check_prebuffered timenow end m begun waiting =
    ap (λ x. check_prebuffered timenow end (check_played_out timenow x))
      (initial_run-same timenow (synchronise m) begun)
    ∙ ap (check_prebuffered timenow end) (check_played_out-same timenow (synchronise m) waiting)

-- What a call comes to while the first prebuffering lasts, `reached` being the timestamp that both
-- streams have reached: whether that is far enough, or the end, decides.
abbrev pub Begins : ℕ → Bool → ℕ → Metrics → Metrics → Type 0
Begins timenow end reached m m' =
    ((reached + 2 ^ 64 - m.ts0) % 2 ^ 64 < m.minbuffer)
      × (end ≡ false)
      × (m'.tmin ≡ none)
      × (m'.initialprebuftime ≡ none)
      × (m'.totalstalltime ≡ 0)
      × (m'.minbuffer ≡ m.minbuffer)
    ⊎ (m.minbuffer ≤ (reached + 2 ^ 64 - m.ts0) % 2 ^ 64 ⊎ (end ≡ true))
      × (m'.tmin ≡ some timenow)
      × IsBalanced timenow m.ts0 m'
      × (m'.initialprebuftime ≡ some (timenow - m.stime))
      × (m'.numofstalls ≡ m.numofstalls)
      × (m'.minbuffer ≡ 1000)

check_prebuffered-Begins :
    (timenow : ℕ) (end : Bool) (m : Metrics)
    → m.t0 ≢ none
    → m.tmin ≡ none
    → m.initialprebuftime ≡ none
    → m.totalstalltime ≡ 0
    → m.stime ≤ timenow
    → Begins timenow end m.ts_now m (check_prebuffered timenow end m)
unfolding check_prebuffered ts_diff
check_prebuffered-Begins timenow end m begun waiting first none_yet later =
    elim (Bool-cases (leb m.minbuffer (ts_diff m.ts_now m.ts0) || end)) [
      | inl enough ↦ inr (ground (arith, begun, enough))
      | inr short ↦ inl (ground (arith, short))
    ]

-- While the first prebuffering lasts, at a time not before the start of the test, `checkstall`
-- leaves it lasting if `end` is false and the lower of the two timestamps is less than `minbuffer`
-- past the first one. Otherwise it begins the playout: with a balance from the present time and the
-- first timestamp, no stall counted, the time that the prebuffering has taken noted, and the buffer
-- that a stall waits for lowered to 1000.
pub checkstall-Begins :
    (timenow : ℕ) (end : Bool) (m : Metrics)
    → m.t0 ≢ none
    → m.tmin ≡ none
    → m.initialprebuftime ≡ none
    → m.totalstalltime ≡ 0
    → m.stime ≤ timenow
    → Begins timenow end
        (if ltb m.ts_list.1 m.ts_list.0 then m.ts_list.1 else m.ts_list.0)
        m
        (checkstall timenow end m)
unfolding synchronise
checkstall-Begins timenow end m begun waiting first none_yet later =
    subst (Begins timenow end (if ltb m.ts_list.1 m.ts_list.0 then m.ts_list.1 else m.ts_list.0) m)
      (sym (checkstall-check_prebuffered timenow end m begun waiting))
      (check_prebuffered-Begins timenow end (synchronise m) begun waiting first none_yet later)

-- What is played is not played out.
abbrev Playable : ℕ → Metrics → Type 0
Playable timenow m =
    (m.ts0 ≤ m.ts_now) × ((t : ℕ) → m.tmin ≡ some t → timenow ≤ t + (m.ts_now - m.ts0) * 1000)

check_played_out-Playable :
    (timenow : ℕ) (m : Metrics)
    → m.ts0 ≤ m.ts_now
    → m.ts_now < 2 ^ 64
    → Playable timenow (check_played_out timenow m)
      × ((check_played_out timenow m).ts_now ≡ m.ts_now)
unfolding check_played_out ts_diff
check_played_out-Playable timenow m ahead wide = elim (Option-cases m.tmin) [
  | inl waiting ↦ ground (arith, waiting)
  | inr (t, playing) ↦ ground (arith, playing)
]

check_prebuffered-Playable :
    (timenow : ℕ) (end : Bool) (m : Metrics)
    → Playable timenow m
    → Playable timenow (check_prebuffered timenow end m)
      × ((check_prebuffered timenow end m).ts_now ≡ m.ts_now)
unfolding check_prebuffered
check_prebuffered-Playable timenow end m p = elim (Option-cases m.tmin) [
  | inl waiting ↦ ground (arith, waiting)
  | inr (t, playing) ↦ ground (arith, playing)
]

buffer_len-Playable :
    (timenow : ℕ) (m : Metrics) (ts : ℕ)
    → Playable timenow m
    → m.ts_now ≤ ts
    → ts < 2 ^ 64
    → pos 0 ≤ℤ get_curr_playoutbuf_len_for_ts timenow m ts
unfolding get_curr_playoutbuf_len_for_ts ts_diff
buffer_len-Playable timenow m ts p later wide = elim (Option-cases m.tmin) [
  | inl waiting ↦ ground (arith, waiting)
  | inr (t, playing) ↦ ground (
    arith,
    p.1 t playing,
    -ℤ_parts (pos (ts_diff ts m.ts0 * 1000)) (pos timenow -ℤ pos t),
    -ℤ_parts (pos timenow) (pos t),
  )
]

-- After `checkstall`, with timestamps not before the one that is played from, the playout buffers
-- of both streams are not negative at that time: what was played out has become a stall.
pub checkstall-buffer_len :
    (timenow : ℕ) (end : Bool) (m : Metrics)
    → m.t0 ≢ none
    → m.ts0 ≤ m.ts_list.0
    → m.ts0 ≤ m.ts_list.1
    → m.ts_list.0 < 2 ^ 64
    → m.ts_list.1 < 2 ^ 64
    → (pos 0 ≤ℤ get_curr_playoutbuf_len_for_ts timenow (checkstall timenow end m) m.ts_list.0)
      × (pos 0 ≤ℤ get_curr_playoutbuf_len_for_ts timenow (checkstall timenow end m) m.ts_list.1)
unfolding checkstall synchronise
checkstall-buffer_len timenow end m begun h0 h1 w0 w1 =
    let m1 = synchronise m in
    let (p2, e2) = check_played_out-Playable timenow m1 (ground arith) (ground arith) in
    let (p3, e3) = check_prebuffered-Playable timenow end (check_played_out timenow m1) p2 in
    let low0 : m1.ts_now ≤ m.ts_list.0 = ground arith in
    let low1 : m1.ts_now ≤ m.ts_list.1 = ground arith in
    let m3 = check_prebuffered timenow end (check_played_out timenow m1) in
    subst
      (λ x.
        (pos 0
          ≤ℤ get_curr_playoutbuf_len_for_ts timenow
              (check_prebuffered timenow end (check_played_out timenow x)) m.ts_list.0)
        × (pos 0
            ≤ℤ get_curr_playoutbuf_len_for_ts timenow
                (check_prebuffered timenow end (check_played_out timenow x)) m.ts_list.1))
      (sym (initial_run-same timenow m1 begun))
      (
        buffer_len-Playable timenow m3 m.ts_list.0 p3 (omega (arith, e2, e3, low0)) w0,
        buffer_len-Playable timenow m3 m.ts_list.1 p3 (omega (arith, e2, e3, low1)) w1,
      )
