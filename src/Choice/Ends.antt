-- ===== src/Choice/Ends.antt =====
-- How the choice of formats ends.
use thesis_share.Base.{
  bind-some, ℕ, suc, ◌+◌, ◌≤◌, ◌≡◌, ◌⊎◌, refl, sym, ap, subst, ◌∙◌, Bool, true, false, not, ◌&&◌,
  ◌||◌, inl, inr, Bool-cases, Option, none, some, List, [], ◌∷◌, if◌then◌else◌, length, arith,
}
use thesis_share.Base.Int.{ℤ, pos, ltb_ℤ}
use thesis_share.Arguments.{codes, ProgramArguments}
use thesis_share.Choice.{
  Format, Attempt, Session, attempt_of, is_url_left, try_format, process_adaptive,
}
use thesis_share.Choice.Coverage.{reached, reached_or_zero, AreTried, ArePaired}
use thesis_share.Choice.Attempts.{
  IsTyped, select_streams-Selects, verdict, is_rejected, try_format-cases,
}

module _ (arguments : ProgramArguments) (outcome : List Attempt → ℕ × ℤ) where
  -- The bitrates of each attempt are within the one of the command line.
  abbrev pub IsAffordable : List Attempt → Type 0
  IsAffordable [] = Unit {0}
  IsAffordable (a ∷ before) =
      (ltb_ℤ arguments.max_bitrate (pos (a.video.bitrate + a.audio.bitrate)) ≡ false)
      × IsAffordable before

  abbrev pub IsAllRejected : List Attempt → Type 0
  IsAllRejected [] = Unit {0}
  IsAllRejected (a ∷ before) =
      (is_rejected arguments outcome (a ∷ before) ≡ true) × IsAllRejected before

  -- The latest attempt has been accepted, with its code, and all before it rejected.
  abbrev pub IsAccepted : List Attempt → ℕ → Type 0
  IsAccepted [] code = ⊥
  IsAccepted (a ∷ before) code =
      (is_rejected arguments outcome (a ∷ before) ≡ false)
      × IsAllRejected before
      × (code ≡ verdict arguments outcome (a ∷ before))

  -- Whether true is returned, the attempts and the error code.
  abbrev pub IsEndedAt : Bool → List Attempt → ℕ → Type 0
  IsEndedAt done attempts code =
      IsAffordable attempts
      × (((done ≡ false) × IsAllRejected attempts) ⊎ ((done ≡ true) × IsAccepted attempts code))

  abbrev pub IsEnded : Bool × Session → Type 0
  IsEnded (done, s) = IsEndedAt done s.attempts s.errorcode

  try_format-IsEnded :
      (is_adaptive : Bool) (bitrate : ℕ) (is_left : Bool) (s : Session)
      → bitrate ≡ s.url0.bitrate + s.url1.bitrate
      → IsAffordable s.attempts
      → IsAllRejected s.attempts
      → IsEnded (try_format arguments outcome is_adaptive bitrate is_left s)
  try_format-IsEnded is_adaptive bitrate is_left s sum affordable rejected =
      elim (try_format-cases arguments outcome is_adaptive bitrate is_left s) [
        | inl (dear, skipped) ↦ subst IsEnded (sym skipped) (affordable, inl (refl, rejected))
        | inr tried ↦
            let r = try_format arguments outcome is_adaptive bitrate is_left s in
            subst (λ code. IsEndedAt r.0 r.1.attempts code) (sym tried.code)
              (subst (λ done. IsEndedAt done r.1.attempts (verdict arguments outcome r.1.attempts))
                (sym tried.done)
                (subst
                  (λ attempts.
                    IsEndedAt (not (is_rejected arguments outcome attempts)) attempts
                      (verdict arguments outcome attempts))
                  (sym tried.attempts)
                  (latest
                    (record (attempt_of s) {
                      fail_on_stall =
                          if is_left || arguments.one_bitrate then false else s.fail_on_stall;
                    })
                    (ap (λ b. ltb_ℤ arguments.max_bitrate (pos b)) (sym sum) ∙ tried.affordable))))
      ]
    where
      latest :
          (a : Attempt)
          → ltb_ℤ arguments.max_bitrate (pos (a.video.bitrate + a.audio.bitrate)) ≡ false
          → IsEndedAt
              (not (is_rejected arguments outcome (a ∷ s.attempts)))
              (a ∷ s.attempts)
              (verdict arguments outcome (a ∷ s.attempts))
      latest a cheap = elim (Bool-cases (is_rejected arguments outcome (a ∷ s.attempts))) [
        | inl fails ↦ ((cheap, affordable), inl (ap not fails, (fails, rejected)))
        | inr passes ↦ ((cheap, affordable), inr (ap not passes, (passes, rejected, refl)))
      ]

  all_rejected : (r : Bool × Session) → IsEnded r → r.0 ≡ false → IsAllRejected r.1.attempts
  all_rejected r (affordable, inl (undone, rejected)) is = rejected
  all_rejected r (affordable, inr (done, accepted)) is = absurd (ground (arith, done, is))

  -- Where a loop goes on or ends after a try, `rest` being what it comes to if it goes on.
  goes_on :
      (P : Bool × Session → Type 0) (is_left : Bool) (r : Bool × Session)
      (rest : Option (Bool × Session))
      → P r
      → (is_left ≡ true → r.0 ≡ false → (end : Bool × Session) × (rest ≡ some end) × P end)
      → (end : Bool × Session) × ((if r.0
            then some (true, r.1)
            else (if is_left then rest else some (false, r.1)))
          ≡ some end)
        × P end
  goes_on P is_left (true, tried) rest ended on = ((true, tried), refl, ended)
  goes_on P true (false, tried) rest ended on = on refl refl
  goes_on P false (false, tried) rest ended on = ((false, tried), refl, ended)

  -- A try that may not fail on a stall ends the loop, unless the bitrate is too high.
  try_format-sure :
      (is_adaptive : Bool) (bitrate : ℕ) (is_left : Bool) (s : Session)
      → (is_left || arguments.one_bitrate) ≡ true
      → (try_format arguments outcome is_adaptive bitrate is_left s).0 ≡ false
      → (try_format arguments outcome is_adaptive bitrate is_left s).1.attempts ≡ s.attempts
  try_format-sure is_adaptive bitrate is_left s sure undone =
      elim (try_format-cases arguments outcome is_adaptive bitrate is_left s) [
        | inl (dear, skipped) ↦ ap (λ r. r.1.attempts) skipped
        | inr tried ↦ absurd (
            ground (
              arith,
              sym undone
                  ∙ tried.done
                  ∙ ap (λ l. not (is_rejected arguments outcome l)) tried.attempts
                  ∙ ap
                      (λ b. not (
                        is_rejected arguments outcome (
                          record (attempt_of s) {
                            fail_on_stall = if b then false else s.fail_on_stall;
                          }
                          ∷ s.attempts)))
                      sure,
            ))
      ]

  try_format-once :
      (is_adaptive : Bool) (bitrate : ℕ) (is_left : Bool) (s : Session)
      → length (try_format arguments outcome is_adaptive bitrate is_left s).1.attempts
        ≤ suc (length s.attempts)
  try_format-once is_adaptive bitrate is_left s =
      elim (try_format-cases arguments outcome is_adaptive bitrate is_left s) [
        | inl (dear, skipped) ↦ omega (arith, ap (λ r. length r.1.attempts) skipped)
        | inr tried ↦ omega (arith, ap length tried.attempts)
      ]

  -- At most one attempt more, where there is a format that is not adaptive.
  abbrev IsOnce : List Format → Session → Bool × Session → Type 0
  IsOnce no_adap s r = is_url_left no_adap ≡ true → length r.1.attempts ≤ suc (length s.attempts)

  process_adaptive-IsEnded :
      (video : Format) (videos : List Format) (a : Format) (audios no_adap : List Format)
      (s : Session)
      → IsTyped (codes "video/") (video ∷ videos)
      → IsTyped (codes "audio/") (a ∷ audios)
      → IsAffordable s.attempts
      → IsAllRejected s.attempts
      → (end : Bool × Session) × (process_adaptive arguments outcome
            (video ∷ videos)
            (a ∷ audios)
            no_adap
            s
          ≡ some end)
        × (IsEnded end × IsOnce no_adap s end)
  unfolding process_adaptive is_url_left
  process_adaptive-IsEnded video [] a audios no_adap s (medium, typed) typed' affordable rejected =
      let (selected, chosen, same, picks) = select_streams-Selects video a audios s medium typed' in
      let bitrate = selected.url0.bitrate + selected.url1.bitrate in
      let r = try_format arguments outcome true bitrate false selected in
      let tried =
        try_format-IsEnded true bitrate false selected refl
          (subst IsAffordable (sym same) affordable) (subst IsAllRejected (sym same) rejected) in
      let once : IsOnce no_adap s r =
        λ other. omega (arith, ap length same, try_format-once true bitrate false selected) in
      let (end, ran, ended) =
        goes_on (λ end. IsEnded end × IsOnce no_adap s end) false r none (tried, once)
          (λ left. absurd (ground (arith, left))) in
      (end, bind-some _ chosen ran, ended)
  process_adaptive-IsEnded video (v ∷ videos) a audios no_adap s (medium, typed) typed' affordable
        rejected =
      let (selected, chosen, same, picks) = select_streams-Selects video a audios s medium typed' in
      let bitrate = selected.url0.bitrate + selected.url1.bitrate in
      let is_left = is_url_left (v ∷ videos) && is_url_left no_adap in
      let r = try_format arguments outcome true bitrate is_left selected in
      let tried =
        try_format-IsEnded true bitrate is_left selected refl
          (subst IsAffordable (sym same) affordable) (subst IsAllRejected (sym same) rejected) in
      let once : IsOnce no_adap s r =
        λ other. omega (arith, ap length same, try_format-once true bitrate is_left selected) in
      let (end, ran, ended) =
        goes_on (λ end. IsEnded end × IsOnce no_adap s end) (is_url_left (v ∷ videos)) r
          (process_adaptive arguments outcome (v ∷ videos) (a ∷ audios) no_adap r.1) (tried, once)
          (λ left undone.
            let (end, ran, (ended, once')) =
              process_adaptive-IsEnded v videos a audios no_adap r.1 typed typed' tried.0
                (all_rejected r tried undone) in
            let sure : is_url_left no_adap ≡ true → (is_left || arguments.one_bitrate) ≡ true =
              λ other.
                ap (λ b. (b && is_url_left no_adap) || arguments.one_bitrate) left
                ∙ ap (λ b. b || arguments.one_bitrate) other in
            (
              end,
              ran,
              (
                ended,
                λ other. omega (
                  arith,
                  once' other,
                  ap length same,
                  ap length (try_format-sure true bitrate is_left selected (sure other) undone),
                ),
              ),
            )) in
      (end, bind-some _ chosen ran, ended)

  -- None was accepted: each that was tried was rejected, and each that can be reached was tried, or
  -- it is too expensive.
  abbrev pub IsExhausted : List Format → List Format → List Format → List Attempt → Type 0
  IsExhausted videos audios no_adap attempts =
      IsAllRejected attempts
      × ArePaired arguments audios (reached videos) attempts
      × AreTried arguments (reached_or_zero no_adap) attempts

  abbrev Result : List Format → List Format → List Format → Session → Type 0
  Result videos audios no_adap s' =
      IsAffordable s'.attempts
      × (IsExhausted videos audios no_adap s'.attempts ⊎ IsAccepted s'.attempts s'.errorcode)

  -- With a video and an audio format at least, each of which names its medium, and a format that is
  -- not adaptive, `process_adaptive` starts one download at most, also if that stalls.
  pub process_adaptive-single :
      (video : Format) (videos : List Format) (a : Format) (audios no_adap : List Format)
      (s : Session)
      → IsTyped (codes "video/") (video ∷ videos)
      → IsTyped (codes "audio/") (a ∷ audios)
      → s.attempts ≡ []
      → is_url_left no_adap ≡ true
      → (end : Bool × Session) × (process_adaptive arguments outcome
            (video ∷ videos)
            (a ∷ audios)
            no_adap
            s
          ≡ some end)
        × (length end.1.attempts ≤ 1)
  process_adaptive-single video videos a audios no_adap s typed typed' fresh other =
      let (end, ran, (ended, once)) =
        process_adaptive-IsEnded video videos a audios no_adap s typed typed'
          (subst IsAffordable (sym fresh) tt) (subst IsAllRejected (sym fresh) tt) in
      (end, ran, omega (arith, once other, ap length fresh))
