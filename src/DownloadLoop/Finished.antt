-- ===== src/DownloadLoop/Finished.antt =====
-- When the loop of downloadfiles is left.
use thesis_share.Base.{
  ◌>>=◌, bind-some, ℕ, ◌+◌, ◌≡◌, ◌≢◌, ◌⊎◌, refl, ap, ◌∙◌, Bool, true, false, ◌&&◌, inl, inr,
  Bool-cases, Option, some, List, [], ◌∷◌, ◌==◌, if◌then◌else◌, length, ltb, arith,
}
use thesis_share.Base.Int.{ℤ, pos, negsuc, ltb_ℤ}
use thesis_share.Choice.{itworked}
use thesis_share.Download.{VideoUrl, load_streams, load_stream, check_max_test_time}
use thesis_share.DownloadLoop.{
  State, Round, check_round, process_outputs, download_loop, cleanup_download_loop, downloadfiles,
  maxtestruntime, lsquic_engine_error,
}
use thesis_share.DownloadLoop.Answers.{IsKnown, Unlike, process_answers-Tells}

-- No stream plays.
abbrev pub IsEnded : List VideoUrl → Type 0
IsEnded [] = Unit {0}
IsEnded (url ∷ urls) = (url.playing ≡ false) × IsEnded urls

load_streams-IsEnded :
    (buffer : ℕ) (len_for_stream : ℕ → ℤ) (i : ℕ) (urls : List VideoUrl)
    → (load_streams buffer len_for_stream i urls).1 ≡ 0
    → IsEnded (load_streams buffer len_for_stream i urls).0
unfolding load_streams
load_streams-IsEnded buffer len_for_stream i [] e = tt
load_streams-IsEnded buffer len_for_stream i (url ∷ urls) e =
    elim (Bool-cases (load_stream buffer i (len_for_stream i) url).0.playing) [
      | inl plays ↦ absurd (ground (arith, e, plays))
      | inr ended ↦ (
        ended,
        load_streams-IsEnded buffer len_for_stream (i + 1) urls (ground (arith, e, ended)),
      )
    ]

module _ (requests : List ℕ) (unset : ℤ) (stime max_test_time buffer : ℕ) where
  -- A round ends with 0 and no error code, or with a negative status and one.
  abbrev Ends : State → Option (ℤ × State) → Type 0
  Ends before run =
      (status : ℤ) × (s : State) × (run ≡ some (status, s))
      × (((ltb_ℤ status (pos 0) ≡ true) × (s.errorcode ≢ 0))
          ⊎ ((ltb_ℤ status (pos 0) ≡ false) × (s.errorcode ≡ 0)))
      × Unlike before s

  check_round_lem :
      (round : Round) (s : State)
      → let r = check_round requests unset stime max_test_time buffer round s in
        (((ltb_ℤ r.0 (pos 0) ≡ true) × (r.1.errorcode ≢ 0))
          ⊎ ((ltb_ℤ r.0 (pos 0) ≡ false) × (r.1.errorcode ≡ 0)))
        × Unlike s r.1
  unfolding check_round
  check_round_lem round s =
      by_time (check_max_test_time round.now stime round.initialprebuftime max_test_time)
    where
      by_code :
          (timed : State)
          → Unlike s timed
          → let r : ℤ × State =
              if timed.errorcode == 0 then (pos 0, timed) else (negsuc 0, timed) in
            (((ltb_ℤ r.0 (pos 0) ≡ true) × (r.1.errorcode ≢ 0))
              ⊎ ((ltb_ℤ r.0 (pos 0) ≡ false) × (r.1.errorcode ≡ 0)))
            × Unlike s r.1
      by_code timed unlike = elim (Bool-cases (timed.errorcode == 0)) [
        | inl fine ↦ rw fine (inr (refl, ground (arith, fine)), unlike)
        | inr failed ↦ rw failed (inl (refl, ground (arith, failed)), unlike)
      ]

      by_time :
          (late : Bool)
          → let timed : State = if late then record s { errorcode = maxtestruntime } else s in
            let r : ℤ × State =
              if timed.errorcode == 0 then (pos 0, timed) else (negsuc 0, timed) in
            (((ltb_ℤ r.0 (pos 0) ≡ true) × (r.1.errorcode ≢ 0))
              ⊎ ((ltb_ℤ r.0 (pos 0) ≡ false) × (r.1.errorcode ≡ 0)))
            × Unlike s r.1
      by_time true =
          by_code (record s { errorcode = maxtestruntime }) (λ unlike e. absurd (ground (arith, e)))
      by_time false = by_code s (λ unlike. unlike)

  process_outputs-Ends :
      (round : Round) (s : State)
      → ltb_ℤ unset (pos 0) ≡ false
      → IsKnown requests round.answers
      → Ends s (process_outputs requests unset stime max_test_time buffer round s)
  unfolding process_outputs
  process_outputs-Ends round s set known =
      let started : State =
        if length round.answers == 0 then record s { errorcode = lsquic_engine_error } else s in
      let (status, s', ran, tells, unlike) =
        process_answers-Tells requests unset stime max_test_time buffer round.answers started set
          known in
      let checked = check_round requests unset stime max_test_time buffer round s' in
      elim (Bool-cases (ltb_ℤ status (pos 0))) [
        | inl negative ↦ (
          status,
          s',
          bind-some _ ran (ap (λ b. if b then some (status, s') else some checked) negative),
          inl (negative, tells negative),
          λ first. unlike (at_start first),
        )
        | inr fine ↦ (
          checked.0,
          checked.1,
          bind-some _ ran (ap (λ b. if b then some (status, s') else some checked) fine),
          (check_round_lem round s').0,
          λ first. (check_round_lem round s').1 (unlike (at_start first)),
        )
      ]
    where
      at_start :
          s.errorcode ≢ itworked
          → (if length round.answers == 0
              then record s { errorcode = lsquic_engine_error }
              else s).errorcode
            ≢ itworked
      at_start unlike = elim (Bool-cases (length round.answers == 0)) [
        | inl empty ↦ rw empty (λ e. absurd (ground (arith, e)))
        | inr full ↦ rw full unlike
      ]

  abbrev pub IsKnownEach : List Round → Type 0
  IsKnownEach [] = Unit {0}
  IsKnownEach (round ∷ rounds) = IsKnown requests round.answers × IsKnownEach rounds

  -- The loop goes on, or is left with an error code or with no stream that plays.
  abbrev IsLeft : State → Option (Bool × State) → Type 0
  IsLeft before run =
      (left : Bool) × (s : State) × (run ≡ some (left, s))
      × (left ≡ true → s.errorcode ≡ 0 → IsEnded s.urls)
      × Unlike before s

  download_loop-IsLeft :
      (rounds : List Round) (s : State)
      → ltb_ℤ unset (pos 0) ≡ false
      → IsKnownEach rounds
      → IsLeft s (download_loop requests unset stime max_test_time buffer rounds s)
  unfolding download_loop
  download_loop-IsLeft [] s set known =
      (false, s, refl, λ left. absurd (ground (arith, left)), λ unlike. unlike)
  download_loop-IsLeft (round ∷ rounds) s set (mine, known) = elim (Bool-cases (run == 0)) [
    | inl over ↦ (
      true,
      loaded,
      ap (λ b. choose b fails) over,
      λ left fine. load_streams-IsEnded buffer round.len_for_stream 0 s.urls (ground (arith, over)),
      λ unlike. unlike,
    )
    | inr plays ↦ elim (Bool-cases fails) [
      | inl failed ↦ (
        true,
        record loaded { errorcode = lsquic_engine_error },
        ap (λ b. choose b fails) plays ∙ ap (choose false) failed,
        λ left fine. absurd (ground (arith, fine)),
        λ unlike e. absurd (ground (arith, e)),
      )
      | inr started ↦
          let (status, s', ran, ends, unlike) = process_outputs-Ends round loaded set mine in
          let chosen = ap (λ b. choose b fails) plays ∙ ap (choose false) started in
          elim ends [
            | inl (negative, told) ↦ (
              true,
              s',
              chosen ∙ bind-some _ ran (ap (further s') negative),
              λ left fine. absurd (told fine),
              unlike,
            )
            | inr (positive, fine) ↦
                let (left, s'', ran', ended, unlike') = download_loop-IsLeft rounds s' set known in
                (
                  left,
                  s'',
                  chosen ∙ bind-some _ ran (ap (further s') positive ∙ ran'),
                  ended,
                  λ first. unlike' (unlike first),
                )
          ]
    ]
  ]
    where
      run : ℕ
      run = (load_streams buffer round.len_for_stream 0 s.urls).1

      loaded : State
      loaded = record s { urls = (load_streams buffer round.len_for_stream 0 s.urls).0 }

      fails : Bool
      fails =
          ltb 0 (length (load_streams buffer round.len_for_stream 0 s.urls).2) && round.start_fails

      further : State → Bool → Option (Bool × State)
      further s' b =
          if b
          then some (true, s')
          else download_loop requests unset stime max_test_time buffer rounds s'

      choose : Bool → Bool → Option (Bool × State)
      choose over failed =
          if over
          then some (true, loaded)
          else (if failed
              then some (true, record loaded { errorcode = lsquic_engine_error })
              else (do
                (status, s') ←
                    process_outputs requests unset stime max_test_time buffer round loaded
                further s' (ltb_ℤ status (pos 0))))

  -- Where each output belongs to a request, and the value that is read where check_errors returns
  -- none is not negative, downloadfiles gets through its rounds, and if it returns ITWORKED, then no
  -- stream plays any more: each has had its last answer.
  pub downloadfiles-IsEnded :
      (rounds : List Round) (s : State)
      → ltb_ℤ unset (pos 0) ≡ false
      → IsKnownEach rounds
      → (left : Bool) × (s' : State) × (downloadfiles requests unset stime max_test_time buffer
            rounds s
          ≡ some (left, s'))
        × (left ≡ true → s'.errorcode ≢ 0)
        × (left ≡ true → s'.errorcode ≡ itworked → IsEnded s'.urls)
  unfolding downloadfiles cleanup_download_loop
  downloadfiles-IsEnded rounds s set known =
      let (left, s', ran, ended, unlike) =
        download_loop-IsLeft rounds (record s { errorcode = 0; last_http_code = 0 }) set known in
      let (left', s'', ran', coded, finished) =
        finish left s' ended (unlike (λ e. absurd (ground (arith, e)))) in
      (left', s'', bind-some _ ran ran', coded, finished)
    where
      returned : Bool → State → Option (Bool × State)
      returned left s' = if left then some (true, cleanup_download_loop s') else some (false, s')

      finish :
          (left : Bool) (s' : State)
          → (left ≡ true → s'.errorcode ≡ 0 → IsEnded s'.urls)
          → s'.errorcode ≢ itworked
          → (left' : Bool) × (s'' : State) × (returned left s' ≡ some (left', s''))
            × (left' ≡ true → s''.errorcode ≢ 0)
            × (left' ≡ true → s''.errorcode ≡ itworked → IsEnded s''.urls)
      finish false s' ended unlike =
          (false, s', refl, λ l. absurd (ground (arith, l)), λ l. absurd (ground (arith, l)))
      finish true s' ended unlike = elim (Bool-cases (s'.errorcode == 0)) [
        | inl fine ↦ (
          true,
          record s' { errorcode = itworked },
          ap (λ b. some (true, if b then record s' { errorcode = itworked } else s')) fine,
          λ l e. absurd (ground (arith, e)),
          λ l e. ended refl (ground (arith, fine)),
        )
        | inr failed ↦ (
          true,
          s',
          ap (λ b. some (true, if b then record s' { errorcode = itworked } else s')) failed,
          λ l e. absurd (ground (arith, e, failed)),
          λ l e. absurd (unlike e),
        )
      ]
