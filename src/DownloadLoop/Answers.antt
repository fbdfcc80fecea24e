-- ===== src/DownloadLoop/Answers.antt =====
-- What the answers of a round leave.
use thesis_share.Base.{
  bind-some, ℕ, ◌≡◌, ◌≢◌, refl, sym, ap, ◌∙◌, Bool, true, false, inl, inr, Bool-cases, Option, none,
  some, List, [], ◌∷◌, ◌==◌, if◌then◌else◌, get_elem?, arith,
}
use thesis_share.Base.Int.{ℤ, pos, negsuc, ltb_ℤ}
use thesis_share.Choice.{itworked}
use thesis_share.Download.{VideoUrl, update_stream_progress}
use thesis_share.DownloadLoop.{
  Answer, State, change_at, process_output, put_error_metrics, quic_client_code_timeout,
  find_request_index, check_errors, update_stream, value_of, process_answer, process_answers,
  lsquic_engine_error, lsquic_timeout_error,
}

update_stream-status :
    (a : Answer) (idx : ℕ) (s : State)
    → (ltb_ℤ (update_stream a idx s).0 (pos 0) ≡ false)
      × ((update_stream a idx s).1.errorcode ≡ s.errorcode)
unfolding update_stream
update_stream-status a idx s =
    by_url (get_elem? (change_at idx (update_stream_progress a.used_size) s.urls) idx)
  where
    after : State
    after = record s { urls = change_at idx (update_stream_progress a.used_size) s.urls }

    by_url :
        (o : Option VideoUrl)
        → let r : ℤ × State = elim o as (λ _. ℤ × State) [
          | none ↦ (pos 0, after)
          | some url ↦
              if url.playing
              then (pos 1, record after { totals = change_at idx (process_output a) after.totals })
              else (pos 0, after)
        ] in
          (ltb_ℤ r.0 (pos 0) ≡ false) × (r.1.errorcode ≡ s.errorcode)
    by_url none = (refl, refl)
    by_url (some url) = elim (Bool-cases url.playing) [
      | inl plays ↦ rw plays (refl, refl)
      | inr ended ↦ rw ended (refl, refl)
    ]

-- Each answer is to one of the requests.
abbrev pub IsKnown : List ℕ → List Answer → Type 0
IsKnown requests [] = Unit {0}
IsKnown requests (a ∷ answers) =
    ((idx : ℕ) × (find_request_index 0 requests a.request ≡ some idx)) × IsKnown requests answers

-- The code of success is not that of a failure, and stays away.
abbrev pub Unlike : State → State → Type 0
Unlike s s' = s.errorcode ≢ itworked → s'.errorcode ≢ itworked

-- A negative status comes with an error code.
abbrev pub Tells : State → Option (ℤ × State) → Type 0
Tells before run =
    (status : ℤ) × (s : State) × (run ≡ some (status, s))
    × (ltb_ℤ status (pos 0) ≡ true → s.errorcode ≢ 0)
    × Unlike before s

module _ (requests : List ℕ) (unset : ℤ) (stime max_test_time buffer : ℕ) where
  process_answer-Tells :
      (a : Answer) (idx : ℕ) (s : State)
      → ltb_ℤ unset (pos 0) ≡ false
      → find_request_index 0 requests a.request ≡ some idx
      → Tells s (process_answer requests unset stime max_test_time buffer a s)
  unfolding process_answer check_errors value_of
  process_answer-Tells a idx s set known = elim (Bool-cases (a.error_code == 0)) [
    | inl fine ↦ (
      (update_stream a idx seen).0,
      (update_stream a idx seen).1,
      bind-some _ known (ap judge (ap checked fine) ∙ ap (λ b. judged b (none, seen)) set),
      λ negative. absurd (ground (arith, negative, (update_stream-status a idx seen).0)),
      λ unlike success. unlike (sym (update_stream-status a idx seen).1 ∙ success),
    )
    | inr failed ↦ (
      negsuc 0,
      (checked false).1,
      bind-some _ known (ap judge (ap checked failed)),
      λ negative. nonzero,
      λ unlike. no_success,
    )
  ]
    where
      seen : State
      seen = record s { last_http_code = a.http_code }

      code : ℕ
      code =
          if a.error_code == quic_client_code_timeout
          then lsquic_timeout_error
          else lsquic_engine_error

      nonzero : code ≢ 0
      nonzero = elim (Bool-cases (a.error_code == quic_client_code_timeout)) [
        | inl late ↦ λ e. absurd (ground (arith, e, late))
        | inr other ↦ λ e. absurd (ground (arith, e, other))
      ]

      no_success : code ≢ itworked
      no_success = elim (Bool-cases (a.error_code == quic_client_code_timeout)) [
        | inl late ↦ λ e. absurd (ground (arith, e, late))
        | inr other ↦ λ e. absurd (ground (arith, e, other))
      ]

      checked : Bool → Option ℤ × State
      checked b = if b then (none, seen) else (
        some (negsuc 0),
        record seen { errorcode = code; totals = change_at idx put_error_metrics s.totals },
      )

      judged : Bool → Option ℤ × State → Option (ℤ × State)
      judged b (status, c) =
          if b
          then some (value_of requests unset stime max_test_time buffer status, c)
          else some (update_stream a idx c)

      judge : Option ℤ × State → Option (ℤ × State)
      judge (status, c) =
          judged (ltb_ℤ (value_of requests unset stime max_test_time buffer status) (pos 0))
            (status, c)

  pub process_answers-Tells :
      (answers : List Answer) (s : State)
      → ltb_ℤ unset (pos 0) ≡ false
      → IsKnown requests answers
      → Tells s (process_answers requests unset stime max_test_time buffer answers s)
  unfolding process_answers
  process_answers-Tells [] s set known =
      (pos 0, s, refl, λ negative. absurd (ground (arith, negative)), λ unlike. unlike)
  process_answers-Tells (a ∷ answers) s set ((idx, mine), known) =
      let (status, s', ran, tells, unlike) = process_answer-Tells a idx s set mine in
      elim (Bool-cases (ltb_ℤ status (pos 0))) [
        | inl negative ↦ (
          status,
          s',
          bind-some _ ran (
              ap
                (λ b.
                  if b
                  then some (status, s')
                  else process_answers requests unset stime max_test_time buffer answers s')
                negative),
          tells,
          unlike,
        )
        | inr fine ↦
            let (status', s'', ran', tells', unlike') =
              process_answers-Tells answers s' set known in
            (
              status',
              s'',
              bind-some _ ran (
                  ap
                    (λ b.
                      if b
                      then some (status, s')
                      else process_answers requests unset stime max_test_time buffer answers s')
                    fine
                  ∙ ran'),
              tells',
              λ first. unlike' (unlike first),
            )
      ]
