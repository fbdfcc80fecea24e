-- ===== src/Choice/Attempts.antt =====
-- Which formats are tried, and when the choice ends.
use thesis_share.Base.{
  ◌>>=◌, bind-some, ℕ, ◌+◌, ◌≡◌, ◌⊎◌, refl, sym, ap, ◌∙◌, Bool, true, false, not, ◌&&◌, ◌||◌, inl,
  inr, Bool-cases, Option, some, List, [], ◌∷◌, ◌==◌, if◌then◌else◌,
}
use thesis_share.Base.Int.{ℤ, pos, ltb_ℤ}
use thesis_share.HttpHeader.{Text}
use thesis_share.Arguments.{codes, text_eq, ProgramArguments}
use thesis_share.Choice.{
  itworked, error_stall, too_fast, microseconds, Format, Attempt, Session, attempt_of,
  restart_metrics, is_url_left, text_behind, match_audio, select_streams, filetype_from_text,
  check_process_errors, downloadfiles, try_format,
}

-- Each type of the formats names its medium.
abbrev pub IsTyped : Text → List Format → Type 0
IsTyped medium [] = Unit {0}
IsTyped medium (f ∷ fs) = ((t : Text) × (text_behind f.type medium ≡ some t)) × IsTyped medium fs

-- The second stream is chosen, with nothing tried.
record IsSelected (s : Session) (s' : Session) : Type 0 where
  attempts : s'.attempts ≡ s.attempts
  video : s'.url0 ≡ s.url0

Selects : Session → Option Session → Type 0
Selects s run = (s' : Session) × (run ≡ some s') × IsSelected s s'

matched :
    (vformat aformat : Text) (a : Format) (s : Session) (others : Option Session)
    → text_behind a.type (codes "audio/") ≡ some aformat
    → Selects s others
    → Selects s (do
      t ← text_behind a.type (codes "audio/")
      if text_eq vformat t then some (record s { url1 = a; numofstreams = 2 }) else others)
unfolding Selects
matched vformat aformat a s others found (s', ran, selected) =
    elim (Bool-cases (text_eq vformat aformat)) [
      | inl same ↦ (
        record s { url1 = a; numofstreams = 2 },
        bind-some _ found
            (ap (λ b. if b then some (record s { url1 = a; numofstreams = 2 }) else others) same),
        record { attempts = refl; video = refl },
      )
      | inr other ↦ (
        s',
        bind-some _ found (
            ap (λ b. if b then some (record s { url1 = a; numofstreams = 2 }) else others) other
            ∙ ran),
        selected,
      )
    ]

match_audio-Selects :
    (vformat : Text) (a : Format) (audios : List Format) (s : Session)
    → IsTyped (codes "audio/") (a ∷ audios)
    → Selects s (match_audio vformat (a ∷ audios) s)
unfolding match_audio is_url_left Selects
match_audio-Selects vformat a [] s ((aformat, found), typed) =
    matched vformat aformat a s (some s) found (s, refl, record { attempts = refl; video = refl })
match_audio-Selects vformat a (b ∷ audios) s ((aformat, found), typed) =
    matched vformat aformat a s
      (if is_url_left (b ∷ audios) then match_audio vformat (b ∷ audios) s else some s) found
      (elim (Bool-cases (is_url_left (b ∷ audios))) [
        | inl left ↦
            let (s', ran, selected) = match_audio-Selects vformat b audios s typed in
            (
              s',
              ap (λ l. if l then match_audio vformat (b ∷ audios) s else some s) left ∙ ran,
              selected,
            )
        | inr ended ↦ (
          s,
          ap (λ l. if l then match_audio vformat (b ∷ audios) s else some s) ended,
          record { attempts = refl; video = refl },
        )
      ])

pub select_streams-Selects :
    (video a : Format) (audios : List Format) (s : Session)
    → ((t : Text) × (text_behind video.type (codes "video/") ≡ some t))
    → IsTyped (codes "audio/") (a ∷ audios)
    → (s' : Session) × (select_streams video (a ∷ audios) s ≡ some s')
      × (s'.attempts ≡ s.attempts)
      × (s'.url0 ≡ video)
unfolding select_streams restart_metrics Selects
select_streams-Selects video a audios s (vformat, found) typed =
    let (s', ran, selected) =
      match_audio-Selects vformat a audios
        (record (restart_metrics s) { url0 = video; numofstreams = 1 }) typed in
    (s', bind-some _ found ran, selected.attempts, selected.video)

module _ (arguments : ProgramArguments) (outcome : List Attempt → ℕ × ℤ) where
  -- The error code after the test for a download that was too fast.
  abbrev pub verdict : List Attempt → ℕ
  verdict attempts =
      if ((outcome attempts).0 == itworked)
        && ltb_ℤ (outcome attempts).1 (microseconds arguments.min_test_time)
      then too_fast
      else (outcome attempts).0

  -- Whether the latest attempt was one that may fail on a stall, and stalled or was too fast.
  abbrev pub is_rejected : List Attempt → Bool
  is_rejected [] = false
  is_rejected (a ∷ before) =
      a.fail_on_stall && (verdict (a ∷ before) == error_stall || verdict (a ∷ before) == too_fast)

  -- What a try comes to, if the bitrate is not too high.
  pub record IsTried (bitrate : ℕ) (may_pass : Bool) (s : Session) (r : Bool × Session)
      : Type 0 where
    pub affordable : ltb_ℤ arguments.max_bitrate (pos bitrate) ≡ false
    pub attempts :
        r.1.attempts
        ≡ record (attempt_of s) { fail_on_stall = if may_pass then false else s.fail_on_stall }
          ∷ s.attempts
    pub done : r.0 ≡ not (is_rejected r.1.attempts)
    pub code : r.1.errorcode ≡ verdict r.1.attempts
    pub audio : r.1.url1 ≡ s.url1

  check_process_errors_lem :
      (d : Session)
      → let code =
          if (d.errorcode == itworked)
            && ltb_ℤ d.downloadtime (microseconds arguments.min_test_time)
          then too_fast
          else d.errorcode in
        let checked = check_process_errors arguments.min_test_time d in
        (checked.0 ≡ (d.fail_on_stall && (code == error_stall || code == too_fast)))
        × (checked.1.errorcode ≡ code)
        × (checked.1.attempts ≡ d.attempts)
        × (checked.1.url1 ≡ d.url1)
  unfolding check_process_errors
  check_process_errors_lem d = by_test (
      if (d.errorcode == itworked) && ltb_ℤ d.downloadtime (microseconds arguments.min_test_time)
      then too_fast
      else d.errorcode)
    where
      by_test :
          (code : ℕ)
          → let checked : Bool × Session =
              if d.fail_on_stall && (code == error_stall || code == too_fast)
              then (true, record d { errorcode = code; printed = d.printed + 1 })
              else (false, record d { errorcode = code }) in
            (checked.0 ≡ (d.fail_on_stall && (code == error_stall || code == too_fast)))
            × (checked.1.errorcode ≡ code)
            × (checked.1.attempts ≡ d.attempts)
            × (checked.1.url1 ≡ d.url1)
      by_test code =
          elim (Bool-cases (d.fail_on_stall && (code == error_stall || code == too_fast))) [
            | inl fails ↦ rw fails (refl, refl, refl, refl)
            | inr passes ↦ rw passes (refl, refl, refl, refl)
          ]

  pub try_format-cases :
      (is_adaptive : Bool) (bitrate : ℕ) (is_left : Bool) (s : Session)
      → let r = try_format arguments outcome is_adaptive bitrate is_left s in
        (ltb_ℤ arguments.max_bitrate (pos bitrate) ≡ true) × (r ≡ (false, s))
        ⊎ IsTried bitrate (is_left || arguments.one_bitrate) s r
  unfolding try_format downloadfiles check_process_errors
  try_format-cases is_adaptive bitrate is_left s =
      elim (Bool-cases (ltb_ℤ arguments.max_bitrate (pos bitrate))) [
        | inl dear ↦ inl (dear, rw dear refl)
        | inr affordable ↦ inr (rw affordable (go (is_left || arguments.one_bitrate) affordable))
      ]
    where
      typed : Session
      typed = record s { ft = filetype_from_text is_adaptive s }

      go :
          (b : Bool)
          → let chosen = if b then record typed { fail_on_stall = false } else typed in
            let checked =
              check_process_errors arguments.min_test_time
                (downloadfiles arguments outcome chosen) in
            ltb_ℤ arguments.max_bitrate (pos bitrate) ≡ false
            → IsTried bitrate b s (not checked.0, checked.1)
      go true affordable =
          let after = downloadfiles arguments outcome (record typed { fail_on_stall = false }) in
          let (rejects, code, attempts, audio) = check_process_errors_lem after in
          record {
            affordable = affordable;
            attempts = attempts;
            done = ap not rejects ∙ ap (λ as_. not (is_rejected as_)) (sym attempts);
            code = code ∙ ap verdict (sym attempts);
            audio = audio;
          }
      go false affordable =
          let after = downloadfiles arguments outcome typed in
          let (rejects, code, attempts, audio) = check_process_errors_lem after in
          record {
            affordable = affordable;
            attempts = attempts;
            done = ap not rejects ∙ ap (λ as_. not (is_rejected as_)) (sym attempts);
            code = code ∙ ap verdict (sym attempts);
            audio = audio;
          }
