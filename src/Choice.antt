-- ===== src/Choice.antt =====
-- The choice of formats in youtube_test/src/youtube-dl.c: process_adaptive and process_nonadaptive
-- with what they call, and the exit code of main. A list of formats is the array up to its zeroed
-- entry, and is shorter than the array. `none` is a fault: a comparison with text behind NULL.
mod Attempts
mod Coverage
mod Ends
mod Tests
use thesis_share.Base.{
  ◌>>=◌, ℕ, zero, suc, ◌+◌, ◌-◌, ◌*◌, Bool, true, false, not, ◌&&◌, ◌||◌, Option, none, some, List,
  [], ◌∷◌, ◌++◌, ◌==◌, if◌then◌else◌, length, drop, ltb, leb, map,
}
use thesis_share.Base.Int.{ℤ, pos, negsuc, ltb_ℤ}
use thesis_share.HttpHeader.{Text}
use thesis_share.Arguments.{codes, text_eq, ProgramArguments}
use thesis_share.Replace.{strstr}

-- The codes that the functions compare with.
abbrev pub itworked : ℕ
itworked = 600

abbrev pub error_stall : ℕ
error_stall = 607

abbrev pub too_fast : ℕ
too_fast = 608

pub data FileType : Type 0 where
  mp4 : FileType
  webm : FileType
  flv : FileType
  tgpp : FileType
  mp4_a : FileType
  webm_a : FileType
  not_supported : FileType

-- The fields of a videourl that the choice reads.
pub record Format : Type 0 where
  pub url : Text
  pub type : Text
  pub bitrate : ℕ

abbrev pub zero_format : Format
zero_format = record { url = []; type = []; bitrate = 0 }

-- A call of `downloadfiles`.
pub record Attempt : Type 0 where
  pub video : Format
  pub audio : Format
  pub numofstreams : ℕ
  pub fail_on_stall : Bool

-- The fields of `metric`, with the calls of `downloadfiles`, the latest first, and the number of
-- calls of `printvalues`. `ft` is `none` where filetype_from_text returns no value. The time is in
-- microseconds.
pub record Session : Type 0 where
  pub url0 : Format
  pub url1 : Format
  pub ft : Option FileType
  pub numofstreams : ℕ
  pub errorcode : ℕ
  pub downloadtime : ℤ
  pub fail_on_stall : Bool
  pub attempts : List Attempt
  pub printed : ℕ

pub lower : ℕ → ℕ
lower c = if leb 65 c && leb c 90 then c + 32 else c

-- `strcasestr(text, rep) != NULL`
pub strcasestr : Text → Text → Bool
unfolding strstr lower
strcasestr text rep = elim (strstr (map lower text) (map lower rep)) [
  | none ↦ false
  | some k ↦ true
]

-- The text behind the first place of a pattern, `strstr(text, rep) + strlen(rep)`.
pub text_behind : Text → Text → Option Text
unfolding strstr
text_behind text rep = do k ← strstr text rep; some (drop (k + length rep) text)

pub type_of_text : Text → Option FileType
unfolding strcasestr
type_of_text text =
    if strcasestr text (codes "MP4")
    then some mp4
    else (if strcasestr text (codes "webm")
        then some webm
        else (if strcasestr text (codes "flv")
            then some flv
            else (if strcasestr text (codes "3gpp") then some tgpp else none)))

-- The type of the second stream, if there is one.
pub audio_type : Option FileType → Option FileType
audio_type none = none
audio_type (some mp4) = some mp4_a
audio_type (some webm) = some webm_a
audio_type (some other) = none

pub filetype_from_text : Bool → Session → Option FileType
unfolding type_of_text audio_type
filetype_from_text is_adaptive s =
    let from_text = type_of_text s.url0.type in
    if is_adaptive && ltb 1 s.numofstreams
    then (elim (audio_type s.ft) [ some ft ↦ some ft | none ↦ from_text ])
    else from_text

-- `restart_metrics`, as far as the choice goes; the playout is in `Playout`.
pub restart_metrics : Session → Session
restart_metrics s = record s { errorcode = 0; fail_on_stall = true }

pub reset_audio_metric : Session → Session
reset_audio_metric s = record s { url1 = zero_format; numofstreams = 1 }

pub is_url_left : List Format → Bool
is_url_left [] = false
is_url_left (f ∷ fs) = ltb 0 (length f.url)

-- The inner loop: the first audio format of the video's format becomes the second stream.
pub match_audio : Text → List Format → Session → Option Session
unfolding text_behind is_url_left
match_audio vformat [] s = none
match_audio vformat (a ∷ audios) s = do
  aformat ← text_behind a.type (codes "audio/")
  (let rest = match_audio vformat audios s in
      if text_eq vformat aformat
      then some (record s { url1 = a; numofstreams = 2 })
      else (if is_url_left audios then rest else some s))

-- The part of the body of `process_adaptive` before the bitrates are compared.
pub select_streams : Format → List Format → Session → Option Session
unfolding restart_metrics text_behind match_audio
select_streams video audios s = do
  vformat ← text_behind video.type (codes "video/")
  match_audio vformat audios (record (restart_metrics s) { url0 = video; numofstreams = 1 })

-- Seconds in microseconds.
pub microseconds : ℤ → ℤ
microseconds (pos n) = pos (n * 1000000)
microseconds (negsuc n) = negsuc (suc n * 1000000 - 1)

-- `check_process_errors`, with `should_continue`.
pub check_process_errors : ℤ → Session → Bool × Session
unfolding microseconds
check_process_errors min_test_time s =
    let code =
      if (s.errorcode == itworked) && ltb_ℤ s.downloadtime (microseconds min_test_time)
      then too_fast
      else s.errorcode in
    if s.fail_on_stall && (code == error_stall || code == too_fast)
    then (true, record s { errorcode = code; printed = s.printed + 1 })
    else (false, record s { errorcode = code })

abbrev pub attempt_of : Session → Attempt
attempt_of s = record {
  video = s.url0;
  audio = s.url1;
  numofstreams = s.numofstreams;
  fail_on_stall = s.fail_on_stall;
}

-- The command line, and the error code and the time of the video that each call of `downloadfiles`
-- leaves, given the calls before it.
module _ (arguments : ProgramArguments) (outcome : List Attempt → ℕ × ℤ) where
  pub downloadfiles : Session → Session
  downloadfiles s =
      let left = outcome (attempt_of s ∷ s.attempts) in
      record s { attempts = attempt_of s ∷ s.attempts; errorcode = left.0; downloadtime = left.1 }

  -- The rest of the body of either loop: whether the function returns true.
  pub try_format : Bool → ℕ → Bool → Session → Bool × Session
  unfolding filetype_from_text downloadfiles check_process_errors
  try_format is_adaptive bitrate is_left s =
      if ltb_ℤ arguments.max_bitrate (pos bitrate)
      then (false, s)
      else (let typed = record s { ft = filetype_from_text is_adaptive s } in
          let chosen =
            if is_left || arguments.one_bitrate
            then record typed { fail_on_stall = false }
            else typed in
          let (should_continue, checked) =
            check_process_errors arguments.min_test_time (downloadfiles chosen) in
          (not should_continue, checked))

  -- The loop of `process_adaptive` from one of the video formats.
  pub process_adaptive : List Format → List Format → List Format → Session → Option (Bool × Session)
  unfolding select_streams is_url_left try_format
  process_adaptive [] audios no_adap s = none
  process_adaptive (video ∷ videos) audios no_adap s = do
    selected ← select_streams video audios s
    (let is_left = is_url_left videos && is_url_left no_adap in
        let (done, tried) =
          try_format true (selected.url0.bitrate + selected.url1.bitrate) is_left selected in
        let rest = process_adaptive videos audios no_adap tried in
        if done
        then some (true, tried)
        else (if is_url_left videos then rest else some (false, tried)))

  -- The loop of `process_nonadaptive` from a format with those behind it.
  pub process_formats : Format → List Format → Session → Bool × Session
  unfolding restart_metrics is_url_left try_format
  process_formats format [] s =
      try_format false format.bitrate false (record (restart_metrics s) { url0 = format })
  process_formats format (f ∷ fs) s =
      let is_left = is_url_left (f ∷ fs) in
      let (done, tried) =
        try_format false format.bitrate is_left (record (restart_metrics s) { url0 = format }) in
      let rest = process_formats f fs tried in
      if done then (true, tried) else (if is_left then rest else (false, tried))

  -- An empty array has a zeroed entry, which is tried all the same.
  pub process_nonadaptive : List Format → Session → Bool × Session
  unfolding process_formats reset_audio_metric
  process_nonadaptive [] s = process_formats zero_format [] (reset_audio_metric s)
  process_nonadaptive (f ∷ fs) s = process_formats f fs (reset_audio_metric s)

  -- The part of `main` that tries the formats, and what it leaves.
  pub process_all : List Format → List Format → List Format → Session → Option Session
  unfolding process_adaptive process_nonadaptive
  process_all videos audios no_adap s = do
    (done, tried) ← process_adaptive videos audios no_adap s
    if done then some tried else some (process_nonadaptive no_adap tried).1

-- What `main` returns.
pub exit_code : Session → ℕ
exit_code s = if s.errorcode == 403 then 148 else (if s.errorcode == too_fast then 149 else 0)
