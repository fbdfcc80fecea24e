-- ===== src/VideoInfo/Formats.antt =====
-- The lists of formats in getinfo.c: find_urls with findformat and what it calls, and getfilesize of
-- download_ops.c. A list of `metric` is the array up to its zeroed entry. `none` is a fault: a
-- division by 0, a write behind an array, or a fault of what is called.
pub mod Lists
pub mod Sorting
pub mod Unavailable
use thesis_share.Base.{
  ◌>>=◌, ℕ, suc, ◌+◌, ◌-◌, ◌/◌, ◌%◌, ◌^◌, Bool, true, false, Option, none, some, List, [], ◌∷◌, ltb,
  leb, ◌==◌, ◌&&◌, if◌then◌else◌, length, take, drop,
}
use thesis_share.Base.Int.{ℤ, pos, negsuc, ◌-ℤ◌, ltb_ℤ, pos_part, neg_part}
use thesis_share.HttpHeader.{Text}
use thesis_share.Arguments.{codes, contains}
use thesis_share.VideoInfo.{Pattern, Entry, get_or, split_urls, urllistsize}
use thesis_share.VideoInfo.Duration.{extract_duration}

abbrev pub access_denied_url_code : ℕ
access_denied_url_code = 621

-- The fields of an output that getfilesize reads.
pub record SizeAnswer : Type 0 where
  pub error_code : ℕ
  pub http_code : ℕ
  pub data_size : ℕ

-- What getfilesize leaves: its size_t as the `long` of its caller, the error code of `metric`, and
-- whether the client has been destroyed. `start_downloading` has failed if there is no answer.
pub getfilesize : Option SizeAnswer → ℕ → ℤ × (ℕ × Bool)
getfilesize none errorcode = (negsuc 0, (errorcode, true))
getfilesize (some output) errorcode =
    if (output.error_code == 0) && (output.http_code == 200)
    then (pos output.data_size, (errorcode, false))
    else (negsuc 0, (if leb 400 output.http_code then access_denied_url_code else errorcode, true))

-- A positive `long`, divided.
pub divide : ℕ → ℤ → Option ℤ
divide n (negsuc d) = some (pos 0 -ℤ pos (n / suc d))
divide n (pos d) = if d == 0 then none else some (pos (n / d))

-- A `long` in an int of 32 bits.
pub to_int : ℤ → ℤ
to_int a =
    let m = (pos_part a % 2 ^ 32 + (2 ^ 32 - neg_part a % 2 ^ 32)) % 2 ^ 32 in
    if ltb m (2 ^ 31) then pos m else negsuc (2 ^ 32 - m - 1)

-- `getbitrate`, given the size that getfilesize returns.
pub getbitrate : ℤ → ℤ → Option ℤ
unfolding divide to_int
getbitrate dur_spec (negsuc size) = some (negsuc 0)
getbitrate dur_spec (pos size) =
    if size == 0
    then some (negsuc 0)
    else (do bytes_sec ← divide size dur_spec; some (to_int bytes_sec))

-- `compar_bitrate`
pub compar_bitrate : Entry → Entry → ℤ
compar_bitrate left right = right.bitrate -ℤ left.bitrate

-- The loop of `findformat` over the adaptive formats, for one of the two lists.
unfoldable pub of_medium : Text → List Entry → List Entry
unfolding contains
of_medium medium [] = []
of_medium medium (entry ∷ entries) =
    let rest = of_medium medium entries in if contains entry.type medium then entry ∷ rest else rest

-- A list and its zeroed entry, in an array of `metric`.
pub in_array : List Entry → Option (List Entry)
in_array entries = if ltb (length entries) urllistsize then some entries else none

-- What `findformat` leaves in `metric`.
pub record FoundFormats : Type 0 where
  pub no_adap_url : List Entry
  pub adap_audiourl : List Entry
  pub adap_videourl : List Entry

pub put_changed : Entry → Option (List Entry) → Option (List Entry)
put_changed entry none = none
put_changed entry (some entries) = some (entry ∷ entries)

module _ (file_size : Text → ℤ) where
  -- The loop over the other formats: their bitrates, or `none` where it returns.
  pub set_bitrates : ℤ → List Entry → Option (Option (List Entry))
  unfolding getbitrate put_changed
  set_bitrates dur_spec [] = some (some [])
  set_bitrates dur_spec (entry ∷ entries) = do
    url_bitrate ← getbitrate dur_spec (file_size entry.url)
    (if ltb_ℤ url_bitrate (pos 0) then some none else (do
      rest ← set_bitrates dur_spec entries
      some (put_changed (record entry { bitrate = url_bitrate }) rest)))

module _ (regexec : Pattern → Text → Option (ℕ × ℕ)) where
  -- `extract_urlstring`: the span of the list of formats, if the answer is 1.
  unfoldable pub extract_urlstring : Text → Option (ℕ × ℕ)
  extract_urlstring data_ = regexec Pattern.stream_map data_

  -- `extract_urlstring_adaptive` of adaptive.c.
  unfoldable pub extract_urlstring_adaptive : Text → Option (ℕ × ℕ)
  extract_urlstring_adaptive data_ = regexec Pattern.adaptive_fmts data_

  -- `extract_url_list`
  unfoldable pub extract_url_list : Bool → Text → Option (List Entry)
  unfolding split_urls extract_urlstring extract_urlstring_adaptive
  extract_url_list adaptive data_ =
      elim (if adaptive then extract_urlstring_adaptive data_ else extract_urlstring data_) [
        | none ↦ some []
        | some span ↦ split_urls regexec adaptive (take (span.1 - span.0) (drop span.0 data_))
      ]

module _ (qsort : (Entry → Entry → ℤ) → List Entry → List Entry) where
  -- The part of `findformat` behind the loop over the bitrates.
  pub fill_metric : List Entry → List Entry → Option FoundFormats
  unfolding in_array of_medium compar_bitrate
  fill_metric url_list url_list_adaptive = do
    no_adap ← in_array url_list
    audio ← in_array (of_medium (codes "audio") url_list_adaptive)
    video ← in_array (of_medium (codes "video") url_list_adaptive)
    some (record {
      no_adap_url = qsort compar_bitrate no_adap;
      adap_audiourl = qsort compar_bitrate audio;
      adap_videourl = qsort compar_bitrate video;
    })

module _ (regexec : Pattern → Text → Option (ℕ × ℕ)) (file_size : Text → ℤ)
    (qsort : (Entry → Entry → ℤ) → List Entry → List Entry) where
  -- `findformat`: the lists, or `none` where it returns -1.
  pub findformat : ℤ → Text → Option (Option FoundFormats)
  unfolding extract_url_list set_bitrates fill_metric
  findformat dur_spec data_ = do
    url_list ← extract_url_list regexec false data_
    url_list_adaptive ← extract_url_list regexec true data_
    sized ← set_bitrates file_size dur_spec url_list
    elim sized [
      | none ↦ some none
      | some changed ↦ (do
        formats ← fill_metric qsort changed url_list_adaptive
        some (some formats))
    ]

  -- `find_urls`: `metric.dur_spec`, and what `findformat` leaves.
  unfoldable pub find_urls : Text → Option (ℤ × Option FoundFormats)
  unfolding extract_duration findformat
  find_urls data_ = do
    duration ← extract_duration regexec data_
    formats ← findformat (get_or (negsuc 0) duration) data_
    some (get_or (negsuc 0) duration, formats)
