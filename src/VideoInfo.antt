-- ===== src/VideoInfo.antt =====
-- The links of the formats in the page of a video, youtube_test/src/getinfo.c: split_urls with what
-- it calls. A text is the bytes of a C string without its NUL, a regular expression is a parameter:
-- the span that it finds, or `none` where regcomp or regexec fails or nothing matches. `none` is a
-- fault: an access behind an array, or the fault of replace_html_codes.
pub mod Duration
pub mod Formats
mod Links
mod Pieces
mod Tests
use thesis_share.Base.{
  ◌>>=◌, ℕ, zero, suc, ◌+◌, ◌-◌, ◌*◌, Bool, true, false, ◌&&◌, Option, none, some, List, [], ◌∷◌,
  ◌++◌, ◌==◌, if◌then◌else◌, length, take, drop, ltb, min,
}
use thesis_share.Base.Int.{ℤ, pos}
use thesis_share.HttpHeader.{Text}
use thesis_share.Arguments.{codes, atoi, div_8}
use thesis_share.Replace.{strstr, in_block, replace_html_codes}

abbrev pub urllistsize : ℕ
urllistsize = 24

abbrev pub itaglen : ℕ
itaglen = 7

abbrev pub urltypelen : ℕ
urltypelen = 100

abbrev pub cdnurllen : ℕ
cdnurllen = 1500

-- The regular expressions of the searches.
pub data Pattern : Type 0 where
  duration : Pattern
  bitrate : Pattern
  type : Pattern
  stream_map : Pattern
  adaptive_fmts : Pattern

-- The fields of a videourl that the page fills.
pub record Entry : Type 0 where
  pub itag : ℤ
  pub url : Text
  pub type : Text
  pub bitrate : ℤ

abbrev pub zero_entry : Entry
zero_entry = record { itag = pos 0; url = []; type = []; bitrate = pos 0 }

-- The loop of `split_urls`: the entries before `index`, the entry at `index`, and the seven bytes
-- of `itagstr`.
pub record Split : Type 0 where
  pub entries : List Entry
  pub current : Entry
  pub itagstr : List ℕ

abbrev pub zero_itagstr : List ℕ
zero_itagstr = 0 ∷ 0 ∷ 0 ∷ 0 ∷ 0 ∷ 0 ∷ 0 ∷ []

abbrev pub start_split : Split
start_split = record { entries = []; current = zero_entry; itagstr = zero_itagstr }

-- `strtok(_, ",")` on the rest of the data: the bytes up to the next comma, and the pieces behind.
pub put_piece : Text → List Text → List Text
put_piece [] pieces = pieces
put_piece (c ∷ cs) pieces = (c ∷ cs) ∷ pieces

pub strtok_rest : Text → Text × List Text
unfolding put_piece
strtok_rest [] = ([], [])
strtok_rest (c ∷ cs) =
    let (piece, pieces) = strtok_rest cs in
    if c == b',' then ([], put_piece piece pieces) else (c ∷ piece, pieces)

-- The values of `split`: the pieces, or the data if there is none.
pub or_data : Text → List Text → List Text
or_data data_ [] = data_ ∷ []
or_data data_ (piece ∷ pieces) = piece ∷ pieces

pub split_pieces : Text → List Text
unfolding put_piece strtok_rest or_data
split_pieces data_ = or_data data_ (put_piece (strtok_rest data_).0 (strtok_rest data_).1)

-- `itagstr` after the copy of so many bytes that stand, followed by a NUL, at `tmp`, and after the
-- NUL at its end.
pub copy_itag : ℕ → Text → List ℕ → List ℕ
copy_itag n tmp itagstr = take 6 (take n (tmp ++ zero_itagstr) ++ drop n itagstr) ++ (0 ∷ [])

-- The search for the itag: the bytes of `itagstr`, if there is one.
pub find_itag : Text → List ℕ → Option (List ℕ)
unfolding strstr copy_itag
find_itag split itagstr = elim (strstr split (codes "itag%3D")) [
  | some k ↦
      let tmp = drop (k + 7) split in
      some (copy_itag (if ltb (length tmp) itaglen then length tmp else itaglen) tmp itagstr)
  | none ↦ elim (strstr split (codes "itag=")) [
    | some k ↦ some (copy_itag itaglen (drop (k + 4) split) itagstr)
    | none ↦ none
  ]
]

-- What a search has found, or what was there before.
abbrev pub get_or : {A : Type 0} → A → Option A → A
get_or old none = old
get_or old (some found) = found

-- The url at the start of a text: up to the escaped `&`.
pub url_at : Text → Text
unfolding strstr
url_at tmp = elim (strstr tmp (92 ∷ codes "u0026")) [ none ↦ tmp | some j ↦ take j tmp ]

-- `copy_to_videourl`: its answer, and the url, if it copies one; first where `url=` has been found.
pub copy_found : Text → Option (Bool × Option Text)
unfolding in_block url_at
copy_found tmp =
    if ltb 4 (length tmp)
    then (do copied ← in_block cdnurllen (url_at (drop 4 tmp)); some (true, some copied))
    else some (false, none)

pub copy_to_videourl : Text → Option (Bool × Option Text)
unfolding strstr copy_found
copy_to_videourl split = elim (strstr split (codes "url=")) [
  | none ↦ some (true, none)
  | some k ↦ copy_found (drop k split)
]

-- The end of the body of the loop: what copy_to_videourl has answered and copied, and the entry.
pub decode_url : Bool → Option Text → Entry → Option (Bool × Entry)
unfolding replace_html_codes
decode_url copied url_found entry =
    if copied
    then (do
      (_, url) ← replace_html_codes (some (get_or entry.url url_found))
      some (true, record entry { url = url }))
    else some (false, entry)

-- The next round of the loop, with `index` increased if the entry has been taken.
pub put_entry : List ℕ → Bool × Entry → Split → Split
put_entry itagstr (true, entry) s = record {
  entries = s.entries ++ (entry ∷ []);
  current = zero_entry;
  itagstr = itagstr;
}
put_entry itagstr (false, entry) s = record s { current = entry; itagstr = itagstr }

module _ (regexec : Pattern → Text → Option (ℕ × ℕ)) where
  -- `extract_bitrate`: its answer, and the bitrate.
  pub extract_bitrate : Text → ℤ → Bool × ℤ
  unfolding atoi div_8
  extract_bitrate data_ old = elim (regexec bitrate data_) [
    | none ↦ (false, old)
    | some span ↦ (true, div_8 (atoi (drop (span.0 + 8) data_)))
  ]

  -- `extract_formattype`: its answer, and the type, if it copies one.
  pub extract_formattype : Text → Option (Bool × Option Text)
  unfolding strstr replace_html_codes
  extract_formattype data_ = elim (regexec type data_) [
    | none ↦ some (false, none)
    | some span ↦
        let tmp = take (min (span.1 - span.0) 1023) (drop span.0 data_) in
        elim (strstr tmp (codes "=")) [
          | none ↦ some (false, none)
          | some k ↦
              if ltb (length (drop k tmp)) 100
              then (do
                replaced ← replace_html_codes (some (take (urltypelen - 1) (drop (k + 1) tmp)))
                some (true, some replaced.1))
              else some (true, none)
        ]
  ]

  -- What the loop of `split_urls` does to the entry behind the itag, and whether it takes it.
  pub fill_entry : Bool → Text → Entry → Option (Bool × Entry)
  unfolding extract_formattype extract_bitrate copy_to_videourl decode_url
  fill_entry adaptive split entry = do
    (_, type_found) ← extract_formattype split
    (copied, url_found) ← copy_to_videourl split
    decode_url copied url_found (record entry {
      type = get_or entry.type type_found;
      bitrate = if adaptive then (extract_bitrate split entry.bitrate).1 else entry.bitrate;
    })

  -- The body of the loop for a piece. The write of the itag is the first one to the entry.
  pub split_piece : Bool → Text → Split → Option Split
  unfolding find_itag atoi fill_entry put_entry
  split_piece adaptive split s = elim (find_itag split s.itagstr) [
    | none ↦ some s
    | some itagstr ↦
        if ltb (length s.entries) urllistsize
        then (do
          filled ← fill_entry adaptive split (record s.current { itag = atoi itagstr })
          some (put_entry itagstr filled s))
        else none
  ]

  pub split_loop : Bool → List Text → Split → Option Split
  unfolding split_piece
  split_loop adaptive [] s = some s
  split_loop adaptive (split ∷ pieces) s = do
    s' ← split_piece adaptive split s
    split_loop adaptive pieces s'

  -- `split_urls` on a list of zeroed entries: the ones that it counts.
  pub split_urls : Bool → Text → Option (List Entry)
  unfolding split_pieces split_loop
  split_urls adaptive data_ = do
    s ← split_loop adaptive (split_pieces data_) start_split
    some s.entries
