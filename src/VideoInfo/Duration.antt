-- ===== src/VideoInfo/Duration.antt =====
-- extract_duration of getinfo.c. `tmp` is the array of 256 bytes, a pointer into it its index, and
-- `none` a read behind its end.
use thesis_share.Base.{
  ◌>>=◌, ℕ, zero, suc, ◌+◌, ◌-◌, Option, none, some, List, [], ◌∷◌, ◌++◌, ltb, if◌then◌else◌,
  length, take, drop, min,
}
use thesis_share.Base.Int.{ℤ, pos, ◌+ℤ◌, scale}
use thesis_share.HttpHeader.{Text, c_string}
use thesis_share.Arguments.{codes, atoi}
use thesis_share.Replace.{strstr}
use thesis_share.VideoInfo.{Pattern}

abbrev pub charstrlength : ℕ
charstrlength = 256

pub zeros : ℕ → List ℕ
zeros zero = []
zeros (suc n) = 0 ∷ zeros n

-- The string at an index.
pub string_at : ℕ → List ℕ → Option Text
unfolding c_string
string_at p tmp = if ltb p (length tmp) then some (c_string (drop p tmp)) else none

-- `strstr` from an index on, as an index.
pub strstr_at : ℕ → List ℕ → Text → Option (Option ℕ)
unfolding string_at strstr
strstr_at p tmp pattern = do
  text ← string_at p tmp
  some (elim (strstr text pattern) [ none ↦ none | some k ↦ some (p + k) ])

-- A NUL, written at an index.
pub end_at : ℕ → List ℕ → List ℕ
end_at p tmp = take p tmp ++ (0 ∷ drop (p + 1) tmp)

-- The number before a letter, which is looked for from `from` on and ends the text of the number at
-- `tmp3`: the number, where the rest starts, and the array.
pub number_before : Text → ℕ → ℕ → List ℕ → Option (ℤ × (ℕ × List ℕ))
unfolding strstr_at end_at string_at atoi
number_before letter from tmp3 tmp = do
  tmp2 ← strstr_at from tmp letter
  elim tmp2 [
    | none ↦ some (pos 0, (tmp3, tmp))
    | some p ↦ (do text ← string_at tmp3 (end_at p tmp); some (atoi text, (p + 1, end_at p tmp)))
  ]

-- The minutes and the seconds, `tmp3` at the first of them.
pub read_duration : ℕ → List ℕ → Option ℤ
unfolding number_before
read_duration tmp3 tmp = do
  (minutes, (rest, tmp')) ← number_before (codes "M") tmp3 tmp3 tmp
  (seconds, _) ← number_before (codes "S") (rest + 1) rest tmp'
  some (scale 60 minutes +ℤ seconds)

-- The searches for `content` and its quotation marks: the duration, if the answer is 1.
pub find_content : List ℕ → Option (Option ℤ)
unfolding strstr_at end_at read_duration
find_content tmp = do
  content ← strstr_at 0 tmp (codes "content")
  elim content [
    | none ↦ some none
    | some c ↦ (do
      opening ← strstr_at c tmp (34 ∷ [])
      elim opening [
        | none ↦ some none
        | some tmp3 ↦ (do
          closing ← strstr_at (tmp3 + 1) tmp (34 ∷ [])
          elim closing [
            | none ↦ some none
            | some tmp2 ↦ (do
              seconds ← read_duration (tmp3 + 3) (end_at tmp2 tmp)
              some (some seconds))
          ])
      ])
  ]

unfoldable pub extract_duration : (Pattern → Text → Option (ℕ × ℕ)) → Text → Option (Option ℤ)
unfolding find_content zeros
extract_duration regexec data_ = elim (regexec Pattern.duration data_) [
  | none ↦ some none
  | some span ↦
      let text = take (min (span.1 - span.0) (charstrlength - 1)) (drop span.0 data_) in
      find_content (text ++ zeros (charstrlength - length text))
]
