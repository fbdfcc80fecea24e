-- ===== src/Replace.antt =====
-- The replacement of texts in youtube_test/src: str_replace of helper.c and replace_html_codes of
-- getinfo.c. A text is the list of its bytes, without the NUL, and a NULL pointer is `none`. The
-- outer `none` of a result is a fault: a write through NULL or behind a block, or the release of
-- memory that malloc has not returned.
pub mod Substitute
pub mod Codes
mod Tests
use thesis_share.Base.{
  ◌>>=◌, ℕ, zero, suc, ◌+◌, ◌-◌, ◌*◌, Bool, true, false, Option, none, some, List, [], ◌∷◌, ◌++◌,
  ◌==◌, if◌then◌else◌, length, take, drop, ltb, leb,
}
use thesis_share.HttpHeader.{Text}
use thesis_share.Arguments.{codes}

-- Whether a text starts with a pattern.
unfoldable pub starts_with : Text → Text → Bool
starts_with [] text = true
starts_with (p ∷ ps) [] = false
starts_with (p ∷ ps) (c ∷ cs) = let rest = starts_with ps cs in if p == c then rest else false

-- `strstr`: the distance of the first place where the pattern stands.
unfoldable pub strstr : Text → Text → Option ℕ
unfolding starts_with
strstr [] rep = if starts_with rep [] then some 0 else none
strstr (c ∷ cs) rep =
    let rest = strstr cs rep in
    if starts_with rep (c ∷ cs) then some 0 else (elim rest [ none ↦ none | some k ↦ some (suc k) ])

-- The loop that counts, on fuel, from `tmp`, the first place in `text`.
pub count_loop : ℕ → Text → Text → Option ℕ → ℕ
unfolding strstr
count_loop zero rep text tmp = 0
count_loop (suc fuel) rep text none = 0
count_loop (suc fuel) rep text (some k) =
    let ins = drop (k + length rep) text in suc (count_loop fuel rep ins (strstr ins rep))

-- The loop that copies, `count` times, and the copy of what is left.
pub replace_loop : ℕ → Text → Text → Text → Option Text
unfolding strstr
replace_loop zero rep with_ orig = some orig
replace_loop (suc count) rep with_ orig = do
  len_front ← strstr orig rep
  rest ← replace_loop count rep with_ (drop (len_front + length rep) orig)
  some (take len_front orig ++ (with_ ++ rest))

-- A text in a block of so many bytes, with its NUL.
unfoldable pub in_block : ℕ → Text → Option Text
in_block size text = if ltb (length text) size then some text else none

pub replace_found : Text → Text → Option Text → ℕ → Option (Option Text)
unfolding strstr count_loop replace_loop in_block
replace_found orig rep none ins = none
replace_found orig rep (some with_) ins =
    let from = drop ins orig in
    let count = count_loop (suc (length orig)) rep from (strstr from rep) in
    (do
      result ← replace_loop count rep with_ orig
      text ← in_block (length orig + length with_ * count - length rep * count + 1) result
      some (some text))

unfoldable pub str_replace : Option Text → Option Text → Option Text → Option (Option Text)
unfolding strstr replace_found
str_replace none rep with_ = some none
str_replace (some orig) none with_ = some none
str_replace (some orig) (some rep) with_ =
    if length rep == 0
    then some none
    else (elim (strstr orig rep) [ none ↦ some none | some ins ↦ replace_found orig rep with_ ins ])

-- The codes and their symbols.
abbrev pub html_codes : List (Text × Text)
html_codes =
    (codes "%3A", codes ":")
    ∷ (codes "%2F", codes "/")
    ∷ (codes "%3F", codes "?")
    ∷ (codes "%3D", codes "=")
    ∷ (codes "%26", codes "&")
    ∷ (codes "%25", codes "%")
    ∷ (codes "%22", 34 ∷ [])
    ∷ (codes "%2C", codes ",")
    ∷ (codes "%3B", codes ";")
    ∷ []

-- The loop over the codes: the text, and whether it is one that str_replace has made.
unfoldable pub replace_codes : List (Text × Text) → Bool → Text → Option (Bool × Text)
unfolding str_replace
replace_codes [] is_new orig = some (is_new, orig)
replace_codes ((code, symbol) ∷ table) is_new orig = do
  result ← str_replace (some orig) (some code) (some symbol)
  elim result [ none ↦ replace_codes table is_new orig | some text ↦ replace_codes table true text ]

-- `replace_html_codes` on data that stand within an array: the answer and the data. At the end the
-- last text is copied to the data, in their array, and released, be it a new one or the data.
unfoldable pub replace_html_codes : Option Text → Option (Bool × Text)
unfolding replace_codes
replace_html_codes none = some (false, [])
replace_html_codes (some data_) = if ltb (length data_) 10 then some (false, data_) else (do
  (is_new, orig) ← replace_codes html_codes false data_
  text ← in_block (suc (length data_)) orig
  if is_new then some (true, text) else none)
