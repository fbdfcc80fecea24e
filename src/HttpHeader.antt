-- ===== src/HttpHeader.antt =====
-- quic_probe/src/html_header_parser.c with mono_parser.c: the header of an HTTP response, by
-- regular expressions. The regex library is the parameter `Regex`: whether a pattern compiles, and
-- where group 1 of the first match of a pattern lies in a text.
mod Response
pub mod Tests
use thesis_share.Base.{
  ℕ, suc, ◌+◌, ◌-◌, ◌*◌, ◌%◌, ◌^◌, ◌≤◌, ◌≡◌, Bool, true, false, ◌&&◌, ◌||◌, Option, none, some,
  List, [], ◌∷◌, ltb, leb, ◌==◌, if◌then◌else◌, length, take, drop,
}
use thesis_share.HeaderEnd.{Bytes}
use thesis_share.Memory.Bytes.{read_bytes}

abbrev pub Text : Type 0
Text = List ℕ

-- The four patterns of the file: the status code, the redirect location, the version and the
-- content length.
pub data Pattern : Type 0 where
  code_pattern location_pattern version_pattern length_pattern : Pattern

-- `regcomp` and `regexec`. The group of a match lies within the text.
pub record Regex : Type 0 where
  pub compiles : Pattern → Bool
  pub group : Pattern → Text → Option (ℕ × ℕ)
  pub in_text :
      (p : Pattern) (t : Text) (so eo : ℕ) → group p t ≡ some (so, eo) → (so ≤ eo) × (eo ≤ length t)

-- The reports of `parse_first`, both with the code QUIC_CLIENT_CODE_BAD_RESPONSE.
pub data ParseError : Type 0 where
  could_not_compile not_found : ParseError

pub data Result (A : Type 0) : Type 0 where
  ok : A → Result A
  err : ParseError → Result A

infixl 5 ◌>>=◌
abbrev pub ◌>>=◌ : {A B : Type 0} → Result A → (A → Result B) → Result B
ok a >>= f = f a
err e >>= f = err e

-- A C string ends at its first NUL.
unfoldable pub c_string : Text → Text
c_string [] = []
c_string (c ∷ cs) = if c == 0 then [] else c ∷ c_string cs

is_digit : ℕ → Bool
is_digit c = leb b'0' c && leb c b'9'

-- The digits that a text begins with, read in base ten onto `acc`.
unfoldable pub digits_value : ℕ → Text → ℕ
unfolding is_digit
digits_value acc [] = acc
digits_value acc (c ∷ cs) = elim (is_digit c) [
  | true ↦ digits_value (acc * 10 + (c - b'0')) cs
  | false ↦ acc
]

-- `atoi`, on a group of digits of a number that an int holds.
pub atoi : Text → ℕ
unfolding digits_value
atoi t = digits_value 0 t

-- `strtol` in base ten, on a text with no white space, with its value as a size_t. (A number that
-- no long holds is left out.)
pub strtol : Text → ℕ
unfolding digits_value
strtol [] = 0
strtol (c ∷ cs) =
    if c == b'-'
    then (2 ^ 64 - digits_value 0 cs % 2 ^ 64) % 2 ^ 64
    else if c == b'+'
    then digits_value 0 cs
    else digits_value 0 (c ∷ cs)

abbrev pub http_until_code_size : ℕ
http_until_code_size = 20

abbrev pub header_heap : ℕ
header_heap = 2548

abbrev pub header_version_max_size : ℕ
header_version_max_size = 100

-- `MIN(A, B)`
abbrev pub min_size : ℕ → ℕ → ℕ
min_size a b = if ltb a b then a else b

pub record HeaderInfo : Type 0 where
  pub response_code : ℕ
  pub redirect_url : Option Text
  pub http_version : Text
  -- `none` is what `malloc` left there.
  pub content_length : Option ℕ

-- 3xx redirection codes
pub is_redirect : ℕ → Bool
is_redirect code = leb 300 code && ltb code 400

module _ (regex : Regex) where
  pub parse_first : Text → Pattern → Result Text
  unfolding c_string
  parse_first text pattern_ref =
      if regex.compiles pattern_ref
      then elim (regex.group pattern_ref (c_string text)) [
        | none ↦ err not_found
        | some (so, eo) ↦ ok (take (eo - so) (drop so text))
      ]
      else err could_not_compile

  pub get_code : Bytes → ℕ → Result ℕ
  unfolding parse_first
  get_code data_pointer size = do
    code_text ←
        parse_first (read_bytes data_pointer 0 (min_size http_until_code_size size)) code_pattern
    ok (atoi code_text)

  pub get_redirect_url : Bytes → ℕ → Result Text
  unfolding parse_first
  get_redirect_url data_pointer size =
      parse_first (read_bytes data_pointer 0 (min_size header_heap size)) location_pattern

  pub get_http_version : Bytes → ℕ → Result Text
  unfolding parse_first
  get_http_version data_pointer size =
      parse_first (read_bytes data_pointer 0 (min_size header_version_max_size size))
        version_pattern

  -- 0 when there is no such header.
  pub try_get_content_length : Bytes → ℕ → ℕ
  unfolding parse_first
  try_get_content_length data_pointer size =
      elim (parse_first (read_bytes data_pointer 0 (min_size header_heap size)) length_pattern) [
        | ok t ↦ strtol t
        | err e ↦ 0
      ]

  pub get_response_header : Bytes → ℕ → Bool → Result HeaderInfo
  get_response_header data_pointer size is_content_size_required = do
    code ← get_code data_pointer size
    redirect_url ←
        (if is_redirect code
          then (do url ← get_redirect_url data_pointer size; ok (some url))
          else ok none)
    http_version ← get_http_version data_pointer size
    ok (record {
      response_code = code;
      redirect_url = redirect_url;
      http_version = http_version;
      content_length =
          if is_content_size_required
          then some (try_get_content_length data_pointer size)
          else none;
    })
