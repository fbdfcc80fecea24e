-- ===== src/Arguments.antt =====
-- youtube_test/src/arguments_parser.c: the command line. An argument is the bytes of a C string,
-- without its NUL. `none` is a fault: the value of an option behind the last argument is read, an
-- array of parse_array overflows, or the link has no room for its NUL. The printed messages are
-- left out.
mod Ports
mod Flags
mod Tests
use Prim.Native.Char.{code}
use Prim.Native.String.{String}
use thesis_share.Base.{
  ◌>>=◌, ℕ, zero, suc, ◌+◌, ◌-◌, ◌*◌, ◌/◌, ◌%◌, ◌^◌, Bool, true, false, not, ◌&&◌, ◌||◌, Option,
  none, some, List, [], ◌∷◌, ltb, leb, ◌==◌, if◌then◌else◌, length, take, drop,
}
use thesis_share.Base.Int.{ℤ, pos, negsuc, ◌-ℤ◌, ltb_ℤ}
use thesis_share.HttpHeader.{Text, digits_value}

-- The bytes of a literal.
abbrev pub codes : String → Text
codes String.[] = []
codes (String.◌∷◌ c s) = code c ∷ codes s

-- `strcmp(a, b) == 0`
unfoldable pub text_eq : Text → Text → Bool
text_eq [] [] = true
text_eq [] (y ∷ ys) = false
text_eq (x ∷ xs) [] = false
text_eq (x ∷ xs) (y ∷ ys) = (x == y) && text_eq xs ys

-- Whether a text begins with the second one, and `strstr(a, b) != NULL`.
unfoldable pub begins_with : Text → Text → Bool
begins_with xs [] = true
begins_with [] (y ∷ ys) = false
begins_with (x ∷ xs) (y ∷ ys) = (x == y) && begins_with xs ys

unfoldable pub contains : Text → Text → Bool
unfolding begins_with
contains [] ys = begins_with [] ys
contains (x ∷ xs) ys = begins_with (x ∷ xs) ys || contains xs ys

is_white : ℕ → Bool
is_white c = c == 32 || leb 9 c && leb c 13

-- `atoi`, of a number that an int holds.
unfoldable pub atoi : Text → ℤ
unfolding is_white digits_value ◌-ℤ◌
atoi [] = pos 0
atoi (c ∷ cs) =
    let rest = atoi cs in
    if is_white c
    then rest
    else if c == b'-'
    then pos 0 -ℤ pos (digits_value 0 cs)
    else if c == b'+'
    then pos (digits_value 0 cs)
    else pos (digits_value 0 (c ∷ cs))

-- An int divided by 8, towards 0.
unfoldable pub div_8 : ℤ → ℤ
unfolding ◌-ℤ◌
div_8 (pos n) = pos (n / 8)
div_8 (negsuc n) = pos 0 -ℤ pos ((n + 1) / 8)

abbrev pub max_url_length : ℕ
max_url_length = 512

abbrev pub len_chunk_minimum : ℕ
len_chunk_minimum = 5

pub data IPv : Type 0 where
  ipv_system ipv4 ipv6 : IPv

pub record ProgramArguments : Type 0 where
  pub instantaneous_output : Bool
  pub ip_version : IPv
  pub max_bitrate : ℤ
  pub min_test_time : ℤ
  pub max_test_time : ℤ
  pub one_bitrate : Bool
  pub buffer_len : ℤ
  pub quic_version : Text
  pub port_numbers : List ℕ
  pub is_connection_level_debug : Bool
  pub one_stream_per_connection : Bool

-- `find_char_occurance`: the positions of the symbol, counted from `i`.
pub find_char_occurance : ℕ → Text → ℕ → List ℕ
find_char_occurance i [] symbol = []
find_char_occurance i (c ∷ cs) symbol =
    let rest = find_char_occurance (i + 1) cs symbol in if c == symbol then i ∷ rest else rest

-- An int as a uint.
abbrev pub as_uint : ℤ → ℕ
as_uint (pos n) = n % 2 ^ 32
as_uint (negsuc n) = 2 ^ 32 - 1 - n % 2 ^ 32

-- One number of the list: `strncpy` to `port_number_string`, which keeps its final NUL only if at
-- most five bytes are copied.
pub port_between : Text → ℕ → ℕ → Option ℕ
unfolding atoi
port_between text from to =
    if ltb 5 (to - from) then none else some (as_uint (atoi (take (to - from) (drop from text))))

-- The loop over the commas, and the number behind the last one.
pub parse_between : Text → ℕ → List ℕ → Option (List ℕ)
unfolding port_between
parse_between text from [] = do v ← port_between text from (length text); some (v ∷ [])
parse_between text from (comma ∷ commas) = do
  v ← port_between text from comma
  vs ← parse_between text (comma + 1) commas
  some (v ∷ vs)

-- `comma_positions` has room for ten.
pub parse_array : Text → Option (List ℕ)
unfolding find_char_occurance parse_between
parse_array text =
    let commas = find_char_occurance 0 text b',' in
    if ltb 10 (length commas) then none else parse_between text 0 commas

-- The options without a value, in the order in which they are tried among themselves.
pub check_flag : Text → ProgramArguments → Option ProgramArguments
unfolding text_eq
check_flag text a =
    if text_eq text (codes "-4")
    then some (record a { ip_version = ipv4 })
    else if text_eq text (codes "-6")
    then some (record a { ip_version = ipv6 })
    else if text_eq text (codes "--onebitrate")
    then some (record a { one_bitrate = true })
    else if text_eq text (codes "--verbose")
    then some (record a { instantaneous_output = true })
    else if text_eq text (codes "--single_stream")
    then some (record a { one_stream_per_connection = true })
    else if text_eq text (codes "--debug")
    then some (record a { is_connection_level_debug = true })
    else none

-- The value of `--range`, at least LEN_CHUNK_MINIMUM.
pub check_buffer_len : Text → ℤ
unfolding atoi
check_buffer_len value =
    if ltb_ℤ (atoi value) (pos len_chunk_minimum) then pos len_chunk_minimum else atoi value

-- The options with a value.
pub data ValueOption : Type 0 where
  maxtime mintime maxbitrate range qver ports : ValueOption

pub check_option : Text → Option ValueOption
unfolding text_eq
check_option text =
    if text_eq text (codes "--maxtime")
    then some maxtime
    else if text_eq text (codes "--mintime")
    then some mintime
    else if text_eq text (codes "--maxbitrate")
    then some maxbitrate
    else if text_eq text (codes "--range")
    then some range
    else if text_eq text (codes "--qver")
    then some qver
    else if text_eq text (codes "--p")
    then some ports
    else none

-- What an option does with its value; `none` is a fault of `parse_array`.
pub set_option : ValueOption → Text → ProgramArguments → Option ProgramArguments
unfolding atoi div_8 check_buffer_len parse_array
set_option maxtime v a = some (record a { max_test_time = atoi v })
set_option mintime v a = some (record a { min_test_time = atoi v })
set_option maxbitrate v a = some (record a { max_bitrate = div_8 (atoi v) })
set_option range v a = some (record a { buffer_len = check_buffer_len v })
set_option qver v a = some (record a { quic_version = take 4 v })
set_option ports v a = do numbers ← parse_array v; some (record a { port_numbers = numbers })

pub is_help : Text → Bool
unfolding text_eq
is_help text = text_eq text (codes "--help") || text_eq text (codes "--help_output")

pub is_youtube_link : Text → Bool
unfolding contains
is_youtube_link text = contains text (codes "youtube") && contains text (codes "watch")

-- `set_arguments` from one argument on: whether the test is to be run, with the link and the
-- arguments. `none` is a fault.
pub set_arguments : List Text → Text → ProgramArguments → Option (Bool × Text × ProgramArguments)
unfolding check_flag check_option set_option is_help is_youtube_link
set_arguments [] link a = some (ltb 0 (length link), link, a)
set_arguments (text ∷ []) link a =
    if is_help text then some (false, link, a) else (elim (check_flag text a) [
      | some a' ↦ some (ltb 0 (length link), link, a')
      | none ↦ elim (check_option text) [
        | some o ↦ none
        | none ↦
            if is_youtube_link text
            then (if ltb max_url_length (length text)
                then some (false, link, a)
                else (if length text == max_url_length
                    then none
                    else some (ltb 0 (length text), text, a)))
            else some (ltb 0 (length link), link, a)
      ]
    ])
set_arguments (text ∷ value ∷ rest) link a =
    let with_link = set_arguments (value ∷ rest) text a in
    let without = set_arguments (value ∷ rest) link a in
    if is_help text then some (false, link, a) else (elim (check_flag text a) [
      | some a' ↦ set_arguments (value ∷ rest) link a'
      | none ↦ elim (check_option text) [
        | some o ↦ elim (set_option o value a) [
          | none ↦ none
          | some a' ↦ set_arguments rest link a'
        ]
        | none ↦
            if is_youtube_link text
            then (if ltb max_url_length (length text)
                then some (false, link, a)
                else (if length text == max_url_length then none else with_link))
            else without
      ]
    ])
