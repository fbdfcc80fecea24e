-- ===== src/Arguments/Flags.antt =====
-- The whole command line: what it leaves within bounds, and when it is a fault.
use thesis_share.Base.{
  ◌<◌, ◌==◌, ◌&&◌, ◌||◌, ◌≡◌, inl, inr, refl, Bool, true, false, Option, none, some, List, [], ◌∷◌,
  arith, ltb, nltb→le, length, Bool-cases, Option-cases,
}
use thesis_share.Base.Int.{pos, ◌≤ℤ◌}
use thesis_share.HttpHeader.{Text}
use thesis_share.Arguments.{
  ProgramArguments, ValueOption, maxtime, mintime, maxbitrate, range, qver, ports, set_option,
  parse_array, len_chunk_minimum, max_url_length, check_flag, check_buffer_len, check_option,
  is_help, is_youtube_link, set_arguments,
}

-- What is kept: a buffer of five seconds at least, and a link that fits into its 512 bytes with a
-- NUL behind it.
abbrev pub IsBounded : Text → ProgramArguments → Type 0
IsBounded link a = (pos len_chunk_minimum ≤ℤ a.buffer_len) × (length link < max_url_length)

check_flag-buffer_len :
    (text : Text) (a a' : ProgramArguments)
    → check_flag text a ≡ some a'
    → a'.buffer_len ≡ a.buffer_len
unfolding check_flag
check_flag-buffer_len text a a' e = ground arith

set_option-buffer_len :
    (o : ValueOption) (v : Text) (a a' : ProgramArguments)
    → set_option o v a ≡ some a'
    → pos len_chunk_minimum ≤ℤ a.buffer_len
    → pos len_chunk_minimum ≤ℤ a'.buffer_len
unfolding set_option check_buffer_len
set_option-buffer_len maxtime v a a' e h = ground arith
set_option-buffer_len mintime v a a' e h = ground arith
set_option-buffer_len maxbitrate v a a' e h = ground arith
set_option-buffer_len range v a a' e h = ground arith
set_option-buffer_len qver v a a' e h = ground arith
set_option-buffer_len ports v a a' e h = elim (Option-cases (parse_array v)) [
  | inl fault ↦ ground (arith, fault)
  | inr (numbers, read) ↦ ground (arith, read)
]

-- Whether an argument is an option that takes a value, or a link of the bytes of `youtubelink`.
pub is_risky : List Text → Bool
unfolding check_option is_youtube_link
is_risky [] = false
is_risky (text ∷ rest) =
    let later = is_risky rest in
    elim (check_option text) [
      | some o ↦ true
      | none ↦ (is_youtube_link text && (length text == max_url_length)) || later
    ]

-- What the arguments come to.
abbrev pub Outcome : List Text → Option (Bool × Text × ProgramArguments) → Type 0
Outcome argv none = is_risky argv ≡ true
Outcome argv (some (run, link, a)) = IsBounded link a

is_risky-some :
    (text : Text) (rest : List Text) (o : ValueOption)
    → check_option text ≡ some o
    → is_risky (text ∷ rest) ≡ true
unfolding is_risky
is_risky-some text rest o is = rw (is, is_risky) refl

Outcome-more :
    (text : Text) (rest : List Text) (run : Option (Bool × Text × ProgramArguments))
    → Outcome rest run
    → Outcome (text ∷ rest) run
unfolding is_risky
Outcome-more text rest none h = elim (Option-cases (check_option text)) [
  | inl no_option ↦ rw (no_option, is_risky) (ground (arith, h))
  | inr (o, is) ↦ is_risky-some text rest o is
]
Outcome-more text rest (some r) h = h

is_risky-full :
    (text : Text) (rest : List Text)
    → is_youtube_link text ≡ true
    → (length text == max_url_length) ≡ true
    → is_risky (text ∷ rest) ≡ true
unfolding is_risky
is_risky-full text rest youtube full = elim (Option-cases (check_option text)) [
  | inl no_option ↦ ground (arith, no_option, youtube, full)
  | inr (o, is) ↦ is_risky-some text rest o is
]

-- A link that is neither longer than `youtubelink` nor fills it.
short :
    (text : Text)
    → ltb max_url_length (length text) ≡ false
    → (length text == max_url_length) ≡ false
    → length text < max_url_length
short text fits room = ground (arith, nltb→le max_url_length (length text) fits, room)

-- With at least five seconds of buffer and a link of less than 512 bytes to begin with, either
-- set_arguments returns and both bounds hold for what it leaves, whatever the arguments are; or it is
-- a fault, and then an option that takes a value or a youtube link of exactly 512 bytes is among them.
pub set_arguments-Outcome :
    (argv : List Text) (link : Text) (a : ProgramArguments)
    → IsBounded link a
    → Outcome argv (set_arguments argv link a)
unfolding set_arguments
set_arguments-Outcome [] link a b = b
set_arguments-Outcome (text ∷ []) link a b = elim (Bool-cases (is_help text)) [
  | inl help ↦ rw help b
  | inr other ↦ rw other (elim (Option-cases (check_flag text a)) [
    | inr (a', flag) ↦ rw flag (rw (check_flag-buffer_len text a a' flag) b.0, b.1)
    | inl no_flag ↦ rw no_flag (elim (Option-cases (check_option text)) [
      | inr (o, is) ↦ rw is (is_risky-some text [] o is)
      | inl no_option ↦ rw no_option (elim (Bool-cases (is_youtube_link text)) [
        | inr plain ↦ rw plain b
        | inl youtube ↦ rw youtube (elim (Bool-cases (ltb max_url_length (length text))) [
          | inl long ↦ rw long b
          | inr fits ↦ rw fits (elim (Bool-cases (length text == max_url_length)) [
            | inl full ↦ rw full (is_risky-full text [] youtube full)
            | inr room ↦ rw room (b.0, short text fits room)
          ])
        ])
      ])
    ])
  ])
]
set_arguments-Outcome (text ∷ value ∷ rest) link a b = elim (Bool-cases (is_help text)) [
  | inl help ↦ rw help b
  | inr other ↦ rw other (elim (Option-cases (check_flag text a)) [
    | inr (a', flag) ↦ rw flag (
        Outcome-more text (value ∷ rest) _ (
          set_arguments-Outcome (value ∷ rest) link a'
            (rw (check_flag-buffer_len text a a' flag) b.0, b.1)))
    | inl no_flag ↦ rw no_flag (elim (Option-cases (check_option text)) [
      | inr (o, is) ↦ rw is (elim (Option-cases (set_option o value a)) [
        | inl fault ↦ rw fault (is_risky-some text (value ∷ rest) o is)
        | inr (a', done) ↦ rw done (
            Outcome-more text (value ∷ rest) _ (
              Outcome-more value rest _ (
                set_arguments-Outcome rest link a'
                  (set_option-buffer_len o value a a' done b.0, b.1))))
      ])
      | inl no_option ↦ rw no_option (elim (Bool-cases (is_youtube_link text)) [
        | inr plain ↦
            rw plain
              (Outcome-more text (value ∷ rest) _ (set_arguments-Outcome (value ∷ rest) link a b))
        | inl youtube ↦ rw youtube (elim (Bool-cases (ltb max_url_length (length text))) [
          | inl long ↦ rw long b
          | inr fits ↦ rw fits (elim (Bool-cases (length text == max_url_length)) [
            | inl full ↦ rw full (is_risky-full text (value ∷ rest) youtube full)
            | inr room ↦ rw room (
                Outcome-more text (value ∷ rest) _
                  (set_arguments-Outcome (value ∷ rest) text a (b.0, short text fits room)))
          ])
        ])
      ])
    ])
  ])
]
