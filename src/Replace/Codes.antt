-- ===== src/Replace/Codes.antt =====
-- What the replacement of the html codes comes to.
use thesis_share.Base.{
  bind-some, suc, ◌≤◌, ◌≡◌, refl, sym, ap, ◌∙◌, Bool, true, false, ◌||◌, inl, inr, Bool-cases,
  Option, none, some, List, [], ◌∷◌, if◌then◌else◌, length, ltb, arith,
}
use thesis_share.HttpHeader.{Text}
use thesis_share.Replace.{str_replace, html_codes, replace_codes, replace_html_codes}
use thesis_share.Replace.Substitute.{
  substitute, occurs, str_replace-substitute, substitute-le, substitute-absent, in_block-fits,
}

-- The text with one code after another replaced.
abbrev pub decode : List (Text × Text) → Text → Text
decode [] text = text
decode ((code, symbol) ∷ table) text = decode table (substitute code symbol text)

-- Whether one of the codes occurs when its turn comes.
abbrev pub is_coded : List (Text × Text) → Text → Bool
is_coded [] text = false
is_coded ((code, symbol) ∷ table) text =
    occurs code text || is_coded table (substitute code symbol text)

-- Each code has a byte at least, and no fewer than its symbol.
abbrev pub IsShortening : List (Text × Text) → Type 0
IsShortening [] = Unit {0}
IsShortening ((code, symbol) ∷ table) =
    (1 ≤ length code) × (length symbol ≤ length code) × IsShortening table

decode-le :
    (table : List (Text × Text)) (text : Text)
    → IsShortening table
    → length (decode table text) ≤ length text
decode-le [] text s = omega arith
decode-le ((code, symbol) ∷ table) text (long, shorter, s) = omega (
  arith,
  decode-le table (substitute code symbol text) s,
  substitute-le code symbol long text shorter,
)

or-false : (b : Bool) → b ≡ (b || false)
or-false true = refl
or-false false = refl

or-true : (b : Bool) → true ≡ (b || true)
or-true true = refl
or-true false = refl

replace_codes-decode :
    (table : List (Text × Text)) (is_new : Bool) (text : Text)
    → IsShortening table
    → replace_codes table is_new text ≡ some (is_new || is_coded table text, decode table text)
unfolding replace_codes
replace_codes-decode [] is_new text s = ap (λ b. some (b, text)) (or-false is_new)
replace_codes-decode ((code, symbol) ∷ table) is_new text (long, shorter, s) =
    elim (Bool-cases (occurs code text)) [
      | inl here ↦ bind-some next (replacing ∙ ap result here) (
          replace_codes-decode table true decoded s
          ∙ ap (λ b. some (b, decode table decoded))
              (or-true is_new ∙ ap (λ b. is_new || (b || is_coded table decoded)) (sym here)))
      | inr away ↦ bind-some next (replacing ∙ ap result away) (
          ap (replace_codes table is_new) (sym (substitute-absent code symbol long text away))
          ∙ replace_codes-decode table is_new decoded s
          ∙ ap (λ b. some (is_new || (b || is_coded table decoded), decode table decoded))
              (sym away))
    ]
  where
    decoded : Text
    decoded = substitute code symbol text

    next : Option Text → Option (Bool × Text)
    next r = elim r [ none ↦ replace_codes table is_new text | some t ↦ replace_codes table true t ]

    result : Bool → Option (Option Text)
    result b = some (if b then some decoded else none)

    replacing : str_replace (some text) (some code) (some symbol) ≡ result (occurs code text)
    replacing = str_replace-substitute code symbol long text

html_codes-IsShortening : IsShortening html_codes
html_codes-IsShortening = (
  omega arith,
  omega arith,
  (
    omega arith,
    omega arith,
    (
      omega arith,
      omega arith,
      (
        omega arith,
        omega arith,
        (
          omega arith,
          omega arith,
          (
            omega arith,
            omega arith,
            (omega arith, omega arith, (omega arith, omega arith, (omega arith, omega arith, tt))),
          ),
        ),
      ),
    ),
  ),
)

-- Data of ten bytes or more that contain a code come out decoded, each code after the other in the
-- order of the table, and need no more room than before. Data without any code end in the release
-- of memory that malloc has not returned, and shorter data stay as they are.
pub replace_html_codes-decode :
    (data_ : Text)
    → replace_html_codes (some data_) ≡ (
        if ltb (length data_) 10
        then some (false, data_)
        else (if is_coded html_codes data_ then some (true, decode html_codes data_) else none))
      × (length (decode html_codes data_) ≤ length data_)
unfolding replace_html_codes
replace_html_codes-decode data_ =
    let smaller : length (decode html_codes data_) ≤ length data_ =
      decode-le html_codes data_ html_codes-IsShortening in
    (
      ap (λ m. if ltb (length data_) 10 then some (false, data_) else m)
          (bind-some _ (replace_codes-decode html_codes false data_ html_codes-IsShortening) (
            bind-some _
              (in_block-fits (suc (length data_)) (decode html_codes data_)
                (omega (arith, smaller)))
              refl)),
      smaller,
    )
