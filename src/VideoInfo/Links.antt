-- ===== src/VideoInfo/Links.antt =====
-- The link of a piece of the list of formats, and what the body of the loop makes of it.
use thesis_share.Base.{
  ◌>>=◌, bind-some, ℕ, ◌≡◌, refl, ap, ◌∙◌, Bool, true, false, ◌&&◌, ◌||◌, ltb→lt, Option, none,
  some, List, [], ◌∷◌, ◌++◌, if◌then◌else◌, length, drop, ltb, arith,
}
use thesis_share.HttpHeader.{Text}
use thesis_share.Arguments.{codes}
use thesis_share.Replace.{strstr, in_block, html_codes, replace_html_codes}
use thesis_share.Replace.Substitute.{in_block-fits}
use thesis_share.Replace.Codes.{decode, is_coded, replace_html_codes-decode}
use thesis_share.VideoInfo.{
  Pattern, Entry, get_or, url_at, copy_found, copy_to_videourl, decode_url, extract_bitrate,
  extract_formattype, fill_entry,
}

abbrev pub is_some : {A : Type 0} → Option A → Bool
is_some none = false
is_some (some a) = true

-- A piece names its itag in one of the two ways.
abbrev pub has_itag : Text → Bool
has_itag piece = is_some (strstr piece (codes "itag%3D")) || is_some (strstr piece (codes "itag="))

-- A link as the entry keeps it.
abbrev pub decoded : Text → Text
decoded url = if ltb (length url) 10 then url else decode html_codes url

-- The link of a piece, which is empty where there is no `url=`, and `none` if nothing follows it.
abbrev pub link_at : Text → Option Text
link_at tmp = if ltb 4 (length tmp) then some (decoded (url_at (drop 4 tmp))) else none

abbrev pub link : Text → Option Text
link piece = elim (strstr piece (codes "url=")) [ none ↦ some [] | some k ↦ link_at (drop k piece) ]

-- The links of the pieces that have an itag.
abbrev pub if_named : Bool → Option Text → List Text
if_named false url = []
if_named true none = []
if_named true (some url) = url ∷ []

abbrev pub links : List Text → List Text
links [] = []
links (piece ∷ pieces) = if_named (has_itag piece) (link piece) ++ links pieces

-- A link fits with its NUL, and it is short or a code occurs in it.
abbrev pub url_fits : Text → Bool
url_fits url = ltb (length url) 1500 && (ltb (length url) 10 || is_coded html_codes url)

abbrev pub fits_at : Text → Bool
fits_at tmp = if ltb 4 (length tmp) then url_fits (url_at (drop 4 tmp)) else true

abbrev pub link_fits : Text → Bool
link_fits piece = elim (strstr piece (codes "url=")) [
  | none ↦ true
  | some k ↦ fits_at (drop k piece)
]

module _ (regexec : Pattern → Text → Option (ℕ × ℕ)) where
  -- The type and the link of a piece can be copied.
  abbrev pub is_safe : Text → Bool
  is_safe piece = is_some (extract_formattype regexec piece) && link_fits piece

  abbrev pub all_safe : List Text → Bool
  all_safe [] = true
  all_safe (piece ∷ pieces) = is_safe piece && all_safe pieces

pub and-left : (a b : Bool) → (a && b) ≡ true → a ≡ true
and-left true b h = refl
and-left false b h = h

pub and-right : (a b : Bool) → (a && b) ≡ true → b ≡ true
and-right true b h = h
and-right false b h = absurd (ground (arith, h))

is_some-of : {A : Type 0} (o : Option A) → is_some o ≡ true → (a : A) × (o ≡ some a)
is_some-of none h = absurd (ground (arith, h))
is_some-of (some a) h = (a, refl)

-- The decoding of a link that fits.
replace-fits :
    (url : Text)
    → url_fits url ≡ true
    → (answer : Bool) × (replace_html_codes (some url) ≡ some (answer, decoded url))
replace-fits url h =
    choose (ltb (length url) 10) (is_coded html_codes url)
      (and-right (ltb (length url) 1500) (ltb (length url) 10 || is_coded html_codes url) h)
      (replace_html_codes-decode url).0
  where
    choose :
        (short coded : Bool)
        → (short || coded) ≡ true
        → replace_html_codes (some url) ≡ (
            if short
            then some (false, url)
            else (if coded then some (true, decode html_codes url) else none))
        → (answer : Bool) × (replace_html_codes (some url)
            ≡ some (answer, if short then url else decode html_codes url))
    choose true coded s e = (false, e)
    choose false true s e = (true, e)
    choose false false s e = absurd (ground (arith, s))

-- What `copy_to_videourl` copies: a link that fits comes out decoded.
Copied : Option (Bool × Option Text) → Option Text → Type 0
Copied run none = run ≡ some (false, none)
Copied run (some url) =
    (found : Option Text) × (run ≡ some (true, found))
    × ((answer : Bool) × (replace_html_codes (some (get_or [] found)) ≡ some (answer, url)))

copy_found-link : (tmp : Text) → fits_at tmp ≡ true → Copied (copy_found tmp) (link_at tmp)
unfolding Copied copy_found
copy_found-link tmp h = by_length (ltb 4 (length tmp)) h
  where
    url : Text
    url = url_at (drop 4 tmp)

    by_length :
        (long : Bool)
        → (if long then url_fits url else true) ≡ true
        → Copied
            (if long
              then (in_block 1500 url >>= λ copied. some (true, some copied))
              else some (false, none))
            (if long then some (decoded url) else none)
    by_length true f = (
      some url,
      bind-some _
          (in_block-fits 1500 url (
            ltb→lt (length url) 1500 (
              and-left (ltb (length url) 1500) (ltb (length url) 10 || is_coded html_codes url) f)))
          refl,
      replace-fits url f,
    )
    by_length false f = refl

copy-link : (piece : Text) → link_fits piece ≡ true → Copied (copy_to_videourl piece) (link piece)
unfolding Copied copy_to_videourl
copy-link piece h = by_place (strstr piece (codes "url=")) h
  where
    by_place :
        (place : Option ℕ)
        → (elim place [ none ↦ true | some k ↦ fits_at (drop k piece) ]) ≡ true
        → Copied
            (elim place [ none ↦ some (true, none) | some k ↦ copy_found (drop k piece) ])
            (elim place [ none ↦ some [] | some k ↦ link_at (drop k piece) ])
    by_place none f = (none, refl, replace-fits [] refl)
    by_place (some k) f = copy_found-link (drop k piece) f

decode-link :
    (run : Option (Bool × Option Text)) (url : Option Text) (entry : Entry)
    → entry.url ≡ []
    → Copied run url
    → (filled : Entry) × ((run >>= λ r. decode_url r.0 r.1 entry) ≡ some (is_some url, filled))
      × (filled.url ≡ get_or [] url)
unfolding Copied decode_url
decode-link run none entry empty h =
    (entry, bind-some (λ r. decode_url r.0 r.1 entry) h refl, empty)
decode-link run (some url) entry empty (found, h, (answer, replaced)) = (
  record entry { url = url },
  bind-some (λ r. decode_url r.0 r.1 entry) h
      (bind-some (λ r. some (true, record entry { url = r.1 }))
        (ap (λ old. replace_html_codes (some (get_or old found))) empty ∙ replaced) refl),
  refl,
)

-- The body of the loop behind the itag, on an entry without a link.
module _ (regexec : Pattern → Text → Option (ℕ × ℕ)) (adaptive : Bool) where
  pub fill_entry-link :
      (piece : Text) (entry : Entry)
      → entry.url ≡ []
      → is_safe regexec piece ≡ true
      → (filled : Entry) × (fill_entry regexec adaptive piece entry
          ≡ some (is_some (link piece), filled))
        × (filled.url ≡ get_or [] (link piece))
  unfolding fill_entry
  fill_entry-link piece entry empty safe =
      let (found, typed) =
        is_some-of (extract_formattype regexec piece)
          (and-left (is_some (extract_formattype regexec piece)) (link_fits piece) safe) in
      let (filled, run, url) =
        decode-link (copy_to_videourl piece) (link piece)
          (record entry {
            type = get_or entry.type found.1;
            bitrate =
                if adaptive then (extract_bitrate regexec piece entry.bitrate).1 else entry.bitrate;
          })
          empty
          (copy-link piece
            (and-right (is_some (extract_formattype regexec piece)) (link_fits piece) safe)) in
      (filled, bind-some _ typed run, url)
