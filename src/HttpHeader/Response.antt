-- ===== src/HttpHeader/Response.antt =====
-- When a response header is accepted, and what it then holds.
use thesis_share.Base.{
  ℕ, ◌-◌, ◌≤◌, ◌<◌, ◌≡◌, ◌↔◌, ◌⊎◌, inl, inr, refl, Bool, Bool-cases, Option-cases, true, false,
  none, some, arith, if◌then◌else◌, ltb, take, drop,
}
use thesis_share.HeaderEnd.{Bytes}
use thesis_share.Memory.Bytes.{read_bytes}
use thesis_share.HttpHeader.{
  ◌>>=◌, Regex, Pattern, code_pattern, location_pattern, version_pattern, length_pattern, Text,
  Result, ok, err, c_string, atoi, strtol, HeaderInfo, parse_first, get_code, get_redirect_url,
  get_http_version, try_get_content_length, is_redirect, get_response_header,
}

module _ (regex : Regex) (data_pointer : Bytes) (size : ℕ) where
  -- The first bytes, as many as there are and at most `window`.
  abbrev pub first_bytes : ℕ → Text
  first_bytes window = read_bytes data_pointer 0 (if ltb window size then window else size)

  -- The pattern compiles, and its group in the string of the first bytes is the text `t`.
  abbrev pub Finds : Pattern → ℕ → Text → Type 0
  Finds p window t =
      (regex.compiles p ≡ true)
      × ((so eo : ℕ) × (regex.group p (c_string (first_bytes window)) ≡ some (so, eo))
          × (t ≡ take (eo - so) (drop so (first_bytes window))))

  parse_first-Finds :
      (p : Pattern) (window : ℕ) (t : Text)
      → (parse_first regex (first_bytes window) p ≡ ok t) ↔ Finds p window t
  unfolding parse_first
  parse_first-Finds p window t = elim (Bool-cases (regex.compiles p)) [
    | inl compiled ↦ elim (Option-cases (regex.group p (c_string (first_bytes window)))) [
      | inl missing ↦
          (λ h. ground (arith, h, compiled, missing), λ h. ground (arith, h, compiled, missing))
      | inr ((so, eo), found) ↦
          (λ h. ground (arith, h, compiled, found), λ h. ground (arith, h, compiled, found))
    ]
    | inr broken ↦ (λ h. ground (arith, h, broken), λ h. ground (arith, h, broken))
  ]

  -- The location of a redirection, for a code from 300 to 399 and for no other.
  abbrev pub Redirects : HeaderInfo → Type 0
  Redirects info =
      (300 ≤ info.response_code)
        × (info.response_code < 400)
        × ((url : Text) × Finds location_pattern 2548 url × (info.redirect_url ≡ some url))
      ⊎ (info.response_code < 300 ⊎ 400 ≤ info.response_code) × (info.redirect_url ≡ none)

  -- The length, if it is asked for: 0 where none is found.
  abbrev pub Measures : Bool → HeaderInfo → Type 0
  Measures false info = info.content_length ≡ none
  Measures true info =
      ((t : Text) × Finds length_pattern 2548 t × (info.content_length ≡ some (strtol t)))
      ⊎ ((t : Text) → ¬ Finds length_pattern 2548 t) × (info.content_length ≡ some 0)

  -- A code and a version are found, and the other two fields are as they should be.
  abbrev pub Accepts : Bool → HeaderInfo → Type 0
  Accepts required info =
      ((t : Text) × Finds code_pattern 20 t × (info.response_code ≡ atoi t))
      × Finds version_pattern 100 info.http_version
      × Redirects info
      × Measures required info

  -- The parts of an accepted header, by the functions that find them.
  abbrev Parsed : Bool → HeaderInfo → Type 0
  Parsed required info =
      (get_code regex data_pointer size ≡ ok info.response_code)
      × (get_http_version regex data_pointer size ≡ ok info.http_version)
      × ((is_redirect info.response_code ≡ true)
            × ((url : Text) × (get_redirect_url regex data_pointer size ≡ ok url)
                × (info.redirect_url ≡ some url))
          ⊎ (is_redirect info.response_code ≡ false) × (info.redirect_url ≡ none))
      × (info.content_length
          ≡ (if required then some (try_get_content_length regex data_pointer size) else none))

  get_response_header-Parsed :
      (required : Bool) (info : HeaderInfo)
      → (get_response_header regex data_pointer size required ≡ ok info) ↔ Parsed required info
  unfolding get_response_header
  get_response_header-Parsed required info = (λ h. ground arith, λ h. ground arith)

  get_code-Finds :
      (code : ℕ)
      → (get_code regex data_pointer size ≡ ok code)
        ↔ ((t : Text) × Finds code_pattern 20 t × (code ≡ atoi t))
  unfolding get_code
  get_code-Finds code =
      by_result (parse_first regex (first_bytes 20) code_pattern)
        (parse_first-Finds code_pattern 20)
    where
      by_result :
          (r : Result Text)
          → ((t : Text) → (r ≡ ok t) ↔ Finds code_pattern 20 t)
          → ((r >>= λ t. ok (atoi t)) ≡ ok code)
            ↔ ((t : Text) × Finds code_pattern 20 t × (code ≡ atoi t))
      by_result (ok t) finds = (
        λ h. (t, (finds t).0 refl, ground (arith, h)),
        λ (t', found, e). ground (arith, (finds t').1 found, e),
      )
      by_result (err e) finds = (
        λ h. absurd (ground (arith, h)),
        λ (t', found, e'). absurd (ground (arith, (finds t').1 found)),
      )

  try_get_content_length-Measures :
      (required : Bool) (info : HeaderInfo)
      → (info.content_length
          ≡ (if required then some (try_get_content_length regex data_pointer size) else none))
        ↔ Measures required info
  unfolding try_get_content_length
  try_get_content_length-Measures false info = (λ h. h, λ h. h)
  try_get_content_length-Measures true info =
      by_result (parse_first regex (first_bytes 2548) length_pattern)
        (parse_first-Finds length_pattern 2548)
    where
      by_result :
          (r : Result Text)
          → ((t : Text) → (r ≡ ok t) ↔ Finds length_pattern 2548 t)
          → (info.content_length ≡ some (elim r [ ok t ↦ strtol t | err e ↦ 0 ]))
            ↔ Measures true info
      by_result (ok t) finds = (
        λ h. inl (t, (finds t).0 refl, h),
        λ h. elim h [
          | inl (t', found, e) ↦ ground (arith, (finds t').1 found, e)
          | inr (missing, e) ↦ absurd (missing t ((finds t).0 refl))
        ],
      )
      by_result (err e) finds = (
        λ h. inr (λ t found. ground (arith, (finds t).1 found), h),
        λ h. elim h [
          | inl (t', found, e') ↦ absurd (ground (arith, (finds t').1 found))
          | inr (missing, e') ↦ e'
        ],
      )

  get_redirect_url-Redirects :
      (info : HeaderInfo)
      → ((is_redirect info.response_code ≡ true)
            × ((url : Text) × (get_redirect_url regex data_pointer size ≡ ok url)
                × (info.redirect_url ≡ some url))
          ⊎ (is_redirect info.response_code ≡ false) × (info.redirect_url ≡ none))
        ↔ Redirects info
  unfolding get_redirect_url is_redirect
  get_redirect_url-Redirects info = (
    λ h. elim h [
      | inl (is, (url, found, e)) ↦ inl (
        ground arith,
        ground arith,
        (url, (parse_first-Finds location_pattern 2548 url).0 found, e),
      )
      | inr (is_not, e) ↦ inr (ground arith, e)
    ],
    λ h. elim h [
      | inl (low, high, (url, found, e)) ↦
          inl (ground arith, (url, (parse_first-Finds location_pattern 2548 url).1 found, e))
      | inr (outside, e) ↦ inr (ground arith, e)
    ],
  )

-- `get_response_header` gives a header exactly when the patterns of the code and the version match
-- in the first 20 and the first 100 bytes and, for a code from 300 to 399, that of the location in
-- the first 2548. The header then holds the number of the first group, the other groups, a redirect
-- url for such a code only, and a content length only if it was asked for, 0 if its pattern does not
-- match. A pattern that does not compile matches nothing.
pub get_response_header-ok :
    (regex : Regex) (data_pointer : Bytes) (size : ℕ) (required : Bool) (info : HeaderInfo)
    → (get_response_header regex data_pointer size required ≡ ok info)
      ↔ Accepts regex data_pointer size required info
unfolding get_http_version
get_response_header-ok regex d size required info =
    let (to, from) = get_response_header-Parsed regex d size required info in
    let (to_code, from_code) = get_code-Finds regex d size info.response_code in
    let (to_version, from_version) =
      parse_first-Finds regex d size version_pattern 100 info.http_version in
    let (to_url, from_url) = get_redirect_url-Redirects regex d size info in
    let (to_length, from_length) = try_get_content_length-Measures regex d size required info in
    (
      λ h.
          let (code, version, url, length) = to h in
          (to_code code, to_version version, to_url url, to_length length),
      λ (code, version, url, length).
          from (from_code code, from_version version, from_url url, from_length length),
    )
