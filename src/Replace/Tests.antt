-- ===== src/Replace/Tests.antt =====
-- Codes within a link.
use thesis_share.Base.{◌≡◌, ◌≤◌, some, none, true, false, if◌then◌else◌, length, ltb, arith}
use thesis_share.Arguments.{codes}
use thesis_share.Replace.{starts_with, strstr, str_replace, html_codes, replace_html_codes}
use thesis_share.Replace.Substitute.{str_replace-substitute}
use thesis_share.Replace.Codes.{decode, is_coded, replace_html_codes-decode}

str_replace-substitute_example :
    str_replace (some (codes "a%2Fb%2F")) (some (codes "%2F")) (some (codes "/"))
    ≡ some (some (codes "a/b/"))
unfolding strstr starts_with
str_replace-substitute_example =
    str_replace-substitute (codes "%2F") (codes "/") (omega arith) (codes "a%2Fb%2F")

replace_html_codes-decode_example :
    (replace_html_codes (some (codes "http%3A%2F%2Fa")) ≡ (
      if ltb 14 10
      then some (false, codes "http%3A%2F%2Fa")
      else (if is_coded html_codes (codes "http%3A%2F%2Fa")
          then some (true, decode html_codes (codes "http%3A%2F%2Fa"))
          else none)))
    × (length (decode html_codes (codes "http%3A%2F%2Fa")) ≤ 14)
replace_html_codes-decode_example = replace_html_codes-decode (codes "http%3A%2F%2Fa")
