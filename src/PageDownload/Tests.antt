-- ===== src/PageDownload/Tests.antt =====
-- A page that comes in two chunks.
use thesis_share.Base.{
  ◌≡◌, refl, ℕ, ltb, if◌then◌else◌, length, take, true, none, some, Option, [], ◌∷◌,
}
use thesis_share.Base.Int.{pos}
use thesis_share.HttpHeader.{Text, c_string}
use thesis_share.Arguments.{codes}
use thesis_share.CurlOps.FileSize.{ipv4, set_ip_version, has_error}
use thesis_share.VideoInfo.{Pattern}
use thesis_share.PageDownload.{PageAnswers, extract_media_urls}
use thesis_share.PageDownload.Chunks.{concat, found_in, extract_media_urls-concat}

abbrev answers : PageAnswers
answers = record {
  has_handle = true;
  version_taken = true;
  options = true ∷ true ∷ [];
  chunks = codes "itag=5&url=htt" ∷ codes "p%3A%2F%2Fa" ∷ [];
  has_code = true;
  http_code = 200;
  connect_time = some 90;
  namelookup_time = some 40;
}

-- The whole page for the list of formats.
abbrev find : Pattern → Text → Option (ℕ × ℕ)
find Pattern.duration t = none
find Pattern.bitrate t = none
find Pattern.type t = none
find Pattern.stream_map t = some (0, length t)
find Pattern.adaptive_fmts t = none

extract_media_urls-concat_example :
    extract_media_urls 500 find (λ url. pos 5000) (λ compar l. l) ipv4 answers ≡ (
      let text = c_string (take 500 (concat answers.chunks)) in
      if ltb (length text) 500
      then found_in 500 ipv4 answers find (λ url. pos 5000) (λ compar l. l) text
      else none)
unfolding set_ip_version has_error
extract_media_urls-concat_example =
    extract_media_urls-concat 500 ipv4 answers find (λ url. pos 5000) (λ compar l. l)
      (refl, refl, refl, refl, refl)
