-- ===== src/PageDownload/Quic.antt =====
-- The page of a video in youtube_test/src/youtube-dl.c, over the QUIC client: download_to_memory and
-- extract_media_urls, beside those over curl.
use thesis_share.Base.{◌>>=◌, ℕ, ◌&&◌, Option, none, some, List, ◌==◌, if◌then◌else◌}
use thesis_share.Base.Int.{ℤ, pos, negsuc, ltb_ℤ}
use thesis_share.HttpHeader.{Text, c_string}
use thesis_share.VideoInfo.{Pattern, Entry}
use thesis_share.VideoInfo.Formats.{find_urls}
use thesis_share.PageDownload.{Extracted, firstresponserror}

-- The fields of the output that are read, with the bytes in the buffer of the request.
pub record PageOutput : Type 0 where
  pub error_code : ℕ
  pub http_code : ℕ
  pub body : Text

-- `download_to_memory`, on what get_download_result returns: a NULL is read through.
pub download_page : Option PageOutput → Option ℤ
download_page none = none
download_page (some output) =
    if (output.error_code == 0) && (output.http_code == 200) then some (pos 0) else some (negsuc 3)

module _ (regexec : Pattern → Text → Option (ℕ × ℕ)) (file_size : Text → ℤ)
    (qsort : (Entry → Entry → ℤ) → List Entry → List Entry) where
  -- `extract_media_urls`, if there is memory for the page, which the client does not fill.
  pub extract_page_urls : PageOutput → Option Extracted
  unfolding download_page
  extract_page_urls output = do
    status ← download_page (some output)
    (if ltb_ℤ status (pos 0)
        then some (record { ret = negsuc 1; errorcode = some firstresponserror; found = none })
        else (do
          (dur_spec, formats) ← find_urls regexec file_size qsort (c_string output.body)
          some (record {
            ret = elim formats [ none ↦ negsuc 2 | some lists ↦ pos 0 ];
            errorcode = none;
            found = some (dur_spec, formats);
          })))
