-- ===== src/PageDownload.antt =====
-- The page of a video in youtube_tcp_test/src/youtube-dl.c: write_to_memory, download_to_memory and
-- extract_media_urls, with find_urls of `VideoInfo`. What curl answers is given. `none` is a fault:
-- the page is read behind the end of its memory, or a fault of find_urls.
mod Chunks
mod Quic
mod Tests
use thesis_share.Base.{
  ◌>>=◌, ℕ, zero, suc, ◌+◌, ◌-◌, Bool, true, false, not, ◌&&◌, ◌||◌, Option, none, some, List, [],
  ◌∷◌, ◌++◌, ◌==◌, if◌then◌else◌, length, take, ltb,
}
use thesis_share.Base.Int.{ℤ, pos, negsuc, ltb_ℤ}
use thesis_share.HttpHeader.{Text, c_string}
use thesis_share.CurlOps.{connected, difference}
use thesis_share.CurlOps.FileSize.{IpVersion, set_ip_version, has_error}
use thesis_share.VideoInfo.{Pattern, Entry}
use thesis_share.VideoInfo.Formats.{FoundFormats, find_urls}

abbrev pub firstresponserror : ℕ
firstresponserror = 620

-- The answers of curl: whether there is a handle, whether the version of IP and each option are
-- taken, the chunks that arrive, whether the response code can be had, the code, and two times.
pub record PageAnswers : Type 0 where
  pub has_handle : Bool
  pub version_taken : Bool
  pub options : List Bool
  pub chunks : List Text
  pub has_code : Bool
  pub http_code : ℕ
  pub connect_time : Option ℕ
  pub namelookup_time : Option ℕ

-- What a download leaves: its answer, the bytes that have been written, the connection time of
-- `metric`, and the handles that have been opened and closed.
pub record Downloaded : Type 0 where
  pub status : ℤ
  pub written : Text
  pub connection_time : ℤ
  pub opened : ℕ
  pub closed : ℕ

-- `extract_media_urls`: its answer, the error code that it sets, and what find_urls leaves.
pub record Extracted : Type 0 where
  pub ret : ℤ
  pub errorcode : Option ℕ
  pub found : Option (ℤ × Option FoundFormats)

module _ (page_size : ℕ) where
  -- `write_to_memory` behind the bytes that have been written: how many it takes, and all bytes.
  pub write_to_memory : Text → Text → ℕ × Text
  write_to_memory chunk output =
      let free_space = page_size - length output in
      let written = if ltb (length chunk) free_space then length chunk else free_space in
      (written, output ++ take written chunk)

  -- The calls that curl makes for the chunks: it ends the transfer if one is not taken whole.
  pub write_chunks : List Text → Text → Text
  unfolding write_to_memory
  write_chunks [] output = output
  write_chunks (chunk ∷ chunks) output =
      let (written, output') = write_to_memory chunk output in
      let rest = write_chunks chunks output' in if written == length chunk then rest else output'

  pub download_to_memory : IpVersion → PageAnswers → Downloaded
  unfolding write_chunks set_ip_version has_error connected difference
  download_to_memory ip_version a =
      let failed : Downloaded = record {
        status = negsuc 0;
        written = [];
        connection_time = pos 0;
        opened = 0;
        closed = 0;
      } in
      let closing : Downloaded = record failed { opened = 1; closed = 1 } in
      let written = write_chunks a.chunks [] in
      if not a.has_handle
      then failed
      else (if ltb_ℤ (set_ip_version a.version_taken ip_version) (pos 0)
          then record closing { status = negsuc 1 }
          else (if has_error a.options
              then record closing { status = negsuc 2 }
              else (if not a.has_code || not (a.http_code == 200)
                  then record closing { status = negsuc 3; written = written }
                  else record closing {
                    status = pos 0;
                    written = written;
                    connection_time = connected (difference a.connect_time a.namelookup_time);
                  })))

  -- The string in the zeroed memory of the page, which is read behind its end if the memory holds
  -- no NUL.
  pub page_string : Text → Option Text
  unfolding c_string
  page_string written =
      let text = c_string written in if ltb (length text) page_size then some text else none

  module _ (regexec : Pattern → Text → Option (ℕ × ℕ)) (file_size : Text → ℤ)
      (qsort : (Entry → Entry → ℤ) → List Entry → List Entry) where
    -- `extract_media_urls`, if there is memory for the page.
    pub extract_media_urls : IpVersion → PageAnswers → Option Extracted
    unfolding download_to_memory page_string find_urls
    extract_media_urls ip_version a =
        let page = download_to_memory ip_version a in
        if ltb_ℤ page.status (pos 0)
        then some (record { ret = negsuc 1; errorcode = some firstresponserror; found = none })
        else (do
          text ← page_string page.written
          (dur_spec, formats) ← find_urls regexec file_size qsort text
          some (record {
            ret = elim formats [ none ↦ negsuc 0 | some lists ↦ pos 0 ];
            errorcode = none;
            found = some (dur_spec, formats);
          }))
