-- ===== src/VideoInfo/Tests.antt =====
-- A page with two formats, one of them with its itag encoded.
use thesis_share.Base.{
  ◌≤◌, ◌≡◌, ◌⊎◌, refl, ℕ, Bool, true, false, Option, none, some, List, [], ◌∷◌, ◌++◌, length, arith,
}
use thesis_share.Base.Int.{ℤ, pos, negsuc}
use thesis_share.HttpHeader.{Text, digits_value}
use thesis_share.Arguments.{codes, atoi, div_8, contains, begins_with}
use thesis_share.Replace.{
  strstr, starts_with, replace_html_codes, replace_codes, str_replace, in_block,
}
use thesis_share.VideoInfo.{
  Pattern, Entry, split_pieces, split_urls, split_loop, split_piece, fill_entry, extract_bitrate,
  extract_formattype, copy_to_videourl, copy_found, decode_url, put_entry, find_itag, url_at,
  put_piece, strtok_rest, or_data, copy_itag,
}
use thesis_share.VideoInfo.Duration.{extract_duration}
use thesis_share.VideoInfo.Formats.{
  FoundFormats, of_medium, compar_bitrate, extract_url_list, extract_urlstring,
  extract_urlstring_adaptive, findformat, find_urls,
}
use thesis_share.VideoInfo.Formats.Lists.{IsFound, findformat-IsFound}
use thesis_share.VideoInfo.Formats.Sorting.{
  insertion_sort, insertion_sort-perm, insertion_sort-IsOrdered,
}
use thesis_share.VideoInfo.Formats.Unavailable.{find_urls-unavailable}
use thesis_share.VideoInfo.Links.{links}
use thesis_share.VideoInfo.Pieces.{urls, split_urls-links}

abbrev page : Text
page =
    codes "itag%3D22&url=http%3A%2F%2Fa"
    ++ (92 ∷ codes "u0026type=video%2Fmp4")
    ++ codes ",itag=140&url=http%3A%2F%2Fb"
    ++ (92 ∷ codes "u0026type=audio%2Fmp4")

-- The whole page for a list, and the type up to the end of the piece.
abbrev find : Pattern → Text → Option (ℕ × ℕ)
find Pattern.duration t = none
find Pattern.bitrate t = none
find Pattern.type t = elim (strstr t (codes "type=")) [ none ↦ none | some k ↦ some (k, length t) ]
find Pattern.stream_map t = some (0, length t)
find Pattern.adaptive_fmts t = some (0, length t)

abbrev page_entries : List Entry
page_entries =
    record { itag = pos 22; url = codes "http://a"; type = codes "video/mp4"; bitrate = pos 0 }
    ∷ record { itag = pos 0; url = codes "http://b"; type = codes "audio/mp4"; bitrate = pos 0 }
    ∷ []

split_urls-links_example :
    ((entries : List Entry) × (split_urls find true page ≡ some entries)
      × (urls entries ≡ links (split_pieces page))
      × (length entries ≤ 24))
    ⊎ ((split_urls find true page ≡ none) × (24 ≤ length (links (split_pieces page))))
unfolding split_urls split_loop split_piece fill_entry extract_bitrate extract_formattype
    copy_to_videourl copy_found decode_url put_entry find_itag url_at put_piece strtok_rest or_data
    copy_itag split_pieces strstr starts_with atoi div_8 digits_value replace_html_codes
    replace_codes str_replace in_block
split_urls-links_example = split_urls-links find true page refl

file_size : Text → ℤ
file_size url = pos 5000

extract_url_list-page : (adaptive : Bool) → extract_url_list find adaptive page ≡ some page_entries
unfolding extract_url_list extract_urlstring extract_urlstring_adaptive split_urls split_loop
    split_piece fill_entry extract_bitrate extract_formattype copy_to_videourl copy_found decode_url
    put_entry find_itag url_at put_piece strtok_rest or_data copy_itag split_pieces strstr
    starts_with atoi div_8 digits_value replace_html_codes replace_codes str_replace in_block
extract_url_list-page true = refl
extract_url_list-page false = refl

findformat-IsFound_example :
    (formats : FoundFormats) × (findformat find file_size insertion_sort (pos 10) page
      ≡ some (some formats))
    × IsFound file_size 9 page_entries page_entries formats
unfolding file_size of_medium contains begins_with
findformat-IsFound_example =
    findformat-IsFound find file_size insertion_sort (insertion_sort-perm compar_bitrate)
      insertion_sort-IsOrdered page 9 page_entries page_entries (extract_url_list-page false)
      (extract_url_list-page true) ((4999, refl, omega arith), ((4999, refl, omega arith), tt))
      (omega arith) (omega arith) (omega arith)

find_urls-unavailable_example : find_urls find file_size insertion_sort page ≡ some (negsuc 0, none)
unfolding file_size extract_duration
find_urls-unavailable_example =
    find_urls-unavailable find file_size insertion_sort page
      (record { itag = pos 22; url = codes "http://a"; type = codes "video/mp4"; bitrate = pos 0 })
      (record { itag = pos 0; url = codes "http://b"; type = codes "audio/mp4"; bitrate = pos 0 }
        ∷ [])
      page_entries refl (extract_url_list-page false) (extract_url_list-page true) (omega arith)
