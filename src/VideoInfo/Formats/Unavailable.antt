-- ===== src/VideoInfo/Formats/Unavailable.antt =====
-- Pages whose duration getinfo.c does not find.
use thesis_share.Base.{
  ◌>>=◌, bind-some, ℕ, zero, suc, ◌/◌, ◌^◌, ◌<◌, ◌≤◌, ◌≡◌, ap, ◌∙◌, true, false, Option, none, some,
  List, ◌∷◌, if◌then◌else◌, arith, refl,
}
use thesis_share.Base.Int.{ℤ, pos, negsuc, pos_part, ◌-ℤ◌, ltb_ℤ}
use thesis_share.HttpHeader.{Text}
use thesis_share.VideoInfo.{Pattern, Entry}
use thesis_share.VideoInfo.Duration.{extract_duration}
use thesis_share.VideoInfo.Formats.{
  divide, to_int, getbitrate, put_changed, set_bitrates, extract_url_list, findformat, find_urls,
}
use thesis_share.VideoInfo.Formats.Lists.{suc-nonzero}

to_int-negsuc : (n : ℕ) → n < 2 ^ 31 → to_int (negsuc n) ≡ negsuc n
unfolding to_int
to_int-negsuc n h = ground (arith, h)

negated : (size : ℕ) → (pos 0 -ℤ pos (suc size / 1)) ≡ negsuc size
unfolding ◌-ℤ◌
negated size = ground arith

-- Divided by a duration of -1, a size has its negative as its bitrate.
getbitrate-negative :
    (size : ℕ) → size < 2 ^ 31 → getbitrate (negsuc 0) (pos (suc size)) ≡ some (negsuc size)
unfolding getbitrate divide
getbitrate-negative size h =
    ap (λ b. if b then some (negsuc 0) else (divide (suc size) (negsuc 0) >>= in_int))
      (suc-nonzero size)
    ∙ ap some (ap to_int (negated size) ∙ to_int-negsuc size h)
  where
    in_int : ℤ → Option ℤ
    in_int bytes_sec = some (to_int bytes_sec)

-- Without a duration no size has a bitrate that is not negative.
getbitrate-unavailable :
    (size : ℤ) → pos_part size ≤ 2 ^ 31 → (n : ℕ) × (getbitrate (negsuc 0) size ≡ some (negsuc n))
unfolding getbitrate
getbitrate-unavailable (negsuc n) h = (0, refl)
getbitrate-unavailable (pos zero) h = (0, refl)
getbitrate-unavailable (pos (suc n)) h = (n, getbitrate-negative n (omega (arith, h)))

module _ (regexec : Pattern → Text → Option (ℕ × ℕ)) (file_size : Text → ℤ)
    (qsort : (Entry → Entry → ℤ) → List Entry → List Entry) where
  -- If a page names formats that are not adaptive, and its adaptive formats can be read, but no
  -- duration is found, and the size of the first format that is not adaptive is at most 2^31, then
  -- find_urls finds no formats at all, and leaves the duration -1.
  pub find_urls-unavailable :
      (data_ : Text) (entry : Entry) (entries adaptive : List Entry)
      → extract_duration regexec data_ ≡ some none
      → extract_url_list regexec false data_ ≡ some (entry ∷ entries)
      → extract_url_list regexec true data_ ≡ some adaptive
      → pos_part (file_size entry.url) ≤ 2 ^ 31
      → find_urls regexec file_size qsort data_ ≡ some (negsuc 0, none)
  unfolding find_urls findformat set_bitrates
  find_urls-unavailable data_ entry entries adaptive missing found found_adaptive h =
      let (n, bitrate) = getbitrate-unavailable (file_size entry.url) h in
      bind-some _ missing (
        bind-some _
          (bind-some _ found
            (bind-some _ found_adaptive (bind-some _ (bind-some _ bitrate (negative n)) refl)))
          refl)
    where
      negative :
          (n : ℕ)
          → (if ltb_ℤ (negsuc n) (pos 0) then some none else (do
            rest ← set_bitrates file_size (negsuc 0) entries
            some (put_changed (record entry { bitrate = negsuc n }) rest)))
            ≡ some none
      negative n =
          let below : ltb_ℤ (negsuc n) (pos 0) ≡ true = ground arith in
          ap
            (λ b. if b then some none else (do
              rest ← set_bitrates file_size (negsuc 0) entries
              some (put_changed (record entry { bitrate = negsuc n }) rest)))
            below
