-- ===== src/PageDownload/Chunks.antt =====
-- The page does not depend on how it arrives.
use mathlib.Core.List.{append-nil, append_assoc}
use thesis_share.Base.{
  ◌>>=◌, ℕ, zero, suc, ◌+◌, ◌-◌, ◌≤◌, ◌≡◌, refl, sym, ap, ◌∙◌, Bool, true, false, not, ◌||◌, inl,
  inr, Bool-cases, Option, none, some, List, [], ◌∷◌, ◌++◌, ◌==◌, if◌then◌else◌, length, take, ltb,
  ==_refl, ==_iff, ltb→lt, nltb→le, take-length, take-append_of_le, length-append, arith,
}
use thesis_share.Base.Int.{ℤ, pos, negsuc, ltb_ℤ}
use thesis_share.HttpHeader.{Text, c_string}
use thesis_share.CurlOps.{connected, difference}
use thesis_share.CurlOps.FileSize.{IpVersion, set_ip_version, has_error}
use thesis_share.VideoInfo.{Pattern, Entry}
use thesis_share.VideoInfo.Formats.{find_urls}
use thesis_share.PageDownload.{
  PageAnswers, Downloaded, Extracted, write_to_memory, write_chunks, download_to_memory,
  page_string, extract_media_urls,
}

abbrev pub concat : List Text → Text
concat [] = []
concat (chunk ∷ chunks) = chunk ++ concat chunks

take-append_of_ge :
    (n : ℕ) (xs ys : Text) → length xs ≤ n → take n (xs ++ ys) ≡ xs ++ take (n - length xs) ys
take-append_of_ge n [] ys h = ap (λ k. take k ys) (omega arith)
take-append_of_ge zero (x ∷ xs) ys h = absurd (omega (arith, h))
take-append_of_ge (suc n) (x ∷ xs) ys h =
    let less : n - length xs ≡ suc n - suc (length xs) = omega arith in
    ap (◌∷◌ x) (take-append_of_ge n xs ys (omega (arith, h)) ∙ ap (λ k. xs ++ take k ys) less)

take-nil : (n : ℕ) → take {A = ℕ} n [] ≡ []
take-nil zero = refl
take-nil (suc n) = refl

-- A chunk that is taken whole, and one that fills the memory.
module _ (page_size : ℕ) (chunk rest output : Text) (next : Text → Text)
    (h : length output ≤ page_size) where
  abbrev continued : ℕ → Text
  continued written =
      if written == length chunk
      then next (output ++ take written chunk)
      else output ++ take written chunk

  whole :
      next (output ++ chunk) ≡ take page_size ((output ++ chunk) ++ rest)
      → continued (length chunk) ≡ take page_size (output ++ (chunk ++ rest))
  whole further =
      ap
        (λ b.
          if b
          then next (output ++ take (length chunk) chunk)
          else output ++ take (length chunk) chunk)
        (==_refl (length chunk))
      ∙ ap (λ l. next (output ++ l)) (take-length chunk)
      ∙ further
      ∙ ap (take page_size) (append_assoc output chunk rest)

  part :
      (written : ℕ)
      → (written == length chunk) ≡ false
      → length output + written ≡ page_size
      → written ≤ length chunk
      → continued written ≡ take page_size (output ++ (chunk ++ rest))
  part written e full le =
      let left : page_size - length output ≡ written = omega (arith, full) in
      ap (λ b. if b then next (output ++ take written chunk) else output ++ take written chunk) e
      ∙ sym (
          take-append_of_ge page_size output (chunk ++ rest) h
          ∙ ap (λ n. output ++ take n (chunk ++ rest)) left
          ∙ ap (λ l. output ++ l) (take-append_of_le written chunk rest le))

  continued-take :
      (length output + length chunk ≤ page_size
        → next (output ++ chunk) ≡ take page_size ((output ++ chunk) ++ rest))
      → continued (
          if ltb (length chunk) (page_size - length output)
          then length chunk
          else page_size - length output)
        ≡ take page_size (output ++ (chunk ++ rest))
  continued-take further =
      let free = page_size - length output in
      elim (Bool-cases (ltb (length chunk) free)) [
        | inl less ↦
            ap (λ b. continued (if b then length chunk else free)) less
            ∙ whole (further (omega (arith, h, ltb→lt (length chunk) free less)))
        | inr more ↦
            ap (λ b. continued (if b then length chunk else free)) more
            ∙ (elim (Bool-cases (free == length chunk)) [
              | inl equal ↦
                  let same = (==_iff free (length chunk)).0 equal in
                  ap continued same ∙ whole (further (omega (arith, h, same)))
              | inr less ↦ part free less (omega (arith, h)) (nltb→le (length chunk) free more)
            ])
      ]

-- Whatever the chunks, what is written is the page up to the size of the memory.
write_chunks-take :
    (page_size : ℕ) (chunks : List Text) (output : Text)
    → length output ≤ page_size
    → write_chunks page_size chunks output ≡ take page_size (output ++ concat chunks)
unfolding write_chunks write_to_memory
write_chunks-take page_size [] output h = sym (
    take-append_of_ge page_size output [] h
    ∙ ap (λ l. output ++ l) (take-nil (page_size - length output))
    ∙ append-nil output)
write_chunks-take page_size (chunk ∷ chunks) output h =
    continued-take page_size chunk (concat chunks) output (write_chunks page_size chunks) h λ fits.
      write_chunks-take page_size chunks (output ++ chunk)
        (omega (arith, fits, length-append output chunk))

else-of : {A : Type 0} {b : Bool} (x y : A) → b ≡ false → (if b then x else y) ≡ y
else-of {A} {b} x y e = ap (λ c. if c then x else y) e

not-true : {b : Bool} → b ≡ true → not b ≡ false
not-true e = ap not e

-- curl gives a handle, takes the options, and the response has the code 200.
abbrev pub IsDelivered : IpVersion → PageAnswers → Type 0
IsDelivered ip_version a =
    (a.has_handle ≡ true)
    × (ltb_ℤ (set_ip_version a.version_taken ip_version) (pos 0) ≡ false)
    × (has_error a.options ≡ false)
    × (a.has_code ≡ true)
    × (a.http_code ≡ 200)

abbrev delivery : PageAnswers → ℕ → Downloaded
delivery a page_size = record {
  status = pos 0;
  written = write_chunks page_size a.chunks [];
  connection_time = connected (difference a.connect_time a.namelookup_time);
  opened = 1;
  closed = 1;
}

module _ (page_size : ℕ) (ip_version : IpVersion) (a : PageAnswers) where
  download_to_memory-delivered :
      IsDelivered ip_version a
      → ((download_to_memory page_size ip_version a).status ≡ pos 0)
        × ((download_to_memory page_size ip_version a).written ≡ take page_size (concat a.chunks))
  unfolding download_to_memory
  download_to_memory-delivered (handle, version, options, code, good) =
      let written = write_chunks-take page_size a.chunks [] (omega arith) in
      let is_good : (not a.has_code || not (a.http_code == 200)) ≡ false =
        ground (arith, code, good) in
      let delivered : download_to_memory page_size ip_version a ≡ delivery a page_size =
        else-of _ _ (not-true handle)
        ∙ else-of _ _ version
        ∙ else-of _ _ options
        ∙ else-of _ _ is_good in
      (ap (λ d. d.status) delivered, ap (λ d. d.written) delivered ∙ written)

  module _ (regexec : Pattern → Text → Option (ℕ × ℕ)) (file_size : Text → ℤ)
      (qsort : (Entry → Entry → ℤ) → List Entry → List Entry) where
    -- What find_urls makes of the page.
    abbrev pub found_in : Text → Option Extracted
    found_in text = do
      (dur_spec, formats) ← find_urls regexec file_size qsort text
      some (record {
        ret = elim formats [ none ↦ negsuc 0 | some lists ↦ pos 0 ];
        errorcode = none;
        found = some (dur_spec, formats);
      })

    -- If curl gives a handle, takes the options and the response has the code 200, then
    -- extract_media_urls takes the first bytes of the page, as many as the memory holds and up to the
    -- first NUL, however the page comes in chunks. It does with them what find_urls makes of them; but
    -- if they fill the memory, so that there is no NUL in it, it reads behind the end of the memory.
    pub extract_media_urls-concat :
        IsDelivered ip_version a
        → extract_media_urls page_size regexec file_size qsort ip_version a ≡ (
            let text = c_string (take page_size (concat a.chunks)) in
            if ltb (length text) page_size then found_in text else none)
    unfolding extract_media_urls page_string
    extract_media_urls-concat delivered =
        let (status, written) = download_to_memory-delivered delivered in
        let text = c_string (take page_size (concat a.chunks)) in
        ap
          (λ b.
            if b
            then failed
            else (page_string page_size (download_to_memory page_size ip_version a).written
                >>= found_in))
          (ap (λ n. ltb_ℤ n (pos 0)) status)
        ∙ ap (λ w. page_string page_size w >>= found_in) written
        ∙ by_length (ltb (length text) page_size) text
      where
        failed : Option Extracted
        failed = some (record { ret = negsuc 1; errorcode = some 620; found = none })

        by_length :
            (b : Bool) (text : Text)
            → ((if b then some text else none) >>= found_in) ≡ (if b then found_in text else none)
        by_length true text = refl
        by_length false text = refl
