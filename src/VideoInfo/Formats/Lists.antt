-- ===== src/VideoInfo/Formats/Lists.antt =====
-- The lists of formats that findformat leaves, given that qsort sorts.
use mathlib.Core.List.{Perm, Pairwise}
use thesis_share.Base.{
  ◌>>=◌, ◌==◌, bind-some, ℕ, suc, ◌/◌, ◌^◌, ◌<◌, ◌≡◌, refl, sym, ap, ◌∙◌, true, false, Option, none,
  some, List, [], ◌∷◌, if◌then◌else◌, length, lt→ltb, map, arith,
}
use thesis_share.Base.Int.{ℤ, pos, negsuc, ◌≤ℤ◌, ltb_ℤ, -ℤ_parts}
use thesis_share.HttpHeader.{Text}
use thesis_share.Arguments.{codes}
use thesis_share.VideoInfo.{Pattern, Entry}
use thesis_share.VideoInfo.Formats.{
  divide, to_int, getbitrate, compar_bitrate, of_medium, put_changed, in_array, FoundFormats,
  set_bitrates, extract_url_list, fill_metric, findformat,
}

-- A list from the highest bitrate down.
abbrev pub IsDescending : List Entry → Type 0
IsDescending = Pairwise (λ a b. b.bitrate ≤ℤ a.bitrate)

Pairwise-weaken :
    {R S : Entry → Entry → Type 0} {l : List Entry}
    → ((a b : Entry) → R a b → S a b)
    → Pairwise R l
    → Pairwise S l
Pairwise-weaken f Pairwise.nil = Pairwise.nil
Pairwise-weaken f (Pairwise.cons h p) = Pairwise.cons (λ b m. f _ b (h b m)) (Pairwise-weaken f p)

pub to_int-small : (n : ℕ) → n < 2 ^ 31 → to_int (pos n) ≡ pos n
unfolding to_int
to_int-small n h = ground (arith, h)

length-map : (f : Entry → Entry) (l : List Entry) → length (map f l) ≡ length l
length-map f [] = refl
length-map f (x ∷ l) = ap suc (length-map f l)

in_array-fits : (entries : List Entry) → length entries < 24 → in_array entries ≡ some entries
unfolding in_array
in_array-fits entries h = ap (λ b. if b then some entries else none) (lt→ltb (length entries) 24 h)

pub suc-nonzero : (n : ℕ) → (suc n == 0) ≡ false
suc-nonzero n = ground arith

module _ (file_size : Text → ℤ) (seconds : ℕ) where
  -- The size of an entry is known, and its bitrate is one that an int holds.
  abbrev pub IsSized : Entry → Type 0
  IsSized entry =
      (size : ℕ) × (file_size entry.url ≡ pos (suc size)) × (suc size / suc seconds < 2 ^ 31)

  abbrev pub AllSized : List Entry → Type 0
  AllSized [] = Unit {0}
  AllSized (entry ∷ entries) = IsSized entry × AllSized entries

  abbrev pub bitrate_of : ℤ → ℤ
  bitrate_of (pos size) = pos (size / suc seconds)
  bitrate_of (negsuc size) = negsuc 0

  abbrev pub sized : Entry → Entry
  sized entry = record entry { bitrate = bitrate_of (file_size entry.url) }

  getbitrate-sized :
      (size : ℕ)
      → suc size / suc seconds < 2 ^ 31
      → getbitrate (pos (suc seconds)) (pos (suc size)) ≡ some (pos (suc size / suc seconds))
  unfolding getbitrate divide
  getbitrate-sized size h =
      ap (λ b. if b then some (negsuc 0) else (divide (suc size) (pos (suc seconds)) >>= in_int))
        (suc-nonzero size)
      ∙ bind-some in_int
          (ap (λ b. if b then none else some (pos (suc size / suc seconds))) (suc-nonzero seconds))
          (ap some (to_int-small (suc size / suc seconds) h))
    where
      in_int : ℤ → Option ℤ
      in_int bytes_sec = some (to_int bytes_sec)

  pub set_bitrates-sized :
      (entries : List Entry)
      → AllSized entries
      → set_bitrates file_size (pos (suc seconds)) entries ≡ some (some (map sized entries))
  unfolding set_bitrates put_changed
  set_bitrates-sized [] s = refl
  set_bitrates-sized (entry ∷ entries) ((size, known, small), s) =
      let bitrate = ap (getbitrate (pos (suc seconds))) known ∙ getbitrate-sized size small in
      bind-some continue bitrate (
        ap (λ b. if b then some none else changing) not_negative
        ∙ bind-some (λ rest. some (put_changed (record entry { bitrate = new }) rest))
            (set_bitrates-sized entries s)
            (ap (λ b. some (some (record entry { bitrate = bitrate_of b } ∷ map sized entries)))
              (sym known)))
    where
      new : ℤ
      new = pos (suc size / suc seconds)

      changing : Option (Option (List Entry))
      changing = do
        rest ← set_bitrates file_size (pos (suc seconds)) entries
        some (put_changed (record entry { bitrate = new }) rest)

      continue : ℤ → Option (Option (List Entry))
      continue url_bitrate = if ltb_ℤ url_bitrate (pos 0) then some none else (do
        rest ← set_bitrates file_size (pos (suc seconds)) entries
        some (put_changed (record entry { bitrate = url_bitrate }) rest))

      not_negative : ltb_ℤ new (pos 0) ≡ false
      not_negative = ground arith

-- The lists of a page: the formats by descending bitrate, the adaptive ones by their medium.
abbrev pub IsFound : (Text → ℤ) → ℕ → List Entry → List Entry → FoundFormats → Type 0
IsFound file_size seconds entries adaptive formats =
    Perm formats.no_adap_url (map (sized file_size seconds) entries)
    × IsDescending formats.no_adap_url
    × Perm formats.adap_audiourl (of_medium (codes "audio") adaptive)
    × IsDescending formats.adap_audiourl
    × Perm formats.adap_videourl (of_medium (codes "video") adaptive)
    × IsDescending formats.adap_videourl

module _ (regexec : Pattern → Text → Option (ℕ × ℕ)) (file_size : Text → ℤ)
    (qsort : (Entry → Entry → ℤ) → List Entry → List Entry)
    (permutes : (l : List Entry) → Perm (qsort compar_bitrate l) l)
    (sorts : (l : List Entry)
      → Pairwise (λ a b. compar_bitrate a b ≤ℤ pos 0) (qsort compar_bitrate l)) where
  qsort-IsDescending : (l : List Entry) → IsDescending (qsort compar_bitrate l)
  unfolding compar_bitrate
  qsort-IsDescending l =
      Pairwise-weaken (λ a b h. omega (arith, h, -ℤ_parts b.bitrate a.bitrate)) (sorts l)

  -- If the lists of the page are short enough for the arrays with their zeroed entry, the duration is
  -- known and positive, and so is each size, and qsort sorts, then findformat leaves all the formats,
  -- with the size of their file by the second as their bitrate, and the adaptive ones by their
  -- medium, each list from the highest bitrate down.
  pub findformat-IsFound :
      (data_ : Text) (seconds : ℕ) (entries adaptive : List Entry)
      → extract_url_list regexec false data_ ≡ some entries
      → extract_url_list regexec true data_ ≡ some adaptive
      → AllSized file_size seconds entries
      → length entries < 24
      → length (of_medium (codes "audio") adaptive) < 24
      → length (of_medium (codes "video") adaptive) < 24
      → (formats : FoundFormats) × (findformat regexec file_size qsort (pos (suc seconds)) data_
          ≡ some (some formats))
        × IsFound file_size seconds entries adaptive formats
  unfolding findformat fill_metric
  findformat-IsFound data_ seconds entries adaptive found found_adaptive sizes few few_audio
        few_video =
      let changed = map (sized file_size seconds) entries in
      let audio = of_medium (codes "audio") adaptive in
      let video = of_medium (codes "video") adaptive in
      (
        record {
          no_adap_url = qsort compar_bitrate changed;
          adap_audiourl = qsort compar_bitrate audio;
          adap_videourl = qsort compar_bitrate video;
        },
        bind-some _ found (
            bind-some _ found_adaptive (
              bind-some _ (set_bitrates-sized file_size seconds entries sizes) (
                bind-some _
                  (bind-some _
                    (in_array-fits changed
                      (omega (arith, length-map (sized file_size seconds) entries, few)))
                    (bind-some _ (in_array-fits audio few_audio)
                      (bind-some _ (in_array-fits video few_video) refl)))
                  refl))),
        (
          permutes changed,
          qsort-IsDescending changed,
          permutes audio,
          qsort-IsDescending audio,
          permutes video,
          qsort-IsDescending video,
        ),
      )
