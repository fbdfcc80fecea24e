-- ===== src/VideoInfo/Pieces.antt =====
-- The loop of split_urls over the pieces, and what it returns.
use thesis_share.Base.{
  ◌>>=◌, bind-some, ℕ, suc, ◌+◌, ◌≤◌, ◌≡◌, refl, sym, ap, ◌∙◌, ◌⊎◌, inl, inr, Bool, true, false,
  ◌||◌, ltb→lt, Option, none, some, List, [], ◌∷◌, ◌++◌, nltb→le, subst, if◌then◌else◌, length,
  drop, ltb, map, arith, length-append,
}
use mathlib.Core.List.{append-nil, append_assoc}
use thesis_share.HttpHeader.{Text}
use thesis_share.Arguments.{codes, atoi}
use thesis_share.Replace.{strstr}
use thesis_share.VideoInfo.{
  Pattern, Entry, Split, start_split, zero_entry, copy_itag, put_entry, split_pieces, get_or,
  find_itag, fill_entry, split_piece, split_loop, split_urls,
}
use thesis_share.VideoInfo.Links.{
  is_some, has_itag, link, if_named, links, is_safe, all_safe, and-left, and-right, fill_entry-link,
}

-- A search has found an itag if and only if the piece has one.
find_itag-has :
    (piece : Text) (itagstr : List ℕ) → is_some (find_itag piece itagstr) ≡ has_itag piece
unfolding find_itag
find_itag-has piece itagstr =
    by_place (strstr piece (codes "itag%3D")) (strstr piece (codes "itag="))
  where
    by_place :
        (coded plain : Option ℕ)
        → is_some (elim coded [
          | some k ↦ some (
              copy_itag
                (if ltb (length (drop (k + 7) piece)) 7 then length (drop (k + 7) piece) else 7)
                (drop (k + 7) piece)
                itagstr)
          | none ↦ elim plain [
            | some k ↦ some (copy_itag 7 (drop (k + 4) piece) itagstr)
            | none ↦ none
          ]
        ])
          ≡ (is_some coded || is_some plain)
    by_place (some k) plain = refl
    by_place none (some k) = refl
    by_place none none = refl

abbrev pub urls : List Entry → List Text
urls = map (λ e. e.url)

urls-append : (xs ys : List Entry) → urls (xs ++ ys) ≡ urls xs ++ urls ys
urls-append [] ys = refl
urls-append (x ∷ xs) ys = ap (◌∷◌ x.url) (urls-append xs ys)

-- The loop goes on with the links of the entries and the new ones, or the list was full.
abbrev Continued : Split → List Text → Option Split → Type 0
Continued s new run =
    ((s' : Split) × (run ≡ some s')
      × (s'.current.url ≡ [])
      × (urls s'.entries ≡ urls s.entries ++ new)
      × (length s'.entries ≤ 24))
    ⊎ ((run ≡ none) × (24 ≤ length s.entries + length new))

put_entry-Continued :
    (s : Split) (itagstr : List ℕ) (url : Option Text) (filled : Entry)
    → filled.url ≡ get_or [] url
    → length s.entries + 1 ≤ 24
    → Continued s (if_named true url) (some (put_entry itagstr (is_some url, filled) s))
unfolding put_entry
put_entry-Continued s itagstr none filled e room = inl (
  record s { current = filled; itagstr = itagstr },
  refl,
  e,
  sym (append-nil (urls s.entries)),
  omega arith,
)
put_entry-Continued s itagstr (some url) filled e room = inl (
  record { entries = s.entries ++ (filled ∷ []); current = zero_entry; itagstr = itagstr },
  refl,
  refl,
  urls-append s.entries (filled ∷ []) ∙ ap (λ u. urls s.entries ++ (u ∷ [])) e,
  omega (arith, length-append s.entries (filled ∷ []), room),
)

module _ (regexec : Pattern → Text → Option (ℕ × ℕ)) (adaptive : Bool) where
  split_piece-Continued :
      (piece : Text) (s : Split)
      → s.current.url ≡ []
      → length s.entries ≤ 24
      → is_safe regexec piece ≡ true
      → Continued s (if_named (has_itag piece) (link piece)) (split_piece regexec adaptive piece s)
  unfolding split_piece
  split_piece-Continued piece s empty room safe =
      by_itag (find_itag piece s.itagstr) (has_itag piece) (find_itag-has piece s.itagstr)
    where
      filling : List ℕ → Option (Bool × Entry)
      filling itagstr = fill_entry regexec adaptive piece (record s.current { itag = atoi itagstr })

      by_room :
          (itagstr : List ℕ) (free : Bool)
          → ltb (length s.entries) 24 ≡ free
          → Continued s (if_named true (link piece)) (
              if free
              then (filling itagstr >>= λ filled. some (put_entry itagstr filled s))
              else none)
      by_room itagstr true e =
          let (filled, run, url) =
            fill_entry-link regexec adaptive piece (record s.current { itag = atoi itagstr }) empty
              safe in
          subst (Continued s (if_named true (link piece))) (sym (bind-some _ run refl)) (
            put_entry-Continued s itagstr (link piece) filled url
              (omega (arith, ltb→lt (length s.entries) 24 e)))
      by_room itagstr false e = inr (refl, omega (arith, nltb→le (length s.entries) 24 e))

      by_itag :
          (found : Option (List ℕ)) (has : Bool)
          → is_some found ≡ has
          → Continued s (if_named has (link piece)) (elim found [
            | none ↦ some s
            | some itagstr ↦
                if ltb (length s.entries) 24
                then (filling itagstr >>= λ filled. some (put_entry itagstr filled s))
                else none
          ])
      by_itag none false e = inl (s, refl, empty, sym (append-nil (urls s.entries)), room)
      by_itag (some itagstr) true e = by_room itagstr (ltb (length s.entries) 24) refl
      by_itag none true e = absurd (ground (arith, e))
      by_itag (some itagstr) false e = absurd (ground (arith, e))

length-urls : (xs : List Entry) → length (urls xs) ≡ length xs
length-urls [] = refl
length-urls (x ∷ xs) = ap suc (length-urls xs)

-- Where the loop stands after some pieces, it stands on the rest.
Continued-cons :
    (s : Split) (new rest : List Text) (run : Option Split) (k : Split → Option Split)
    → Continued s new run
    → ((s' : Split) → s'.current.url ≡ [] → length s'.entries ≤ 24 → Continued s' rest (k s'))
    → Continued s (new ++ rest) (run >>= k)
Continued-cons s new rest run k (inl (s', step, empty, found, room)) next =
    going (next s' empty room)
  where
    counted : length s'.entries ≡ length s.entries + length new
    counted =
        sym (length-urls s'.entries)
        ∙ ap length found
        ∙ length-append (urls s.entries) new
        ∙ ap (λ n. n + length new) (length-urls s.entries)

    going : Continued s' rest (k s') → Continued s (new ++ rest) (run >>= k)
    going (inl (s'', run', empty', found', room')) = inl (
      s'',
      bind-some k step run',
      empty',
      found' ∙ ap (λ l. l ++ rest) found ∙ append_assoc (urls s.entries) new rest,
      room',
    )
    going (inr (fault, full)) =
        inr (bind-some k step fault, omega (arith, counted, length-append new rest, full))
Continued-cons s new rest run k (inr (fault, full)) next =
    inr (ap (λ r. r >>= k) fault, omega (arith, length-append new rest, full))

module _ (regexec : Pattern → Text → Option (ℕ × ℕ)) (adaptive : Bool) where
  split_loop-Continued :
      (pieces : List Text) (s : Split)
      → s.current.url ≡ []
      → length s.entries ≤ 24
      → all_safe regexec pieces ≡ true
      → Continued s (links pieces) (split_loop regexec adaptive pieces s)
  unfolding split_loop
  split_loop-Continued [] s empty room safe =
      inl (s, refl, empty, sym (append-nil (urls s.entries)), room)
  split_loop-Continued (piece ∷ pieces) s empty room safe =
      Continued-cons s (if_named (has_itag piece) (link piece)) (links pieces)
        (split_piece regexec adaptive piece s) (split_loop regexec adaptive pieces)
        (split_piece-Continued regexec adaptive piece s empty room
          (and-left (is_safe regexec piece) (all_safe regexec pieces) safe))
        λ s' empty' room'.
          split_loop-Continued pieces s' empty' room'
            (and-right (is_safe regexec piece) (all_safe regexec pieces) safe)

  -- If the type and the link of each piece of the list can be copied, split_urls returns an entry
  -- for each piece that has an itag, in their order, unless nothing follows the "url=" of the piece;
  -- the entry has the link decoded, or an empty link if the piece has no "url=". These are at most
  -- 24; or it writes behind the array, and then there are at least 24 of them.
  pub split_urls-links :
      (data_ : Text)
      → all_safe regexec (split_pieces data_) ≡ true
      → ((entries : List Entry) × (split_urls regexec adaptive data_ ≡ some entries)
          × (urls entries ≡ links (split_pieces data_))
          × (length entries ≤ 24))
        ⊎ ((split_urls regexec adaptive data_ ≡ none) × (24 ≤ length (links (split_pieces data_))))
  unfolding split_urls
  split_urls-links data_ safe =
      elim (split_loop-Continued (split_pieces data_) start_split refl (omega arith) safe) [
        | inl (s', run, _, found, room) ↦
            inl (s'.entries, bind-some (λ s. some s.entries) run refl, found, room)
        | inr (fault, full) ↦ inr (ap (λ r. r >>= λ s. some s.entries) fault, omega (arith, full))
      ]
