-- ===== src/Download/Coverage.antt =====
-- The requests of a stream cover it from its first byte on, without gaps and overlaps.
use mathlib.Core.Path.{subst}
use thesis_share.Base.{
  ℕ, ◌+◌, ◌-◌, ◌^◌, ◌≤◌, ◌<◌, ◌≡◌, ◌↔◌, inl, inr, true, Option, none, some, List, [], ◌∷◌, arith,
  ltb, Bool-cases, if◌then◌else◌,
}
use thesis_share.Base.Int.{ℤ, pos, ltb_ℤ}
use thesis_share.Base.{not, ◌&&◌}
use thesis_share.Download.{
  load_adjusted, VideoUrl, Request, adjust_range, range_addition, load_stream, listed,
  update_stream_progress,
}

-- The requests that one stream makes in rounds at which its playout has so many seconds left.
pub rounds : ℕ → List ℤ → VideoUrl → List Request
unfolding load_stream
rounds buffer [] url = []
rounds buffer (sec ∷ secs) url =
    let (url', request) = load_stream buffer 0 sec url in
    let rest = rounds buffer secs url' in listed request rest

-- Each request is of one byte at least, and the next one starts right behind it.
abbrev pub IsContiguous : ℕ → List Request → Type 0
IsContiguous next [] = Unit {0}
IsContiguous next (r ∷ rs) =
    (r.first_byte ≡ next) × (r.first_byte ≤ r.last_byte) × IsContiguous (r.last_byte + 1) rs

-- Where the next request of a stream has to start.
abbrev pub next_byte : VideoUrl → ℕ
next_byte url = if ltb 0 url.range1 then url.range1 + 1 else 0

range_addition-pos :
    (buffer : ℕ) (sec : ℤ) (url : VideoUrl) → 0 < url.bitrate → 0 < range_addition buffer sec url
unfolding range_addition
range_addition-pos buffer sec url h = ground arith

adjust_range-next_byte :
    (url : VideoUrl)
    → ((adjust_range url).range0 ≡ next_byte url)
      × ((adjust_range url).range1 ≡ url.range1)
      × ((adjust_range url).bitrate ≡ url.bitrate)
      × ((adjust_range url).range0 ≤ (adjust_range url).range1 + 1)
unfolding adjust_range
adjust_range-next_byte url = ground arith

-- What a round comes to: no request, and the next byte stays; or one from the next byte on, behind
-- which the next one starts.
abbrev Loaded : VideoUrl → VideoUrl × Option Request → Type 0
Loaded url (url', none) = (url'.bitrate ≡ url.bitrate) × (next_byte url' ≡ next_byte url)
Loaded url (url', some r) =
    (url'.bitrate ≡ url.bitrate)
    × (r.first_byte ≡ next_byte url)
    × (r.first_byte ≤ r.last_byte)
    × (next_byte url' ≡ r.last_byte + 1)

load_adjusted-Loaded :
    (buffer i : ℕ) (sec : ℤ) (url : VideoUrl)
    → 0 < url.bitrate
    → Loaded url (load_adjusted buffer i sec (adjust_range url))
unfolding load_adjusted
load_adjusted-Loaded buffer i sec url h =
    let (at_next, kept, rate, small) = adjust_range-next_byte url in
    let more = range_addition-pos buffer sec (adjust_range url) (omega (arith, rate)) in
    elim (Bool-cases ((adjust_range url).playing && not (ltb_ℤ (pos buffer) sec))) [
      | inl asks ↦ rw asks (rate, at_next, omega (arith, small, more), ground (arith, more))
      | inr skips ↦ rw skips (rate, ground (arith, kept))
    ]

rounds-IsContiguous_from :
    (buffer : ℕ) (secs : List ℤ) (url : VideoUrl)
    → 0 < url.bitrate
    → IsContiguous (next_byte url) (rounds buffer secs url)
unfolding rounds load_stream
rounds-IsContiguous_from buffer [] url h = tt
rounds-IsContiguous_from buffer (sec ∷ secs) url h =
    go (load_adjusted buffer 0 sec (adjust_range url)) (rounds-IsContiguous_from buffer secs)
      (load_adjusted-Loaded buffer 0 sec url h)
  where
    go :
        (out : VideoUrl × Option Request)
        → ((u : VideoUrl) → 0 < u.bitrate → IsContiguous (next_byte u) (rounds buffer secs u))
        → Loaded url out
        → IsContiguous (next_byte url) (listed out.1 (rounds buffer secs out.0))
    go (url', none) later (rate, next) =
        subst (λ n. IsContiguous n (rounds buffer secs url')) next
          (later url' (omega (arith, rate)))
    go (url', some r) later (rate, first, size, next) = (
      first,
      size,
      subst (λ n. IsContiguous n (rounds buffer secs url')) next (later url' (omega (arith, rate))),
    )

-- Over any number of rounds, whatever the playout has left in each, the requests of a stream that
-- has not been fetched from, with a bitrate that is not 0, cover it from byte 0 on: the first one
-- starts there, each other one starts right behind the one before it, and none is empty.
pub rounds-IsContiguous :
    (buffer : ℕ) (secs : List ℤ) (url : VideoUrl)
    → 0 < url.bitrate
    → url.range1 ≡ 0
    → IsContiguous 0 (rounds buffer secs url)
rounds-IsContiguous buffer secs url h start =
    let first : next_byte url ≡ 0 = ground arith in
    subst (λ n. IsContiguous n (rounds buffer secs url)) first
      (rounds-IsContiguous_from buffer secs url h)

-- A playing stream goes on after an answer exactly if at most one of the bytes that were asked for
-- is missing: an answer that is one byte short is taken for a full one.
pub update_stream_progress-playing :
    (used_size : ℕ) (url : VideoUrl)
    → url.playing ≡ true
    → url.range0 ≤ url.range1
    → url.range1 < 2 ^ 63
    → ((update_stream_progress used_size url).playing ≡ true)
      ↔ (url.range1 + 1 - url.range0 ≤ used_size + 1)
unfolding update_stream_progress
update_stream_progress-playing used_size url playing order small =
    (λ h. ground arith, λ h. ground arith)
