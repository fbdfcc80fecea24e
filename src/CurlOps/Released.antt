-- ===== src/CurlOps/Released.antt =====
-- What the download over curl holds, and what it releases.
use thesis_share.Base.{
  ◌>>=◌, bind-some, subst, ℕ, zero, suc, ◌+◌, ◌≤◌, ◌≡◌, refl, sym, ap, ◌∙◌, Bool, true, false, ◌&&◌,
  Option, none, some, List, [], ◌∷◌, ◌==◌, if◌then◌else◌, length, take, arith,
}
use thesis_share.Choice.{itworked}
use thesis_share.DownloadLoop.{change_at}
use thesis_share.CurlOps.{
  Handle, null, open_at, closed_at, CurlInfo, Curl, curl_easy_cleanup, count_progress,
  report_stream, close_streams, my_curl_cleanup, is_playing,
}

-- No handle has been released.
abbrev pub AllLive : List Handle → Type 0
AllLive [] = Unit {0}
AllLive (null ∷ handles) = AllLive handles
AllLive (open_at a ∷ handles) = AllLive handles
AllLive (closed_at a ∷ handles) = false ≡ true

-- No handle is open.
abbrev pub NoneOpen : List Handle → Type 0
NoneOpen [] = Unit {0}
NoneOpen (null ∷ handles) = NoneOpen handles
NoneOpen (open_at a ∷ handles) = false ≡ true
NoneOpen (closed_at a ∷ handles) = NoneOpen handles

-- The multi handle, the progress data and the handles of the streams can be used.
pub record IsHeld (s : Curl) : Type 0 where
  pub prog : s.prog ≡ true
  pub multi : s.multi_handle ≡ true
  pub live : AllLive s.http_handle
  pub room : length s.urls ≤ length s.http_handle

-- The multi handle and the progress data have been released, and the handles of the streams.
pub record IsReleased (s : Curl) : Type 0 where
  pub prog : s.prog ≡ false
  pub multi : s.multi_handle ≡ false
  pub closed : NoneOpen (take (length s.urls) s.http_handle)

-- The fields that counting and reporting leave alone.
pub record IsFramed (s s' : Curl) : Type 0 where
  pub prog : s'.prog ≡ s.prog
  pub multi : s'.multi_handle ≡ s.multi_handle
  pub handles : s'.http_handle ≡ s.http_handle
  pub counted : length s'.urls ≡ length s.urls

pub IsFramed-refl : (s : Curl) → IsFramed s s
IsFramed-refl s = record { prog = refl; multi = refl; handles = refl; counted = refl }

pub IsFramed-trans : {s t u : Curl} → IsFramed s t → IsFramed t u → IsFramed s u
IsFramed-trans f g = record {
  prog = g.prog ∙ f.prog;
  multi = g.multi ∙ f.multi;
  handles = g.handles ∙ f.handles;
  counted = g.counted ∙ f.counted;
}

pub IsFramed-if :
    {s t u : Curl} (b : Bool) → IsFramed s t → IsFramed s u → IsFramed s (if b then t else u)
IsFramed-if true f g = f
IsFramed-if false f g = g

pub IsHeld-framed : {s s' : Curl} → IsFramed s s' → IsHeld s → IsHeld s'
IsHeld-framed {s} {s'} f h = record {
  prog = f.prog ∙ h.prog;
  multi = f.multi ∙ h.multi;
  live = subst AllLive (sym f.handles) h.live;
  room = subst (λ l. length s'.urls ≤ length l) (sym f.handles) (omega (arith, f.counted, h.room));
}

pub length-change_at :
    {A : Type 0} (i : ℕ) (f : A → A) (l : List A) → length (change_at i f l) ≡ length l
unfolding change_at
length-change_at i f [] = refl
length-change_at zero f (x ∷ xs) = refl
length-change_at (suc i) f (x ∷ xs) = ap suc (length-change_at i f xs)

pub AllLive-change_at :
    (i : ℕ) (new : Handle) (l : List Handle)
    → AllLive (new ∷ [])
    → AllLive l
    → AllLive (change_at i (λ _. new) l)
unfolding change_at
AllLive-change_at i new [] n h = tt
AllLive-change_at zero null (null ∷ l) n h = h
AllLive-change_at zero (open_at a) (null ∷ l) n h = h
AllLive-change_at zero null (open_at b ∷ l) n h = h
AllLive-change_at zero (open_at a) (open_at b ∷ l) n h = h
AllLive-change_at zero (closed_at a) (x ∷ l) n h = absurd (ground (arith, n))
AllLive-change_at zero new (closed_at b ∷ l) n h = absurd (ground (arith, h))
AllLive-change_at (suc i) new (null ∷ l) n h = AllLive-change_at i new l n h
AllLive-change_at (suc i) new (open_at a ∷ l) n h = AllLive-change_at i new l n h
AllLive-change_at (suc i) new (closed_at a ∷ l) n h = absurd (ground (arith, h))

-- A handle in front of handles that are live, and its release.
Released : Option Handle → Type 0
Released none = false ≡ true
Released (some handle) = NoneOpen (handle ∷ [])

NoneOpen-cons :
    (handle : Handle) (handles : List Handle)
    → NoneOpen (handle ∷ [])
    → NoneOpen handles
    → NoneOpen (handle ∷ handles)
NoneOpen-cons null handles n h = h
NoneOpen-cons (open_at a) handles n h = n
NoneOpen-cons (closed_at a) handles n h = h

curl_easy_cleanup-released :
    (handle : Handle) (handles : List Handle)
    → AllLive (handle ∷ handles)
    → (closed : Handle) × (curl_easy_cleanup handle ≡ some closed)
      × NoneOpen (closed ∷ [])
      × AllLive handles
unfolding curl_easy_cleanup
curl_easy_cleanup-released null handles h = (null, refl, tt, h)
curl_easy_cleanup-released (open_at a) handles h = (closed_at a, refl, tt, h)
curl_easy_cleanup-released (closed_at a) handles h = absurd (ground (arith, h))

module _ (info : ℕ → CurlInfo) where
  report_stream-IsFramed :
      (code j : ℕ) (handle : Handle) (s : Curl) → IsFramed s (report_stream info code j handle s)
  unfolding report_stream count_progress
  report_stream-IsFramed code j handle s =
      let playing = is_playing j s.urls in
      let counted = if playing then count_progress info j handle s else s in
      let framed : IsFramed s counted =
        IsFramed-if playing (record { prog = refl; multi = refl; handles = refl; counted = refl })
          (IsFramed-refl s) in
      IsFramed-if ((code == itworked) && playing && (s.errorcode == 0))
        (IsFramed-trans framed
          (record { prog = refl; multi = refl; handles = refl; counted = refl }))
        framed

  close_streams-released :
      (code num j : ℕ) (handles : List Handle) (s : Curl)
      → AllLive handles
      → num ≤ length handles
      → (closed : List Handle) × (s' : Curl) × (close_streams info code num j handles s
          ≡ some (closed, s'))
        × NoneOpen (take num closed)
        × IsFramed s s'
  unfolding close_streams
  close_streams-released code zero j handles s live room = (handles, s, refl, tt, IsFramed-refl s)
  close_streams-released code (suc num) j [] s live room = absurd (omega (arith, room))
  close_streams-released code (suc num) j (handle ∷ handles) s live room =
      let (first, closing, gone, live') = curl_easy_cleanup-released handle handles live in
      let (rest, s', run, gone', framed) =
        close_streams-released code num (j + 1) handles (report_stream info code j handle s) live'
          (omega (arith, room)) in
      (
        first ∷ rest,
        s',
        bind-some _ closing (bind-some (λ r. some (first ∷ r.0, r.1)) run refl),
        NoneOpen-cons first (take num rest) gone gone',
        IsFramed-trans (report_stream-IsFramed code j handle s) framed,
      )

  pub my_curl_cleanup-IsReleased :
      (code : ℕ) (s : Curl)
      → IsHeld s
      → (s' : Curl) × (my_curl_cleanup info (length s.urls) code s ≡ some s') × IsReleased s'
  unfolding my_curl_cleanup
  my_curl_cleanup-IsReleased code s held =
      let (handles, s', run, gone, framed) =
        close_streams-released code (length s.urls) 0 s.http_handle s held.live held.room in
      let alive : (s.prog && s.multi_handle) ≡ true =
        ap (λ b. b && s.multi_handle) held.prog ∙ held.multi in
      (
        released s' handles,
        ap (λ b. if b then closing else none) alive
            ∙ bind-some (λ r. some (released r.1 r.0)) run refl,
        record {
          prog = refl;
          multi = refl;
          closed = subst (λ n. NoneOpen (take n handles)) (sym framed.counted) gone;
        },
      )
    where
      released : Curl → List Handle → Curl
      released s' handles = record s' {
        http_handle = handles;
        multi_handle = false;
        prog = false;
        errorcode = if s'.errorcode == 0 then code else s'.errorcode;
      }

      closing : Option Curl
      closing = do
        (handles, s') ← close_streams info code (length s.urls) 0 s.http_handle s
        some (released s' handles)
