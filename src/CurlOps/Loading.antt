-- ===== src/CurlOps/Loading.antt =====
-- What the loading of the streams and the messages of curl leave held.
use thesis_share.Base.{
  ◌>>=◌, bind-some, ℕ, zero, suc, ◌+◌, ◌≤◌, ◌<◌, ◌≡◌, refl, ap, ◌∙◌, Bool, true, false, ◌&&◌,
  Option, none, some, List, [], ◌∷◌, if◌then◌else◌, length, get_elem?, arith,
}
use thesis_share.Download.{VideoUrl, load_stream}
use thesis_share.DownloadLoop.{change_at}
use thesis_share.CurlOps.{
  Handle, null, open_at, closed_at, CurlInfo, Initialized, Turn, Curl, info_of, count_progress,
  replace_handle, is_initialized, initialize_curl_handle, start_stream, is_request, load_streams,
  is_playing, stop, find_handler_index, update_stream_progress, read_message, read_messages,
  check_size,
}
use thesis_share.CurlOps.Released.{
  AllLive, IsHeld, IsFramed, IsFramed-refl, IsFramed-trans, IsFramed-if, length-change_at,
  AllLive-change_at,
}

get_elem?-live :
    (i : ℕ) (l : List Handle)
    → AllLive l
    → i < length l
    → (handle : Handle) × (get_elem? l i ≡ some handle) × AllLive (handle ∷ [])
get_elem?-live i [] h lt = absurd (omega (arith, lt))
get_elem?-live zero (null ∷ l) h lt = (null, refl, tt)
get_elem?-live zero (open_at a ∷ l) h lt = (open_at a, refl, tt)
get_elem?-live i (closed_at a ∷ l) h lt = absurd (ground (arith, h))
get_elem?-live (suc i) (null ∷ l) h lt = get_elem?-live i l h (omega (arith, lt))
get_elem?-live (suc i) (open_at a ∷ l) h lt = get_elem?-live i l h (omega (arith, lt))

replace_handle-live :
    (address : Option ℕ) (handle : Handle)
    → AllLive (handle ∷ [])
    → (new : Handle) × (leaked : ℕ) × (replace_handle address handle ≡ some (new, leaked))
      × AllLive (new ∷ [])
unfolding replace_handle
replace_handle-live none null h = (null, 0, refl, tt)
replace_handle-live none (open_at a) h = (open_at a, 0, refl, tt)
replace_handle-live (some b) null h = (open_at b, 0, refl, tt)
replace_handle-live (some b) (open_at a) h = (open_at b, 1, refl, tt)
replace_handle-live none (closed_at a) h = absurd (ground (arith, h))
replace_handle-live (some b) (closed_at a) h = absurd (ground (arith, h))

-- A stream whose handle can be made and added.
initialize_curl_handle-IsHeld :
    (answer : Initialized) (i : ℕ) (s : Curl)
    → is_initialized answer ≡ true
    → IsHeld s
    → i < length s.http_handle
    → (s' : Curl) × (initialize_curl_handle answer i s ≡ some (true, s'))
      × IsHeld s'
      × (s'.urls ≡ s.urls)
      × (length s'.http_handle ≡ length s.http_handle)
unfolding initialize_curl_handle
initialize_curl_handle-IsHeld answer i s ready held room =
    let (handle, there, live) = get_elem?-live i s.http_handle held.live room in
    let (new, leaked, replaced, live') = replace_handle-live answer.handle handle live in
    let alive : (s.prog && s.multi_handle) ≡ true =
      ap (λ b. b && s.multi_handle) held.prog ∙ held.multi in
    (
      started new leaked,
      ap (λ b. if b then starting else none) alive
          ∙ bind-some _ there (
              bind-some (λ r. some (is_initialized answer, started r.0 r.1)) replaced
                (ap (λ b. some (b, started new leaked)) ready)),
      record {
        prog = held.prog;
        multi = held.multi;
        live = AllLive-change_at i new s.http_handle live' held.live;
        room = omega (arith, held.room, length-change_at i (λ _. new) s.http_handle);
      },
      refl,
      length-change_at i (λ _. new) s.http_handle,
    )
  where
    started : Handle → ℕ → Curl
    started new leaked = record s {
      http_handle = change_at i (λ _. new) s.http_handle;
      leaked = s.leaked + leaked;
    }

    starting : Option (Bool × Curl)
    starting = do
      handle ← get_elem? s.http_handle i
      (new, leaked) ← replace_handle answer.handle handle
      some (is_initialized answer, started new leaked)

-- Each request of a round gets its handle.
abbrev pub IsLoading : Turn → Type 0
IsLoading turn = (i : ℕ) → is_initialized (turn.initialized i) ≡ true

module _ (info : ℕ → CurlInfo) where
  start_stream-IsHeld :
      (turn : Turn) (i : ℕ) (asks : Bool) (s : Curl)
      → IsLoading turn
      → IsHeld s
      → i < length s.http_handle
      → (s' : Curl) × (start_stream info turn i asks s ≡ some s')
        × IsHeld s'
        × (s'.urls ≡ s.urls)
        × (length s'.http_handle ≡ length s.http_handle)
  unfolding start_stream
  start_stream-IsHeld turn i false s ready held room = (s, refl, held, refl, refl)
  start_stream-IsHeld turn i true s ready held room =
      let (s', run, held', kept, counted) =
        initialize_curl_handle-IsHeld (turn.initialized i) i s (ready i) held room in
      (s', bind-some _ run refl, held', kept, counted)

  pub load_streams-IsHeld :
      (playout_buffer_seconds : ℕ) (turn : Turn) (i : ℕ) (urls : List VideoUrl) (s : Curl)
      → IsLoading turn
      → IsHeld s
      → i + length urls ≤ length s.http_handle
      → (s' : Curl) × (load_streams info playout_buffer_seconds turn i urls s ≡ some s') × IsHeld s'
  unfolding load_streams
  load_streams-IsHeld buffer turn i [] s ready held room = (s, refl, held)
  load_streams-IsHeld buffer turn i (url ∷ urls) s ready held room =
      let out = load_stream buffer i (turn.len_for_stream i) url in
      let loaded = record s {
        urls = change_at i (λ _. out.0) s.urls;
        run = if out.0.playing then s.run + 1 else s.run;
      } in
      let held' : IsHeld loaded = record {
        prog = held.prog;
        multi = held.multi;
        live = held.live;
        room = omega (arith, held.room, length-change_at i (λ _. out.0) s.urls);
      } in
      let (s1, run, held1, kept, counted) =
        start_stream-IsHeld turn i (is_request out.1) loaded ready held' (omega (arith, room)) in
      let (s2, run', held2) =
        load_streams-IsHeld buffer turn (i + 1) urls s1 ready held1
          (omega (arith, room, counted)) in
      (s2, bind-some (load_streams info buffer turn (i + 1) urls) run run', held2)

  check_size-IsFramed : (idx : ℕ) (size : Option ℕ) (s : Curl) → IsFramed s (check_size idx size s)
  unfolding check_size
  check_size-IsFramed idx none s = record {
    prog = refl;
    multi = refl;
    handles = refl;
    counted = length-change_at idx stop s.urls;
  }
  check_size-IsFramed idx (some size) s = record {
    prog = refl;
    multi = refl;
    handles = refl;
    counted = length-change_at idx _ s.urls;
  }

  read_message-IsFramed :
      (easy_handle : ℕ) (idx : Option ℕ) (s : Curl)
      → IsFramed s (read_message info easy_handle idx s)
  unfolding read_message update_stream_progress count_progress
  read_message-IsFramed easy_handle none s = IsFramed-refl s
  read_message-IsFramed easy_handle (some idx) s =
      let counted =
        if is_playing idx s.urls then count_progress info idx (open_at easy_handle) s else s in
      IsFramed-trans
        (IsFramed-if (is_playing idx s.urls)
          (record { prog = refl; multi = refl; handles = refl; counted = refl }) (IsFramed-refl s))
        (check_size-IsFramed idx (info_of info (open_at easy_handle)).size_download counted)

  pub read_messages-IsFramed : (done : List ℕ) (s : Curl) → IsFramed s (read_messages info done s)
  unfolding read_messages
  read_messages-IsFramed [] s = IsFramed-refl s
  read_messages-IsFramed (easy_handle ∷ done) s =
      let idx = find_handler_index easy_handle 0 s.http_handle in
      IsFramed-trans (read_message-IsFramed easy_handle idx s)
        (read_messages-IsFramed done (read_message info easy_handle idx s))
