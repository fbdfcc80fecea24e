-- ===== src/CurlOps/FileSize.antt =====
-- getfilesize and set_ip_version of youtube_tcp_test/src/curlops.c. The answers of curl are given;
-- the state is the handles that are open. `none` is a fault: a handle is released that is not open.
use thesis_share.Base.{
  ◌>>=◌, bind-some, ap, ==_refl, ℕ, ◌≤◌, ◌≡◌, ◌⊎◌, refl, Bool, true, false, not, ◌||◌, Option, none,
  some, List, [], ◌∷◌, ◌==◌, if◌then◌else◌, leb,
}
use thesis_share.Base.Int.{ℤ, pos, negsuc}

abbrev pub access_denied : ℕ
access_denied = 621

pub data IpVersion : Type 0 where
  ipv4 : IpVersion
  ipv6 : IpVersion
  ipv_system : IpVersion
  other : IpVersion

-- `set_ip_version`, given whether curl_easy_setopt takes the option.
unfoldable pub set_ip_version : Bool → IpVersion → ℤ
set_ip_version taken ipv4 = if taken then pos 0 else negsuc 0
set_ip_version taken ipv6 = if taken then pos 0 else negsuc 0
set_ip_version taken ipv_system = pos 0
set_ip_version taken other = negsuc 1

-- The answers: the handle, if there is one, whether each option is taken, whether the request
-- succeeds, the response code with whether curl_easy_getinfo gives it, and the length, if it gives
-- one: -1 if it is not known.
pub record SizeAnswers : Type 0 where
  pub handle : Option ℕ
  pub options : List Bool
  pub is_performed : Bool
  pub has_code : Bool
  pub http_code : ℕ
  pub content_length : Option ℤ

-- The error code of `metric`, and the open handles, the latest first.
pub record Sizing : Type 0 where
  pub errorcode : ℕ
  pub open_handles : List ℕ

-- `error`, as the bitwise or of the answers.
unfoldable pub has_error : List Bool → Bool
has_error [] = false
has_error (taken ∷ options) = not taken || has_error options

-- The handle among those that are open is gone.
unfoldable pub without : ℕ → List ℕ → Option (List ℕ)
without handle [] = none
without handle (h ∷ hs) =
    let rest = without handle hs in
    if h == handle then some hs else (do others ← rest; some (h ∷ others))

-- `curl_easy_cleanup`, of a handle that is not NULL.
unfoldable pub release_handle : ℕ → Sizing → Option Sizing
unfolding without
release_handle handle s = do
  hs ← without handle s.open_handles
  some (record s { open_handles = hs })

-- `getfilesize` behind the opening of the handle.
pub size_of_handle : SizeAnswers → ℕ → Sizing → Option (ℤ × Sizing)
unfolding has_error release_handle
size_of_handle a handle s =
    if has_error a.options
    then (do released ← release_handle handle s; some (negsuc 1, released))
    else (if not a.is_performed
        then (do released ← release_handle handle s; some (negsuc 2, released))
        else (if not (a.http_code == 200) || not a.has_code
            then (do
              released ← release_handle handle s
              (if leb 400 a.http_code
                  then some (negsuc 3, record released { errorcode = access_denied })
                  else some (negsuc 3, released)))
            else (elim a.content_length [
              | none ↦ do released ← release_handle handle s; some (negsuc 4, released)
              | some length ↦ do released ← release_handle handle s; some (length, released)
            ])))

-- Without a handle, `curl_easy_cleanup` of NULL does nothing.
pub getfilesize : SizeAnswers → Sizing → Option (ℤ × Sizing)
unfolding size_of_handle
getfilesize a s = elim a.handle [
  | none ↦ some (negsuc 0, s)
  | some handle ↦ size_of_handle a handle (record s { open_handles = handle ∷ s.open_handles })
]

-- What is returned: the length of a good response, or an error; and what becomes of `errorcode`.
abbrev pub IsAnswer : SizeAnswers → ℕ → ℤ → ℕ → Type 0
IsAnswer a errorcode ret errorcode' =
    (a.content_length ≡ some ret)
      × (has_error a.options ≡ false)
      × (a.is_performed ≡ true)
      × (a.http_code ≡ 200)
      × (errorcode' ≡ errorcode)
    ⊎ ((n : ℕ) × (ret ≡ negsuc n)
        × (n ≤ 4)
        × ((errorcode' ≡ errorcode) ⊎ ((errorcode' ≡ access_denied) × (400 ≤ a.http_code))))

-- It returns, with the same handles open as before.
abbrev pub IsClosed : SizeAnswers → Sizing → Option (ℤ × Sizing) → Type 0
IsClosed a s run =
    (ret : ℤ) × (s' : Sizing) × (run ≡ some (ret, s'))
    × (s'.open_handles ≡ s.open_handles)
    × IsAnswer a s.errorcode ret s'.errorcode

released :
    (handle : ℕ) (s : Sizing)
    → release_handle handle (record s { open_handles = handle ∷ s.open_handles }) ≡ some s
unfolding release_handle without
released handle s =
    bind-some _
      (ap
        (λ b.
          if b
          then some s.open_handles
          else (do others ← without handle s.open_handles; some (handle ∷ others)))
        (==_refl handle))
      refl

module _ (a : SizeAnswers) (handle : ℕ) (s : Sizing) where
  abbrev opened : Sizing
  opened = record s { open_handles = handle ∷ s.open_handles }
