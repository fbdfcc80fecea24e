-- ===== src/Choice/Coverage.antt =====
-- Which formats a choice that accepts none has tried.
use mathlib.Core.Path.{subst}
use thesis_share.Base.{
  bind-some, ℕ, ◌+◌, ◌≡◌, ◌⊎◌, refl, sym, ap, ◌∙◌, Bool, true, false, ◌&&◌, inl, inr, Option, none,
  some, List, [], ◌∷◌, if◌then◌else◌, arith,
}
use thesis_share.Base.Int.{ℤ, pos, ltb_ℤ}
use thesis_share.Arguments.{codes, ProgramArguments}
use thesis_share.Choice.{
  Format, zero_format, Attempt, Session, restart_metrics, reset_audio_metric, is_url_left,
  select_streams, try_format, process_adaptive, process_formats, process_nonadaptive,
}
use thesis_share.Choice.Attempts.{IsTyped, select_streams-Selects, try_format-cases}

-- The formats up to the first one behind the first whose link is empty.
abbrev pub reached : List Format → List Format
reached [] = []
reached (f ∷ fs) = f ∷ (if is_url_left fs then reached fs else [])

-- An empty array still has its zeroed first entry.
abbrev pub reached_or_zero : List Format → List Format
reached_or_zero [] = zero_format ∷ []
reached_or_zero (f ∷ fs) = reached (f ∷ fs)

-- A download with the format as its first stream has been started.
abbrev pub IsAttempted : Format → List Attempt → Type 0
IsAttempted f [] = ⊥
IsAttempted f (a ∷ before) = (a.video ≡ f) ⊎ IsAttempted f before

abbrev Extends : List Attempt → List Attempt → Type 0
Extends l l' = (f : Format) → IsAttempted f l → IsAttempted f l'

some-injective : {A : Type 0} {a b : A} → some a ≡ some b → a ≡ b
some-injective {a = a} e = ap (λ o. elim o [ none ↦ a | some x ↦ x ]) e

module _ (arguments : ProgramArguments) where
  -- Each format is too expensive or has been tried.
  abbrev pub AreTried : List Format → List Attempt → Type 0
  AreTried [] attempts = Unit {0}
  AreTried (f ∷ fs) attempts =
      ((ltb_ℤ arguments.max_bitrate (pos f.bitrate) ≡ true) ⊎ IsAttempted f attempts)
      × AreTried fs attempts

  -- A video with the audio that is selected for it is too expensive, or has been tried.
  abbrev pub IsPaired : List Format → Format → List Attempt → Type 0
  IsPaired audios video attempts =
      (before selected : Session) × (select_streams video audios before ≡ some selected)
      × ((ltb_ℤ arguments.max_bitrate (pos (selected.url0.bitrate + selected.url1.bitrate)) ≡ true)
          ⊎ IsAttempted video attempts)

  abbrev pub ArePaired : List Format → List Format → List Attempt → Type 0
  ArePaired audios [] attempts = Unit {0}
  ArePaired audios (video ∷ videos) attempts =
      IsPaired audios video attempts × ArePaired audios videos attempts

  pub ArePaired-more :
      (audios videos : List Format) (l l' : List Attempt)
      → Extends l l'
      → ArePaired audios videos l
      → ArePaired audios videos l'
  ArePaired-more audios [] l l' more p = tt
  ArePaired-more audios (video ∷ videos) l l' more ((before, selected, chosen, is), p) = (
    (
      before,
      selected,
      chosen,
      elim is [ inl dear ↦ inl dear | inr tried ↦ inr (more video tried) ],
    ),
    ArePaired-more audios videos l l' more p,
  )

  module _ (outcome : List Attempt → ℕ × ℤ) where
    try_format-tried :
        (is_adaptive : Bool) (bitrate : ℕ) (is_left : Bool) (s : Session)
        → let r = try_format arguments outcome is_adaptive bitrate is_left s in
          Extends s.attempts r.1.attempts
          × ((ltb_ℤ arguments.max_bitrate (pos bitrate) ≡ true) ⊎ IsAttempted s.url0 r.1.attempts)
    try_format-tried is_adaptive bitrate is_left s =
        elim (try_format-cases arguments outcome is_adaptive bitrate is_left s) [
          | inl (dear, skipped) ↦
              (λ f is. subst (λ r. IsAttempted f r.1.attempts) (sym skipped) is, inl dear)
          | inr tried ↦ (
            λ f is. subst (IsAttempted f) (sym tried.attempts) (inr is),
            inr (subst (IsAttempted s.url0) (sym tried.attempts) (inl refl)),
          )
        ]

    -- What a loop over formats from `l` on leaves.
    abbrev Tries : List Attempt → List Format → Bool × Session → Type 0
    Tries l formats r = Extends l r.1.attempts × (r.0 ≡ false → AreTried formats r.1.attempts)

    formats_step :
        (left : Bool) (r rest : Bool × Session) (l : List Attempt) (f : Format)
        (later : List Format)
        → Extends l r.1.attempts
        → (ltb_ℤ arguments.max_bitrate (pos f.bitrate) ≡ true) ⊎ IsAttempted f r.1.attempts
        → Tries r.1.attempts later rest
        → Tries l
            (f ∷ (if left then later else []))
            (if r.0 then (true, r.1) else (if left then rest else (false, r.1)))
    formats_step left (true, tried) rest l f later more now next =
        (more, λ undone. absurd (ground (arith, undone)))
    formats_step false (false, tried) rest l f later more now next = (more, λ undone. (now, tt))
    formats_step true (false, tried) rest l f later more now (more', next) = (
      λ g is. more' g (more g is),
      λ undone. (elim now [ inl dear ↦ inl dear | inr is ↦ inr (more' f is) ], next undone),
    )

    process_formats-Tries :
        (f : Format) (fs : List Format) (s : Session)
        → Tries s.attempts (reached (f ∷ fs)) (process_formats arguments outcome f fs s)
    unfolding process_formats restart_metrics is_url_left
    process_formats-Tries f [] s =
        let (more, now) =
          try_format-tried false f.bitrate false (record (restart_metrics s) { url0 = f }) in
        (more, λ undone. (now, tt))
    process_formats-Tries f (g ∷ fs) s =
        let selected = record (restart_metrics s) { url0 = f } in
        let r = try_format arguments outcome false f.bitrate (is_url_left (g ∷ fs)) selected in
        let (more, now) = try_format-tried false f.bitrate (is_url_left (g ∷ fs)) selected in
        formats_step (is_url_left (g ∷ fs)) r (process_formats arguments outcome g fs r.1)
          s.attempts f (reached (g ∷ fs)) more now (process_formats-Tries g fs r.1)

    pub process_nonadaptive-Tries :
        (no_adap : List Format) (s : Session)
        → Tries s.attempts
            (reached_or_zero no_adap)
            (process_nonadaptive arguments outcome no_adap s)
    unfolding process_nonadaptive reset_audio_metric
    process_nonadaptive-Tries [] s = process_formats-Tries zero_format [] (reset_audio_metric s)
    process_nonadaptive-Tries (f ∷ fs) s = process_formats-Tries f fs (reset_audio_metric s)

    abbrev Pairs : List Format → List Attempt → List Format → Bool × Session → Type 0
    Pairs audios l videos r =
        Extends l r.1.attempts × (r.0 ≡ false → ArePaired audios videos r.1.attempts)

    videos_step :
        (left : Bool) (r : Bool × Session) (rest : Option (Bool × Session)) (end : Bool × Session)
        (l : List Attempt) (audios : List Format) (video : Format) (later : List Format)
        → (if r.0 then some (true, r.1) else (if left then rest else some (false, r.1))) ≡ some end
        → Extends l r.1.attempts
        → IsPaired audios video r.1.attempts
        → (rest ≡ some end → Pairs audios r.1.attempts later end)
        → Pairs audios l (video ∷ (if left then later else [])) end
    videos_step left (true, tried) rest end l audios video later run more now next =
        subst (Pairs audios l (video ∷ (if left then later else []))) (some-injective run)
          (more, λ undone. absurd (ground (arith, undone)))
    videos_step false (false, tried) rest end l audios video later run more now next =
        subst (Pairs audios l (video ∷ [])) (some-injective run) (more, λ undone. (now, tt))
    videos_step true (false, tried) rest end l audios video later run more now next =
        let (more', next') = next run in
        let (before, selected, chosen, is) = now in
        (
          λ g had. more' g (more g had),
          λ undone. (
            (
              before,
              selected,
              chosen,
              elim is [ inl dear ↦ inl dear | inr had ↦ inr (more' video had) ],
            ),
            next' undone,
          ),
        )

    pub process_adaptive-Pairs :
        (videos : List Format) (a : Format) (audios no_adap : List Format) (s : Session)
        (end : Bool × Session)
        → IsTyped (codes "video/") videos
        → IsTyped (codes "audio/") (a ∷ audios)
        → process_adaptive arguments outcome videos (a ∷ audios) no_adap s ≡ some end
        → Pairs (a ∷ audios) s.attempts (reached videos) end
    unfolding process_adaptive
    process_adaptive-Pairs [] a audios no_adap s end typed typed' run = absurd (ground (arith, run))
    process_adaptive-Pairs (video ∷ videos) a audios no_adap s end (medium, typed) typed' run =
        let (selected, chosen, same, picks) =
          select_streams-Selects video a audios s medium typed' in
        let bitrate = selected.url0.bitrate + selected.url1.bitrate in
        let is_left = is_url_left videos && is_url_left no_adap in
        let r = try_format arguments outcome true bitrate is_left selected in
        let (more, now) = try_format-tried true bitrate is_left selected in
        videos_step (is_url_left videos) r
          (process_adaptive arguments outcome videos (a ∷ audios) no_adap r.1) end s.attempts
          (a ∷ audios) video (reached videos) (sym (bind-some _ chosen refl) ∙ run)
          (λ f had. more f (subst (IsAttempted f) (sym same) had))
          (
            s,
            selected,
            chosen,
            elim now [
              | inl dear ↦ inl dear
              | inr had ↦ inr (subst (λ v. IsAttempted v r.1.attempts) picks had)
            ],
          )
          (λ rest. process_adaptive-Pairs videos a audios no_adap r.1 end typed typed' rest)
