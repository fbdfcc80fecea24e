-- ===== src/Replace/Substitute.antt =====
-- What the replacements come to: one pass over the text, from the left.
use thesis_share.Base.{
  bind-some, ◌>>=◌, ℕ, zero, suc, ◌+◌, ◌-◌, ◌*◌, ◌≤◌, ◌<◌, ◌≡◌, ◌≢◌, ◌⊎◌, refl, sym, ap, ◌∙◌, Bool,
  true, false, inl, inr, Bool-cases, Option-cases, Option, none, some, [], ◌∷◌, ◌++◌, ◌==◌,
  if◌then◌else◌, length, take, drop, arith, length-append, length-take, length-drop,
}
use native.Mathlib.Nat.{mul-suc, mul-le-mul_right}
use thesis_share.HttpHeader.{Text}
use thesis_share.Replace.{
  starts_with, strstr, count_loop, replace_loop, in_block, replace_found, str_replace,
}

-- One pass over a text with each pattern replaced, where `skip` bytes are left out.
abbrev pub substitute_from : Text → Text → ℕ → Text → Text
substitute_from rep with_ skip [] = []
substitute_from rep with_ (suc skip) (c ∷ cs) = substitute_from rep with_ skip cs
substitute_from rep with_ zero (c ∷ cs) =
    let skipped = substitute_from rep with_ (length rep - 1) cs in
    let kept = substitute_from rep with_ 0 cs in
    if starts_with rep (c ∷ cs) then with_ ++ skipped else c ∷ kept

abbrev pub substitute : Text → Text → Text → Text
substitute rep with_ text = substitute_from rep with_ 0 text

-- Whether a pattern occurs in a text.
abbrev pub occurs : Text → Text → Bool
occurs rep text = elim (strstr text rep) [ none ↦ false | some k ↦ true ]

pub in_block-fits : (size : ℕ) (text : Text) → length text < size → in_block size text ≡ some text
unfolding in_block
in_block-fits size text h = ground (arith, h)

module _ (rep with_ : Text) (long : 1 ≤ length rep) where
  substitute_from-drop :
      (skip : ℕ) (text : Text)
      → substitute_from rep with_ skip text ≡ substitute_from rep with_ 0 (drop skip text)
  substitute_from-drop zero text = refl
  substitute_from-drop (suc skip) [] = refl
  substitute_from-drop (suc skip) (c ∷ cs) = substitute_from-drop skip cs

  drop_pred : (c n : ℕ) (cs : Text) → 1 ≤ n → drop (n - 1) cs ≡ drop (0 + n) (c ∷ cs)
  drop_pred c zero cs h = absurd (omega (arith, h))
  drop_pred c (suc n) cs h =
      let less : suc n - 1 ≡ n = omega arith in
      let same : 0 + suc n ≡ suc n = omega arith in
      ap (λ m. drop m cs) less ∙ sym (ap (λ m. drop m (c ∷ cs)) same)

  starts_with-le : (ps text : Text) → starts_with ps text ≡ true → length ps ≤ length text
  unfolding starts_with
  starts_with-le [] text e = omega arith
  starts_with-le (p ∷ ps) [] e = absurd (ground (arith, e))
  starts_with-le (p ∷ ps) (c ∷ cs) e = elim (Bool-cases (p == c)) [
    | inl same ↦ omega (arith, starts_with-le ps cs (ground (arith, e, same)))
    | inr other ↦ absurd (ground (arith, e, other))
  ]

  -- The first place in a text of one byte more: at the front, or one further.
  strstr-cases :
      (c : ℕ) (cs : Text) (k : ℕ)
      → strstr (c ∷ cs) rep ≡ some k
      → ((starts_with rep (c ∷ cs) ≡ true) × (k ≡ 0))
        ⊎ ((starts_with rep (c ∷ cs) ≡ false) × ((l : ℕ) × (strstr cs rep ≡ some l) × (k ≡ suc l)))
  unfolding strstr
  strstr-cases c cs k e = elim (Bool-cases (starts_with rep (c ∷ cs))) [
    | inl here ↦ inl (here, ground (arith, e, here))
    | inr away ↦ elim (Option-cases (strstr cs rep)) [
      | inl gone ↦ absurd (ground (arith, e, away, gone))
      | inr (l, found) ↦ inr (away, (l, found, ground (arith, e, away, found)))
    ]
  ]

  strstr-nil : (k : ℕ) → strstr [] rep ≢ some k
  unfolding strstr
  strstr-nil k e = elim (Bool-cases (starts_with rep [])) [
    | inl here ↦ absurd (omega (arith, long, starts_with-le rep [] here))
    | inr away ↦ absurd (ground (arith, e, away))
  ]

  strstr-le : (text : Text) (k : ℕ) → strstr text rep ≡ some k → k + length rep ≤ length text
  strstr-le [] k e = absurd (strstr-nil k e)
  strstr-le (c ∷ cs) k e = elim (strstr-cases c cs k e) [
    | inl (here, first) ↦ omega (arith, first, starts_with-le rep (c ∷ cs) here)
    | inr (away, (l, found, further)) ↦ omega (arith, further, strstr-le cs l found)
  ]

  substitute-none : (text : Text) → strstr text rep ≡ none → substitute rep with_ text ≡ text
  unfolding strstr
  substitute-none [] e = refl
  substitute-none (c ∷ cs) e = elim (Bool-cases (starts_with rep (c ∷ cs))) [
    | inl here ↦ absurd (ground (arith, e, here))
    | inr away ↦ elim (Option-cases (strstr cs rep)) [
      | inr (l, found) ↦ absurd (ground (arith, e, away, found))
      | inl gone ↦ rw away (ap (λ t. c ∷ t) (substitute-none cs gone))
    ]
  ]

  substitute-some :
      (text : Text) (k : ℕ)
      → strstr text rep ≡ some k
      → substitute rep with_ text
        ≡ take k text ++ (with_ ++ substitute rep with_ (drop (k + length rep) text))
  substitute-some [] k e = absurd (strstr-nil k e)
  substitute-some (c ∷ cs) k e = elim (strstr-cases c cs k e) [
    | inl (here, first) ↦
        ap
          (λ b.
            if b
            then with_ ++ substitute_from rep with_ (length rep - 1) cs
            else c ∷ substitute rep with_ cs)
          here
        ∙ ap (λ t. with_ ++ t)
            (substitute_from-drop (length rep - 1) cs
              ∙ ap (substitute rep with_) (drop_pred c (length rep) cs long))
        ∙ ap
            (λ n.
              take n (c ∷ cs) ++ (with_ ++ substitute rep with_ (drop (n + length rep) (c ∷ cs))))
            (sym first)
    | inr (away, (l, found, further)) ↦
        let one_more : suc (l + length rep) ≡ suc l + length rep = omega arith in
        ap
          (λ b.
            if b
            then with_ ++ substitute_from rep with_ (length rep - 1) cs
            else c ∷ substitute rep with_ cs)
          away
        ∙ ap (λ t. c ∷ t) (substitute-some cs l found)
        ∙ ap (λ n. c ∷ (take l cs ++ (with_ ++ substitute rep with_ (drop n (c ∷ cs))))) one_more
        ∙ ap
            (λ n.
              take n (c ∷ cs) ++ (with_ ++ substitute rep with_ (drop (n + length rep) (c ∷ cs))))
            (sym further)
  ]

  abbrev counted : ℕ → Text → ℕ
  counted fuel text = count_loop fuel rep text (strstr text rep)

  counted-none : (fuel : ℕ) (text : Text) → strstr text rep ≡ none → counted (suc fuel) text ≡ 0
  unfolding count_loop
  counted-none fuel text gone = ap (count_loop (suc fuel) rep text) gone

  counted-some :
      (fuel k : ℕ) (text : Text)
      → strstr text rep ≡ some k
      → counted (suc fuel) text ≡ suc (counted fuel (drop (k + length rep) text))
  unfolding count_loop
  counted-some fuel k text found = ap (count_loop (suc fuel) rep text) found

  shorter :
      (fuel k : ℕ) (text : Text)
      → strstr text rep ≡ some k
      → length text < suc fuel
      → length (drop (k + length rep) text) < fuel
  shorter fuel k text found enough =
      omega (arith, enough, long, strstr-le text k found, length-drop (k + length rep) text)

  -- With fuel for each byte, the two loops make the one pass.
  replace_loop-substitute :
      (fuel : ℕ) (text : Text)
      → length text < fuel
      → replace_loop (counted fuel text) rep with_ text ≡ some (substitute rep with_ text)
  unfolding replace_loop
  replace_loop-substitute zero text enough = absurd (omega (arith, enough))
  replace_loop-substitute (suc fuel) text enough = elim (Option-cases (strstr text rep)) [
    | inl gone ↦
        ap (λ n. replace_loop n rep with_ text) (counted-none fuel text gone)
        ∙ ap (λ t. some t) (sym (substitute-none text gone))
    | inr (k, found) ↦
        ap (λ n. replace_loop n rep with_ text) (counted-some fuel k text found)
        ∙ bind-some _ found (
            bind-some _
              (replace_loop-substitute fuel (drop (k + length rep) text)
                (shorter fuel k text found enough))
              (ap (λ t. some t) (sym (substitute-some text k found))))
  ]

  -- The bytes of the pass: those of the text, with each pattern's exchanged.
  length-substitute :
      (fuel : ℕ) (text : Text)
      → length text < fuel
      → length (substitute rep with_ text) + length rep * counted fuel text
        ≡ length text + length with_ * counted fuel text
  length-substitute zero text enough = absurd (omega (arith, enough))
  length-substitute (suc fuel) text enough = elim (Option-cases (strstr text rep)) [
    | inl gone ↦ omega (
      arith,
      ap length (substitute-none text gone),
      multiplied (length rep) (counted-none fuel text gone),
      multiplied (length with_) (counted-none fuel text gone),
    )
    | inr (k, found) ↦
        let rest : Text = drop (k + length rep) text in
        omega (
          arith,
          ap length (substitute-some text k found),
          length-append (take k text) (with_ ++ substitute rep with_ rest),
          length-append with_ (substitute rep with_ rest),
          length-take k text,
          length-drop (k + length rep) text,
          strstr-le text k found,
          length-substitute fuel rest (shorter fuel k text found enough),
          multiplied (length rep) (counted-some fuel k text found),
          multiplied (length with_) (counted-some fuel k text found),
          mul-suc (length rep) (counted fuel rest),
          mul-suc (length with_) (counted fuel rest),
        )
  ]
    where
      multiplied : (m : ℕ) → {a b : ℕ} → a ≡ b → m * a ≡ m * b
      multiplied m e = ap (λ n. m * n) e

  drop-nil : (n : ℕ) → drop {A = ℕ} n [] ≡ []
  drop-nil zero = refl
  drop-nil (suc n) = refl

  drop-drop : (a b : ℕ) (text : Text) → drop a (drop b text) ≡ drop (b + a) text
  drop-drop a zero text = ap (λ n. drop n text) same
    where
      same : a ≡ 0 + a
      same = omega arith
  drop-drop a (suc b) [] = drop-nil a ∙ sym (drop-nil (suc b + a))
  drop-drop a (suc b) (c ∷ cs) = drop-drop a b cs ∙ ap (λ n. drop n (c ∷ cs)) one_more
    where
      one_more : suc (b + a) ≡ suc b + a
      one_more = omega arith

  strstr-drop : (text : Text) (k : ℕ) → strstr text rep ≡ some k → strstr (drop k text) rep ≡ some 0
  strstr-drop [] k e = absurd (strstr-nil k e)
  strstr-drop (c ∷ cs) k e = elim (strstr-cases c cs k e) [
    | inl (here, first) ↦ ap (λ n. strstr (drop n (c ∷ cs)) rep) first ∙ e ∙ ap (λ n. some n) first
    | inr (away, (l, found, further)) ↦
        ap (λ n. strstr (drop n (c ∷ cs)) rep) further ∙ strstr-drop cs l found
  ]

  counted-drop :
      (fuel k : ℕ) (text : Text)
      → strstr text rep ≡ some k
      → counted (suc fuel) (drop k text) ≡ counted (suc fuel) text
  counted-drop fuel k text found =
      counted-some fuel 0 (drop k text) (strstr-drop text k found)
      ∙ ap (λ t. suc (counted fuel t))
          (drop-drop (0 + length rep) k text ∙ ap (λ n. drop n text) same)
      ∙ sym (counted-some fuel k text found)
    where
      same : k + (0 + length rep) ≡ k + length rep
      same = omega arith

  -- The result of `str_replace`, where a NULL result stands for a text without the pattern.
  abbrev pub replaced : Text → Option Text
  replaced orig = if occurs rep orig then some (substitute rep with_ orig) else none

  replace_found-substitute :
      (orig : Text) (k : ℕ)
      → strstr orig rep ≡ some k
      → replace_found orig rep (some with_) k ≡ some (some (substitute rep with_ orig))
  unfolding replace_found in_block
  replace_found-substitute orig k found =
      ap from_count (counted-drop (length orig) k orig found)
      ∙ bind-some _ (replace_loop-substitute (suc (length orig)) orig (omega arith))
          (bind-some _ fits refl)
    where
      count : ℕ
      count = counted (suc (length orig)) orig

      size : ℕ → ℕ
      size n = length orig + length with_ * n - length rep * n + 1

      from_count : ℕ → Option (Option Text)
      from_count n = do
        result ← replace_loop n rep with_ orig
        text ← in_block (size n) result
        some (some text)

      fits : in_block (size count) (substitute rep with_ orig) ≡ some (substitute rep with_ orig)
      fits =
          in_block-fits (size count) (substitute rep with_ orig)
            (omega (arith, length-substitute (suc (length orig)) orig (omega arith)))

  -- For a pattern that is not empty, `str_replace` returns NULL if it does not occur, and otherwise
  -- the text with each pattern replaced in one pass from the left: its loops end, and it writes
  -- within the block that it has measured.
  pub str_replace-substitute :
      (orig : Text) → str_replace (some orig) (some rep) (some with_) ≡ some (replaced orig)
  unfolding str_replace
  str_replace-substitute orig = elim (Option-cases (strstr orig rep)) [
    | inl gone ↦ searched ∙ ap answer gone ∙ sym (ap result gone)
    | inr (k, found) ↦
        searched ∙ ap answer found ∙ replace_found-substitute orig k found ∙ sym (ap result found)
  ]
    where
      answer : Option ℕ → Option (Option Text)
      answer o = elim o [ none ↦ some none | some ins ↦ replace_found orig rep (some with_) ins ]

      result : Option ℕ → Option (Option Text)
      result o = some (
          if (elim o as (λ _. Bool) [ none ↦ false | some k ↦ true ])
          then some (substitute rep with_ orig)
          else none)

      not_empty : (length rep == 0) ≡ false
      not_empty = ground (arith, long)

      searched : str_replace (some orig) (some rep) (some with_) ≡ answer (strstr orig rep)
      searched = ap (λ b. if b then some none else answer (strstr orig rep)) not_empty

  pub substitute-le :
      (text : Text) → length with_ ≤ length rep → length (substitute rep with_ text) ≤ length text
  substitute-le text shorter = omega (
    arith,
    length-substitute (suc (length text)) text (omega arith),
    mul-le-mul_right (counted (suc (length text)) text) shorter,
  )

  pub substitute-absent : (text : Text) → occurs rep text ≡ false → substitute rep with_ text ≡ text
  substitute-absent text away = elim (Option-cases (strstr text rep)) [
    | inl gone ↦ substitute-none text gone
    | inr (k, found) ↦ absurd (ground (arith, away, found))
  ]
