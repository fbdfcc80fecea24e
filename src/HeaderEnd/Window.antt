-- ===== src/HeaderEnd/Window.antt =====
-- The search over a window: the header arrives in pieces, and after each piece only the new bytes
-- and the last four old ones are searched.
use thesis_share.Base.{
  ℕ, ◌+◌, ◌-◌, ◌≤◌, ◌≡◌, min, arith, ltb, ltb→lt, nltb→le, Bool-cases, inl, inr,
}
use native.Mathlib.Nat.{add_assoc}
use thesis_share.HeaderEnd.{Bytes, Search, found, not_found, out_of_fuel, check_end_sequence}
use thesis_share.HeaderEnd.First.{Occurs, IsFirstEnd, check_end_sequence-IsFirstEnd}

-- A result whose position counts from `w`.
abbrev pub shifted : ℕ → Search → Search
shifted w (found e) = found (w + e)
shifted w not_found = not_found
shifted w out_of_fuel = out_of_fuel

into_window :
    (d : Bytes) (prev n w t : ℕ)
    → w ≡ prev - min 4 prev
    → ((t : ℕ) → ¬ Occurs d prev t)
    → Occurs d (prev + n) t
    → w ≤ t
into_window d prev n w t e old o = elim (Bool-cases (ltb t w)) [
  | inl before ↦ absurd (old t (omega (arith, ltb→lt t w before), o.1))
  | inr inside ↦ nltb→le t w inside
]

Occurs-unshift :
    (d : Bytes) (total len w t : ℕ)
    → w + len ≡ total
    → w ≤ t
    → Occurs d total t
    → Occurs (λ i. d (w + i)) len (t - w)
Occurs-unshift d total len w t e h o = (
  omega (arith, o.0),
  λ j hj. let moved : w + (t - w + j) ≡ t + j = omega arith in rw moved (o.1 j hj),
)

Occurs-shift :
    (d : Bytes) (total len w s : ℕ)
    → w + len ≡ total
    → Occurs (λ i. d (w + i)) len s
    → Occurs d total (w + s)
Occurs-shift d total len w s e o = (omega (arith, o.0), λ j hj. rw add_assoc (o.1 j hj))

shifted-IsFirstEnd :
    (d : Bytes) (prev n w len : ℕ) (r : Search)
    → w ≡ prev - min 4 prev
    → w + len ≡ prev + n
    → ((t : ℕ) → ¬ Occurs d prev t)
    → IsFirstEnd (λ i. d (w + i)) len r
    → IsFirstEnd d (prev + n) (shifted w r)
shifted-IsFirstEnd d prev n w len (found p) e el old (s, ends, o, first) = (
  w + s,
  omega arith,
  Occurs-shift d (prev + n) len w s el o,
  λ t ht o'.
      let h : w ≤ t = into_window d prev n w t e old o' in
      first (t - w) (omega arith) (Occurs-unshift d (prev + n) len w t el h o'),
)
shifted-IsFirstEnd d prev n w len not_found e el old first = λ t o.
    let h : w ≤ t = into_window d prev n w t e old o in
    first (t - w) (Occurs-unshift d (prev + n) len w t el h o)
shifted-IsFirstEnd d prev n w len out_of_fuel e el old first = first

-- When no end sequence stands in the first `prev` bytes, searching the window that starts four
-- bytes (or, of a shorter header, all bytes) before the new ones finds exactly the end sequence
-- that a search over all `prev + n` bytes finds: none that straddles two reads is lost.
pub window-IsFirstEnd :
    (d : Bytes) (prev n : ℕ)
    → ((t : ℕ) → ¬ Occurs d prev t)
    → let w = prev - min 4 prev in
      IsFirstEnd d (prev + n) (shifted w (check_end_sequence (λ i. d (w + i)) (n + min 4 prev)))
window-IsFirstEnd d prev n old =
    shifted-IsFirstEnd d prev n (prev - min 4 prev) (n + min 4 prev) _ (omega arith) (omega arith)
      old (check_end_sequence-IsFirstEnd _ _)
