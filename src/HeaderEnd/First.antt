-- ===== src/HeaderEnd/First.antt =====
-- The search returns the end of the first blank line, and always returns.
use native.Mathlib.Numerals.{add-one}
use thesis_share.Base.{
  ℕ, zero, suc, ◌+◌, ◌-◌, ◌*◌, ◌≤◌, ◌<◌, ◌≡◌, ◌≢◌, inl, inr, true, false, arith, ltb, ◌==◌, ltb→lt,
  nltb→le, ==_iff, Bool-cases,
}
use thesis_share.HeaderEnd.{
  Bytes, end_header, Search, found, not_found, out_of_fuel, check_loop, check_end_sequence,
}

-- The first `n` bytes from `s` on agree with the end sequence.
abbrev pub Matched : Bytes → ℕ → ℕ → Type 0
Matched d s n = (j : ℕ) → j < n → d (s + j) ≡ end_header j

-- A whole end sequence stands at `s`, within `length` bytes.
abbrev pub Occurs : Bytes → ℕ → ℕ → Type 0
Occurs d length s = (s + 4 ≤ length) × Matched d s 4

-- What a search result promises: the end of the first end sequence, or that there is none.
abbrev pub IsFirstEnd : Bytes → ℕ → Search → Type 0
IsFirstEnd d length (found e) =
    (s : ℕ) × (e ≡ s + 4) × Occurs d length s × ((t : ℕ) → t < s → ¬ Occurs d length t)
IsFirstEnd d length not_found = (t : ℕ) → ¬ Occurs d length t
IsFirstEnd d length out_of_fuel = ⊥

Matched-suc : (d : Bytes) (s n : ℕ) → Matched d s n → d (s + n) ≡ end_header n → Matched d s (suc n)
Matched-suc d s n m e j h = elim (Bool-cases (j == n)) [
  | inl last ↦ rw ((==_iff j n).0 last) e
  | inr before ↦ m j (ground arith)
]

mismatch :
    (d : Bytes) (length pos n t : ℕ)
    → n < 4
    → pos ≡ t + n
    → (d pos == end_header n) ≡ false
    → ¬ Occurs d length t
mismatch d length pos n t h e miss o = differ (rw e (o.1 n h))
  where
    differ : d pos ≢ end_header n
    differ same = ground arith

-- `s` is where the current sequence began.
check_loop-IsFirstEnd :
    (fuel : ℕ) (d : Bytes) (length pos n s : ℕ)
    → pos ≡ s + n
    → n < 4
    → pos ≤ length
    → 5 * length < fuel + 5 * s + n
    → Matched d s n
    → ((t : ℕ) → t < s → ¬ Occurs d length t)
    → IsFirstEnd d length (check_loop fuel d length pos n)
unfolding check_loop
check_loop-IsFirstEnd zero d length pos n s e hn hp hf m none_before = absurd (omega arith)
check_loop-IsFirstEnd (suc fuel) d length pos n s e hn hp hf m none_before =
    elim (Bool-cases (ltb pos length)) [
      | inr end ↦ rw end (none_left (nltb→le pos length end))
      | inl more ↦ rw more (elim (Bool-cases (d pos == end_header n)) [
        | inl hit ↦ rw hit (elim (Bool-cases (n + 1 == 4)) [
          | inl last ↦ rw last (
            s,
            ground (arith, e),
            (ground (arith, ltb→lt pos length more), whole hit last),
            none_before,
          )
          | inr short ↦ rw short (
              check_loop-IsFirstEnd fuel d length (pos + 1) (n + 1) s (omega arith) (ground arith)
                (ground arith) (omega arith) (longer hit) none_before)
        ])
        | inr miss ↦ rw miss (elim (Bool-cases (n == 0)) [
          | inl start ↦ rw start (
              check_loop-IsFirstEnd fuel d length (pos + 1) n (suc s) (ground arith) hn
                (ground arith) (ground arith) (λ j h. absurd (ground arith)) (passed miss))
          | inr inside ↦ rw inside (
              check_loop-IsFirstEnd fuel d length (pos - n + 1) 0 (suc s) (omega arith)
                (omega arith) (ground arith) (ground arith) (λ j h. absurd (omega arith))
                (passed miss))
        ])
      ])
    ]
  where
    none_left : length ≤ pos → (t : ℕ) → ¬ Occurs d length t
    none_left end t o = elim (Bool-cases (ltb t s)) [
      | inl before ↦ none_before t (ltb→lt t s before) o
      | inr here ↦ absurd (omega (arith, nltb→le t s here, o.0))
    ]

    longer : (d pos == end_header n) ≡ true → Matched d s (n + 1)
    longer hit = rw add-one (Matched-suc d s n m (rw (← e) ((==_iff _ _).0 hit)))

    whole : (d pos == end_header n) ≡ true → (n + 1 == 4) ≡ true → Matched d s 4
    whole hit last = rw (← (==_iff _ _).0 last) (longer hit)

    passed : (d pos == end_header n) ≡ false → (t : ℕ) → t < suc s → ¬ Occurs d length t
    passed miss t h o = elim (Bool-cases (ltb t s)) [
      | inl before ↦ none_before t (ltb→lt t s before) o
      | inr here ↦ mismatch d length pos n t hn (omega (arith, nltb→le t s here)) miss o
    ]

-- `check_end_sequence` returns, and with the end of the first "\r\n\r\n" among the `length` bytes
-- if there is one, and otherwise with 0: backing up over a partial match misses none.
pub check_end_sequence-IsFirstEnd :
    (d : Bytes) (length : ℕ) → IsFirstEnd d length (check_end_sequence d length)
unfolding check_end_sequence
check_end_sequence-IsFirstEnd d length =
    check_loop-IsFirstEnd (5 * length + 1) d length 0 0 0 (omega arith) (omega arith) (omega arith)
      (omega arith) (λ j h. absurd (omega arith)) (λ t h. absurd (omega arith))
