-- ===== src/Memory/Bytes.antt =====
-- Blocks of bytes: memcpy, memmove and reads, on memory as a function from offsets to bytes.
use thesis_share.Base.{
  ℕ, zero, suc, ◌+◌, ◌-◌, ◌≤◌, ◌<◌, ◌≡◌, refl, ap, ◌∙◌, List, [], ◌∷◌, ◌++◌, arith, ◌==◌,
  if◌then◌else◌, length, drop,
}
use mathlib.Core.Path.{ap₂}
use thesis_share.HeaderEnd.{Bytes}

-- The `n` bytes from `off` on.
abbrev pub read_bytes : Bytes → ℕ → ℕ → List ℕ
read_bytes b off zero = []
read_bytes b off (suc n) = b off ∷ read_bytes b (suc off) n

-- The memory with a block copied to `off`.
unfoldable pub put_bytes : Bytes → ℕ → List ℕ → Bytes
put_bytes b off [] i = b i
put_bytes b off (x ∷ xs) i = if i == off then x else put_bytes b (suc off) xs i

pub put_bytes-before :
    (b : Bytes) (off : ℕ) (xs : List ℕ) (i : ℕ) → i < off → put_bytes b off xs i ≡ b i
unfolding put_bytes
put_bytes-before b off [] i h = refl
put_bytes-before b off (x ∷ xs) i h = ground (arith, put_bytes-before b (suc off) xs i)

pub read_bytes-cong :
    (b c : Bytes) (off n : ℕ)
    → ((i : ℕ) → off ≤ i → i < off + n → b i ≡ c i)
    → read_bytes b off n ≡ read_bytes c off n
read_bytes-cong b c off zero same = refl
read_bytes-cong b c off (suc n) same = cc (
  same off (omega arith) (omega arith),
  read_bytes-cong b c (suc off) n λ i l h. same i (omega arith) (omega arith),
)

pub read_bytes-put :
    (b : Bytes) (off : ℕ) (xs : List ℕ) → read_bytes (put_bytes b off xs) off (length xs) ≡ xs
unfolding put_bytes
read_bytes-put b off [] = refl
read_bytes-put b off (x ∷ xs) = ap₂ ◌∷◌ (ground arith) (
    read_bytes-cong (put_bytes b off (x ∷ xs)) (put_bytes b (suc off) xs) (suc off) (length xs)
      (λ i l h. ground arith)
    ∙ read_bytes-put b (suc off) xs)

pub read_bytes-append :
    (b : Bytes) (off m n : ℕ)
    → read_bytes b off (m + n) ≡ read_bytes b off m ++ read_bytes b (off + m) n
read_bytes-append b off zero n = ap₂ (read_bytes b) (omega arith) (omega arith)
read_bytes-append b off (suc m) n =
    let e : suc m + n ≡ suc (m + n) = omega arith in
    ap (read_bytes b off) e
    ∙ ap (◌∷◌ (b off)) (
        read_bytes-append b (suc off) m n
        ∙ ap (λ k. read_bytes b (suc off) m ++ read_bytes b k n) (omega arith))

pub drop-read_bytes :
    (b : Bytes) (off n k : ℕ) → drop k (read_bytes b off n) ≡ read_bytes b (off + k) (n - k)
drop-read_bytes b off n zero = ap₂ (read_bytes b) (omega arith) (omega arith)
drop-read_bytes b off zero (suc k) = ap (read_bytes b (off + suc k)) {x = 0} (omega arith)
drop-read_bytes b off (suc n) (suc k) =
    drop-read_bytes b (suc off) n k ∙ ap₂ (read_bytes b) (omega arith) (omega arith)

pub length-read_bytes : (b : Bytes) (off n : ℕ) → length (read_bytes b off n) ≡ n
length-read_bytes b off zero = refl
length-read_bytes b off (suc n) = ap suc (length-read_bytes b (suc off) n)
