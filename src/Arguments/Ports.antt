-- ===== src/Arguments/Ports.antt =====
-- The list of port numbers: what is written with commas between is read back.
use mathlib.Core.List.{append_assoc, append-nil}
use thesis_share.Base.{
  ℕ, suc, ◌+◌, ◌-◌, ◌≤◌, ◌≡◌, refl, ap, sym, ◌∙◌, false, none, some, List, [], ◌∷◌, ◌++◌, map,
  arith, ltb, ◌==◌, if◌then◌else◌, length, take, drop, length-append,
}
use thesis_share.HttpHeader.{Text}
use thesis_share.Arguments.{
  as_uint, atoi, find_char_occurance, port_between, parse_between, parse_array,
}

-- A piece that `parse_array` can hold: at most five bytes, none of them a comma.
abbrev pub NoComma : Text → Type 0
NoComma [] = Unit {0}
NoComma (c ∷ cs) = ((c == b',') ≡ false) × NoComma cs

abbrev pub AreShort : List Text → Type 0
AreShort [] = Unit {0}
AreShort (p ∷ ps) = NoComma p × (length p ≤ 5) × AreShort ps

-- The pieces behind `p`, each after a comma.
abbrev pub with_commas : List Text → Text
with_commas [] = []
with_commas (p ∷ ps) = b',' ∷ (p ++ with_commas ps)

find-piece :
    (i : ℕ) (p rest : Text)
    → NoComma p
    → find_char_occurance i (p ++ rest) b',' ≡ find_char_occurance (i + length p) rest b','
unfolding find_char_occurance
find-piece i [] rest none_in = ap (λ k. find_char_occurance k rest b',') (omega arith)
find-piece i (c ∷ p) rest (other, none_in) =
    rw other
      (find-piece (i + 1) p rest none_in ∙ ap (λ k. find_char_occurance k rest b',') (omega arith))

drop-length : (xs ys : Text) → drop (length xs) (xs ++ ys) ≡ ys
drop-length [] ys = refl
drop-length (x ∷ xs) ys = drop-length xs ys

take-length_append : (xs ys : Text) → take (length xs) (xs ++ ys) ≡ xs
take-length_append [] ys = refl
take-length_append (x ∷ xs) ys = ap (◌∷◌ x) (take-length_append xs ys)

port_between-piece :
    (before p rest : Text) (to : ℕ)
    → to ≡ length before + length p
    → length p ≤ 5
    → port_between (before ++ (p ++ rest)) (length before) to ≡ some (as_uint (atoi p))
unfolding port_between
port_between-piece before p rest to e short =
    let size : to - length before ≡ length p = omega (arith, e) in
    let fits : ltb 5 (length p) ≡ false = ground (arith, short) in
    rw size (
      rw fits (
        ap (λ t. some (as_uint (atoi (take (length p) t)))) (drop-length before (p ++ rest))
        ∙ ap (λ t. some (as_uint (atoi t))) (take-length_append p rest)))

length-find :
    (i : ℕ) (ps : List Text)
    → AreShort ps
    → length (find_char_occurance i (with_commas ps) b',') ≡ length ps
unfolding find_char_occurance
length-find i [] short = refl
length-find i (p ∷ ps) (plain, _, rest) =
    ap (λ cs. suc (length cs)) (find-piece (i + 1) p (with_commas ps) plain)
    ∙ ap suc (length-find (i + 1 + length p) ps rest)

-- The text and the positions, seen from behind the comma that follows `p`.
next_piece :
    (before p q : Text) (ps : List Text)
    → NoComma q
    → parse_between
        (before ++ (p ++ b',' ∷ (q ++ with_commas ps)))
        (length before + length p + 1)
        (find_char_occurance (length before + length p + 1) (q ++ with_commas ps) b',')
      ≡ parse_between
          ((before ++ (p ++ b',' ∷ [])) ++ (q ++ with_commas ps))
          (length (before ++ (p ++ b',' ∷ [])))
          (find_char_occurance
            (length (before ++ (p ++ b',' ∷ [])) + length q)
            (with_commas ps)
            b',')
next_piece before p q ps plain =
    ap (λ t. parse_between t (n + 1) (find_char_occurance (n + 1) tail b',')) same
    ∙ ap (λ k. parse_between (before' ++ tail) k (find_char_occurance k tail b',')) sized
    ∙ ap (parse_between (before' ++ tail) (length before'))
        (find-piece (length before') q (with_commas ps) plain)
  where
    n : ℕ
    n = length before + length p

    tail : Text
    tail = q ++ with_commas ps

    before' : Text
    before' = before ++ (p ++ b',' ∷ [])

    same : before ++ (p ++ b',' ∷ tail) ≡ before' ++ tail
    same =
        ap (◌++◌ before) (sym (append_assoc p (b',' ∷ []) tail))
        ∙ sym (append_assoc before (p ++ b',' ∷ []) tail)

    sized : n + 1 ≡ length before'
    sized = omega (arith, length-append before (p ++ b',' ∷ []), length-append p (b',' ∷ []))

parse_between-pieces :
    (before p : Text) (ps : List Text)
    → AreShort (p ∷ ps)
    → parse_between
        (before ++ (p ++ with_commas ps))
        (length before)
        (find_char_occurance (length before + length p) (with_commas ps) b',')
      ≡ some (map (λ t. as_uint (atoi t)) (p ∷ ps))
unfolding parse_between find_char_occurance
parse_between-pieces before p [] (plain, short, _) =
    rw (port_between-piece before p [] (length (before ++ (p ++ []))) ends short) refl
  where
    ends : length (before ++ (p ++ [])) ≡ length before + length p
    ends = ap (λ t. length (before ++ t)) (append-nil p) ∙ length-append before p
parse_between-pieces before p (q ∷ ps) (plain, short, rest) =
    rw
      (port_between-piece before p (b',' ∷ (q ++ with_commas ps)) (length before + length p) refl
        short)
      (rw
        (next_piece before p q ps rest.0
          ∙ parse_between-pieces (before ++ (p ++ b',' ∷ [])) q ps rest)
        refl)

-- A list of one to eleven pieces with commas between, each of at most five bytes and without a
-- comma, is read without overflow, and as the values of its pieces in order, each the number of atoi as a
-- uint.
pub parse_array-pieces :
    (p : Text) (ps : List Text)
    → AreShort (p ∷ ps)
    → length ps ≤ 10
    → parse_array (p ++ with_commas ps) ≡ some (map (λ t. as_uint (atoi t)) (p ∷ ps))
unfolding parse_array
parse_array-pieces p ps short few =
    ap (λ cs. if ltb 10 (length cs) then none else parse_between (p ++ with_commas ps) 0 cs)
      (find-piece 0 p (with_commas ps) short.0)
    ∙ rw room (parse_between-pieces [] p ps short)
  where
    room : ltb 10 (length (find_char_occurance (0 + length p) (with_commas ps) b',')) ≡ false
    room = ground (arith, length-find (0 + length p) ps short.2)
