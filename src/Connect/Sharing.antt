-- ===== src/Connect/Sharing.antt =====
-- How streams share connections, and what the search for a connection answers.
use thesis_share.Base.{
  ℕ, zero, suc, ◌+◌, ◌≤◌, ◌≡◌, inl, inr, Bool, true, false, Option, none, some, List, [], ◌∷◌,
  arith, length, Bool-cases,
}
use thesis_share.HttpHeader.{Text}
use thesis_share.Arguments.{text_eq}
use thesis_share.Connect.{Stream, Connection, fits_connection, find_connection, insert_stream}

-- The streams of all connections.
abbrev pub total_streams : List Connection → ℕ
total_streams [] = 0
total_streams (c ∷ cs) = length c.stream_list + total_streams cs

-- No connection of the list is to the host.
abbrev pub NotTo : Text → List Connection → Type 0
NotTo host [] = Unit {0}
NotTo host (c ∷ cs) = (text_eq host c.hostname ≡ false) × NotTo host cs

-- The sharing that the program is started with: a stream for each connection at most, or a
-- connection for each host at most.
abbrev pub IsShared : Bool → List Connection → Type 0
IsShared dedicated [] = Unit {0}
IsShared true (c ∷ cs) = (length c.stream_list ≤ 1) × IsShared true cs
IsShared false (c ∷ cs) = NotTo c.hostname cs × IsShared false cs

pub NotTo-insert_stream :
    (host : Text) (i : ℕ) (s : Stream) (cs : List Connection)
    → NotTo host cs
    → NotTo host (insert_stream i s cs)
unfolding insert_stream
NotTo-insert_stream host i s [] n = n
NotTo-insert_stream host zero s (c ∷ cs) n = n
NotTo-insert_stream host (suc i) s (c ∷ cs) (other, n) = (other, NotTo-insert_stream host i s cs n)

-- What `find_connection` answers.
abbrev pub Found : Bool → Text → List Connection → Option ℕ → Type 0
Found dedicated host cs none = dedicated ≡ false → NotTo host cs
Found dedicated host cs (some i) =
    (s : Stream)
    → (total_streams (insert_stream i s cs) ≡ suc (total_streams cs))
      × (IsShared dedicated cs → IsShared dedicated (insert_stream i s cs))

Found-front :
    (b : Bool) (host : Text) (c : Connection) (cs : List Connection)
    → fits_connection host b c ≡ true
    → Found b host (c ∷ cs) (some 0)
unfolding fits_connection insert_stream
Found-front true host c cs fits = λ s.
    let empty : length c.stream_list ≡ 0 = ground (arith, fits) in
    (omega arith, λ (short, rest). (omega (arith, empty), rest))
Found-front false host c cs fits = λ s. (omega arith, λ k. k)

Found-behind :
    (b : Bool) (host : Text) (c : Connection) (cs : List Connection) (r : Option ℕ)
    → Found b host cs r
    → fits_connection host b c ≡ false
    → Found b host (c ∷ cs) (elim r as (λ _. Option ℕ) [ none ↦ none | some i ↦ some (suc i) ])
unfolding fits_connection insert_stream
Found-behind b host c cs none f other = λ shared. (ground (arith, other, shared), f shared)
Found-behind true host c cs (some i) f other =
    λ s. (omega (arith, (f s).0), λ (short, rest). (short, (f s).1 rest))
Found-behind false host c cs (some i) f other = λ s. (
  omega (arith, (f s).0),
  λ (apart, rest). (NotTo-insert_stream c.hostname i s cs apart, (f s).1 rest),
)

pub find_connection-Found :
    (dedicated : Bool) (host : Text) (cs : List Connection)
    → Found dedicated host cs (find_connection cs host dedicated)
unfolding find_connection
find_connection-Found dedicated host [] = λ e. tt
find_connection-Found dedicated host (c ∷ cs) =
    elim (Bool-cases (fits_connection host dedicated c)) [
      | inl fits ↦ rw fits (Found-front dedicated host c cs fits)
      | inr other ↦ rw other (
          Found-behind dedicated host c cs (find_connection cs host dedicated)
            (find_connection-Found dedicated host cs) other)
    ]
