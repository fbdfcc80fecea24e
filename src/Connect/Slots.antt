-- ===== src/Connect/Slots.antt =====
-- Streams and connections by their place in the lists of an engine. Outside a list nothing changes.
use thesis_share.Base.{ℕ, zero, suc, ◌+◌, ◌≡◌, Option, none, some, List, [], ◌∷◌, arith}
use thesis_share.Connect.{Stream, Connection}

-- Stream number `j` of a list, taken out of it and changed in it.
unfoldable pub get_stream : ℕ → List Stream → Option Stream
get_stream j [] = none
get_stream zero (s ∷ ss) = some s
get_stream (suc j) (s ∷ ss) = get_stream j ss

unfoldable pub remove_stream : ℕ → List Stream → List Stream
remove_stream j [] = []
remove_stream zero (s ∷ ss) = ss
remove_stream (suc j) (s ∷ ss) = s ∷ remove_stream j ss

unfoldable pub set_stream : ℕ → Stream → List Stream → List Stream
set_stream j s' [] = []
set_stream zero s' (s ∷ ss) = s' ∷ ss
set_stream (suc j) s' (s ∷ ss) = s ∷ set_stream j s' ss

-- Connection number `i`, and the connections with its list of streams changed, or without it.
unfoldable pub get_connection : ℕ → List Connection → Option Connection
get_connection i [] = none
get_connection zero (c ∷ cs) = some c
get_connection (suc i) (c ∷ cs) = get_connection i cs

unfoldable pub set_streams : ℕ → List Stream → List Connection → List Connection
set_streams i ss [] = []
set_streams zero ss (c ∷ cs) = record c { stream_list = ss } ∷ cs
set_streams (suc i) ss (c ∷ cs) = c ∷ set_streams i ss cs

unfoldable pub remove_connection : ℕ → List Connection → List Connection
remove_connection i [] = []
remove_connection zero (c ∷ cs) = cs
remove_connection (suc i) (c ∷ cs) = c ∷ remove_connection i cs

-- The sum of a weight over the streams of a list, and of all connections.
module _ (weight : Stream → ℕ) where
  abbrev pub sum : List Stream → ℕ
  sum [] = 0
  sum (s ∷ ss) = weight s + sum ss

  abbrev pub sum_all : List Connection → ℕ
  sum_all [] = 0
  sum_all (c ∷ cs) = sum c.stream_list + sum_all cs

  pub sum-set_stream :
      (j : ℕ) (s s' : Stream) (ss : List Stream)
      → get_stream j ss ≡ some s
      → sum (set_stream j s' ss) + weight s ≡ sum ss + weight s'
  unfolding get_stream set_stream
  sum-set_stream j s s' [] e = absurd (cc)
  sum-set_stream zero s s' (t ∷ ss) e = ground (arith, e)
  sum-set_stream (suc j) s s' (t ∷ ss) e = omega (arith, sum-set_stream j s s' ss e)

  pub sum-remove_stream :
      (j : ℕ) (s : Stream) (ss : List Stream)
      → get_stream j ss ≡ some s
      → sum (remove_stream j ss) + weight s ≡ sum ss
  unfolding get_stream remove_stream
  sum-remove_stream j s [] e = absurd (cc)
  sum-remove_stream zero s (t ∷ ss) e = ground (arith, e)
  sum-remove_stream (suc j) s (t ∷ ss) e = omega (arith, sum-remove_stream j s ss e)

  pub sum_all-set_streams :
      (i : ℕ) (c : Connection) (ss : List Stream) (cs : List Connection)
      → get_connection i cs ≡ some c
      → sum_all (set_streams i ss cs) + sum c.stream_list ≡ sum_all cs + sum ss
  unfolding get_connection set_streams
  sum_all-set_streams i c ss [] e = absurd (cc)
  sum_all-set_streams zero c ss (d ∷ cs) e = ground (arith, e)
  sum_all-set_streams (suc i) c ss (d ∷ cs) e = omega (arith, sum_all-set_streams i c ss cs e)

  pub sum_all-remove_connection :
      (i : ℕ) (c : Connection) (cs : List Connection)
      → get_connection i cs ≡ some c
      → sum_all (remove_connection i cs) + sum c.stream_list ≡ sum_all cs
  unfolding get_connection remove_connection
  sum_all-remove_connection i c [] e = absurd (cc)
  sum_all-remove_connection zero c (d ∷ cs) e = ground (arith, e)
  sum_all-remove_connection (suc i) c (d ∷ cs) e = omega (arith, sum_all-remove_connection i c cs e)

  -- Stream number `j` of connection number `i`.
  module _ (i j : ℕ) (c : Connection) (s : Stream) (cs : List Connection)
      (at_i : get_connection i cs ≡ some c) (at_j : get_stream j c.stream_list ≡ some s) where
    pub sum_all-set_stream :
        (s' : Stream)
        → sum_all (set_streams i (set_stream j s' c.stream_list) cs) + weight s
          ≡ sum_all cs + weight s'
    sum_all-set_stream s' = omega (
      arith,
      sum_all-set_streams i c (set_stream j s' c.stream_list) cs at_i,
      sum-set_stream j s s' c.stream_list at_j,
    )

    pub sum_all-remove_stream :
        sum_all (set_streams i (remove_stream j c.stream_list) cs) + weight s ≡ sum_all cs
    sum_all-remove_stream = omega (
      arith,
      sum_all-set_streams i c (remove_stream j c.stream_list) cs at_i,
      sum-remove_stream j s c.stream_list at_j,
    )
