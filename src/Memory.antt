-- ===== src/Memory.antt =====
-- The C heap under the containers of quic_probe: objects at addresses, and commands that read and
-- write them. `none` is a fault: an access through NULL or through a pointer to freed memory (or,
-- in a loop that is given fuel, the end of the fuel). The address that `malloc` returns is an
-- argument of the command that allocates; memory is taken never to run out, as the source assumes.
pub mod Chain
pub mod Bytes
use thesis_share.Base.{ℕ, ◌≡◌, ◌≢◌, refl, Option, none, some, arith, ◌==◌, if◌then◌else◌}

abbrev pub Ptr : Type 0
Ptr = ℕ

abbrev pub null : Ptr
null = 0

abbrev pub Heap : Type 0 → Type 0
Heap N = Ptr → Option N

abbrev pub Cmd : Type 0 → Type 0 → Type 0
Cmd N A = Heap N → Option (A × Heap N)

module _ {N : Type 0} where
  abbrev pub write : Heap N → Ptr → Option N → Heap N
  write h p c a = if a == p then c else h a

  abbrev pub pure : {A : Type 0} → A → Cmd N A
  pure a h = some (a, h)

  abbrev pub continue : {A B : Type 0} → Option (A × Heap N) → (A → Cmd N B) → Option (B × Heap N)
  continue none k = none
  continue (some (a, g)) k = k a g

  infixl 5 ◌>>=◌ ◌>>◌
  abbrev pub ◌>>=◌ : {A B : Type 0} → Cmd N A → (A → Cmd N B) → Cmd N B
  m >>= k = λ h. continue (m h) k

  abbrev pub ◌>>◌ : {B : Type 0} → Cmd N (Unit {0}) → Cmd N B → Cmd N B
  m >> k = m >>= λ _. k

  -- `*p`
  unfoldable pub load : Ptr → Cmd N N
  load p h = if p == null then none else elim (h p) [ none ↦ none | some n ↦ some (n, h) ]

  -- A new object at the address that `malloc` gave.
  unfoldable pub alloc : Ptr → N → Cmd N (Unit {0})
  alloc p n h = some (tt, write h p (some n))

  -- `*p = n` on an object that exists.
  unfoldable pub store : Ptr → N → Cmd N (Unit {0})
  unfolding load alloc
  store p n = load p >>= λ _. alloc p n

  -- `free(p)`
  unfoldable pub release : Ptr → Cmd N (Unit {0})
  unfolding load
  release p = load p >>= λ _ h. some (tt, write h p none)

  pub alloc-some : (h : Heap N) (p : Ptr) (n : N) → alloc p n h ≡ some (tt, write h p (some n))
  unfolding alloc
  alloc-some h p n = refl

  pub load-some : (h : Heap N) (p : Ptr) (n : N) → p ≢ null → h p ≡ some n → load p h ≡ some (n, h)
  unfolding load
  load-some h p n ne e = ground arith

  pub store-some :
      (h : Heap N) (p : Ptr) (m n : N)
      → p ≢ null
      → h p ≡ some m
      → store p n h ≡ some (tt, write h p (some n))
  unfolding store alloc
  store-some h p m n ne e = rw (load-some h p m ne e)

  pub release-some :
      (h : Heap N) (p : Ptr) (m : N)
      → p ≢ null
      → h p ≡ some m
      → release p h ≡ some (tt, write h p none)
  unfolding release
  release-some h p m ne e = rw (load-some h p m ne e)

  -- One step of a run whose first command returns.
  pub runs :
      {A B : Type 0} {r : Option (A × Heap N)} (k : A → Cmd N B) {s : Option (B × Heap N)} {a : A}
      {g : Heap N}
      → r ≡ some (a, g)
      → k a g ≡ s
      → continue r k ≡ s
  runs k e f = rw e f

  -- Total correctness of a run: it returns, with no fault and enough fuel, and the result fits `P`.
  abbrev pub Returns : {A : Type 0} → (A → Heap N → Type 0) → Option (A × Heap N) → Type 0
  Returns {A} P r = (a : A) × (g : Heap N) × (r ≡ some (a, g)) × P a g
