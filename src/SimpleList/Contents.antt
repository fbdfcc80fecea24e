-- ===== src/SimpleList/Contents.antt =====
-- The list of simple_list.c refines a list of data: what each call does to the contents.
use thesis_share.Base.{
  ℕ, zero, suc, ◌+◌, ◌≤◌, ◌<◌, ◌≡◌, ◌≢◌, refl, ap, ◌∙◌, true, false, ◌||◌, none, some, [], ◌∷◌,
  arith, ◌==◌, leb, length,
}
use thesis_share.Base.Int.{pos, ◌-ℤ◌}
use thesis_share.Memory.{Ptr, null, Heap, write, Returns, runs, alloc-some, load-some, store-some}
use thesis_share.Memory.Chain.{
  Node, node, Cells, front, has, Chain, Chain-frame, Chain-write, not-has_of_unused,
}
use thesis_share.SimpleList.{SimpleList, walk, get_container, insert_list_element}

-- The list `l` in the heap `h` holds the nodes `xs` behind its first container.
pub record IsList (h : Heap Node) (l : SimpleList) (xs : Cells) : Type 0 where
  pub counts : l.size ≡ length xs
  pub chain : Chain h ((l.first_container, null) ∷ xs)

-- The address of node number `n`.
abbrev pub address : ℕ → Cells → Ptr
address n [] = null
address zero ((a, d) ∷ xs) = a
address (suc n) ((a, d) ∷ xs) = address n xs

-- Node number `n` becomes `x`, and those from there on move up.
abbrev pub insert_at : ℕ → Ptr × Ptr → Cells → Cells
insert_at zero x xs = x ∷ xs
insert_at (suc n) x [] = x ∷ []
insert_at (suc n) x (y ∷ xs) = y ∷ insert_at n x xs

length-insert_at :
    (n : ℕ) (x : Ptr × Ptr) (xs : Cells) → length (insert_at n x xs) ≡ suc (length xs)
length-insert_at zero x xs = refl
length-insert_at (suc n) x [] = refl
length-insert_at (suc n) x (y ∷ xs) = ap suc (length-insert_at n x xs)

walk-address :
    (n : ℕ) (h : Heap Node) (a d : Ptr) (xs : Cells)
    → n ≤ length xs
    → Chain h ((a, d) ∷ xs)
    → walk n a h ≡ some (address n ((a, d) ∷ xs), h)
unfolding walk
walk-address zero h a d xs hn c = refl
walk-address (suc n) h a d [] hn c = absurd (omega arith)
walk-address (suc n) h a d ((b, e) ∷ xs) hn (ne, ha, out, c) =
    runs _ (load-some h a (node d b) ne ha) (walk-address n h b e xs (omega arith) c)

has-insert_at :
    (n : ℕ) (a f v : Ptr) (xs : Cells) → has a (insert_at n (f, v) xs) ≡ ((a == f) || has a xs)
has-insert_at zero a f v xs = refl
has-insert_at (suc n) a f v [] = refl
has-insert_at (suc n) a f v ((b, d) ∷ xs) = ground (arith, has-insert_at n a f v xs)

has-address : (n : ℕ) (xs : Cells) → n < length xs → has (address n xs) xs ≡ true
has-address n [] hn = absurd (omega arith)
has-address zero ((a, d) ∷ xs) hn = ground arith
has-address (suc n) ((a, d) ∷ xs) hn = ground (arith, has-address n xs (omega arith))

-- Linking the node `f` behind node number `n` of a chain.
linked-Chain :
    (n : ℕ) (h g : Heap Node) (f v a d : Ptr) (xs : Cells)
    → n ≤ length xs
    → Chain h ((a, d) ∷ xs)
    → f ≢ null
    → has f ((a, d) ∷ xs) ≡ false
    → (m : Node) → h (address n ((a, d) ∷ xs)) ≡ some m
    → g f ≡ some (node v m.next)
    → g (address n ((a, d) ∷ xs)) ≡ some (node m.data_ref f)
    → ((b : Ptr) → b ≢ f → b ≢ address n ((a, d) ∷ xs) → g b ≡ h b)
    → Chain g ((a, d) ∷ insert_at n (f, v) xs)
linked-Chain zero h g f v a d xs hn (ne, ha, free, c) nf out m found new link same = (
  ne,
  ground arith,
  ground arith,
  (
    nf,
    ground arith,
    ground arith,
    Chain-frame h g xs c λ b i. same b (ground arith) (ground arith),
  ),
)
linked-Chain (suc n) h g f v a d [] hn c nf out m found new link same = absurd (omega arith)
linked-Chain (suc n) h g f v a d ((b, e) ∷ xs) hn (ne, ha, free, c) nf out m found new link same = (
  ne,
  same a (ground arith) (ground (arith, has-address n ((b, e) ∷ xs) (omega arith))) ∙ ha,
  ground (arith, has-insert_at n a f v xs),
  linked-Chain n h g f v b e xs (omega arith) c nf (ground arith) m found new link same,
)

-- A pointer to an object that is allocated.
abbrev Points : Heap Node → Ptr → Type 0
Points h p = (m : Node) × (p ≢ null) × (h p ≡ some m)

address-Points :
    (n : ℕ) (h : Heap Node) (xs : Cells) → n < length xs → Chain h xs → Points h (address n xs)
address-Points n h [] hn c = absurd (omega arith)
address-Points zero h ((a, d) ∷ xs) hn (ne, ha, _, _) = (node d (front xs), ne, ha)
address-Points (suc n) h ((a, d) ∷ xs) hn (_, _, _, c) = address-Points n h xs (omega arith) c

get_container-before :
    (n : ℕ) (h : Heap Node) (l : SimpleList) (xs : Cells)
    → n ≤ length xs
    → IsList h l xs
    → get_container l (pos n -ℤ pos 1) h ≡ some (address n ((l.first_container, null) ∷ xs), h)
unfolding get_container ◌-ℤ◌
get_container-before zero h l xs hn is = refl
get_container-before (suc n) h l xs hn is =
    let back : pos (suc n) -ℤ pos 1 ≡ pos n = ground arith in
    let inside : leb l.size n ≡ false = ground (arith, is.counts) in
    rw back (rw inside (walk-address (suc n) h l.first_container null xs hn is.chain))

-- `insert_list_element` at a position up to the size puts the data there, in front of what stood
-- there, given an unused address; it writes to no object outside the list.
pub insert_list_element-insert_at :
    {h : Heap Node} {l : SimpleList} {xs : Cells} (n fresh d : Ptr)
    → IsList h l xs
    → n ≤ length xs
    → fresh ≢ null
    → h fresh ≡ none
    → Returns
        (λ l' g.
          IsList g l' (insert_at n (fresh, d) xs)
          × ((b : Ptr) → b ≢ fresh → has b ((l.first_container, null) ∷ xs) ≡ false → g b ≡ h b))
        (insert_list_element fresh l (pos n) d h)
unfolding insert_list_element
insert_list_element-insert_at {h} {l} {xs} n fresh d is hn ne unused = (
  record l { size = l.size + 1 },
  g,
  runs _ (alloc-some h fresh (node d null)) (
      runs _ (get_container-before n h1 l xs hn is1) (
        runs _ (load-some h1 prev m nprev eprev) (
          runs _ (store-some h1 fresh (node d null) (node d m.next) ne (ground arith)) (
            runs _
              (store-some h2 prev m (node m.data_ref fresh) nprev (ground (arith, apart, eprev)))
              refl)))),
  (
    record {
      counts = omega (arith, is.counts, length-insert_at n (fresh, d) xs);
      chain =
          linked-Chain n h1 g fresh d l.first_container null xs hn is1.chain ne out m eprev
            (ground (arith, apart)) (ground arith) (λ b nf np. ground arith);
    },
    λ b nf ob. ground (arith, within),
  ),
)
  where
    h1 : Heap Node
    h1 = write h fresh (some (node d null))

    out : has fresh ((l.first_container, null) ∷ xs) ≡ false
    out = not-has_of_unused h fresh ((l.first_container, null) ∷ xs) is.chain unused

    is1 : IsList h1 l xs
    is1 = record {
      counts = is.counts;
      chain =
          Chain-write h fresh (some (node d null)) ((l.first_container, null) ∷ xs) out is.chain;
    }

    prev : Ptr
    prev = address n ((l.first_container, null) ∷ xs)

    points : Points h1 prev
    points = address-Points n h1 ((l.first_container, null) ∷ xs) (omega arith) is1.chain

    m : Node
    m = points.0

    nprev : prev ≢ null
    nprev = points.1

    eprev : h1 prev ≡ some m
    eprev = points.2

    within : has prev ((l.first_container, null) ∷ xs) ≡ true
    within = has-address n ((l.first_container, null) ∷ xs) (omega arith)

    apart : prev ≢ fresh
    apart = ground (arith, within, out)

    h2 : Heap Node
    h2 = write h1 fresh (some (node d m.next))

    g : Heap Node
    g = write h2 prev (some (node m.data_ref fresh))
