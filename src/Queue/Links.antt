-- ===== src/Queue/Links.antt =====
-- Doubly linked chains, and what the two pointer writes of queue.c make of them.
use thesis_share.Base.{◌≡◌, ◌≢◌, refl, ◌∙◌, true, false, some, [], ◌∷◌, ◌++◌, arith}
use thesis_share.Memory.{Ptr, null, Heap, write, runs, load-some, store-some}
use thesis_share.Memory.Chain.{Cells, front, has}
use thesis_share.Queue.{QueueContainer, set_next, set_previous}

abbrev pub container : Ptr → Ptr → Ptr → QueueContainer
container d p n = record { data_ref = d; previous_container = p; next_container = n }

-- The distinct containers `xs` are linked in both directions; `p` stands in front of the first.
abbrev pub Linked : Heap QueueContainer → Ptr → Cells → Type 0
Linked h p [] = Unit {0}
Linked h p ((a, d) ∷ xs) =
    (a ≢ null) × (h a ≡ some (container d p (front xs))) × (has a xs ≡ false) × Linked h a xs

pub set_next-some :
    (h : Heap QueueContainer) (a q : Ptr) (n : QueueContainer)
    → a ≢ null
    → h a ≡ some n
    → set_next a q h ≡ some (tt, write h a (some (record n { next_container = q })))
unfolding set_next
set_next-some h a q n na e =
    runs _ (load-some h a n na e) (store-some h a n (record n { next_container = q }) na e)

pub set_previous-some :
    (h : Heap QueueContainer) (a q : Ptr) (n : QueueContainer)
    → a ≢ null
    → h a ≡ some n
    → set_previous a q h ≡ some (tt, write h a (some (record n { previous_container = q })))
unfolding set_previous
set_previous-some h a q n na e =
    runs _ (load-some h a n na e) (store-some h a n (record n { previous_container = q }) na e)

pub Linked-frame :
    (h g : Heap QueueContainer) (p : Ptr) (xs : Cells)
    → Linked h p xs
    → ((a : Ptr) → has a xs ≡ true → g a ≡ h a)
    → Linked g p xs
Linked-frame h g p [] c same = tt
Linked-frame h g p ((a, d) ∷ xs) (ne, e, out, c) same =
    (ne, ground (arith, same a), out, Linked-frame h g a xs c λ b i. same b (ground arith))

-- The address in front of what follows `xs`.
abbrev pub behind : Ptr → Cells → Ptr
behind p [] = p
behind p ((a, d) ∷ xs) = behind a xs

pub has-append-right :
    (b : Ptr) (xs ys : Cells) → has b (xs ++ ys) ≡ false → (has b xs ≡ false) × (has b ys ≡ false)
has-append-right b [] ys o = (refl, o)
has-append-right b ((a, d) ∷ xs) ys o = ground (arith, has-append-right b xs ys)

pub not-has-append :
    (b : Ptr) (xs ys : Cells) → has b xs ≡ false → has b ys ≡ false → has b (xs ++ ys) ≡ false
not-has-append b [] ys o o' = o'
not-has-append b ((a, d) ∷ xs) ys o o' = ground (arith, not-has-append b xs ys)

-- What stands at the end of a chain with `x` and `end` behind the containers `a ∷ xs`.
pub record LastLinks (h : Heap QueueContainer) (w x e end t : Ptr) : Type 0 where
  pub last_ne : x ≢ null
  pub end_ne : end ≢ null
  pub apart : x ≢ end
  pub at_last : h x ≡ some (container e w end)
  pub at_end : h end ≡ some (container t x null)

pub Linked-last :
    (h : Heap QueueContainer) (p x e end t : Ptr) (xs : Cells)
    → Linked h p (xs ++ (x, e) ∷ (end, t) ∷ [])
    → LastLinks h (behind p xs) x e end t
Linked-last h p x e end t [] (nx, hx, ox, (ne, he, oe, _)) = record {
  last_ne = nx;
  end_ne = ne;
  apart = ground arith;
  at_last = hx;
  at_end = he;
}
Linked-last h p x e end t ((a, d) ∷ xs) (na, ha, oa, c) = Linked-last h a x e end t xs c

-- The container in front of the last one points to it, and is another one than the last two.
abbrev pub Before : Heap QueueContainer → Ptr → Ptr → Ptr → Type 0
Before h w x end = (n : QueueContainer) × (w ≢ null) × (h w ≡ some n) × (w ≢ x) × (w ≢ end)

pub Linked-Before :
    (h : Heap QueueContainer) (p a d x e end t : Ptr) (xs : Cells)
    → Linked h p ((a, d) ∷ xs ++ (x, e) ∷ (end, t) ∷ [])
    → Before h (behind a xs) x end
Linked-Before h p a d x e end t [] (na, ha, oa, c) =
    (container d p x, na, ha, ground arith, ground arith)
Linked-Before h p a d x e end t ((b, d') ∷ xs) (na, ha, oa, c) =
    Linked-Before h a b d' x e end t xs c

ne-behind : (c a d : Ptr) (xs : Cells) → has c ((a, d) ∷ xs) ≡ false → c ≢ behind a xs
ne-behind c a d [] o = ground arith
ne-behind c a d ((b, e) ∷ xs) o = ne-behind c b e xs (ground arith)

-- The chain without its last container `x`, in a heap where its neighbours skip it.
pub Linked-skip :
    (h g : Heap QueueContainer) (p a d x e end t : Ptr) (xs : Cells)
    → Linked h p ((a, d) ∷ xs ++ (x, e) ∷ (end, t) ∷ [])
    → ((n : QueueContainer)
        → h (behind a xs) ≡ some n
        → g (behind a xs) ≡ some (record n { next_container = end }))
    → g end ≡ some (container t (behind a xs) null)
    → ((b : Ptr) → b ≢ x → b ≢ end → b ≢ behind a xs → g b ≡ h b)
    → Linked g p ((a, d) ∷ xs ++ (end, t) ∷ [])
Linked-skip h g p a d x e end t [] (na, ha, oa, (nx, hx, ox, (ne, he, oe, _))) link last same =
    (na, link (container d p x) ha, ground arith, (ne, last, refl, tt))
Linked-skip h g p a d x e end t ((b, d') ∷ xs) (na, ha, oa, c) link last same =
    let (o, o') = has-append-right a ((b, d') ∷ xs) ((x, e) ∷ (end, t) ∷ []) oa in
    (
      na,
      same a (ground arith) (ground arith) (ne-behind a b d' xs o) ∙ ha,
      not-has-append a ((b, d') ∷ xs) ((end, t) ∷ []) o (ground arith),
      Linked-skip h g a b d' x e end t xs c link last same,
    )
