-- ===== src/SimpleList/Removal.antt =====
-- Removal from the list of simple_list.c: by data, at the front, and of all.
use thesis_share.Base.{
  ℕ, zero, suc, ◌+◌, ◌-◌, ◌<◌, ◌≡◌, refl, ◌∙◌, inl, inr, Bool, true, false, ◌||◌, Option, none,
  some, [], ◌∷◌, arith, ◌==◌, ==_iff, ne→neq, length, if◌then◌else◌, Bool-cases,
}
use thesis_share.Base.Int.{pos, ◌-ℤ◌, leb_ℤ}
use thesis_share.Memory.{
  Ptr, null, Heap, write, continue, pure, runs, load-some, store-some, release-some, Returns,
}
use thesis_share.Memory.Chain.{Node, node, Cells, front, contents, has, Chain, Chain-frame}
use thesis_share.SimpleList.{
  SimpleList, get_container, remove_container, remove_list_element, remove_loop,
  remove_list_element_by_data, destroy_loop, destroy_simple_list,
}
use thesis_share.SimpleList.Contents.{IsList}

-- Whether a node holds the data, and the nodes without the first that does.
abbrev pub holds : Ptr → Cells → Bool
holds d [] = false
holds d ((a, e) ∷ xs) = (e == d) || holds d xs

abbrev pub erase : Ptr → Cells → Cells
erase d [] = []
erase d ((a, e) ∷ xs) = if e == d then xs else (a, e) ∷ erase d xs

-- `g` differs from `h` at most at the nodes of `xs`.
abbrev pub SameOutside : Cells → Heap Node → Heap Node → Type 0
SameOutside xs h g = (b : Ptr) → has b xs ≡ false → g b ≡ h b

has-erase : (b d : Ptr) (xs : Cells) → has b xs ≡ false → has b (erase d xs) ≡ false
has-erase b d [] out = refl
has-erase b d ((a, e) ∷ xs) out = ground (arith, has-erase b d xs)

length-erase :
    (d : Ptr) (xs : Cells)
    → length xs ≡ (if holds d xs then suc (length (erase d xs)) else length (erase d xs))
length-erase d [] = refl
length-erase d ((a, e) ∷ xs) = ground (arith, length-erase d xs)

-- What `remove_container` makes of the heap: it unlinks and frees the second node.
abbrev unlinked : Heap Node → Ptr → Ptr → Ptr → Ptr → Heap Node
unlinked h a d b next = write (write h a (some (node d next))) b none

remove_container-cons :
    (h : Heap Node) (a d b e : Ptr) (xs : Cells)
    → Chain h ((a, d) ∷ (b, e) ∷ xs)
    → (remove_container a h ≡ some (e, unlinked h a d b (front xs)))
      × Chain (unlinked h a d b (front xs)) ((a, d) ∷ xs)
unfolding remove_container
remove_container-cons h a d b e xs (na, ha, outa, (nb, hb, outb, c)) = (
  runs _ (load-some h a (node d b) na ha) (
      runs _ (load-some h b (node e (front xs)) nb hb) (
        runs _ (store-some h a (node d b) (node d (front xs)) na ha) (
          runs _
            (release-some (write h a (some (node d (front xs)))) b (node e (front xs)) nb
              (ground arith))
            refl))),
  (na, ground arith, ground arith, Chain-frame h _ xs c λ p i. ground arith),
)

abbrev Erased :
    Heap Node → SimpleList → Ptr → Ptr → Ptr → Cells → Ptr × SimpleList → Heap Node → Type 0
Erased h l d a v xs (out, l') g =
    (out ≡ (if holds d xs then d else null))
    × (l' ≡ (if holds d xs then record l { size = l.size - 1 } else l))
    × Chain g ((a, v) ∷ erase d xs)
    × SameOutside ((a, v) ∷ xs) h g

remove_loop-Erased :
    (fuel : ℕ) (h : Heap Node) (l : SimpleList) (d a v : Ptr) (xs : Cells)
    → length xs < fuel
    → Chain h ((a, v) ∷ xs)
    → Returns (Erased h l d a v xs) (remove_loop fuel l d a h)
unfolding remove_loop
remove_loop-Erased zero h l d a v xs hf c = absurd (omega arith)
remove_loop-Erased (suc fuel) h l d a v [] hf (na, ha, _, _) = (
  (null, l),
  h,
  runs _ (load-some h a (node v null) na ha) refl,
  (refl, refl, (na, ha, refl, tt), λ b o. refl),
)
remove_loop-Erased (suc fuel) h l d a v ((b, e) ∷ xs) hf (na, ha, outa, (nb, hb, outb, c)) =
    elim (Bool-cases (e == d)) [
      | inl hit ↦
          let (run, rest) = remove_container-cons h a v b e xs (na, ha, outa, (nb, hb, outb, c)) in
          (
            (e, record l { size = l.size - 1 }),
            unlinked h a v b (front xs),
            starts (rw hit (runs _ run refl)),
            rw hit ((==_iff e d).0 hit, refl, rest, λ p o. ground arith),
          )
      | inr miss ↦
          let (r, g, run, (out, left, rest, same)) =
            remove_loop-Erased fuel h l d b e xs (omega arith) (nb, hb, outb, c) in
          (
            r,
            g,
            starts (rw miss run),
            rw miss (
              out,
              left,
              (na, same a outa ∙ ha, ground (arith, has-erase a d xs), rest),
              λ p o. same p (ground arith),
            ),
          )
    ]
  where
    starts :
        {r : Option ((Ptr × SimpleList) × Heap Node)}
        → (if e == d
              then (λ m.
                  continue (remove_container a m) (λ x. pure (x, record l { size = l.size - 1 })))
              else remove_loop fuel l d b)
            h
          ≡ r
        → remove_loop (suc fuel) l d a h ≡ r
    starts q =
        runs _ (load-some h a (node v b) na ha)
          (rw (ne→neq nb) (runs _ (load-some h b (node e (front xs)) nb hb) q))

left-IsList :
    {h g : Heap Node} {l l' : SimpleList} {xs : Cells} (d : Ptr)
    → IsList h l xs
    → l' ≡ (if holds d xs then record l { size = l.size - 1 } else l)
    → Chain g ((l.first_container, null) ∷ erase d xs)
    → IsList g l' (erase d xs)
left-IsList {g} {l} {xs} d is left c = elim (Bool-cases (holds d xs)) [
  | inl some_node ↦
      rw (left, some_node)
        (record { counts = ground (arith, is.counts, length-erase d xs); chain = c })
  | inr no_node ↦
      rw (left, no_node)
        (record { counts = ground (arith, is.counts, length-erase d xs); chain = c })
]

-- `remove_list_element_by_data` returns the data if a node holds it, and NULL if none does; it
-- takes out the first node that holds it, counts it, and writes to no object outside the list.
pub remove_list_element_by_data-erase :
    {h : Heap Node} {l : SimpleList} {xs : Cells} (d : Ptr)
    → IsList h l xs
    → Returns
        (λ (out, l') g.
          (out ≡ (if holds d xs then d else null))
          × IsList g l' (erase d xs)
          × SameOutside ((l.first_container, null) ∷ xs) h g)
        (remove_list_element_by_data l d h)
unfolding remove_list_element_by_data
remove_list_element_by_data-erase {h} {l} {xs} d is =
    let (r, g, run, (out, left, rest, same)) =
      remove_loop-Erased (l.size + 1) h l d l.first_container null xs (omega (arith, is.counts))
        is.chain in
    (r, g, run, (out, left-IsList d is left rest, same))

remove_first :
    {h : Heap Node} {l : SimpleList} {b e : Ptr} {xs : Cells}
    → IsList h l ((b, e) ∷ xs)
    → Returns
        (λ (out, l') g. (out ≡ e) × IsList g l' xs × (l'.first_container ≡ l.first_container))
        (remove_list_element l (pos 0) h)
unfolding remove_list_element get_container ◌-ℤ◌
remove_first {h} {l} {b} {e} {xs} is =
    let (run, rest) = remove_container-cons h l.first_container null b e xs is.chain in
    let some_left : leb_ℤ (pos l.size) (pos 0) ≡ false = ground (arith, is.counts) in
    (
      (e, record l { size = l.size - 1 }),
      unlinked h l.first_container null b (front xs),
      rw some_left (runs _ run refl),
      (refl, record { counts = omega (arith, is.counts); chain = rest }, refl),
    )

destroy_loop-contents :
    (fuel : ℕ) (h : Heap Node) (l : SimpleList) (xs : Cells)
    → length xs < fuel
    → IsList h l xs
    → Returns (λ ds _. ds ≡ contents xs) (destroy_loop fuel l h)
unfolding destroy_loop
destroy_loop-contents zero h l xs hf is = absurd (omega arith)
destroy_loop-contents (suc fuel) h l [] hf is =
    let none_left : (l.size == 0) ≡ true = ground (arith, is.counts) in
    (
      [],
      write h l.first_container none,
      rw none_left (
          runs _ (release-some h l.first_container (node null null) (is.chain).0 (is.chain).1)
            refl),
      refl,
    )
destroy_loop-contents (suc fuel) h l ((b, e) ∷ xs) hf is =
    let some_left : (l.size == 0) ≡ false = ground (arith, is.counts) in
    let (r, g, run, (out, is', _)) = remove_first is in
    let (ds, g', run', freed) = destroy_loop-contents fuel g r.1 xs (omega arith) is' in
    (r.0 ∷ ds, g', rw some_left (runs _ run (runs _ run' refl)), rw (out, freed))

-- `destroy_simple_list` returns, with no access to freed memory, and frees every element of the
-- list once, in order (a NULL among them included).
pub destroy_simple_list-contents :
    {h : Heap Node} {l : SimpleList} {xs : Cells}
    → IsList h l xs
    → Returns (λ ds _. ds ≡ contents xs) (destroy_simple_list l h)
unfolding destroy_simple_list
destroy_simple_list-contents {h} {l} {xs} is =
    destroy_loop-contents (l.size + 1) h l xs (omega (arith, is.counts)) is
