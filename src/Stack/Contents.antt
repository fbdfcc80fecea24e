-- ===== src/Stack/Contents.antt =====
-- The stack of stack.c refines a list: what each call does to the data on the stack.
use thesis_share.Base.{
  ℕ, zero, suc, ◌+◌, ◌<◌, ◌≡◌, ◌≢◌, refl, ap, inl, inr, none, some, List, [], ◌∷◌, arith, ◌==◌,
  length, if◌then◌else◌, Bool-cases,
}
use thesis_share.Memory.{Ptr, null, Heap, write, runs, Returns}
use thesis_share.Memory.Chain.{Node, node, Cells, front, Chain, Chain-write, not-has_of_unused}
use thesis_share.Stack.{
  PrimitiveStack, init_stack, put_stack_element, pull_stack_element, destroy_loop, destroy_stack,
}

-- The stack `s` in the heap `h` holds the nodes `xs`, the latest first.
pub record IsStack (h : Heap Node) (s : PrimitiveStack) (xs : Cells) : Type 0 where
  pub starts : s.next_node ≡ front xs
  pub counts : s.elements_left ≡ length xs
  pub chain : Chain h xs

init_stack-IsStack : (h : Heap Node) → IsStack h init_stack []
unfolding init_stack
init_stack-IsStack h = record { starts = refl; counts = refl; chain = tt }

-- Given an unused address, `put_stack_element` returns a stack with the data on top of the old
-- contents, and writes nowhere else.
pub put_stack_element_lem :
    {h : Heap Node} {s : PrimitiveStack} {xs : Cells} (fresh d : Ptr)
    → IsStack h s xs
    → fresh ≢ null
    → h fresh ≡ none
    → Returns
        (λ s' g. IsStack g s' ((fresh, d) ∷ xs) × ((a : Ptr) → a ≢ fresh → g a ≡ h a))
        (put_stack_element fresh s d h)
unfolding put_stack_element
put_stack_element_lem {h} {s} {xs} fresh d is ne unused =
    let out = not-has_of_unused h fresh xs is.chain unused in
    (
      record { elements_left = s.elements_left + 1; next_node = fresh },
      write h fresh (some (node d s.next_node)),
      refl,
      (
        record {
          starts = refl;
          counts = omega (arith, is.counts);
          chain = (ne, ground (arith, is.starts), out, Chain-write h fresh _ xs out is.chain);
        },
        λ a other. ground arith,
      ),
    )

-- `pull_stack_element` returns the latest data, frees its node and leaves the other nodes.
pub pull_stack_element-cons :
    {h : Heap Node} {s : PrimitiveStack} {xs : Cells} (a d : Ptr)
    → IsStack h s ((a, d) ∷ xs)
    → Returns
        (λ (out, s') g. (out ≡ d) × IsStack g s' xs × (g ≡ write h a none))
        (pull_stack_element s h)
unfolding pull_stack_element
pull_stack_element-cons {h} {s} {xs} a d is = (
  (d, record { elements_left = length xs; next_node = front xs }),
  write h a none,
  ground (arith, is.chain),
  (
    refl,
    record {
      starts = refl;
      counts = refl;
      chain = Chain-write h a none xs (is.chain).2 (is.chain).3;
    },
    refl,
  ),
)

-- On an empty stack `pull_stack_element` returns NULL and changes nothing.
pull_stack_element-nil :
    {h : Heap Node} {s : PrimitiveStack}
    → IsStack h s []
    → pull_stack_element s h ≡ some ((null, s), h)
unfolding pull_stack_element
pull_stack_element-nil is = ground (arith, is.counts)

-- The data in front of the first NULL, and the nodes behind that NULL.
abbrev pub until_null : Cells → List Ptr
until_null [] = []
until_null ((a, d) ∷ xs) = if d == null then [] else d ∷ until_null xs

abbrev pub after_null : Cells → Cells
after_null [] = []
after_null ((a, d) ∷ xs) = if d == null then xs else after_null xs

destroy_loop-until_null :
    (fuel : ℕ) (h : Heap Node) (s : PrimitiveStack) (xs : Cells)
    → length xs < fuel
    → IsStack h s xs
    → Returns
        (λ (ds, s') g. (ds ≡ until_null xs) × IsStack g s' (after_null xs))
        (destroy_loop fuel s h)
unfolding destroy_loop
destroy_loop-until_null zero h s xs hf is = absurd (omega arith)
destroy_loop-until_null (suc fuel) h s [] hf is =
    (([], s), h, runs _ (pull_stack_element-nil is) refl, (refl, is))
destroy_loop-until_null (suc fuel) h s ((a, d) ∷ xs) hf is =
    let (r, g, e, (out, is', w)) = pull_stack_element-cons a d is in
    elim (Bool-cases (d == null)) [
      | inl end ↦ (([], r.1), g, runs _ e (rw (out, end)), rw end (refl, is'))
      | inr more ↦
          let (r', g', e', (freed, is'')) =
            destroy_loop-until_null fuel g r.1 xs (omega arith) is' in
          (
            (d ∷ r'.0, r'.1),
            g',
            runs _ e (rw (out, more) (runs _ e' refl)),
            rw more (ap (◌∷◌ d) freed, is''),
          )
    ]

-- `destroy_stack` returns, and frees the data in order up to the first NULL; the elements behind the
-- first NULL stay on the stack.
pub destroy_stack-until_null :
    {h : Heap Node} {s : PrimitiveStack} {xs : Cells}
    → IsStack h s xs
    → Returns
        (λ (ds, s') g. (ds ≡ until_null xs) × IsStack g s' (after_null xs))
        (destroy_stack s h)
unfolding destroy_stack
destroy_stack-until_null {h} {s} {xs} is =
    destroy_loop-until_null (s.elements_left + 1) h s xs (omega (arith, is.counts)) is
