-- ===== src/Memory/Chain.antt =====
-- Singly linked chains in the heap: the nodes of stack.c and simple_list.c.
use thesis_share.Base.{
  ◌≡◌, ◌≢◌, refl, Bool, true, false, ◌||◌, Option, none, some, List, [], ◌∷◌, arith, ◌==◌,
}
use thesis_share.Memory.{Ptr, null, Heap, write}

-- `struct stack_node` and `struct list_container`.
pub record Node : Type 0 where
  pub data_ref : Ptr
  pub next : Ptr

abbrev pub node : Ptr → Ptr → Node
node d q = record { data_ref = d; next = q }

-- What a chain stands for: address and data of each node, in order.
abbrev pub Cells : Type 0
Cells = List (Ptr × Ptr)

abbrev pub front : Cells → Ptr
front [] = null
front ((a, d) ∷ xs) = a

abbrev pub contents : Cells → List Ptr
contents [] = []
contents ((a, d) ∷ xs) = d ∷ contents xs

abbrev pub has : Ptr → Cells → Bool
has a [] = false
has a ((p, d) ∷ xs) = (a == p) || has a xs

-- From `front xs` the `next` pointers lead through the distinct nodes `xs` to NULL.
abbrev pub Chain : Heap Node → Cells → Type 0
Chain h [] = Unit {0}
Chain h ((a, d) ∷ xs) =
    (a ≢ null) × (h a ≡ some (node d (front xs))) × (has a xs ≡ false) × Chain h xs

pub Chain-frame :
    (h g : Heap Node) (xs : Cells)
    → Chain h xs
    → ((a : Ptr) → has a xs ≡ true → g a ≡ h a)
    → Chain g xs
Chain-frame h g [] c same = tt
Chain-frame h g ((a, d) ∷ xs) (ne, e, out, c) same =
    (ne, ground (arith, same a), out, Chain-frame h g xs c λ b i. same b (ground arith))

-- A write at an address outside the chain leaves it as it is.
pub Chain-write :
    (h : Heap Node) (p : Ptr) (c : Option Node) (xs : Cells)
    → has p xs ≡ false
    → Chain h xs
    → Chain (write h p c) xs
Chain-write h p c xs out k = Chain-frame h (write h p c) xs k λ a i. ground arith

pub front-null : (h : Heap Node) (xs : Cells) → Chain h xs → front xs ≡ null → xs ≡ []
front-null h [] c e = refl
front-null h ((a, d) ∷ xs) (ne, _, _, _) e = absurd (ne e)

pub not-has_of_unused :
    (h : Heap Node) (p : Ptr) (xs : Cells) → Chain h xs → h p ≡ none → has p xs ≡ false
not-has_of_unused h p [] c e = refl
not-has_of_unused h p ((a, d) ∷ xs) (ne, ea, out, c) e =
    ground (arith, not-has_of_unused h p xs c e)
