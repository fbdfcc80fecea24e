-- ===== src/Stack/Tests.antt =====
-- A stack of three elements, with a NULL between two data.
use thesis_share.Base.{◌≡◌, refl, some, none, [], ◌∷◌, arith, ◌==◌, if◌then◌else◌}
use thesis_share.Memory.{Heap, Returns}
use thesis_share.Memory.Chain.{Node, node, Cells}
use thesis_share.Stack.{PrimitiveStack, destroy_stack}
use thesis_share.Stack.Contents.{IsStack, destroy_stack-until_null}

abbrev heap : Heap Node
heap a =
    if a == 1
    then some (node 40 2)
    else (if a == 2 then some (node 0 3) else (if a == 3 then some (node 50 0) else none))

abbrev stack : PrimitiveStack
stack = record { elements_left = 3; next_node = 1 }

abbrev cells : Cells
cells = (1, 40) ∷ (2, 0) ∷ (3, 50) ∷ []

stack-IsStack : IsStack heap stack cells
stack-IsStack = record {
  starts = refl;
  counts = refl;
  chain = (omega arith, refl, refl, (omega arith, refl, refl, (omega arith, refl, refl, tt)));
}

destroy_stack-until_null_example :
    Returns (λ (ds, s') g. (ds ≡ 40 ∷ []) × IsStack g s' ((3, 50) ∷ [])) (destroy_stack stack heap)
destroy_stack-until_null_example = destroy_stack-until_null stack-IsStack
