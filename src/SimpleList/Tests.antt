-- ===== src/SimpleList/Tests.antt =====
-- A list of two elements behind its first container.
use thesis_share.Base.{◌≡◌, ◌≢◌, refl, false, some, none, [], ◌∷◌, arith, ◌==◌, if◌then◌else◌}
use thesis_share.Base.Int.{pos}
use thesis_share.Memory.{Ptr, null, Heap, Returns}
use thesis_share.Memory.Chain.{Node, node, Cells, has}
use thesis_share.SimpleList.{SimpleList, insert_list_element, remove_list_element_by_data}
use thesis_share.SimpleList.Contents.{IsList, insert_list_element-insert_at}
use thesis_share.SimpleList.Removal.{SameOutside, remove_list_element_by_data-erase}

abbrev heap : Heap Node
heap a =
    if a == 1
    then some (node 0 2)
    else if a == 2
    then some (node 50 3)
    else if a == 3
    then some (node 60 0)
    else none

abbrev list : SimpleList
list = record { size = 2; first_container = 1 }

abbrev cells : Cells
cells = (2, 50) ∷ (3, 60) ∷ []

list-IsList : IsList heap list cells
list-IsList = record {
  counts = refl;
  chain = (omega arith, refl, refl, (omega arith, refl, refl, (omega arith, refl, refl, tt)));
}

insert_list_element-insert_at_example :
    Returns
      (λ l' g.
        IsList g l' ((2, 50) ∷ (4, 70) ∷ (3, 60) ∷ [])
        × ((b : Ptr) → b ≢ 4 → has b ((1, null) ∷ cells) ≡ false → g b ≡ heap b))
      (insert_list_element 4 list (pos 1) 70 heap)
insert_list_element-insert_at_example =
    insert_list_element-insert_at 1 4 70 list-IsList (omega arith) (omega arith) refl

remove_list_element_by_data-erase_example :
    Returns
      (λ (out, l') g.
        (out ≡ 60) × IsList g l' ((2, 50) ∷ []) × SameOutside ((1, null) ∷ cells) heap g)
      (remove_list_element_by_data list 60 heap)
remove_list_element_by_data-erase_example = remove_list_element_by_data-erase 60 list-IsList
