-- ===== src/SimpleList.antt =====
-- quic_probe/src/simple_list.c: a linked list of pointers behind a first container that does not
-- count. The structure is its size and the address of its first container; `size` cannot overflow.
-- A `struct enumerator` is the pointer that it holds.
mod Contents
mod Removal
mod Enumeration
mod Tests
use thesis_share.Base.{
  ℕ, zero, suc, ◌+◌, ◌-◌, Bool, true, false, List, [], ◌∷◌, none, ◌==◌, leb, if◌then◌else◌,
}
use thesis_share.Base.Int.{ℤ, pos, negsuc, ◌-ℤ◌, leb_ℤ}
use thesis_share.Memory.{Ptr, null, Cmd, pure, ◌>>=◌, ◌>>◌, load, alloc, store, release}
use thesis_share.Memory.Chain.{Node, node}

pub record SimpleList : Type 0 where
  pub size : ℕ
  pub first_container : Ptr

pub get_list_size : SimpleList → ℕ
get_list_size l = l.size

-- `first` is the address of the first container inside what `malloc` returns.
pub init_simple_list : Ptr → Cmd Node SimpleList
init_simple_list first = do
  alloc first (node null null)
  pure (record { size = 0; first_container = first })

-- `for (; pos >= 0; pos--) current = current->next`: the rounds left, and the pointer.
pub walk : ℕ → Ptr → Cmd Node Ptr
walk zero current = pure current
walk (suc rounds) current = do c ← load current; walk rounds c.next

-- `pos` runs from -1, which is the first container.
pub get_container : SimpleList → ℤ → Cmd Node Ptr
unfolding walk
get_container l (negsuc n) = pure l.first_container
get_container l (pos n) = if leb l.size n then pure null else walk (suc n) l.first_container

-- `fresh` is what `malloc` returns; its `next_container` is set before anything reads it.
pub insert_list_element : Ptr → SimpleList → ℤ → Ptr → Cmd Node SimpleList
unfolding get_container ◌-ℤ◌
insert_list_element fresh l p data_ref = do
  alloc fresh (node data_ref null)
  prev ← get_container l (p -ℤ pos 1)
  before ← load prev
  store fresh (node data_ref before.next)
  store prev (node before.data_ref fresh)
  pure (record l { size = l.size + 1 })

pub remove_container : Ptr → Cmd Node Ptr
remove_container prev = do
  before ← load prev
  gone ← load before.next
  store prev (node before.data_ref gone.next)
  release before.next
  pure gone.data_ref

pub remove_list_element : SimpleList → ℤ → Cmd Node (Ptr × SimpleList)
unfolding get_container remove_container ◌-ℤ◌
remove_list_element l p = if leb_ℤ (pos l.size) p then pure (null, l) else do
  prev ← get_container l (p -ℤ pos 1)
  d ← remove_container prev
  pure (d, record l { size = l.size - 1 })

-- The loop of `remove_list_element_by_data`, on fuel.
pub remove_loop : ℕ → SimpleList → Ptr → Ptr → Cmd Node (Ptr × SimpleList)
unfolding remove_container
remove_loop zero l data_ref prev = λ _. none
remove_loop (suc fuel) l data_ref prev = do
  c ← load prev
  if c.next == null then pure (null, l) else do
    n ← load c.next
    if n.data_ref == data_ref
        then (do d ← remove_container prev; pure (d, record l { size = l.size - 1 }))
        else remove_loop fuel l data_ref c.next

pub remove_list_element_by_data : SimpleList → Ptr → Cmd Node (Ptr × SimpleList)
unfolding remove_loop
remove_list_element_by_data l data_ref = remove_loop (l.size + 1) l data_ref l.first_container

pub get_list_element : SimpleList → ℤ → Cmd Node Ptr
unfolding get_container
get_list_element l p = do container ← get_container l p; c ← load container; pure c.data_ref

-- `while (size != 0) free(remove_list_element(list, 0))`, then the list itself: the data freed.
pub destroy_loop : ℕ → SimpleList → Cmd Node (List Ptr)
unfolding remove_list_element
destroy_loop zero l = λ _. none
destroy_loop (suc fuel) l =
    if l.size == 0
    then (do release l.first_container; pure [])
    else do (d, l') ← remove_list_element l (pos 0); ds ← destroy_loop fuel l'; pure (d ∷ ds)

pub destroy_simple_list : SimpleList → Cmd Node (List Ptr)
unfolding destroy_loop
destroy_simple_list l = destroy_loop (l.size + 1) l

pub get_enumerator : SimpleList → Ptr
get_enumerator l = l.first_container

-- NULL at the end; otherwise the data of the next container, to which the enumerator moves.
pub get_next_element : Ptr → Cmd Node (Ptr × Ptr)
get_next_element enumerator = do
  c ← load enumerator
  if c.next == null then pure (null, enumerator) else do n ← load c.next; pure (n.data_ref, c.next)

-- The loop `for (x = get_next_element(e); x != NULL; x = get_next_element(e))` of its users, as
-- the data that it visits.
pub enumerate : ℕ → Ptr → Cmd Node (List Ptr)
unfolding get_next_element
enumerate zero enumerator = λ _. none
enumerate (suc fuel) enumerator = do
  (d, e) ← get_next_element enumerator
  if d == null then pure [] else do ds ← enumerate fuel e; pure (d ∷ ds)
