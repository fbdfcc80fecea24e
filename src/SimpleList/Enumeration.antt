-- ===== src/SimpleList/Enumeration.antt =====
-- Enumeration of the list of simple_list.c: what a loop over `get_next_element` visits.
use thesis_share.Base.{
  ℕ, zero, suc, ◌<◌, ◌≡◌, refl, inl, inr, List, [], ◌∷◌, some, arith, ◌==◌, ne→neq, length,
  if◌then◌else◌, Bool-cases,
}
use thesis_share.Memory.{Ptr, null, Heap, runs, load-some}
use thesis_share.Memory.Chain.{Node, node, Cells, front, contents, Chain}
use thesis_share.SimpleList.{SimpleList, get_enumerator, get_next_element, enumerate}
use thesis_share.SimpleList.Contents.{IsList}

-- The data in front of the first NULL.
abbrev pub before_null : List Ptr → List Ptr
before_null [] = []
before_null (d ∷ ds) = if d == null then [] else d ∷ before_null ds

enumerate-before_null :
    (fuel : ℕ) (h : Heap Node) (a v : Ptr) (xs : Cells)
    → length xs < fuel
    → Chain h ((a, v) ∷ xs)
    → enumerate fuel a h ≡ some (before_null (contents xs), h)
unfolding enumerate
enumerate-before_null zero h a v xs hf c = absurd (omega arith)
enumerate-before_null (suc fuel) h a v [] hf (na, ha, _, _) =
    runs _ (runs _ (load-some h a (node v null) na ha) refl) refl
enumerate-before_null (suc fuel) h a v ((b, e) ∷ xs) hf (na, ha, _, (nb, hb, outb, c)) =
    runs _ step (elim (Bool-cases (e == null)) [
      | inl end ↦ rw end
      | inr more ↦
          rw more
            (runs _ (enumerate-before_null fuel h b e xs (omega arith) (nb, hb, outb, c)) refl)
    ])
  where
    step : get_next_element a h ≡ some ((e, b), h)
    step =
        runs _ (load-some h a (node v b) na ha)
          (rw (ne→neq nb) (runs _ (load-some h b (node e (front xs)) nb hb) refl))

-- A loop over an enumerator returns, changes nothing, and visits the elements in order up to the
-- first NULL: all of them, if none is NULL.
pub enumerate-contents :
    {h : Heap Node} {l : SimpleList} {xs : Cells}
    → IsList h l xs
    → enumerate (suc (length xs)) (get_enumerator l) h ≡ some (before_null (contents xs), h)
unfolding get_enumerator
enumerate-contents {h} {l} {xs} is =
    enumerate-before_null (suc (length xs)) h l.first_container null xs (omega arith) is.chain
