-- ===== src/VideoInfo/Formats/Sorting.antt =====
-- A sort that keeps what findformat relies on in qsort: by insertion.
use mathlib.Core.List.{Perm, Pairwise, Pairwise-singleton, forall_mem-cons}
use mathlib.Core.List.Perm
use native.Mathlib.Bridge.{le_prop}
use thesis_share.Base.{◌≡◌, refl, Bool, true, false, List, [], ◌∷◌, if◌then◌else◌, arith}
use thesis_share.Base.Int.{ℤ, pos, ltb_ℤ, ◌≤ℤ◌, ◌<ℤ◌, -ℤ_parts}
use thesis_share.VideoInfo.{Entry}
use thesis_share.VideoInfo.Formats.{compar_bitrate}

unfoldable pub insert : (Entry → Entry → ℤ) → Entry → List Entry → List Entry
insert compar x [] = x ∷ []
insert compar x (y ∷ ys) =
    let rest = insert compar x ys in if ltb_ℤ (pos 0) (compar x y) then y ∷ rest else x ∷ y ∷ ys

unfoldable pub insertion_sort : (Entry → Entry → ℤ) → List Entry → List Entry
unfolding insert
insertion_sort compar [] = []
insertion_sort compar (x ∷ xs) = insert compar x (insertion_sort compar xs)

insert-perm :
    (compar : Entry → Entry → ℤ) (x : Entry) (l : List Entry) → Perm (insert compar x l) (x ∷ l)
unfolding insert
insert-perm compar x [] = Perm.rfl
insert-perm compar x (y ∷ ys) = choose (ltb_ℤ (pos 0) (compar x y)) (insert-perm compar x ys)
  where
    choose :
        (b : Bool)
        → Perm (insert compar x ys) (x ∷ ys)
        → Perm (if b then y ∷ insert compar x ys else x ∷ y ∷ ys) (x ∷ y ∷ ys)
    choose true p = Perm.trans (Perm.cons y p) (Perm.swap x y ys)
    choose false p = Perm.rfl

pub insertion_sort-perm :
    (compar : Entry → Entry → ℤ) (l : List Entry) → Perm (insertion_sort compar l) l
unfolding insertion_sort
insertion_sort-perm compar [] = Perm.rfl
insertion_sort-perm compar (x ∷ xs) =
    Perm.trans (insert-perm compar x (insertion_sort compar xs))
      (Perm.cons x (insertion_sort-perm compar xs))

abbrev pub IsOrdered : List Entry → Type 0
IsOrdered = Pairwise (λ a b. compar_bitrate a b ≤ℤ pos 0)

ordered_trans :
    (x y z : Entry)
    → compar_bitrate x y ≤ℤ pos 0
    → compar_bitrate y z ≤ℤ pos 0
    → compar_bitrate x z ≤ℤ pos 0
unfolding compar_bitrate
ordered_trans x y z h k = omega (
  arith,
  h,
  k,
  -ℤ_parts y.bitrate x.bitrate,
  -ℤ_parts z.bitrate y.bitrate,
  -ℤ_parts z.bitrate x.bitrate,
)

ordered_turn : (x y : Entry) → pos 0 <ℤ compar_bitrate x y → compar_bitrate y x ≤ℤ pos 0
unfolding compar_bitrate
ordered_turn x y h = omega (arith, h, -ℤ_parts y.bitrate x.bitrate, -ℤ_parts x.bitrate y.bitrate)

insert-IsOrdered :
    (x : Entry) (l : List Entry) → IsOrdered l → IsOrdered (insert compar_bitrate x l)
unfolding insert
insert-IsOrdered x [] Pairwise.nil = Pairwise-singleton _ x
insert-IsOrdered x (y ∷ ys) (Pairwise.cons below s) =
    choose (ltb_ℤ (pos 0) (compar_bitrate x y)) refl (insert-IsOrdered x ys s)
  where
    choose :
        (b : Bool)
        → ltb_ℤ (pos 0) (compar_bitrate x y) ≡ b
        → IsOrdered (insert compar_bitrate x ys)
        → IsOrdered (if b then y ∷ insert compar_bitrate x ys else x ∷ y ∷ ys)
    choose true e ordered =
        let turned : compar_bitrate y x ≤ℤ pos 0 = ordered_turn x y (ground (arith, e)) in
        Pairwise.cons
          (λ z m.
            (forall_mem-cons (λ c. le_prop)).1 (turned, below) z
              ((Perm.mem_iff (insert-perm compar_bitrate x ys)).0 m))
          ordered
    choose false e ordered =
        let first : compar_bitrate x y ≤ℤ pos 0 = ground (arith, e) in
        Pairwise.cons
          ((forall_mem-cons (λ c. le_prop)).1 (first, λ z m. ordered_trans x y z first (below z m)))
          (Pairwise.cons below s)

pub insertion_sort-IsOrdered : (l : List Entry) → IsOrdered (insertion_sort compar_bitrate l)
unfolding insertion_sort
insertion_sort-IsOrdered [] = Pairwise.nil
insertion_sort-IsOrdered (x ∷ xs) =
    insert-IsOrdered x (insertion_sort compar_bitrate xs) (insertion_sort-IsOrdered xs)
