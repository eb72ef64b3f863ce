-- ===== src/Qsort/Tests.antt =====
-- Concrete runs of the sort.
use mathlib.Core.List.{Perm}
use libsolcompat.Common.{
  ℕ, ◌≤◌, ◌<◌, ◌≡◌, refl, Bool, true, false, some, List, [], ◌∷◌, arith, get_elem?, ltb,
  if◌then◌else◌,
}
use libsolcompat.Common.Int.{ℤ, pos, negsuc}
use libsolcompat.Qsort.{
  exceeds, greater, swap_elements, insert_down, insertion_loop, insertion_sort, partition_loop,
  lomuto_partition, order_elements, median_to_right, sort_range, qsort_r,
}
use libsolcompat.Qsort.Order.{IsPreorder}
use libsolcompat.Qsort.Sorted.{qsort_r-sorts}

-- A comparison of numbers whose context says in which direction to sort.
abbrev by_size : ℕ → ℕ → Bool → ℤ
by_size x y true = if ltb y x then pos 1 else if ltb x y then negsuc 0 else pos 0
by_size x y false = if ltb x y then pos 1 else if ltb y x then negsuc 0 else pos 0

abbrev shuffled : List ℕ
shuffled = 9 ∷ 3 ∷ 14 ∷ 3 ∷ 1 ∷ 12 ∷ 7 ∷ 2 ∷ 11 ∷ 5 ∷ 13 ∷ 0 ∷ 8 ∷ 4 ∷ 10 ∷ 6 ∷ []

by_size-IsPreorder : IsPreorder by_size true
unfolding exceeds
by_size-IsPreorder = record {
  total = λ x y h. ground arith;
  transitive = λ x y z h k. ground arith;
}

sixteen :
    qsort_r by_size true shuffled 16 4
    ≡ some (0 ∷ 1 ∷ 2 ∷ 3 ∷ 3 ∷ 4 ∷ 5 ∷ 6 ∷ 7 ∷ 8 ∷ 9 ∷ 10 ∷ 11 ∷ 12 ∷ 13 ∷ 14 ∷ [])
unfolding exceeds greater swap_elements insert_down insertion_loop insertion_sort partition_loop
    lomuto_partition order_elements median_to_right sort_range qsort_r
sixteen = refl

first_three_down : qsort_r by_size false (1 ∷ 2 ∷ 3 ∷ 4 ∷ []) 3 4 ≡ some (3 ∷ 2 ∷ 1 ∷ 4 ∷ [])
unfolding exceeds greater swap_elements insert_down insertion_loop insertion_sort sort_range qsort_r
first_three_down = refl

qsort_r-sorts_example :
    (sorted : List ℕ) × (qsort_r by_size true shuffled 16 4 ≡ some sorted)
    × Perm sorted shuffled
    × ((k : ℕ) → 16 ≤ k → get_elem? sorted k ≡ get_elem? shuffled k)
    × ((i j a b : ℕ)
        → i < j
        → j < 16
        → get_elem? sorted i ≡ some a
        → get_elem? sorted j ≡ some b
        → exceeds by_size true a b ≡ false)
qsort_r-sorts_example =
    qsort_r-sorts by_size true by_size-IsPreorder shuffled 16 4 (omega arith) (omega arith)
