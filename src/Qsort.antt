-- ===== src/Qsort.antt =====
-- src/stdlib.c, qsort_r: quicksort with a caller's comparison and context. The array at `base` is
-- the list of its elements, so `base + i * element_size` is the index `i`; an index out of the
-- array is `none`.
pub mod Swap
pub mod Order
pub mod Insertion
pub mod Partition
pub mod Median
pub mod Sorted
pub mod Tests
use libsolcompat.Common.{
  ℕ, zero, suc, ◌+◌, ◌-◌, ◌/◌, Bool, true, false, ◌||◌, Option, none, some, List, get_elem?, set,
  ltb, leb, ◌==◌, if◌then◌else◌, ◌>>=◌,
}
use libsolcompat.Common.Int.{ℤ, pos, gtb_ℤ}

-- Exchanges two elements.
pub swap_elements : {A : Type 0} → List A → ℕ → ℕ → Option (List A)
swap_elements base i j = do
  x ← get_elem? base i
  y ← get_elem? base j
  some (set (set base i y) j x)

abbrev pub insertion_cutoff : ℕ
insertion_cutoff = 12

module _ {A C : Type 0} (compare_fn : A → A → C → ℤ) (context_arg : C) where
  -- `compare_fn(x, y, context_arg) > 0`
  pub exceeds : A → A → Bool
  exceeds x y = gtb_ℤ (compare_fn x y context_arg) (pos 0)

  -- The comparison of the elements at two indices.
  pub greater : List A → ℕ → ℕ → Option Bool
  greater base i j = do x ← get_elem? base i; y ← get_elem? base j; some (exceeds x y)

  -- The inner loop, from `inner_index` down to `left_bound`.
  pub insert_down : List A → ℕ → ℕ → Option (List A)
  insert_down base left_bound zero = some base
  insert_down base left_bound (suc k) =
      if ltb left_bound (suc k)
      then (do
        out_of_order ← greater base k (suc k)
        if out_of_order
            then (do base' ← swap_elements base k (suc k); insert_down base' left_bound k)
            else some base)
      else some base

  -- The outer loop, with `rounds` values of `outer_index` left.
  pub insertion_loop : List A → ℕ → ℕ → ℕ → Option (List A)
  insertion_loop base left_bound outer_index zero = some base
  insertion_loop base left_bound outer_index (suc rounds) = do
    base' ← insert_down base left_bound outer_index
    insertion_loop base' left_bound (outer_index + 1) rounds

  pub insertion_sort : List A → ℕ → ℕ → Option (List A)
  insertion_sort base left_bound right_bound =
      insertion_loop base left_bound (left_bound + 1) (right_bound - left_bound)

  -- The scan of the Lomuto partition, with `rounds` values of `scan_index` left.
  pub partition_loop : List A → ℕ → ℕ → ℕ → ℕ → Option (List A × ℕ)
  partition_loop base right_bound store_index scan_index zero = some (base, store_index)
  partition_loop base right_bound store_index scan_index (suc rounds) = do
    above ← greater base scan_index right_bound
    if above then partition_loop base right_bound store_index (scan_index + 1) rounds else do
      base' ← swap_elements base store_index scan_index
      partition_loop base' right_bound (store_index + 1) (scan_index + 1) rounds

  pub lomuto_partition : List A → ℕ → ℕ → Option (List A × ℕ)
  lomuto_partition base left_bound right_bound = do
    (base', store_index) ←
        partition_loop base right_bound left_bound left_bound (right_bound - left_bound)
    base'' ← swap_elements base' store_index right_bound
    some (base'', store_index)

  -- Exchanges two elements that are out of order.
  pub order_elements : List A → ℕ → ℕ → Option (List A)
  order_elements base i j = do
    out_of_order ← greater base i j
    if out_of_order then swap_elements base i j else some base

  -- Puts the median of three at `right_bound`.
  pub median_to_right : List A → ℕ → ℕ → Option (List A)
  median_to_right base left_bound right_bound =
      let mid_index = left_bound + (right_bound - left_bound) / 2 in
      do
        b₁ ← order_elements base left_bound mid_index
        b₂ ← order_elements b₁ left_bound right_bound
        b₃ ← order_elements b₂ mid_index right_bound
        swap_elements b₃ mid_index right_bound

  -- `none` is a read out of the array, or the end of the fuel.
  pub sort_range : ℕ → List A → ℕ → ℕ → Option (List A)
  sort_range zero base left_bound right_bound = none
  sort_range (suc fuel) base left_bound right_bound =
      if leb right_bound left_bound
      then some base
      else if leb (right_bound - left_bound + 1) insertion_cutoff
      then insertion_sort base left_bound right_bound
      else do
        b₁ ← median_to_right base left_bound right_bound
        (b₂, pivot_index) ← lomuto_partition b₁ left_bound right_bound
        b₃ ← elim (ltb left_bound pivot_index) [
          | true ↦ sort_range fuel b₂ left_bound (pivot_index - 1)
          | false ↦ some b₂
        ]
        elim (ltb pivot_index right_bound) [
          | true ↦ sort_range fuel b₃ (pivot_index + 1) right_bound
          | false ↦ some b₃
        ]

  -- The nested ranges shrink, so `element_count` rounds of recursion are enough.
  pub qsort_r : List A → ℕ → ℕ → Option (List A)
  qsort_r base element_count element_size =
      if leb element_count 1 || element_size == 0
      then some base
      else sort_range element_count base 0 (element_count - 1)
