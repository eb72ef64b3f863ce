-- ===== src/Qsort/Insertion.antt =====
-- The insertion sort of short ranges.
use native.Mathlib.Numerals.{add-one}
use libsolcompat.Common.{
  ℕ, zero, suc, ◌+◌, ◌-◌, ◌≤◌, ◌<◌, ◌≡◌, ◌≢◌, refl, inl, inr, true, false, some, List, arith,
  get_elem?, length, ltb, Bool-cases, get_elem?_total,
}
use libsolcompat.Common.Int.{ℤ}
use libsolcompat.Qsort.{exceeds, insert_down, insertion_loop, insertion_sort}
use libsolcompat.Qsort.Swap.{
  swap_elements_lem, Swapped-Rearranged, Rearranged-refl, Rearranged-trans, Rearranged-widen,
  transpose,
}
use libsolcompat.Qsort.Order.{IsPreorder, SortedOn, SortsRange, greater_lem}

module _ {A C : Type 0} (compare_fn : A → A → C → ℤ) (context_arg : C)
    (order : IsPreorder compare_fn context_arg) where
  -- All pairs are in order but for those that end at the element on its way down.
  abbrev SortedBut : ℕ → ℕ → ℕ → List A → Type 0
  SortedBut lo inner hi xs =
      (i j : ℕ) (a b : A)
      → lo ≤ i
      → i < j
      → j ≤ hi
      → j ≢ inner
      → get_elem? xs i ≡ some a
      → get_elem? xs j ≡ some b
      → exceeds compare_fn context_arg a b ≡ false

  -- An element that does not compare below its left neighbour has found its place.
  placed :
      (lo k hi : ℕ) (xs : List A) (a b : A)
      → SortedBut lo (suc k) hi xs
      → get_elem? xs k ≡ some a
      → get_elem? xs (suc k) ≡ some b
      → exceeds compare_fn context_arg a b ≡ false
      → SortedOn compare_fn context_arg lo hi xs
  placed lo k hi xs a b but ea eb le i j c d p q r ec ed =
      ground (arith, but i j c d, but i k c a, order.transitive c a b)

  -- After the exchange, the pairs that end elsewhere are in order.
  exchanged :
      (lo k hi : ℕ) (xs ys : List A) (a b : A)
      → lo ≤ k
      → suc k ≤ hi
      → SortedBut lo (suc k) hi xs
      → get_elem? xs k ≡ some a
      → get_elem? xs (suc k) ≡ some b
      → exceeds compare_fn context_arg a b ≡ true
      → ((m : ℕ) → get_elem? ys m ≡ get_elem? xs (transpose k (suc k) m))
      → SortedBut lo k hi ys
  exchanged lo k hi xs ys a b h h' but ea eb gt reads i j c d p q r ne ec ed = ground (
    arith,
    reads i,
    reads j,
    order.total a b gt,
    but (transpose k (suc k) i) (transpose k (suc k) j) c d,
  )

  insert_down_lem :
      (xs : List A) (lo inner hi : ℕ)
      → lo ≤ inner
      → inner ≤ hi
      → hi < length xs
      → SortedBut lo inner hi xs
      → SortsRange compare_fn context_arg lo hi xs (insert_down compare_fn context_arg xs lo inner)
  unfolding insert_down
  insert_down_lem xs lo zero hi p q r but = record {
    out = xs;
    returns = refl;
    moved = Rearranged-refl lo hi xs;
    sorted = λ i j a b p' q' r'. but i j a b p' q' r' (omega arith);
  }
  insert_down_lem xs lo (suc k) hi p q r but =
      let (a, ea) = get_elem?_total xs k (omega arith) in
      let (b, eb) = get_elem?_total xs (suc k) (omega arith) in
      let test = greater_lem compare_fn context_arg xs k (suc k) a b ea eb in
      elim (Bool-cases (ltb lo (suc k))) [
        | inr stop ↦ rw stop (record {
          out = xs;
          returns = refl;
          moved = Rearranged-refl lo hi xs;
          sorted = λ i j c d p' q' r'. but i j c d p' q' r' (ground arith);
        })
        | inl go ↦ elim (Bool-cases (exceeds compare_fn context_arg a b)) [
          | inr le ↦
              rw (go, test, le)
                (record {
                  out = xs;
                  returns = refl;
                  moved = Rearranged-refl lo hi xs;
                  sorted = placed lo k hi xs a b but ea eb le;
                })
          | inl gt ↦
              let at_least : lo ≤ k = ground arith in
              let s = swap_elements_lem xs k (suc k) (omega arith) (omega arith) in
              let rest =
                insert_down_lem s.out lo k hi at_least (omega arith) (rw s.same_length r)
                  (exchanged lo k hi xs s.out a b at_least q but ea eb gt s.reads) in
              rw (go, test, gt, s.returns)
                (record {
                  out = rest.out;
                  returns = rest.returns;
                  moved =
                      Rearranged-trans
                        (Swapped-Rearranged at_least (omega arith) (omega arith) (omega arith) s)
                        rest.moved;
                  sorted = rest.sorted;
                })
        ]
      ]

  -- A sorted range and one more element.
  SortedOn-SortedBut :
      (lo hi : ℕ) (xs : List A)
      → SortedOn compare_fn context_arg lo hi xs
      → SortedBut lo (suc hi) (suc hi) xs
  SortedOn-SortedBut lo hi xs sorted i j a b p q r ne = sorted i j a b p q (omega arith)

  insertion_loop_lem :
      (xs : List A) (lo outer rounds hi : ℕ)
      → lo ≤ outer
      → outer + rounds ≡ hi
      → hi < length xs
      → SortedOn compare_fn context_arg lo outer xs
      → SortsRange compare_fn context_arg lo hi xs
          (insertion_loop compare_fn context_arg xs lo (suc outer) rounds)
  unfolding insertion_loop
  insertion_loop_lem xs lo outer zero hi p e h sorted = record {
    out = xs;
    returns = refl;
    moved = Rearranged-refl lo hi xs;
    sorted = λ i j a b p' q' r'. sorted i j a b p' q' (omega arith);
  }
  insertion_loop_lem xs lo outer (suc rounds) hi p e h sorted =
      let first =
        insert_down_lem xs lo (suc outer) (suc outer) (omega arith) (omega arith) (omega arith)
          (SortedOn-SortedBut lo outer xs sorted) in
      let rest =
        insertion_loop_lem first.out lo (suc outer) rounds hi (omega arith) (omega arith)
          (rw first.moved.same_length h) first.sorted in
      rw (first.returns, add-one)
        (record {
          out = rest.out;
          returns = rest.returns;
          moved =
              Rearranged-trans (Rearranged-widen lo hi (omega arith) (omega arith) first.moved)
                rest.moved;
          sorted = rest.sorted;
        })

  -- The insertion sort sorts its range and moves nothing else.
  pub insertion_sort_lem :
      (xs : List A) (lo hi : ℕ)
      → lo ≤ hi
      → hi < length xs
      → SortsRange compare_fn context_arg lo hi xs (insertion_sort compare_fn context_arg xs lo hi)
  unfolding insertion_sort
  insertion_sort_lem xs lo hi p h = rw add-one (
      insertion_loop_lem xs lo lo (hi - lo) hi (omega arith) (omega arith) h
        (λ i j a b p' q' r'. absurd (omega arith)))
