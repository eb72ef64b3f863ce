-- ===== src/Qsort/Sorted.antt =====
-- The recursion: after the partition, sorting both sides sorts the range.
use mathlib.Core.List.{Perm}
use mathlib.Core.List.Perm
use native.Mathlib.Decide.{dec_lt}
use libsolcompat.Common.{
  ℕ, zero, suc, ◌+◌, ◌-◌, ◌≤◌, ◌<◌, ◌≡◌, ◌≢◌, refl, ◌∙◌, inl, inr, true, false, Option, some, List,
  arith, get_elem?, length, ltb, leb, Bool-cases,
}
use libsolcompat.Common.Int.{ℤ}
use libsolcompat.Qsort.{exceeds, sort_range, qsort_r}
use libsolcompat.Qsort.Swap.{Rearranged, Rearranged-refl, Rearranged-trans, Rearranged-widen}
use libsolcompat.Qsort.Order.{IsPreorder, SortedOn, SortsRange}
use libsolcompat.Qsort.Insertion.{insertion_sort_lem}
use libsolcompat.Qsort.Partition.{lomuto_partition_lem}
use libsolcompat.Qsort.Median.{median_to_right_lem}

module _ {A C : Type 0} (compare_fn : A → A → C → ℤ) (context_arg : C)
    (order : IsPreorder compare_fn context_arg) where
  -- The pivot in its place, with nothing above it before and nothing below it after.
  record Around (lo p hi : ℕ) (v : A) (xs : List A) : Type 0 where
    at_pivot : get_elem? xs p ≡ some v
    below :
        (k : ℕ) (a : A)
        → lo ≤ k
        → k < p
        → get_elem? xs k ≡ some a
        → exceeds compare_fn context_arg a v ≡ false
    above :
        (k : ℕ) (a : A)
        → p < k
        → k ≤ hi
        → get_elem? xs k ≡ some a
        → exceeds compare_fn context_arg v a ≡ false

  -- Moving elements before the pivot keeps that, and so does moving elements after it.
  Around-left :
      {lo p hi l h : ℕ} {v : A} {xs ys : List A}
      → lo ≤ l
      → h < p
      → Around lo p hi v xs
      → Rearranged l h xs ys
      → Around lo p hi v ys
  Around-left {p = p} {l = l} {h = h} a b r m = record {
    at_pivot = m.outside p (inr b) ∙ r.at_pivot;
    below = λ k c q q' e. elim (dec_lt k l) [
      | yes out ↦ r.below k c q q' (ground (arith, m.outside k (inl out)))
      | no in_l ↦ elim (dec_lt h k) [
        | yes out ↦ r.below k c q q' (ground (arith, m.outside k (inr out)))
        | no in_h ↦
            let (n, s, t, e') = m.inside k (omega arith) (omega arith) in
            r.below n c (omega arith) (omega arith) (ground (arith, e'))
      ]
    ];
    above = λ k c q q' e. r.above k c q q' (ground (arith, m.outside k (inr (omega arith))));
  }

  Around-right :
      {lo p hi l h : ℕ} {v : A} {xs ys : List A}
      → p < l
      → h ≤ hi
      → Around lo p hi v xs
      → Rearranged l h xs ys
      → Around lo p hi v ys
  Around-right {p = p} {l = l} {h = h} a b r m = record {
    at_pivot = m.outside p (inl a) ∙ r.at_pivot;
    below = λ k c q q' e. r.below k c q q' (ground (arith, m.outside k (inl (omega arith))));
    above = λ k c q q' e. elim (dec_lt k l) [
      | yes out ↦ r.above k c q q' (ground (arith, m.outside k (inl out)))
      | no in_l ↦ elim (dec_lt h k) [
        | yes out ↦ r.above k c q q' (ground (arith, m.outside k (inr out)))
        | no in_h ↦
            let (n, s, t, e') = m.inside k (omega arith) (omega arith) in
            r.above n c (omega arith) (omega arith) (ground (arith, e'))
      ]
    ];
  }

  -- The elements from `lo` on and before `p` are in order.
  abbrev SortedBelow : ℕ → ℕ → List A → Type 0
  SortedBelow lo p xs =
      (i j : ℕ) (a b : A)
      → lo ≤ i
      → i < j
      → j < p
      → get_elem? xs i ≡ some a
      → get_elem? xs j ≡ some b
      → exceeds compare_fn context_arg a b ≡ false

  join :
      (lo p hi : ℕ) (v : A) (xs : List A)
      → Around lo p hi v xs
      → SortedBelow lo p xs
      → SortedOn compare_fn context_arg (suc p) hi xs
      → SortedOn compare_fn context_arg lo hi xs
  join lo p hi v xs r left right i j a b q q' q'' ea eb = ground (
    arith,
    left i j a b,
    right i j a b,
    r.at_pivot,
    r.below i a,
    r.above j b,
    order.transitive a v b,
  )

  record AfterLeft (lo p hi : ℕ) (v : A) (xs : List A) (result : Option (List A)) : Type 0 where
    out : List A
    returns : result ≡ some out
    moved : Rearranged lo hi xs out
    around : Around lo p hi v out
    sorted : SortedBelow lo p out

  left_side :
      (fuel lo p hi : ℕ) (v : A) (xs : List A)
      → p ≤ hi
      → Around lo p hi v xs
      → (lo < p
          → SortsRange compare_fn context_arg lo
              (p - 1)
              xs
              (sort_range compare_fn context_arg fuel xs lo (p - 1)))
      → AfterLeft lo p hi v xs (elim (ltb lo p) [
        | true ↦ sort_range compare_fn context_arg fuel xs lo (p - 1)
        | false ↦ some xs
      ])
  left_side fuel lo p hi v xs le r sorts = elim (Bool-cases (ltb lo p)) [
    | inl lt ↦
        let s = sorts (ground arith) in
        rw lt (record {
          out = s.out;
          returns = s.returns;
          moved = Rearranged-widen lo hi (omega arith) (omega arith) s.moved;
          around = Around-left (omega arith) (ground arith) r s.moved;
          sorted = λ i j a b q q' q''. s.sorted i j a b q q' (omega arith);
        })
    | inr ge ↦ rw ge (record {
      out = xs;
      returns = refl;
      moved = Rearranged-refl lo hi xs;
      around = r;
      sorted = λ i j a b q q' q''. absurd (ground arith);
    })
  ]

  right_side :
      (fuel lo p hi : ℕ) (v : A) (xs : List A)
      → lo ≤ p
      → Around lo p hi v xs
      → SortedBelow lo p xs
      → (p < hi
          → SortsRange compare_fn context_arg
              (p + 1)
              hi
              xs
              (sort_range compare_fn context_arg fuel xs (p + 1) hi))
      → SortsRange compare_fn context_arg lo hi xs (elim (ltb p hi) [
        | true ↦ sort_range compare_fn context_arg fuel xs (p + 1) hi
        | false ↦ some xs
      ])
  right_side fuel lo p hi v xs le r left sorts = elim (Bool-cases (ltb p hi)) [
    | inl lt ↦
        let s = sorts (ground arith) in
        rw lt (record {
          out = s.out;
          returns = s.returns;
          moved = Rearranged-widen lo hi (omega arith) (omega arith) s.moved;
          sorted =
              join lo p hi v s.out (Around-right (omega arith) (omega arith) r s.moved)
                (λ i j a b q q' q'' ea eb.
                  left i j a b q q' q'' (ground (arith, s.moved.outside i (inl (omega arith))))
                    (ground (arith, s.moved.outside j (inl (omega arith)))))
                (λ i j a b q q' q''. s.sorted i j a b (omega arith) q' q'');
        })
    | inr ge ↦ rw ge (record {
      out = xs;
      returns = refl;
      moved = Rearranged-refl lo hi xs;
      sorted = join lo p hi v xs r left (λ i j a b q q' q''. absurd (ground arith));
    })
  ]

  sort_range_lem :
      (fuel : ℕ) (xs : List A) (lo hi : ℕ)
      → hi < length xs
      → hi - lo < fuel
      → SortsRange compare_fn context_arg lo hi xs (sort_range compare_fn context_arg fuel xs lo hi)
  unfolding sort_range
  sort_range_lem zero xs lo hi h f = absurd (omega arith)
  sort_range_lem (suc fuel) xs lo hi h f = elim (Bool-cases (leb hi lo)) [
    | inl stop ↦ rw stop (record {
      out = xs;
      returns = refl;
      moved = Rearranged-refl lo hi xs;
      sorted = λ i j a b q q' q''. absurd (ground arith);
    })
    | inr more ↦ elim (Bool-cases (leb (hi - lo + 1) 12)) [
      | inl short ↦
          rw (more, short)
            (insertion_sort_lem compare_fn context_arg order xs lo hi (ground arith) h)
      | inr long ↦
          let lt : lo < hi = ground arith in
          let m = median_to_right_lem compare_fn context_arg xs lo hi (omega arith) h in
          let hm : hi < length m.out = rw m.moved.same_length h in
          let c = lomuto_partition_lem compare_fn context_arg order m.out lo hi (omega arith) hm in
          let p = c.pivot_index in
          let hc : hi < length c.out = rw c.moved.same_length hm in
          let l =
            left_side fuel lo p hi c.pivot c.out c.to_hi
              (record { at_pivot = c.at_pivot; below = c.below; above = c.above })
              (λ q.
                sort_range_lem fuel c.out lo (p - 1) (omega (arith, c.to_hi))
                  (omega (arith, c.to_hi))) in
          let hl : hi < length l.out = rw l.moved.same_length hc in
          let r =
            right_side fuel lo p hi c.pivot l.out c.from_lo l.around l.sorted
              (λ q. sort_range_lem fuel l.out (p + 1) hi hl (omega (arith, c.from_lo))) in
          rw (more, long, m.returns, c.returns, l.returns)
            (record {
              out = r.out;
              returns = r.returns;
              moved =
                  Rearranged-trans m.moved
                    (Rearranged-trans c.moved (Rearranged-trans l.moved r.moved));
              sorted = r.sorted;
            })
    ]
  ]

  -- For a comparison that is total and transitive, and an array of at least `element_count`
  -- elements of a size that is not 0, `qsort_r` returns without an access out of the array. The
  -- result is a permutation of the array, the first `element_count` elements are in order, and
  -- the elements after them are where they were.
  pub qsort_r-sorts :
      (base : List A) (element_count element_size : ℕ)
      → element_count ≤ length base
      → element_size ≢ 0
      → (sorted : List A) × (qsort_r compare_fn context_arg base element_count element_size
          ≡ some sorted)
        × Perm sorted base
        × ((k : ℕ) → element_count ≤ k → get_elem? sorted k ≡ get_elem? base k)
        × ((i j : ℕ) (a b : A)
            → i < j
            → j < element_count
            → get_elem? sorted i ≡ some a
            → get_elem? sorted j ≡ some b
            → exceeds compare_fn context_arg a b ≡ false)
  unfolding qsort_r
  qsort_r-sorts base count size h ne = elim (Bool-cases (leb count 1)) [
    | inl tiny ↦
        (base, rw tiny, Perm.refl base, λ k q. refl, λ i j a b q q' ea eb. absurd (ground arith))
    | inr many ↦
        let s = sort_range_lem count base 0 (count - 1) (ground arith) (ground arith) in
        (
          s.out,
          ground (arith, s.returns),
          s.moved.perm,
          λ k q. s.moved.outside k (inr (ground arith)),
          λ i j a b q q'. s.sorted i j a b (omega arith) q (omega arith),
        )
  ]
