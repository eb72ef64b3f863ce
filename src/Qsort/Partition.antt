-- ===== src/Qsort/Partition.antt =====
-- The Lomuto partition.
use native.Mathlib.Numerals.{add-one}
use libsolcompat.Common.{
  ℕ, zero, suc, ◌+◌, ◌-◌, ◌≤◌, ◌<◌, ◌≡◌, refl, ◌∙◌, inl, inr, true, false, Option, some, List,
  arith, get_elem?, length, Bool-cases, get_elem?_total,
}
use libsolcompat.Common.Int.{ℤ}
use libsolcompat.Qsort.{exceeds, partition_loop, lomuto_partition}
use libsolcompat.Qsort.Swap.{
  swap_elements_lem, Swapped-Rearranged, Rearranged, Rearranged-refl, Rearranged-trans, transpose,
}
use libsolcompat.Qsort.Order.{IsPreorder, greater_lem}

module _ {A C : Type 0} (compare_fn : A → A → C → ℤ) (context_arg : C) where
  -- The elements from `lo` on and before `mid` do not compare above `v`.
  abbrev Small : A → ℕ → ℕ → List A → Type 0
  Small v lo mid xs =
      (k : ℕ) (a : A)
      → lo ≤ k
      → k < mid
      → get_elem? xs k ≡ some a
      → exceeds compare_fn context_arg a v ≡ false

  -- The elements from `mid` on and before `hi` compare above `v`.
  abbrev Big : A → ℕ → ℕ → List A → Type 0
  Big v mid hi xs =
      (k : ℕ) (a : A)
      → mid ≤ k
      → k < hi
      → get_elem? xs k ≡ some a
      → exceeds compare_fn context_arg a v ≡ true

  -- The scan returns the place for the pivot `v`, which waits at `hi`.
  pub record Scanned (v : A) (lo hi : ℕ) (xs : List A) (result : Option (List A × ℕ)) : Type 0 where
    out : List A
    store_index : ℕ
    returns : result ≡ some (out, store_index)
    moved : Rearranged lo hi xs out
    from_lo : lo ≤ store_index
    to_hi : store_index ≤ hi
    small : Small v lo store_index out
    big : Big v store_index hi out
    pivot : get_elem? out hi ≡ some v

  module _ (v : A) where
    keep-Small :
        (xs ys : List A) (lo store scan : ℕ) (a : A)
        → store ≤ scan
        → Small v lo store xs
        → get_elem? xs scan ≡ some a
        → exceeds compare_fn context_arg a v ≡ false
        → ((m : ℕ) → get_elem? ys m ≡ get_elem? xs (transpose store scan m))
        → Small v lo (suc store) ys
    keep-Small xs ys lo store scan a s small ea le reads k b p q eb =
        ground (arith, reads k, small k b)

    keep-Big :
        (xs ys : List A) (store scan : ℕ)
        → store ≤ scan
        → Big v store scan xs
        → ((m : ℕ) → get_elem? ys m ≡ get_elem? xs (transpose store scan m))
        → Big v (suc store) (suc scan) ys
    keep-Big xs ys store scan s big reads k b p q eb = ground (arith, reads k, big k b, big store b)

    add-Big :
        (xs : List A) (store scan : ℕ) (a : A)
        → Big v store scan xs
        → get_elem? xs scan ≡ some a
        → exceeds compare_fn context_arg a v ≡ true
        → Big v store (suc scan) xs
    add-Big xs store scan a big ea gt k b p q eb = ground (arith, big k b)

    partition_loop_lem :
        (xs : List A) (lo hi store scan rounds : ℕ)
        → lo ≤ store
        → store ≤ scan
        → scan + rounds ≡ hi
        → hi < length xs
        → get_elem? xs hi ≡ some v
        → Small v lo store xs
        → Big v store scan xs
        → Scanned v lo hi xs (partition_loop compare_fn context_arg xs hi store scan rounds)
    unfolding partition_loop
    partition_loop_lem xs lo hi store scan zero p q e h ev small big = record {
      out = xs;
      store_index = store;
      returns = refl;
      moved = Rearranged-refl lo hi xs;
      from_lo = p;
      to_hi = omega arith;
      small = small;
      big = λ k a p' q'. big k a p' (omega arith);
      pivot = ev;
    }
    partition_loop_lem xs lo hi store scan (suc rounds) p q e h ev small big =
        let (a, ea) = get_elem?_total xs scan (omega arith) in
        let test = greater_lem compare_fn context_arg xs scan hi a v ea ev in
        elim (Bool-cases (exceeds compare_fn context_arg a v)) [
          | inl gt ↦
              rw (test, gt, add-one)
                (partition_loop_lem xs lo hi store (suc scan) rounds p (omega arith) (omega arith) h
                  ev small (add-Big xs store scan a big ea gt))
          | inr le ↦
              let s = swap_elements_lem xs store scan (omega arith) (omega arith) in
              let rest =
                partition_loop_lem s.out lo hi (suc store) (suc scan) rounds (omega arith)
                  (omega arith) (omega arith) (rw s.same_length h) (s.reads hi ∙ ground arith)
                  (keep-Small xs s.out lo store scan a q small ea le s.reads)
                  (keep-Big xs s.out store scan q big s.reads) in
              rw (test, le, s.returns, add-one, add-one)
                (record {
                  out = rest.out;
                  store_index = rest.store_index;
                  returns = rest.returns;
                  moved =
                      Rearranged-trans
                        (Swapped-Rearranged p (omega arith) (omega arith) (omega arith) s)
                        rest.moved;
                  from_lo = rest.from_lo;
                  to_hi = rest.to_hi;
                  small = rest.small;
                  big = rest.big;
                  pivot = rest.pivot;
                })
        ]

  -- The pivot ends where all before it are not above it, and it is not above any after it.
  pub record Partitioned (lo hi : ℕ) (xs : List A) (result : Option (List A × ℕ)) : Type 0 where
    pub out : List A
    pub pivot_index : ℕ
    pub pivot : A
    pub returns : result ≡ some (out, pivot_index)
    pub moved : Rearranged lo hi xs out
    pub from_lo : lo ≤ pivot_index
    pub to_hi : pivot_index ≤ hi
    pub at_pivot : get_elem? out pivot_index ≡ some pivot
    pub below :
        (k : ℕ) (a : A)
        → lo ≤ k
        → k < pivot_index
        → get_elem? out k ≡ some a
        → exceeds compare_fn context_arg a pivot ≡ false
    pub above :
        (k : ℕ) (a : A)
        → pivot_index < k
        → k ≤ hi
        → get_elem? out k ≡ some a
        → exceeds compare_fn context_arg pivot a ≡ false

  pub lomuto_partition_lem :
      (order : IsPreorder compare_fn context_arg) (xs : List A) (lo hi : ℕ)
      → lo ≤ hi
      → hi < length xs
      → Partitioned lo hi xs (lomuto_partition compare_fn context_arg xs lo hi)
  unfolding lomuto_partition
  lomuto_partition_lem order xs lo hi p h =
      let (v, ev) = get_elem?_total xs hi h in
      let c =
        partition_loop_lem v xs lo hi lo lo (hi - lo) (omega arith) (omega arith) (omega arith) h ev
          (λ k a p' q' e. absurd (omega arith)) (λ k a p' q' e. absurd (omega arith)) in
      let lt : hi < length c.out = rw c.moved.same_length h in
      let s = swap_elements_lem c.out c.store_index hi (omega (arith, lt, c.to_hi)) lt in
      rw (c.returns, s.returns)
        (record {
          out = s.out;
          pivot_index = c.store_index;
          pivot = v;
          returns = refl;
          moved = Rearranged-trans c.moved (Swapped-Rearranged c.from_lo c.to_hi p (omega arith) s);
          from_lo = c.from_lo;
          to_hi = c.to_hi;
          at_pivot = s.reads c.store_index ∙ ground (arith, c.pivot);
          below = λ k a p' q' e. ground (arith, s.reads k, c.small k a, c.to_hi);
          above = λ k a p' q' e.
              ground (arith, s.reads k, c.big k a, c.big c.store_index a, order.total a v);
        })
