-- ===== src/Qsort/Median.antt =====
-- The choice of the pivot: four exchanges at most, all within the range.
use libsolcompat.Common.{
  ℕ, ◌+◌, ◌-◌, ◌/◌, ◌≤◌, ◌<◌, ◌≡◌, refl, inl, inr, Option, some, List, arith, length, Bool-cases,
  get_elem?_total, ◌>>=◌,
}
use libsolcompat.Common.Int.{ℤ}
use libsolcompat.Qsort.{exceeds, swap_elements, order_elements, median_to_right}
use libsolcompat.Qsort.Swap.{
  swap_elements_lem, Swapped-Rearranged, Rearranged, Rearranged-refl, Rearranged-trans,
}
use libsolcompat.Qsort.Order.{greater_lem}

module _ {A C : Type 0} (compare_fn : A → A → C → ℤ) (context_arg : C) where
  -- A step that returns and moves elements of the range only.
  pub record Keeps (lo hi : ℕ) (xs : List A) (result : Option (List A)) : Type 0 where
    pub out : List A
    pub returns : result ≡ some out
    pub moved : Rearranged lo hi xs out

  swap-Keeps :
      (xs : List A) (lo hi i j : ℕ)
      → hi < length xs
      → lo ≤ i
      → i ≤ hi
      → lo ≤ j
      → j ≤ hi
      → Keeps lo hi xs (swap_elements xs i j)
  swap-Keeps xs lo hi i j h p q p' q' =
      let s = swap_elements_lem xs i j (omega arith) (omega arith) in
      record { out = s.out; returns = s.returns; moved = Swapped-Rearranged p q p' q' s }

  order-Keeps :
      (xs : List A) (lo hi i j : ℕ)
      → hi < length xs
      → lo ≤ i
      → i ≤ hi
      → lo ≤ j
      → j ≤ hi
      → Keeps lo hi xs (order_elements compare_fn context_arg xs i j)
  unfolding order_elements
  order-Keeps xs lo hi i j h p q p' q' =
      let (a, ea) = get_elem?_total xs i (omega arith) in
      let (b, eb) = get_elem?_total xs j (omega arith) in
      let test = greater_lem compare_fn context_arg xs i j a b ea eb in
      elim (Bool-cases (exceeds compare_fn context_arg a b)) [
        | inl gt ↦ rw (test, gt) (swap-Keeps xs lo hi i j h p q p' q')
        | inr le ↦
            rw (test, le) (record { out = xs; returns = refl; moved = Rearranged-refl lo hi xs })
      ]

  -- One step after another.
  Keeps-then :
      {lo hi : ℕ} {xs : List A} {result : Option (List A)} (f : List A → Option (List A))
      → (hi < length xs)
      → Keeps lo hi xs result
      → ((ys : List A) → hi < length ys → Keeps lo hi ys (f ys))
      → Keeps lo hi xs (result >>= f)
  Keeps-then f h k next =
      let n = next k.out (rw k.moved.same_length h) in
      rw k.returns
        (record { out = n.out; returns = n.returns; moved = Rearranged-trans k.moved n.moved })

  pub median_to_right_lem :
      (xs : List A) (lo hi : ℕ)
      → lo ≤ hi
      → hi < length xs
      → Keeps lo hi xs (median_to_right compare_fn context_arg xs lo hi)
  unfolding median_to_right
  median_to_right_lem xs lo hi p h =
      let mid = lo + (hi - lo) / 2 in
      let from_lo : lo ≤ mid = omega arith in
      let to_hi : mid ≤ hi = omega arith in
      Keeps-then _ h (order-Keeps xs lo hi lo mid h (omega arith) p from_lo to_hi) (λ b₁ h₁.
        Keeps-then _ h₁ (order-Keeps b₁ lo hi lo hi h₁ (omega arith) p p (omega arith)) (λ b₂ h₂.
          Keeps-then _ h₂ (order-Keeps b₂ lo hi mid hi h₂ from_lo to_hi p (omega arith))
            (λ b₃ h₃. swap-Keeps b₃ lo hi mid hi h₃ from_lo to_hi p (omega arith))))
