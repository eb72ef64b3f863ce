-- ===== src/Qsort/Swap.antt =====
-- An exchange of two elements, read index by index, and what every step of the sort keeps.
use mathlib.Core.List.{Perm}
use mathlib.Core.List.Perm
use native.Mathlib.Decide.{dec_lt}
use libsolcompat.Common.{
  ℕ, ◌≤◌, ◌<◌, ◌≡◌, refl, ◌∙◌, ◌⊎◌, inl, inr, Option, some, List, arith, get_elem?, set, length,
  ◌==◌, if◌then◌else◌, length-set, get_elem?-set_self, get_elem?-set_ne, get_elem?_total,
  get_elem?_bound, set-perm,
}
use libsolcompat.Qsort.{swap_elements}

-- Where the element at an index comes from.
abbrev pub transpose : ℕ → ℕ → ℕ → ℕ
transpose i j k = if k == j then i else if k == i then j else k

module _ {A : Type 0} where
  -- `ys` holds the elements of `xs`, and only those within the bounds have moved, among themselves.
  pub record Rearranged (lo hi : ℕ) (xs ys : List A) : Type 0 where
    pub perm : Perm ys xs
    pub same_length : length ys ≡ length xs
    pub outside : (k : ℕ) → (k < lo) ⊎ (hi < k) → get_elem? ys k ≡ get_elem? xs k
    pub inside :
        (k : ℕ)
        → lo ≤ k
        → k ≤ hi
        → (m : ℕ) × (lo ≤ m) × (m ≤ hi) × (get_elem? ys k ≡ get_elem? xs m)

  pub Rearranged-refl : (lo hi : ℕ) (xs : List A) → Rearranged lo hi xs xs
  Rearranged-refl lo hi xs = record {
    perm = Perm.refl xs;
    same_length = refl;
    outside = λ k h. refl;
    inside = λ k p q. (k, p, q, refl);
  }

  pub Rearranged-trans :
      {lo hi : ℕ} {xs ys zs : List A}
      → Rearranged lo hi xs ys
      → Rearranged lo hi ys zs
      → Rearranged lo hi xs zs
  Rearranged-trans r s = record {
    perm = Perm.trans s.perm r.perm;
    same_length = s.same_length ∙ r.same_length;
    outside = λ k h. s.outside k h ∙ r.outside k h;
    inside = λ k p q.
        let (m, p', q', e) = s.inside k p q in
        let (n, p'', q'', e') = r.inside m p' q' in (n, p'', q'', e ∙ e');
  }

  -- An index of the whole, from the part or from outside it.
  widen_inside :
      {lo hi : ℕ} (lo' hi' : ℕ) {xs ys : List A}
      → lo' ≤ lo
      → hi ≤ hi'
      → Rearranged lo hi xs ys
      → (k : ℕ) → lo' ≤ k
      → k ≤ hi'
      → (m : ℕ) × (lo' ≤ m) × (m ≤ hi') × (get_elem? ys k ≡ get_elem? xs m)
  widen_inside {lo} {hi} lo' hi' p q r k a b = elim (dec_lt k lo) [
    | yes below ↦ (k, a, b, r.outside k (inl below))
    | no in_lo ↦ elim (dec_lt hi k) [
      | yes above ↦ (k, a, b, r.outside k (inr above))
      | no in_hi ↦
          let (m, c, d, e) = r.inside k (omega arith) (omega arith) in
          (m, omega arith, omega arith, e)
    ]
  ]

  -- A rearrangement of a part is one of the whole.
  pub Rearranged-widen :
      {lo hi : ℕ} (lo' hi' : ℕ) {xs ys : List A}
      → lo' ≤ lo
      → hi ≤ hi'
      → Rearranged lo hi xs ys
      → Rearranged lo' hi' xs ys
  Rearranged-widen lo' hi' p q r = record {
    perm = r.perm;
    same_length = r.same_length;
    outside = λ k h. r.outside k (omega arith);
    inside = widen_inside lo' hi' p q r;
  }

  swap_read :
      (xs : List A) (i j : ℕ) (x y : A)
      → get_elem? xs i ≡ some x
      → get_elem? xs j ≡ some y
      → (k : ℕ) → get_elem? (set (set xs i y) j x) k ≡ get_elem? xs (transpose i j k)
  swap_read xs i j x y ex ey k = ground (
    arith,
    get_elem?-set_self (set xs i y) j x,
    get_elem?-set_ne (set xs i y) j k x,
    get_elem?-set_self xs i y,
    get_elem?-set_ne xs i k y,
    length-set xs i y,
    get_elem?_bound xs i x ex,
    get_elem?_bound xs j y ey,
  )

  swap-perm :
      (xs : List A) (i j : ℕ) (x y : A)
      → get_elem? xs i ≡ some x
      → get_elem? xs j ≡ some y
      → Perm (set (set xs i y) j x) xs
  swap-perm xs i j x y ex ey =
      Perm.cons_inv (Perm.trans (set-perm (set xs i y) j y x ey_at) (set-perm xs i x y ex))
    where
      ey_at : get_elem? (set xs i y) j ≡ some y
      ey_at =
          ground
            (arith, get_elem?-set_self xs i y, get_elem?-set_ne xs i j y, get_elem?_bound xs i x ex)

  -- What an exchange within the array returns.
  pub record Swapped (i j : ℕ) (xs : List A) (result : Option (List A)) : Type 0 where
    pub out : List A
    pub returns : result ≡ some out
    pub reads : (k : ℕ) → get_elem? out k ≡ get_elem? xs (transpose i j k)
    pub perm : Perm out xs
    pub same_length : length out ≡ length xs

  pub swap_elements_lem :
      (xs : List A) (i j : ℕ)
      → i < length xs
      → j < length xs
      → Swapped i j xs (swap_elements xs i j)
  unfolding swap_elements
  swap_elements_lem xs i j hi hj =
      let (x, ex) = get_elem?_total xs i hi in
      let (y, ey) = get_elem?_total xs j hj in
      record {
        out = set (set xs i y) j x;
        returns = rw (ex, ey);
        reads = swap_read xs i j x y ex ey;
        perm = swap-perm xs i j x y ex ey;
        same_length = length-set (set xs i y) j x ∙ length-set xs i y;
      }

  pub Swapped-Rearranged :
      {lo hi i j : ℕ} {xs : List A} {result : Option (List A)}
      → lo ≤ i
      → i ≤ hi
      → lo ≤ j
      → j ≤ hi
      → (s : Swapped i j xs result) → Rearranged lo hi xs s.out
  Swapped-Rearranged {i = i} {j = j} a b c d s = record {
    perm = s.perm;
    same_length = s.same_length;
    outside = λ k h. s.reads k ∙ ground arith;
    inside = λ k p q. (transpose i j k, ground arith, ground arith, s.reads k);
  }
