-- ===== src/Str/Search.antt =====
-- The searches: `memmem`, `memrchr` and `strchrnul`.
use native.Mathlib.Decide.{dec_lt}
use libsolcompat.Common.{
  ℕ, zero, suc, ◌+◌, ◌-◌, ◌%◌, ◌≤◌, ◌<◌, ◌≡◌, ◌≢◌, refl, ◌↔◌, inl, inr, Bool, true, false, Option,
  none, some, arith, Block, get_elem?, length, ltb, ◌==◌, get_elem?_total, Bool-cases,
}
use libsolcompat.Common.Libc.{memeq}
use libsolcompat.Str.{memrchr, memmem_loop, memmem}

-- The answer names the last byte before `n` that is `v`, or says that there is none.
abbrev pub LastAt : Block → ℕ → ℕ → Option ℕ → Type 0
LastAt s v n none = (k : ℕ) → k < n → get_elem? s k ≢ some v
LastAt s v n (some p) =
    (p < n) × (get_elem? s p ≡ some v) × ((k : ℕ) → p < k → k < n → get_elem? s k ≢ some v)

LastAt-suc :
    (s : Block) (v n : ℕ) (r : Option ℕ)
    → LastAt s v n r
    → get_elem? s n ≢ some v
    → LastAt s v (suc n) r
LastAt-suc s v n none h ne = λ k q e. elim (dec_lt k n) [
  | yes lt ↦ h k lt e
  | no ge ↦ let same : k ≡ n = omega arith in ne (ground arith)
]
LastAt-suc s v n (some p) h ne = (
  omega (arith, h.0),
  h.1,
  λ k q q' e. elim (dec_lt k n) [
    | yes lt ↦ h.2 k q lt e
    | no ge ↦ let same : k ≡ n = omega arith in ne (ground arith)
  ],
)

-- On a block of at least `n` bytes, `memrchr` returns the last of the first `n` bytes that is `c`,
-- and NULL exactly when there is none.
pub memrchr-LastAt :
    (s : Block) (c n : ℕ)
    → n ≤ length s
    → (r : Option ℕ) × (memrchr s c n ≡ some r) × LastAt s (c % 256) n r
unfolding memrchr
memrchr-LastAt s c zero h = (none, refl, λ k q. absurd (omega arith))
memrchr-LastAt s c (suc n) h =
    let (x, ex) = get_elem?_total s n (omega arith) in
    elim (Bool-cases (x == c % 256)) [
      | inl same ↦
          (some n, ground arith, (omega arith, ground arith, λ k q q'. absurd (omega arith)))
      | inr other ↦
          let (r, e, l) = memrchr-LastAt s c n (omega arith) in
          (r, ground (arith, e), LastAt-suc s (c % 256) n r l (λ p. ground arith))
    ]

-- `needle` stands in `haystack` at `i`.
abbrev pub Occurs : Block → ℕ → Block → ℕ → Type 0
Occurs haystack i needle needlelen =
    (k : ℕ) → k < needlelen → get_elem? haystack (i + k) ≡ get_elem? needle k

memeq_lem :
    (a b : Block) (n i j : ℕ)
    → i + n ≤ length a
    → j + n ≤ length b
    → (r : Bool) × (memeq a i b j n ≡ some r)
      × ((r ≡ true) ↔ ((k : ℕ) → k < n → get_elem? a (i + k) ≡ get_elem? b (j + k)))
unfolding memeq
memeq_lem a b zero i j h h' = (true, refl, ((λ e k q. absurd (omega arith)), λ e. refl))
memeq_lem a b (suc n) i j h h' =
    let (x, ex) = get_elem?_total a i (omega arith) in
    let (y, ey) = get_elem?_total b j (omega arith) in
    elim (Bool-cases (x == y)) [
      | inl same ↦
          let (r, e, iff) = memeq_lem a b n (i + 1) (j + 1) (omega arith) (omega arith) in
          (
            r,
            ground (arith, e),
            (
              (λ t. elim [
                | zero ↦ λ q. ground arith
                | suc k ↦ λ q. ground (arith, iff.0 t k (omega arith))
              ]),
              λ all. iff.1 (λ k q. ground (arith, all (suc k) (omega arith))),
            ),
          )
      | inr other ↦ (
        false,
        ground arith,
        ((λ t. absurd (ground arith)), λ all. ground (arith, all 0 (omega arith))),
      )
    ]

-- The answer names the first place from `from` on, among those up to `last`, where the needle
-- stands, or says that there is none.
abbrev pub FirstAt : Block → Block → ℕ → ℕ → ℕ → Option ℕ → Type 0
FirstAt h n len from last none = (i : ℕ) → from ≤ i → i ≤ last → ¬ Occurs h i n len
FirstAt h n len from last (some p) =
    (from ≤ p) × (p ≤ last) × Occurs h p n len × ((i : ℕ) → from ≤ i → i < p → ¬ Occurs h i n len)

FirstAt-pred :
    (h n : Block) (len from last : ℕ) (r : Option ℕ)
    → ¬ Occurs h from n len
    → FirstAt h n len (from + 1) last r
    → FirstAt h n len from last r
FirstAt-pred h n len from last none ne f = λ i p q o. elim (dec_lt from i) [
  | yes lt ↦ f i (omega arith) q o
  | no ge ↦ let same : i ≡ from = omega arith in ne (λ k k'. ground (arith, o k k'))
]
FirstAt-pred h n len from last (some r) ne (a, b, c, d) = (
  omega arith,
  b,
  c,
  λ i p q o. elim (dec_lt from i) [
    | yes lt ↦ d i (omega arith) q o
    | no ge ↦ let same : i ≡ from = omega arith in ne (λ k k'. ground (arith, o k k'))
  ],
)

memmem_loop_lem :
    (h n : Block) (len rounds i last : ℕ)
    → 0 < len
    → len ≤ length n
    → i + rounds ≡ last + 1
    → last + len ≤ length h
    → (r : Option ℕ) × (memmem_loop h n len i rounds ≡ some r) × FirstAt h n len i last r
unfolding memmem_loop
memmem_loop_lem h n len zero i last p q e l = (none, refl, λ k a b. absurd (omega arith))
memmem_loop_lem h n len (suc rounds) i last p q e l =
    let (x, ex) = get_elem?_total h i (omega arith) in
    let (y, ey) = get_elem?_total n 0 (omega arith) in
    let (same, es, iff) = memeq_lem h n len i 0 (omega arith) (omega arith) in
    let (r, er, f) = memmem_loop_lem h n len rounds (i + 1) last p q (omega arith) l in
    elim (Bool-cases (x == y)) [
      | inr other ↦
          (r, ground (arith, er), FirstAt-pred h n len i last r (λ o. ground (arith, o 0 p)) f)
      | inl first ↦ elim (Bool-cases same) [
        | inl found ↦ (
          some i,
          ground (arith, es),
          (
            omega arith,
            omega arith,
            (λ k k'. ground (arith, iff.0 found k k')),
            λ k a b. absurd (omega arith),
          ),
        )
        | inr differs ↦ (
          r,
          ground (arith, es, er),
          FirstAt-pred h n len i last r
              (λ o. ground (arith, iff.1 (λ k k'. ground (arith, o k k')))) f,
        )
      ]
    ]

-- On blocks of at least the given lengths, `memmem` returns the first index at which the needle
-- stands within the haystack, and NULL exactly when there is none.
pub memmem-FirstAt :
    (haystack needle : Block) (haystacklen needlelen : ℕ)
    → haystacklen ≤ length haystack
    → needlelen ≤ length needle
    → (r : Option ℕ) × (memmem haystack haystacklen needle needlelen ≡ some r)
      × (needlelen ≤ haystacklen → FirstAt haystack needle needlelen 0 (haystacklen - needlelen) r)
      × (haystacklen < needlelen → r ≡ none)
unfolding memmem
memmem-FirstAt h n hl nl p q = elim (Bool-cases (nl == 0)) [
  | inl empty ↦ (
    some 0,
    ground arith,
    (λ le.
        (omega arith, omega arith, (λ k k'. absurd (ground arith)), λ i a b. absurd (omega arith))),
    λ lt. absurd (ground arith),
  )
  | inr nonempty ↦ elim (Bool-cases (ltb hl nl)) [
    | inl long ↦ (none, ground arith, (λ le. absurd (ground arith)), λ lt. refl)
    | inr fits ↦
        let (r, e, f) =
          memmem_loop_lem h n nl (hl - nl + 1) 0 (hl - nl) (ground arith) q (omega arith)
            (ground arith) in
        (r, ground (arith, e), (λ le. f), λ lt. absurd (ground arith))
  ]
]
