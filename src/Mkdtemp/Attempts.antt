-- ===== src/Mkdtemp/Attempts.antt =====
-- src/stdlib.c: `mkdtemp` goes on after collisions and ends with the first other answer.
use mathlib.Core.Path.{subst}
use libsolcompat.Common.{
  ℕ, zero, suc, ◌+◌, ◌-◌, ◌≤◌, ◌<◌, ◌≡◌, refl, sym, ap, true, List, [], ◌∷◌, ◌++◌, length, take,
  drop, ltb, ◌%◌, All, ◌⊎◌, inl, inr, Bool-cases, Option-cases, Option, some, length-append,
  length-take, arith,
}
use libsolcompat.Mkdtemp.{
  entropy, suffix_entropy, mix_bytes, Answer, tmpnam_alphabet, created, exists, refused,
  fill_suffix, is_template_suffix, Made, failed, exhausted, directory, mkdtemp_loop, mkdtemp,
}

abbrev pub IsAlnum : ℕ → Type 0
IsAlnum c = ((b'A' ≤ c) × (c ≤ b'Z')) ⊎ ((b'a' ≤ c) × (c ≤ b'z')) ⊎ ((b'0' ≤ c) × (c ≤ b'9'))

tmpnam_alphabet-IsAlnum : (i : ℕ) → i < 62 → IsAlnum (tmpnam_alphabet i)
unfolding tmpnam_alphabet
tmpnam_alphabet-IsAlnum i h = elim (Bool-cases (ltb i 26)) [
  | inl upper ↦ inl (ground (arith, upper))
  | inr above ↦ elim (Bool-cases (ltb i 52)) [
    | inl lower ↦ inr (inl (ground (arith, above, lower)))
    | inr digit ↦ inr (inr (ground (arith, above, digit)))
  ]
]

length-fill_suffix : (entropy : List ℕ) → length (fill_suffix entropy) ≡ length entropy
unfolding fill_suffix
length-fill_suffix [] = refl
length-fill_suffix (b ∷ entropy) = ap suc (length-fill_suffix entropy)

fill_suffix-IsAlnum : (entropy : List ℕ) → All IsAlnum (fill_suffix entropy)
unfolding fill_suffix
fill_suffix-IsAlnum [] = tt
fill_suffix-IsAlnum (b ∷ entropy) =
    (tmpnam_alphabet-IsAlnum (b % 62) (omega arith), fill_suffix-IsAlnum entropy)

module _ (getentropy : ℕ → Option (List ℕ)) (time : ℕ → ℕ) (pid : ℕ)
    (mkdir : ℕ → List ℕ → Answer) where
  abbrev pub bytes : ℕ → List ℕ
  bytes = entropy getentropy time pid mkdir

  length-entropy :
      ((k : ℕ) (b : List ℕ) → getentropy k ≡ some b → length b ≡ 6) → (k : ℕ) → length (bytes k) ≡ 6
  unfolding suffix_entropy mix_bytes
  length-entropy gives k = elim (Option-cases (getentropy k)) [
    | inl e ↦ rw e (omega arith)
    | inr (b, e) ↦ rw e (gives k b e)
  ]

  abbrev pub candidate : List ℕ → ℕ → List ℕ
  candidate stem attempt = stem ++ fill_suffix (bytes attempt)

  abbrev pub answer : List ℕ → ℕ → Answer
  answer stem attempt = mkdir attempt (candidate stem attempt)

  -- What the first answer that is no collision returns.
  abbrev pub ends_with : List ℕ → Answer → Made
  ends_with path created = directory path
  ends_with path exists = exhausted
  ends_with path refused = failed

  -- All attempts below `last` collide.
  abbrev pub Collide : List ℕ → ℕ → ℕ → Type 0
  Collide stem start last = (k : ℕ) → start ≤ k → k < last → answer stem k ≡ exists

  loop_first :
      (stem : List ℕ) (rounds start : ℕ) (a : Answer)
      → answer stem start ≡ a
      → (a ≡ exists → 0 ≡ rounds)
      → mkdtemp_loop getentropy time pid mkdir stem start (suc rounds)
        ≡ ends_with (candidate stem start) a
  unfolding mkdtemp_loop
  loop_first stem rounds start created e full = ground (arith, e)
  loop_first stem rounds start refused e full = ground (arith, e)
  loop_first stem zero start exists e full = ground (arith, e)
  loop_first stem (suc rounds) start exists e full = absurd (omega (arith, full refl))

  loop_ends :
      (stem : List ℕ) (d rounds start last : ℕ) (a : Answer)
      → start + d ≡ last
      → d < rounds
      → Collide stem start last
      → answer stem last ≡ a
      → (a ≡ exists → suc d ≡ rounds)
      → mkdtemp_loop getentropy time pid mkdir stem start rounds ≡ ends_with (candidate stem last) a
  unfolding mkdtemp_loop
  loop_ends stem d zero start last a s h before e full = absurd (omega arith)
  loop_ends stem zero (suc rounds) start last a s h before e full =
      let p : last ≡ start = omega arith in
      let e' = subst (λ (k : ℕ). answer stem k ≡ a) p e in
      subst
        (λ (k : ℕ).
          mkdtemp_loop getentropy time pid mkdir stem start (suc rounds)
          ≡ ends_with (candidate stem k) a)
        (sym p) (loop_first stem rounds start a e' (λ x. omega (arith, full x)))
  loop_ends stem (suc d) (suc rounds) start last a s h before e full =
      let here = before start (omega arith) (omega arith) in
      let rest =
        loop_ends stem d rounds (suc start) last a (omega arith) (omega arith)
          (λ k p q. before k (omega arith) q) e (λ x. omega (arith, full x)) in
      ground (arith, here, rest)

  -- A template of at least six bytes that ends in six times `X`: after collisions only, the first
  -- other answer of `mkdir`, within 1000 attempts, decides. The path of that attempt is returned
  -- where it was created, and NULL where `mkdir` failed for another reason or all attempts collide.
  -- The path is as long as the template, and what replaces the six bytes are letters and digits.
  pub mkdtemp-ends_with :
      (tmpl : List ℕ) (last : ℕ) (a : Answer)
      → 6 ≤ length tmpl
      → is_template_suffix (drop (length tmpl - 6) tmpl) ≡ true
      → ((k : ℕ) (b : List ℕ) → getentropy k ≡ some b → length b ≡ 6)
      → last < 1000
      → Collide (take (length tmpl - 6) tmpl) 0 last
      → answer (take (length tmpl - 6) tmpl) last ≡ a
      → (a ≡ exists → last ≡ 999)
      → (mkdtemp getentropy time pid mkdir tmpl
          ≡ ends_with (candidate (take (length tmpl - 6) tmpl) last) a)
        × (length (candidate (take (length tmpl - 6) tmpl) last) ≡ length tmpl)
        × All IsAlnum (fill_suffix (bytes last))
  unfolding mkdtemp
  mkdtemp-ends_with tmpl last a six suffix gives bound before e full =
      let stem = take (length tmpl - 6) tmpl in
      let loop =
        loop_ends stem last 1000 0 last a (omega arith) bound before e
          (λ x. omega (arith, full x)) in
      (
        ground (arith, suffix, loop),
        omega (
          arith,
          length-append {0} stem (fill_suffix (bytes last)),
          length-take (length tmpl - 6) tmpl,
          length-fill_suffix (bytes last),
          length-entropy gives last,
        ),
        fill_suffix-IsAlnum (bytes last),
      )
