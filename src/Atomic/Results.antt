-- ===== src/Atomic/Results.antt =====
-- What an operation returns belongs to its effect.
use mathlib.Core.Path.{subst}
use libsolcompat.Common.{
  ℕ, ◌≡◌, refl, sym, ap, ◌∙◌, ◌⊎◌, inl, inr, false, List, [], ◌∷◌, ◌++◌, ◌==◌, arith, Bool-cases,
}
use libsolcompat.Atomic.{
  Answer, Operation, Phase, waiting, holding, has_read, has_written, returned, System, advance_from,
  advance, run,
}
use libsolcompat.Atomic.Replay.{initial, effect, effects}

-- Thread `i` has had its effect, with the value `old` read.
abbrev pub Occurs : ℕ → ℕ → List (ℕ × ℕ) → Type 0
Occurs i old [] = ⊥
Occurs i old (e ∷ es) = ((e.0 ≡ i) × (e.1 ≡ old)) ⊎ Occurs i old es

module _ (target : ℕ → ℕ) (operation : ℕ → Operation) where
  -- Why thread `i` returns `r`: it has returned, it has written, or its effect is still to come.
  abbrev Origin : Phase → ℕ → Answer → List (ℕ × ℕ) → Type 0
  Origin p i r es =
      (p ≡ returned r)
      ⊎ ((old : ℕ) × (p ≡ has_written old) × (r ≡ (operation i).result old))
      ⊎ ((old : ℕ) × Occurs i old es × (r ≡ (operation i).result old))

  other_thread :
      (s : System) (j i : ℕ) (p : Phase)
      → (i == j) ≡ false
      → (advance_from target operation s j p).phase i ≡ s.phase i
  unfolding advance_from
  other_thread s j i waiting e = ground (arith, e)
  other_thread s j i holding e = ground (arith, e)
  other_thread s j i (has_read old) e = ground (arith, e)
  other_thread s j i (has_written old) e = ground (arith, e)
  other_thread s j i (returned r) e = refl

  own_step :
      (s : System) (i : ℕ) (r : Answer) (p : Phase) (es : List (ℕ × ℕ))
      → s.phase i ≡ p
      → Origin ((advance_from target operation s i p).phase i) i r es
      → Origin p i r (effect target operation i p ++ es)
  unfolding advance_from
  own_step s i r waiting es e o = elim o [
    | inl q ↦ absurd (ground (arith, q, e))
    | inr o' ↦ elim o' [ inl w ↦ absurd (ground (arith, w.1, e)) | inr w ↦ inr (inr w) ]
  ]
  own_step s i r holding es e o = elim o [
    | inl q ↦ absurd (ground (arith, q, e))
    | inr o' ↦ elim o' [ inl w ↦ absurd (ground (arith, w.1, e)) | inr w ↦ inr (inr w) ]
  ]
  own_step s i r (has_read old) es e o = elim o [
    | inl q ↦ absurd (ground (arith, q))
    | inr o' ↦ elim o' [
      | inl w ↦
          let same : old ≡ w.0 = ground (arith, w.1) in
          inr (inr (old, inl (refl, refl), w.2 ∙ ap (operation i).result (sym same)))
      | inr w ↦ inr (inr (w.0, inr (w.1), w.2))
    ]
  ]
  own_step s i r (has_written old) es e o = elim o [
    | inl q ↦ inr (inl (old, refl, ground (arith, q)))
    | inr o' ↦ elim o' [ inl w ↦ absurd (ground (arith, w.1)) | inr w ↦ inr (inr w) ]
  ]
  own_step s i r (returned v) es e o = rw (sym e) o

  more_effects :
      (i old j : ℕ) (p : Phase) (es : List (ℕ × ℕ))
      → Occurs i old es
      → Occurs i old (effect target operation j p ++ es)
  more_effects i old j waiting es o = o
  more_effects i old j holding es o = o
  more_effects i old j (has_read v) es o = inr o
  more_effects i old j (has_written v) es o = o
  more_effects i old j (returned v) es o = o

  run-Origin :
      (s : System) (schedule : List ℕ) (i : ℕ) (r : Answer)
      → (run target operation s schedule).phase i ≡ returned r
      → Origin (s.phase i) i r (effects target operation s schedule)
  unfolding run effects advance
  run-Origin s [] i r e = inl e
  run-Origin s (j ∷ schedule) i r e =
      let o = run-Origin (advance target operation s j) schedule i r e in
      let later = effects target operation (advance target operation s j) schedule in
      elim (Bool-cases (i == j)) [
        | inl here ↦
            let p : i ≡ j = ground arith in
            let o' =
              subst (λ (k : ℕ). Origin ((advance target operation s j).phase k) k r later) p o in
            subst
              (λ (k : ℕ). Origin (s.phase k) k r (effect target operation j (s.phase j) ++ later))
              (sym p) (own_step s j r (s.phase j) later refl o')
        | inr there ↦
            let q = other_thread s j i (s.phase j) there in
            let o' = subst (λ (f : Phase). Origin f i r later) q o in
            elim o' [
              | inl a ↦ inl a
              | inr b ↦ elim b [
                | inl c ↦ inr (inl c)
                | inr c ↦ inr (inr (c.0, more_effects i (c.0) j (s.phase j) later (c.1), c.2))
              ]
            ]
      ]

  -- For every schedule from a state in which nobody has begun: a thread that has returned has had
  -- its effect, and it returns what its operation returns for the value read then.
  pub run-Occurs :
      (memory : ℕ → ℕ) (schedule : List ℕ) (i : ℕ) (r : Answer)
      → (run target operation (initial memory) schedule).phase i ≡ returned r
      → (old : ℕ) × Occurs i old (effects target operation (initial memory) schedule)
        × (r ≡ (operation i).result old)
  run-Occurs memory schedule i r e = elim (run-Origin (initial memory) schedule i r e) [
    | inl a ↦ absurd (ground (arith, a))
    | inr b ↦ elim b [ inl c ↦ absurd (ground (arith, c.1)) | inr c ↦ c ]
  ]
