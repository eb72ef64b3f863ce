-- ===== src/Atomic/Exclusion.antt =====
-- The stripe locks exclude: of the threads whose targets share a stripe, one at most is between
-- its lock and its unlock.
use libsolcompat.Common.{
  ℕ, ◌≡◌, refl, Bool, true, false, List, [], ◌∷◌, arith, Bool-cases, inl, inr,
}
use libsolcompat.Atomic.{
  Operation, Phase, waiting, holding, has_read, has_written, returned, System, stripe_for,
  advance_from, advance, run,
}

abbrev pub is_critical : Phase → Bool
is_critical waiting = false
is_critical holding = true
is_critical (has_read old) = true
is_critical (has_written old) = true
is_critical (returned r) = false

-- One thread at most is in the critical section of a stripe, it holds the lock, and the value that
-- it has read is still in memory.
pub record IsExclusive (target : ℕ → ℕ) (s : System) : Type 0 where
  pub one :
      (i j : ℕ)
      → is_critical (s.phase i) ≡ true
      → is_critical (s.phase j) ≡ true
      → stripe_for (target i) ≡ stripe_for (target j)
      → i ≡ j
  pub held : (i : ℕ) → is_critical (s.phase i) ≡ true → s.locked (stripe_for (target i)) ≡ true
  pub current : (i old : ℕ) → s.phase i ≡ has_read old → s.memory (target i) ≡ old

module _ (target : ℕ → ℕ) (operation : ℕ → Operation) where
  advance_from-IsExclusive :
      (s : System) (i : ℕ) (p : Phase)
      → s.phase i ≡ p
      → IsExclusive target s
      → IsExclusive target (advance_from target operation s i p)
  unfolding advance_from
  advance_from-IsExclusive s i waiting e x = elim (Bool-cases (s.locked (stripe_for (target i)))) [
    | inl busy ↦ rw busy x
    | inr free ↦ rw free (record {
      one = λ a b ca cb same. ground (arith, x.one a b, x.held a, x.held b, free, same);
      held = λ a ca. ground (arith, x.held a);
      current = λ a old ea. ground (arith, x.current a old);
    })
  ]
  advance_from-IsExclusive s i holding e x = record {
    one = λ a b ca cb same. ground (arith, x.one a b, e, same);
    held = λ a ca. ground (arith, x.held a, e);
    current = λ a old ea. ground (arith, x.current a old);
  }
  advance_from-IsExclusive s i (has_read old) e x = record {
    one = λ a b ca cb same. ground (arith, x.one a b, e, same);
    held = λ a ca. ground (arith, x.held a, e);
    current = λ a old' ea. ground (arith, x.current a old', x.one a i, e);
  }
  advance_from-IsExclusive s i (has_written old) e x = record {
    one = λ a b ca cb same. ground (arith, x.one a b, same);
    held = λ a ca. ground (arith, x.held a, x.one a i, e);
    current = λ a old' ea. ground (arith, x.current a old');
  }
  advance_from-IsExclusive s i (returned r) e x = x

  pub advance-IsExclusive :
      (s : System) (i : ℕ)
      → IsExclusive target s
      → IsExclusive target (advance target operation s i)
  unfolding advance
  advance-IsExclusive s i x = advance_from-IsExclusive s i (s.phase i) refl x

  -- Exclusion is kept along every schedule.
  pub run-IsExclusive :
      (s : System) (schedule : List ℕ)
      → IsExclusive target s
      → IsExclusive target (run target operation s schedule)
  unfolding run
  run-IsExclusive s [] x = x
  run-IsExclusive s (i ∷ schedule) x =
      run-IsExclusive (advance target operation s i) schedule (advance-IsExclusive s i x)
