-- ===== src/Atomic/Replay.antt =====
-- Under the stripe locks each operation takes effect at once, when it writes: memory is what the
-- operations make of it one after the other, each on the value that it has read.
use libsolcompat.Common.{ℕ, ◌≡◌, refl, false, List, [], ◌∷◌, ◌++◌, if◌then◌else◌, arith, if-holds}
use libsolcompat.Atomic.{
  Operation, Phase, waiting, holding, has_read, has_written, returned, System, update, stripe_for,
  advance_from, advance, run,
}
use libsolcompat.Atomic.Exclusion.{IsExclusive, advance-IsExclusive}

-- Nobody has begun and every lock is free.
abbrev pub initial : (ℕ → ℕ) → System
initial memory = record { memory = memory; locked = λ k. false; phase = λ i. waiting }

pub initial-IsExclusive : (target memory : ℕ → ℕ) → IsExclusive target (initial memory)
initial-IsExclusive target memory = record {
  one = λ i j ca cb same. absurd (ground (arith, ca));
  held = λ i ca. absurd (ground (arith, ca));
  current = λ i old e. absurd (ground (arith, e));
}

module _ (target : ℕ → ℕ) (operation : ℕ → Operation) where
  -- The whole operation of thread `i` at once, which reads `old`.
  abbrev pub at_once : (ℕ → ℕ) → ℕ → ℕ → ℕ → ℕ
  at_once memory i old =
      if (operation i).writes old
      then update memory (target i) ((operation i).new_value old)
      else memory

  -- The thread whose operation takes effect in a step, with the value that it has read.
  abbrev pub effect : ℕ → Phase → List (ℕ × ℕ)
  effect i (has_read old) = (i, old) ∷ []
  effect i _ = []

  unfoldable pub effects : System → List ℕ → List (ℕ × ℕ)
  effects s [] = []
  effects s (i ∷ schedule) = effect i (s.phase i) ++ effects (advance target operation s i) schedule

  -- From the first memory to the second, the operations one after the other; each reads what its
  -- target holds then.
  abbrev pub IsSequential : (ℕ → ℕ) → List (ℕ × ℕ) → (ℕ → ℕ) → Type 0
  IsSequential memory [] final = memory ≡ final
  IsSequential memory (e ∷ es) final =
      (memory (target (e.0)) ≡ e.1)
      × IsSequential (at_once memory (e.0) (memory (target (e.0)))) es final

  step_lem :
      (s : System) (i : ℕ) (p : Phase) (es : List (ℕ × ℕ)) (final : ℕ → ℕ)
      → s.phase i ≡ p
      → IsExclusive target s
      → IsSequential (advance_from target operation s i p).memory es final
      → IsSequential s.memory (effect i p ++ es) final
  unfolding advance_from
  step_lem s i waiting es final e x r =
      if-holds (λ (t : System). IsSequential t.memory es final → IsSequential s.memory es final)
        (s.locked (stripe_for (target i))) (λ b q. q) (λ b q. q) r
  step_lem s i holding es final e x r = r
  step_lem s i (has_read old) es final e x r = (x.current i old e, rw (x.current i old e) r)
  step_lem s i (has_written old) es final e x r = r
  step_lem s i (returned v) es final e x r = r

  run_lem :
      (s : System) (schedule : List ℕ)
      → IsExclusive target s
      → IsSequential s.memory (effects s schedule) (run target operation s schedule).memory
  unfolding run effects advance
  run_lem s [] x = refl
  run_lem s (i ∷ schedule) x =
      step_lem s i (s.phase i) _ _ refl x (
        run_lem (advance target operation s i) schedule
          (advance-IsExclusive target operation s i x))

  -- For every schedule of threads that each do a read-modify-write under the stripe locks, from a
  -- state in which nobody has begun: the memory at the end is what the operations that have
  -- written make of it one after the other, in the order of their writes, and each has read what
  -- its target holds at its turn.
  pub run-IsSequential :
      (memory : ℕ → ℕ) (schedule : List ℕ)
      → IsSequential memory
          (effects (initial memory) schedule)
          (run target operation (initial memory) schedule).memory
  run-IsSequential memory schedule =
      run_lem (initial memory) schedule (initial-IsExclusive target memory)
