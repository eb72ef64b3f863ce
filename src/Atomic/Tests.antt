-- ===== src/Atomic/Tests.antt =====
-- Concrete interleavings of atomic operations.
use libsolcompat.Common.{ℕ, ◌+◌, ◌≡◌, refl, none, some, List, [], ◌∷◌, ◌==◌, if◌then◌else◌}
use libsolcompat.Atomic.{
  Operation, returned, compare_and_swap, compare_exchange, fetch_op, stripe_for, advance_from,
  advance, run,
}
use libsolcompat.Atomic.Exclusion.{IsExclusive, run-IsExclusive}
use libsolcompat.Atomic.Results.{Occurs, run-Occurs}
use libsolcompat.Atomic.Replay.{
  initial, initial-IsExclusive, effects, IsSequential, run-IsSequential,
}

-- Two threads on the word at 64: one adds 5, the other swaps 7 for 9.
abbrev target : ℕ → ℕ
target i = 64

abbrev operation : ℕ → Operation
operation i = if i == 0 then fetch_op 32 (λ old val. old + val) 5 else compare_and_swap 7 9

abbrev memory : ℕ → ℕ
memory a = 2

-- Thread 1 spins while thread 0 is inside, and then sees 7.
abbrev schedule : List ℕ
schedule = 0 ∷ 1 ∷ 0 ∷ 1 ∷ 0 ∷ 1 ∷ 0 ∷ 1 ∷ 1 ∷ 1 ∷ 1 ∷ []

swapped : (run target operation (initial memory) schedule).memory 64 ≡ 9
unfolding run advance advance_from stripe_for
swapped = refl

run-IsExclusive_example : IsExclusive target (run target operation (initial memory) schedule)
run-IsExclusive_example =
    run-IsExclusive target operation (initial memory) schedule (initial-IsExclusive target memory)

run-IsSequential_example :
    IsSequential target operation memory
      (effects target operation (initial memory) schedule)
      (run target operation (initial memory) schedule).memory
run-IsSequential_example = run-IsSequential target operation memory schedule

first_returned : (run target operation (initial memory) schedule).phase 0 ≡ returned (2, none)
unfolding run advance advance_from stripe_for
first_returned = refl

-- A compare-exchange that fails stores the value that it has read in `*expected`.
exchange_fails : (compare_exchange 7 9).result 2 ≡ (0, some 2)
exchange_fails = refl

run-Occurs_example :
    (old : ℕ) × Occurs 0 old (effects target operation (initial memory) schedule)
    × ((2, none) ≡ (operation 0).result old)
run-Occurs_example = run-Occurs target operation memory schedule 0 (2, none) first_returned
