-- ===== src/Rwlock/Limit.antt =====
-- src/process.c: the wait for a lock ends.
use mathlib.Core.Path.{subst}
use libsolcompat.Common.{
  ◌==◌, ℕ, zero, suc, ◌+◌, ◌≤◌, ◌<◌, ◌≡◌, refl, ◌∙◌, sym, ap, true, false, inl, inr, Option, none,
  some, arith, Bool-cases,
}
use libsolcompat.Rwlock.{
  Timespec, Tried, busy, answered, Outcome, returned, clock_failed, timed_out, is_late, after_try,
  timed_loop, rwlock_timed_common,
}

abbrev time_or : Timespec → Option Timespec → Timespec
time_or now none = now
time_or now (some t) = t

some_time : {a b : Timespec} → some a ≡ some b → a ≡ b
some_time {a} {b} e = ap (time_or a) e

true_is_false : true ≡ false → ⊥
true_is_false e = ground (arith, e)

module _ (try_lock : ℕ → Tried) (clock : ℕ → Option Timespec) (limit : Timespec) where
  -- Attempt `i` goes on: the lock is busy and the time is not up.
  abbrev pub IsWaiting : ℕ → Type 0
  IsWaiting i =
      (try_lock i ≡ busy) × (now : Timespec) × (clock i ≡ some now) × (is_late now limit ≡ false)

  -- What attempt `j` decides: the lock's own answer, or with a busy lock a failing clock or a time
  -- that is up.
  pub data Decides (j : ℕ) (o : Outcome) : Type 0 where
    by_lock : (rv : ℕ) → try_lock j ≡ answered rv → o ≡ returned rv → Decides j o
    by_failure : try_lock j ≡ busy → clock j ≡ none → o ≡ clock_failed → Decides j o
    by_time :
        (now : Timespec)
        → try_lock j ≡ busy
        → clock j ≡ some now
        → is_late now limit ≡ true
        → o ≡ timed_out
        → Decides j o

  abbrev pub IsDecided : ℕ → ℕ → Option Outcome → Type 0
  IsDecided i k r =
      (j : ℕ) × (o : Outcome) × (i ≤ j)
      × (j ≤ k)
      × (r ≡ some o)
      × Decides j o
      × ((a : ℕ) → i ≤ a → a < j → IsWaiting a)

  later : (i k : ℕ) (r : Option Outcome) → IsWaiting i → IsDecided (suc i) k r → IsDecided i k r
  later i k r waiting (j, o, b, b', e, d, before) = (
    j,
    o,
    omega (arith, b),
    b',
    e,
    d,
    λ a p q. elim (Bool-cases (a == i)) [
      | inl here ↦ let at : a ≡ i = ground arith in subst IsWaiting (sym at) waiting
      | inr past ↦ before a (ground arith) q
    ],
  )

  step :
      (t : Tried) (c : Option Timespec) (i k : ℕ) (last : Timespec) (again : Option Outcome)
      → try_lock i ≡ t
      → clock i ≡ c
      → i ≤ k
      → clock k ≡ some last
      → is_late last limit ≡ true
      → (i < k → IsDecided (suc i) k again)
      → IsDecided i k (after_try t c limit again)
  step (answered rv) c i k last again t_is c_is b at late ih =
      (i, returned rv, omega arith, b, refl, by_lock rv t_is refl, λ a p q. absurd (omega arith))
  step busy none i k last again t_is c_is b at late ih = (
    i,
    clock_failed,
    omega arith,
    b,
    refl,
    by_failure t_is c_is refl,
    λ a p q. absurd (omega arith),
  )
  step busy (some now) i k last again t_is c_is b at late ih =
      elim (Bool-cases (is_late now limit)) [
        | inl up ↦ rw up (
          i,
          timed_out,
          omega arith,
          b,
          refl,
          by_time now t_is c_is up refl,
          λ a p q. absurd (omega arith),
        )
        | inr early ↦ elim (Bool-cases (i == k)) [
          | inl final ↦
              let same : i ≡ k = ground arith in
              let reading : now ≡ last = some_time (sym c_is ∙ ap clock same ∙ at) in
              absurd (
                true_is_false
                  (sym late ∙ ap (λ (x : Timespec). is_late x limit) (sym reading) ∙ early))
          | inr sooner ↦
              rw early (later i k again (t_is, now, c_is, early) (ih (ground (arith, sooner))))
        ]
      ]

  loop_lem :
      (fuel i k : ℕ) (last : Timespec)
      → i ≤ k
      → k < i + fuel
      → clock k ≡ some last
      → is_late last limit ≡ true
      → IsDecided i k (timed_loop try_lock clock limit fuel i)
  unfolding timed_loop
  loop_lem zero i k last b enough at late = absurd (omega arith)
  loop_lem (suc fuel) i k last b enough at late =
      step (try_lock i) (clock i) i k last (timed_loop try_lock clock limit fuel (suc i)) refl refl
        b at late (λ p. loop_lem fuel (suc i) k last (omega arith) (omega arith) at late)

  -- If the time is up at the clock's reading `k`, the wait ends within `k + 1` attempts, decided by
  -- the first attempt at which the lock gives an answer of its own, the clock fails or the time is
  -- up: with that answer, the clock's error or ETIMEDOUT.
  pub rwlock_timed_common-IsDecided :
      (k fuel : ℕ) (last : Timespec)
      → k < fuel
      → clock k ≡ some last
      → is_late last limit ≡ true
      → IsDecided 0 k (rwlock_timed_common try_lock clock (some limit) fuel)
  unfolding rwlock_timed_common
  rwlock_timed_common-IsDecided k fuel last enough at late =
      loop_lem fuel 0 k last (omega arith) (omega arith) at late
