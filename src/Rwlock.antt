-- ===== src/Rwlock.antt =====
-- src/process.c: the locks with a time limit. What the lock and the clock answer at each attempt,
-- from 0 on, are parameters.
pub mod Limit
pub mod Tests
use libsolcompat.Common.{
  ℕ, zero, suc, ◌+◌, Bool, true, false, ◌&&◌, ◌||◌, Option, none, some, ltb, leb, ◌==◌,
  if◌then◌else◌,
}

pub record Timespec : Type 0 where
  pub tv_sec : ℕ
  pub tv_nsec : ℕ

-- EBUSY, or another result.
pub data Tried : Type 0 where
  busy : Tried
  answered : ℕ → Tried

pub data Outcome : Type 0 where
  returned : ℕ → Outcome
  clock_failed timed_out invalid : Outcome

abbrev pub is_late : Timespec → Timespec → Bool
is_late now limit =
    ltb limit.tv_sec now.tv_sec || (now.tv_sec == limit.tv_sec && leb limit.tv_nsec now.tv_nsec)

-- The clock has failed, or has been read.
abbrev pub after_clock : Option Timespec → Timespec → Option Outcome → Option Outcome
after_clock none limit again = some clock_failed
after_clock (some now) limit again = if is_late now limit then some timed_out else again

abbrev pub after_try : Tried → Option Timespec → Timespec → Option Outcome → Option Outcome
after_try busy now limit again = after_clock now limit again
after_try (answered rv) now limit again = some (returned rv)

-- The result none is the end of the fuel.
pub timed_loop : (ℕ → Tried) → (ℕ → Option Timespec) → Timespec → ℕ → ℕ → Option Outcome
timed_loop try_lock clock limit zero i = none
timed_loop try_lock clock limit (suc fuel) i =
    let again = timed_loop try_lock clock limit fuel (suc i) in
    after_try (try_lock i) (clock i) limit again

pub rwlock_timed_common : (ℕ → Tried) → (ℕ → Option Timespec) → Option Timespec → ℕ → Option Outcome
rwlock_timed_common try_lock clock none fuel = some invalid
rwlock_timed_common try_lock clock (some limit) fuel = timed_loop try_lock clock limit fuel 0
