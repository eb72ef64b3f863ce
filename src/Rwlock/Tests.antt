-- ===== src/Rwlock/Tests.antt =====
-- src/process.c: a lock that stays busy until its time is up.
use libsolcompat.Common.{refl, some, arith}
use libsolcompat.Rwlock.{Timespec, busy, rwlock_timed_common}
use libsolcompat.Rwlock.Limit.{IsDecided, rwlock_timed_common-IsDecided}

-- The limit is 3 s; a second passes between two readings.
abbrev limit : Timespec
limit = record { tv_sec = 3; tv_nsec = 0 }

rwlock_timed_common-IsDecided_example :
    IsDecided
      (λ i. busy)
      (λ i. some (record { tv_sec = i; tv_nsec = 0 }))
      limit
      0
      3
      (rwlock_timed_common
        (λ i. busy)
        (λ i. some (record { tv_sec = i; tv_nsec = 0 }))
        (some limit)
        4)
rwlock_timed_common-IsDecided_example =
    rwlock_timed_common-IsDecided (λ i. busy) (λ i. some (record { tv_sec = i; tv_nsec = 0 })) limit
      3 4 (record { tv_sec = 3; tv_nsec = 0 }) (omega arith) refl refl
