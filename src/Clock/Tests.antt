-- ===== src/Clock/Tests.antt =====
-- src/clock.c: sleeping until a time that comes, and a sleep that is too short.
use libsolcompat.Common.{◌≡◌, refl, true, none, some, arith}
use libsolcompat.Clock.{
  Timespec, realtime, Sources, clock_gettime, select_time, finished, clock_nanosleep,
}
use libsolcompat.Clock.Sleep.{IsSlept, clock_nanosleep-IsSlept}

-- It is 5.25 s.
abbrev sources : Sources
sources = record {
  gettimeofday = some (record { sec = 5; usec = 250000 });
  gethrtime = 0;
  getrusage = none;
}

abbrev now : Timespec
now = record { tv_sec = 5; tv_nsec = 250000000 }

abbrev request : Timespec
request = record { tv_sec = 7; tv_nsec = 1 }

reads_now : clock_gettime sources realtime ≡ some now
unfolding clock_gettime
reads_now = refl

clock_nanosleep-IsSlept_example :
    IsSlept
      (λ tv. finished)
      request
      now
      (clock_nanosleep sources (λ tv. finished) realtime true request)
clock_nanosleep-IsSlept_example =
    clock_nanosleep-IsSlept sources (λ tv. finished) realtime request now (omega arith)
      (omega arith) tt reads_now

-- 999999001 nanoseconds become 999999 microseconds.
too_short :
    select_time (record { tv_sec = 0; tv_nsec = 999999001 }) ≡ record { sec = 0; usec = 999999 }
unfolding select_time
too_short = refl
