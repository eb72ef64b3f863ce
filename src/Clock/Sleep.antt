-- ===== src/Clock/Sleep.antt =====
-- src/clock.c: how long `clock_nanosleep` sleeps.
use mathlib.Core.Path.{subst}
use libsolcompat.Common.{
  ℕ, ◌+◌, ◌*◌, ◌/◌, ◌%◌, ◌≤◌, ◌<◌, ◌≡◌, refl, sym, true, not, ◌&&◌, ◌⊎◌, inl, inr, Option, none,
  some, ltb, leb, ◌==◌, arith, Bool-cases,
}
use libsolcompat.Clock.{
  Timespec, Timeval, Clock, realtime, monotonic, process_cputime, thread_cputime, other_clock,
  Sources, carried, used_time, day_time, clock_gettime, relative, select_time, Slept, Result, done,
  after_select, sleep_for, sleep_until, clock_nanosleep,
}

abbrev pub total : Timespec → ℕ
total t = t.tv_sec * 1000000000 + t.tv_nsec

abbrev pub total_us : Timeval → ℕ
total_us t = t.sec * 1000000 + t.usec

abbrev pub IsTime : Option Timespec → Type 0
IsTime none = Unit
IsTime (some t) = t.tv_nsec < 1000000000

abbrev pub IsDay : Option Timeval → Type 0
IsDay none = Unit
IsDay (some t) = t.usec < 1000000

abbrev pub IsUsage : Option (Timeval × Timeval) → Type 0
IsUsage none = Unit
IsUsage (some (u, s)) = (u.usec < 1000000) × (s.usec < 1000000)

carried-IsTime : (s ns : ℕ) → ns < 2000000000 → IsTime (some (carried s ns))
carried-IsTime s ns h = elim (Bool-cases (leb 1000000000 ns)) [
  | inl over ↦ rw over (omega (arith, h))
  | inr below ↦ rw below (ground arith)
]

used-IsTime : (u : Option (Timeval × Timeval)) → IsUsage u → IsTime (used_time u)
used-IsTime none h = tt
used-IsTime (some (u, s)) h =
    carried-IsTime (u.sec + s.sec) ((u.usec + s.usec) * 1000) (omega (arith, h.0, h.1))

day-IsTime : (d : Option Timeval) → IsDay d → IsTime (day_time d)
day-IsTime none h = tt
day-IsTime (some t) h = omega (arith, h)

clock_gettime-IsTime :
    (c : Sources) (clk_id : Clock)
    → IsDay c.gettimeofday
    → IsUsage c.getrusage
    → IsTime (clock_gettime c clk_id)
unfolding clock_gettime
clock_gettime-IsTime c realtime day usage = day-IsTime (c.gettimeofday) day
clock_gettime-IsTime c monotonic day usage = omega arith
clock_gettime-IsTime c process_cputime day usage = used-IsTime (c.getrusage) usage
clock_gettime-IsTime c thread_cputime day usage = used-IsTime (c.getrusage) usage
clock_gettime-IsTime c other_clock day usage = tt

-- The time between, or a request that is past.
abbrev IsDifference : Timespec → Timespec → Option Timespec → Type 0
IsDifference request now none = total request < total now
IsDifference request now (some req) =
    (total req + total now ≡ total request) × (req.tv_nsec < 1000000000)

relative-IsDifference :
    (request now : Timespec)
    → request.tv_nsec < 1000000000
    → now.tv_nsec < 1000000000
    → IsDifference request now (relative request now)
unfolding relative
relative-IsDifference request now h k = elim (Bool-cases (ltb request.tv_nsec now.tv_nsec)) [
  | inl borrows ↦ elim (Bool-cases (ltb request.tv_sec (now.tv_sec + 1))) [
    | inl past ↦ rw (borrows, past) (ground (arith, borrows, past, h, k))
    | inr ahead ↦
        rw (borrows, ahead) (ground (arith, borrows, ahead, h, k), ground (arith, borrows, h, k))
  ]
  | inr plain ↦ elim (Bool-cases (ltb request.tv_sec (now.tv_sec + 0))) [
    | inl past ↦ rw (plain, past) (ground (arith, plain, past, h, k))
    | inr ahead ↦
        rw (plain, ahead) (ground (arith, plain, ahead, h, k), ground (arith, plain, h, k))
  ]
]

-- Less than a microsecond too long, and not too short below the last microsecond of a second.
abbrev pub IsEnough : Timespec → Timeval → Type 0
IsEnough req tv =
    (total_us tv * 1000 < total req + 1000)
    × ((total req ≤ total_us tv * 1000) ⊎ (999999000 < req.tv_nsec))

select_time-IsEnough : (req : Timespec) → req.tv_nsec < 1000000000 → IsEnough req (select_time req)
unfolding select_time
select_time-IsEnough req h =
    elim (Bool-cases (not (req.tv_nsec % 1000 == 0) && ltb (req.tv_nsec / 1000) 999999)) [
      | inl up ↦ rw up (ground (arith, up, h), inl (ground (arith, up, h)))
      | inr exact ↦ elim (Bool-cases (req.tv_nsec % 1000 == 0)) [
        | inl whole ↦ rw exact (ground (arith, whole, h), inl (ground (arith, whole, h)))
        | inr part ↦ rw exact (ground (arith, h), inr (ground (arith, exact, part, h)))
      ]
    ]

-- The call is over at once where the request is past, and else sleeps for the time between.
abbrev pub IsSlept : (Timeval → Slept) → Timespec → Timespec → Result → Type 0
IsSlept select request now r =
    ((total request < total now) × (r ≡ done none))
    ⊎ ((req : Timespec) × (total req + total now ≡ total request)
        × IsEnough req (select_time req)
        × (r ≡ after_select req (select (select_time req))))

slept_lem :
    (select : Timeval → Slept) (request now : Timespec) (between : Option Timespec)
    → IsDifference request now between
    → IsSlept select request now (sleep_for select between)
slept_lem select request now none d = inl (d, refl)
slept_lem select request now (some req) d = inr (req, d.0, select_time-IsEnough req (d.1), refl)

-- For a request below 10 ^ 9 nanoseconds, clocks that answer below 10 ^ 6 microseconds, and a clock
-- that has read `now`, clock_nanosleep until an absolute time returns at once where that is past,
-- and else sleeps for the time between, less than a microsecond longer, and not shorter unless the
-- nanoseconds are above 999999000.
pub clock_nanosleep-IsSlept :
    (c : Sources) (select : Timeval → Slept) (clk_id : Clock) (request now : Timespec)
    → request.tv_nsec < 1000000000
    → IsDay c.gettimeofday
    → IsUsage c.getrusage
    → clock_gettime c clk_id ≡ some now
    → IsSlept select request now (clock_nanosleep c select clk_id true request)
unfolding clock_nanosleep
clock_nanosleep-IsSlept c select clk_id request now h day usage e =
    let valid : now.tv_nsec < 1000000000 =
      subst IsTime e (clock_gettime-IsTime c clk_id day usage) in
    subst (λ (t : Option Timespec). IsSlept select request now (sleep_until select request t))
      (sym e)
      (slept_lem select request now (relative request now)
        (relative-IsDifference request now h valid))
