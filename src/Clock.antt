-- ===== src/Clock.antt =====
-- src/clock.c: clocks, sleeping, and times in UTC. Times are after 1970, and a second has 10 ^ 9
-- nanoseconds.
pub mod Sleep
pub mod Tests
use libsolcompat.Common.{
  ℕ, zero, suc, ◌+◌, ◌-◌, ◌*◌, ◌/◌, ◌%◌, Bool, true, false, not, ◌&&◌, ◌||◌, Option, none, some,
  List, [], ◌∷◌, ltb, leb, ◌==◌, if◌then◌else◌,
}

pub record Timespec : Type 0 where
  pub tv_sec : ℕ
  pub tv_nsec : ℕ

pub record Timeval : Type 0 where
  pub sec : ℕ
  pub usec : ℕ

-- `clk_id` 0, 4, 5 and 2.
pub data Clock : Type 0 where
  realtime monotonic process_cputime thread_cputime other_clock : Clock

-- What the calls of the system answer, none for a failure: the time of day, `gethrtime`, and the
-- user and the system time of the process.
pub record Sources : Type 0 where
  pub gettimeofday : Option Timeval
  pub gethrtime : ℕ
  pub getrusage : Option (Timeval × Timeval)

abbrev pub carried : ℕ → ℕ → Timespec
carried s ns =
    if leb 1000000000 ns
    then record { tv_sec = s + 1; tv_nsec = ns - 1000000000 }
    else record { tv_sec = s; tv_nsec = ns }

abbrev pub used_time : Option (Timeval × Timeval) → Option Timespec
used_time none = none
used_time (some (utime, stime)) =
    some (carried (utime.sec + stime.sec) ((utime.usec + stime.usec) * 1000))

abbrev pub day_time : Option Timeval → Option Timespec
day_time none = none
day_time (some tv) = some (record { tv_sec = tv.sec; tv_nsec = tv.usec * 1000 })

pub clock_gettime : Sources → Clock → Option Timespec
clock_gettime c realtime = day_time c.gettimeofday
clock_gettime c monotonic =
    some (record { tv_sec = c.gethrtime / 1000000000; tv_nsec = c.gethrtime % 1000000000 })
clock_gettime c process_cputime = used_time c.getrusage
clock_gettime c thread_cputime = used_time c.getrusage
clock_gettime c other_clock = none

pub clock_getres : Clock → Option Timespec
clock_getres realtime = some (record { tv_sec = 0; tv_nsec = 1000 })
clock_getres monotonic = some (record { tv_sec = 0; tv_nsec = 1 })
clock_getres process_cputime = some (record { tv_sec = 0; tv_nsec = 1000 })
clock_getres thread_cputime = some (record { tv_sec = 0; tv_nsec = 1000 })
clock_getres other_clock = none

-- The time from `now` to `request`, none where it is past.
pub relative : Timespec → Timespec → Option Timespec
relative request now =
    let borrows = ltb request.tv_nsec now.tv_nsec in
    if ltb request.tv_sec (now.tv_sec + (if borrows then 1 else 0))
    then none
    else some (record {
      tv_sec = request.tv_sec - now.tv_sec - (if borrows then 1 else 0);
      tv_nsec =
          if borrows
          then request.tv_nsec + 1000000000 - now.tv_nsec
          else request.tv_nsec - now.tv_nsec;
    })

-- What is passed to `select`.
pub select_time : Timespec → Timeval
select_time req = record {
  sec = req.tv_sec;
  usec =
      if not (req.tv_nsec % 1000 == 0) && ltb (req.tv_nsec / 1000) 999999
      then req.tv_nsec / 1000 + 1
      else req.tv_nsec / 1000;
}

-- `select` sleeps, or fails; `interrupted` is EINTR, with the time of day before and after.
pub data Slept : Type 0 where
  finished : Slept
  interrupted : Timeval → Timeval → Slept
  failed : ℕ → Slept

-- 0, the failure of the clock, EINTR or another error, and what is stored in `remain`.
pub data Result : Type 0 where
  done : Option Timespec → Result
  no_clock : Result
  woken : Timespec → Result
  error : ℕ → Result

-- `requested_us - elapsed_us` is at least 0.
pub remaining : Timespec → Timeval → Timeval → Timespec
remaining req tv_start tv_end =
    let remain_us =
      req.tv_sec * 1000000
      + req.tv_nsec / 1000
      + (tv_start.sec * 1000000 + tv_start.usec)
      - (tv_end.sec * 1000000 + tv_end.usec) in
    record { tv_sec = remain_us / 1000000; tv_nsec = remain_us % 1000000 * 1000 }

abbrev pub after_select : Timespec → Slept → Result
after_select req finished = done (some (record { tv_sec = 0; tv_nsec = 0 }))
after_select req (interrupted tv_start tv_end) = woken (remaining req tv_start tv_end)
after_select req (failed e) = error e

abbrev pub sleep_for : (Timeval → Slept) → Option Timespec → Result
sleep_for select none = done none
sleep_for select (some req) = after_select req (select (select_time req))

abbrev pub sleep_until : (Timeval → Slept) → Timespec → Option Timespec → Result
sleep_until select request none = no_clock
sleep_until select request (some now) = sleep_for select (relative request now)

-- `absolute` is TIMER_ABSTIME, and `remain` is given.
pub clock_nanosleep : Sources → (Timeval → Slept) → Clock → Bool → Timespec → Result
clock_nanosleep c select clk_id absolute request =
    if absolute
    then sleep_until select request (clock_gettime c clk_id)
    else sleep_for select (some request)
