-- ===== src/Utc.antt =====
-- src/clock.c: `timegm`, which sets TZ and sets it back by the functions of src/stdlib.c. The time
-- that `mktime` makes is a function of the environment.
pub mod Restored
pub mod Tests
use libsolcompat.Common.{ℕ, Bool, true, not, Option, none, some, List, [], ◌∷◌, if◌then◌else◌}
use libsolcompat.Environ.{setenv, unsetenv}

abbrev pub tz : List ℕ
tz = b'T' ∷ b'Z' ∷ []

abbrev pub utc : List ℕ
utc = b'U' ∷ b'T' ∷ b'C' ∷ []

-- The calls of libc: `getenv`, `putenv`, `mktime`, and whether `malloc` and `strdup` have memory.
pub record Libc : Type 0 where
  pub getenv : List ℕ → List (List ℕ) → Option (List ℕ)
  pub putenv : List ℕ → List (List ℕ) → Option (List (List ℕ))
  pub mktime : List (List ℕ) → ℕ
  pub malloc : Bool
  pub strdup : Bool

abbrev pub is_set : Option (List ℕ) → Bool
is_set none = not true
is_set (some value) = true

abbrev pub set_tz : Libc → List ℕ → List (List ℕ) → List (List ℕ)
set_tz c value environ =
    (setenv (λ name env. is_set (c.getenv name env)) (c.malloc) (c.putenv) tz value true environ).0

abbrev pub set_back : Libc → Option (List ℕ) → List (List ℕ) → List (List ℕ)
set_back c none environ = (unsetenv tz environ).0
set_back c (some saved_tz) environ = set_tz c saved_tz environ

-- The result, and the environment behind it.
pub timegm : Libc → List (List ℕ) → ℕ × List (List ℕ)
timegm c environ =
    let saved_tz = if c.strdup then c.getenv tz environ else none in
    let in_utc = set_tz c utc environ in (c.mktime in_utc, set_back c saved_tz in_utc)
