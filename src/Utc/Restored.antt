-- ===== src/Utc/Restored.antt =====
-- src/clock.c: the environment that `timegm` leaves.
use libsolcompat.Common.{
  ℕ, ◌≡◌, ◌≢◌, refl, ◌∙◌, sym, ap, true, false, Option, none, some, List, ◌∷◌,
}
use libsolcompat.Environ.{has_equals}
use libsolcompat.Common.Int.{ℤ}
use libsolcompat.Environ.Set.{setenv_overwrites}
use libsolcompat.Environ.Unset.{first_entry, unsetenv-first_entry}
use libsolcompat.Utc.{tz, utc, Libc, is_set, set_tz, set_back, timegm}

-- The value in an entry for TZ, if there is one.
abbrev pub IsValue : Option (List ℕ) → Option (List ℕ) → Type 0
IsValue none entry = entry ≡ none
IsValue (some value) entry = entry ≡ some (b'T' ∷ b'Z' ∷ b'=' ∷ value)

-- `putenv` of a value of TZ makes it the first, and changes that of no other name.
abbrev pub IsPutenv : (List ℕ → List (List ℕ) → Option (List (List ℕ))) → Type 0
IsPutenv putenv =
    (value : List ℕ) (environ : List (List ℕ))
    → (next : List (List ℕ)) × (putenv (b'T' ∷ b'Z' ∷ b'=' ∷ value) environ ≡ some next)
      × (first_entry tz next ≡ some (b'T' ∷ b'Z' ∷ b'=' ∷ value))
      × ((other : List ℕ)
          → has_equals other ≡ false
          → other ≢ tz
          → first_entry other next ≡ first_entry other environ)

-- `getenv` gives the value of the first entry for TZ.
abbrev pub IsGetenv : (List ℕ → List (List ℕ) → Option (List ℕ)) → List (List ℕ) → Type 0
IsGetenv getenv environ = IsValue (getenv tz environ) (first_entry tz environ)

-- The first entries that matter are those of before.
abbrev pub AreKept : List (List ℕ) → List (List ℕ) → Type 0
AreKept environ next =
    (first_entry tz next ≡ first_entry tz environ)
    × ((other : List ℕ)
        → has_equals other ≡ false
        → other ≢ tz
        → first_entry other next ≡ first_entry other environ)

set_lem :
    (c : Libc) (value : List ℕ) (environ : List (List ℕ))
    → IsPutenv c.putenv
    → c.malloc ≡ true
    → (first_entry tz (set_tz c value environ) ≡ some (b'T' ∷ b'Z' ∷ b'=' ∷ value))
      × ((other : List ℕ)
          → has_equals other ≡ false
          → other ≢ tz
          → first_entry other (set_tz c value environ) ≡ first_entry other environ)
set_lem c value environ puts memory =
    let (next, e, first, others) = puts value environ in
    let done =
      ap (λ (r : List (List ℕ) × ℤ). r.0)
        (setenv_overwrites (λ name env. is_set (c.getenv name env)) (c.malloc) (c.putenv) tz value
          environ next refl memory e) in
    (
      ap (first_entry tz) done ∙ first,
      λ other h ne. ap (first_entry other) done ∙ others other h ne,
    )

back_lem :
    (saved : Option (List ℕ)) (c : Libc) (environ now : List (List ℕ))
    → IsPutenv c.putenv
    → c.malloc ≡ true
    → IsValue saved (first_entry tz environ)
    → ((other : List ℕ)
        → has_equals other ≡ false
        → other ≢ tz
        → first_entry other now ≡ first_entry other environ)
    → AreKept environ (set_back c saved now)
back_lem none c environ now puts memory v kept =
    let removed = unsetenv-first_entry tz now refl in
    (removed.1 ∙ sym v, λ other h ne. removed.2 other h ne ∙ kept other h ne)
back_lem (some value) c environ now puts memory v kept =
    let set = set_lem c value now puts memory in
    (set.0 ∙ sym v, λ other h ne. set.1 other h ne ∙ kept other h ne)

-- Where putenv and getenv do what they are documented to for TZ, and memory is not short, timegm
-- gives the time that mktime makes with TZ set to UTC, and leaves the first entry for TZ, or none,
-- and that for every other name as they were.
pub timegm-AreKept :
    (c : Libc) (environ : List (List ℕ))
    → IsPutenv c.putenv
    → IsGetenv c.getenv environ
    → c.malloc ≡ true
    → c.strdup ≡ true
    → (in_utc : List (List ℕ)) × (first_entry tz in_utc ≡ some (b'T' ∷ b'Z' ∷ b'=' ∷ utc))
      × ((timegm c environ).0 ≡ c.mktime in_utc)
      × AreKept environ (timegm c environ).1
unfolding timegm
timegm-AreKept c environ puts gets memory copied =
    let set = set_lem c utc environ puts memory in
    (
      set_tz c utc environ,
      set.0,
      refl,
      rw copied (
          back_lem (c.getenv tz environ) c environ (set_tz c utc environ) puts memory gets (set.1)),
    )
