-- ===== src/Utc/Tests.antt =====
-- src/clock.c: an environment with TZ in it, and a `putenv` that adds in front.
use libsolcompat.Common.{
  ℕ, ◌≡◌, ◌≢◌, refl, ap₂, true, false, ◌&&◌, ◌==◌, Option, some, List, [], ◌∷◌, arith, Bool-cases,
  inl, inr,
}
use libsolcompat.Environ.{has_equals, is_entry}
use libsolcompat.Environ.Unset.{first_entry}
use libsolcompat.Utc.{tz, utc, Libc, timegm}
use libsolcompat.Utc.Restored.{IsPutenv, AreKept, timegm-AreKept}

abbrev in_front : List ℕ → List (List ℕ) → Option (List (List ℕ))
in_front entry environ = some (entry ∷ environ)

other_entry :
    (value other : List ℕ)
    → has_equals other ≡ false
    → other ≢ tz
    → is_entry other (b'T' ∷ b'Z' ∷ b'=' ∷ value) ≡ false
other_entry value [] h ne = refl
other_entry value (a ∷ []) h ne = ground arith
other_entry value (a ∷ b ∷ []) h ne = elim (Bool-cases (a == b'T' && b == b'Z')) [
  | inl both ↦
      let first : a ≡ b'T' = ground arith in
      let second : b ≡ b'Z' = ground arith in
      absurd (ne (ap₂ (λ (x y : ℕ). x ∷ y ∷ []) first second))
  | inr one ↦ ground (arith, one)
]
other_entry value (a ∷ b ∷ c ∷ s) h ne = ground (arith, h)

in_front-IsPutenv : IsPutenv in_front
in_front-IsPutenv value environ = (
  (b'T' ∷ b'Z' ∷ b'=' ∷ value) ∷ environ,
  refl,
  refl,
  λ other h ne. let differs = other_entry value other h ne in rw differs refl,
)

-- "TZ=X"
abbrev environment : List (List ℕ)
environment = (b'T' ∷ b'Z' ∷ b'=' ∷ b'X' ∷ []) ∷ []

abbrev libc : Libc
libc = record {
  getenv = λ name environ. some (b'X' ∷ []);
  putenv = in_front;
  mktime = λ environ. 0;
  malloc = true;
  strdup = true;
}

timegm-AreKept_example :
    (in_utc : List (List ℕ)) × (first_entry tz in_utc ≡ some (b'T' ∷ b'Z' ∷ b'=' ∷ utc))
    × ((timegm libc environment).0 ≡ 0)
    × AreKept environment (timegm libc environment).1
timegm-AreKept_example = timegm-AreKept libc environment in_front-IsPutenv refl refl refl
