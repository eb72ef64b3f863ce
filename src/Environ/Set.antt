-- ===== src/Environ/Set.antt =====
-- src/stdlib.c: `setenv` where nothing fails.
use libsolcompat.Common.{ℕ, ◌≡◌, refl, Bool, true, false, Option, some, List, ◌∷◌, ◌++◌}
use libsolcompat.Common.Int.{pos}
use libsolcompat.Environ.{is_invalid, setenv}

pub setenv_overwrites :
    (getenv : List ℕ → List (List ℕ) → Bool) (malloc : Bool)
    (putenv : List ℕ → List (List ℕ) → Option (List (List ℕ))) (name value : List ℕ)
    (environ next : List (List ℕ))
    → is_invalid name ≡ false
    → malloc ≡ true
    → putenv (name ++ (b'=' ∷ value)) environ ≡ some next
    → setenv getenv malloc putenv name value true environ ≡ (next, pos 0)
unfolding setenv
setenv_overwrites getenv malloc putenv name value environ next valid memory e =
    rw (valid, memory, e) refl
