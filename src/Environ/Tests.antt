-- ===== src/Environ/Tests.antt =====
-- A concrete run of `unsetenv`.
use libsolcompat.Common.{ℕ, ◌≡◌, ◌≢◌, refl, none, false, List, [], ◌∷◌}
use libsolcompat.Common.Int.{pos}
use libsolcompat.Environ.{has_equals, unsetenv}
use libsolcompat.Environ.Unset.{first_entry, unsetenv-first_entry}

-- A=1, AB=2
abbrev environment : List (List ℕ)
environment = (b'A' ∷ b'=' ∷ b'1' ∷ []) ∷ (b'A' ∷ b'B' ∷ b'=' ∷ b'2' ∷ []) ∷ []

unsetenv-first_entry_example :
    ((unsetenv (b'A' ∷ []) environment).1 ≡ pos 0)
    × (first_entry (b'A' ∷ []) (unsetenv (b'A' ∷ []) environment).0 ≡ none)
    × ((other : List ℕ)
        → has_equals other ≡ false
        → other ≢ b'A' ∷ []
        → first_entry other (unsetenv (b'A' ∷ []) environment).0 ≡ first_entry other environment)
unsetenv-first_entry_example = unsetenv-first_entry (b'A' ∷ []) environment refl
