-- ===== src/Environ.antt =====
-- src/stdlib.c: `setenv` and `unsetenv`. A string is the list of its bytes before the zero byte, and
-- `environ` the list of its entries before NULL.
pub mod Unset
pub mod Set
pub mod Tests
use libsolcompat.Common.{
  ℕ, Bool, true, false, ◌||◌, not, ◌&&◌, Option, none, some, List, [], ◌∷◌, ◌++◌, ◌==◌,
  if◌then◌else◌,
}
use libsolcompat.Common.Int.{ℤ, pos, negsuc}

abbrev pub has_equals : List ℕ → Bool
has_equals [] = false
has_equals (c ∷ s) = c == b'=' || has_equals s

-- The test of a name; NULL is not modelled.
abbrev pub is_invalid : List ℕ → Bool
is_invalid [] = true
is_invalid (c ∷ s) = has_equals (c ∷ s)

-- `strncmp(entry, name, nlen) == 0 && entry[nlen] == '='`
abbrev pub is_entry : List ℕ → List ℕ → Bool
is_entry [] [] = false
is_entry [] (y ∷ entry) = y == b'='
is_entry (x ∷ name) [] = false
is_entry (x ∷ name) (y ∷ entry) = x == y && is_entry name entry

-- The loop of `unsetenv`: the entries that it moves down.
pub remove_entries : List ℕ → List (List ℕ) → List (List ℕ)
remove_entries name [] = []
remove_entries name (entry ∷ environ) =
    let rest = remove_entries name environ in if is_entry name entry then rest else entry ∷ rest

-- The new environment, and 0 or -1.
pub unsetenv : List ℕ → List (List ℕ) → List (List ℕ) × ℤ
unsetenv name environ =
    if is_invalid name then (environ, negsuc 0) else (remove_entries name environ, pos 0)

-- `getenv`, `malloc` and `putenv` of libc: whether the name is there, whether there is memory, and
-- the new environment unless it fails.
pub setenv :
    (List ℕ → List (List ℕ) → Bool)
    → Bool
    → (List ℕ → List (List ℕ) → Option (List (List ℕ)))
    → List ℕ
    → List ℕ
    → Bool
    → List (List ℕ)
    → List (List ℕ) × ℤ
setenv getenv malloc putenv name value overwrite environ =
    if is_invalid name
    then (environ, negsuc 0)
    else if not overwrite && getenv name environ
    then (environ, pos 0)
    else if not malloc
    then (environ, negsuc 0)
    else elim (putenv (name ++ (b'=' ∷ value)) environ) [
      | none ↦ (environ, negsuc 0)
      | some environ' ↦ (environ', pos 0)
    ]
