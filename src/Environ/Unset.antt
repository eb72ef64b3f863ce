-- ===== src/Environ/Unset.antt =====
-- src/stdlib.c: `unsetenv` removes its name and no other.
use libsolcompat.Common.{
  ℕ, ◌≡◌, ◌≢◌, refl, ap₂, true, false, Option, none, some, List, [], ◌∷◌, if◌then◌else◌, arith,
  Bool-cases, inl, inr,
}
use libsolcompat.Common.Int.{pos}
use libsolcompat.Environ.{has_equals, is_invalid, is_entry, remove_entries, unsetenv}

-- The first entry for a name.
abbrev pub first_entry : List ℕ → List (List ℕ) → Option (List ℕ)
first_entry name [] = none
first_entry name (entry ∷ environ) =
    if is_entry name entry then some entry else first_entry name environ

-- An entry is for one name.
is_entry-same :
    (entry a b : List ℕ)
    → has_equals a ≡ false
    → has_equals b ≡ false
    → is_entry a entry ≡ true
    → is_entry b entry ≡ true
    → a ≡ b
is_entry-same [] [] b ha hb e f = absurd (ground (arith, e))
is_entry-same [] (x ∷ a) b ha hb e f = absurd (ground (arith, e))
is_entry-same (y ∷ entry) [] [] ha hb e f = refl
is_entry-same (y ∷ entry) [] (z ∷ b) ha hb e f = absurd (ground (arith, e, f, hb))
is_entry-same (y ∷ entry) (x ∷ a) [] ha hb e f = absurd (ground (arith, e, f, ha))
is_entry-same (y ∷ entry) (x ∷ a) (z ∷ b) ha hb e f =
    let rest =
      is_entry-same entry a b (ground arith) (ground arith) (ground arith) (ground arith) in
    let heads : x ≡ z = ground (arith, e, f) in ap₂ (λ (u : ℕ) (v : List ℕ). u ∷ v) heads rest

removed :
    (name : List ℕ) (environ : List (List ℕ))
    → first_entry name (remove_entries name environ) ≡ none
unfolding remove_entries
removed name [] = refl
removed name (entry ∷ environ) = elim (Bool-cases (is_entry name entry)) [
  | inl here ↦ rw here (removed name environ)
  | inr other ↦ rw other (rw other (removed name environ))
]

kept :
    (name other : List ℕ) (environ : List (List ℕ))
    → has_equals name ≡ false
    → has_equals other ≡ false
    → other ≢ name
    → first_entry other (remove_entries name environ) ≡ first_entry other environ
unfolding remove_entries
kept name other [] hn ho ne = refl
kept name other (entry ∷ environ) hn ho ne =
    let ih = kept name other environ hn ho ne in
    elim (Bool-cases (is_entry name entry)) [
      | inr differs ↦ ground (arith, ih, differs)
      | inl here ↦ elim (Bool-cases (is_entry other entry)) [
        | inl both ↦ absurd (ne (is_entry-same entry other name ho hn both here))
        | inr differs ↦ ground (arith, ih, differs, here)
      ]
    ]

-- `unsetenv` of a name that is not empty and has no `=` returns 0 and leaves no entry for the name;
-- for every other name without `=` the first entry stays what it was.
pub unsetenv-first_entry :
    (name : List ℕ) (environ : List (List ℕ))
    → is_invalid name ≡ false
    → ((unsetenv name environ).1 ≡ pos 0)
      × (first_entry name (unsetenv name environ).0 ≡ none)
      × ((other : List ℕ)
          → has_equals other ≡ false
          → other ≢ name
          → first_entry other (unsetenv name environ).0 ≡ first_entry other environ)
unfolding unsetenv
unsetenv-first_entry [] environ e = absurd (ground (arith, e))
unsetenv-first_entry (c ∷ name) environ e =
    rw e (refl, removed (c ∷ name) environ, λ other ho ne. kept (c ∷ name) other environ e ho ne)
