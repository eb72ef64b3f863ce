-- ===== src/CxaAtexit.antt =====
-- src/cxa_atexit.c: the table of destructors. The list `entries` is the used part of the table, so
-- `cxa_atexit_count` is its length. The lock is held by each operation but for the callbacks, which
-- may register more destructors. A handle, a function and an object are numbers; 0 is NULL.
pub mod Table
pub mod Order
pub mod Tests
use mathlib.Core.List.{foldl}
use libsolcompat.Common.{
  ℕ, zero, suc, ◌+◌, Bool, true, false, not, ◌&&◌, ◌||◌, Option, none, some, List, [], ◌∷◌, ◌++◌,
  length, get_elem?, set, ltb, ◌==◌, if◌then◌else◌,
}
use libsolcompat.Common.Int.{ℤ, pos, negsuc}

pub record Entry : Type 0 where
  pub destructor_func : ℕ
  pub object_arg : ℕ
  pub dso_handle : ℕ
  pub in_use : Bool

pub record Registry : Type 0 where
  pub entries : List Entry
  pub finalize_registered : Bool

-- The arguments of a call of `__cxa_atexit`.
pub record Registration : Type 0 where
  pub func : ℕ
  pub arg : ℕ
  pub dso : ℕ

abbrev pub cxa_atexit_max : ℕ
cxa_atexit_max = 1024

abbrev pub new_entry : Registration → Entry
new_entry r = record {
  destructor_func = r.func;
  object_arg = r.arg;
  dso_handle = r.dso;
  in_use = true;
}

-- `__cxa_atexit`: the new table, and 0 or -1.
pub cxa_atexit : Registry → Registration → Registry × ℤ
cxa_atexit s r =
    if ltb (length s.entries) cxa_atexit_max
    then (record { entries = s.entries ++ (new_entry r ∷ []); finalize_registered = true }, pos 0)
    else (record { entries = s.entries; finalize_registered = true }, negsuc 0)

-- An entry that `__cxa_finalize(dso_handle)` runs.
pub is_live : ℕ → Entry → Bool
is_live dso_handle e = e.in_use && (dso_handle == 0 || e.dso_handle == dso_handle)

abbrev pub consumed : Entry → Entry
consumed e = record e { in_use = false }

abbrev pub call : Entry → ℕ × ℕ
call e = (e.destructor_func, e.object_arg)

pub register_all : Registry → List Registration → Registry
register_all = foldl (λ s r. (cxa_atexit s r).0)

-- `run f a` is what the destructor `f(a)` registers while it runs.
module _ (run : ℕ → ℕ → List Registration) where
  -- The loop below index `k`, and the calls that were made, in order.
  pub finalize_loop : ℕ → Registry → ℕ → List (ℕ × ℕ) → Registry × List (ℕ × ℕ)
  finalize_loop dso_handle s zero calls = (s, calls)
  finalize_loop dso_handle s (suc k) calls = elim (get_elem? s.entries k) [
    | none ↦ finalize_loop dso_handle s k calls
    | some e ↦ elim (is_live dso_handle e) [
      | false ↦ finalize_loop dso_handle s k calls
      | true ↦
          let marked = record s { entries = set s.entries k (consumed e) } in
          finalize_loop dso_handle (register_all marked (run e.destructor_func e.object_arg)) k
            (calls ++ (call e ∷ []))
    ]
  ]

  -- `__cxa_finalize`
  pub cxa_finalize : Registry → ℕ → Registry × List (ℕ × ℕ)
  cxa_finalize s dso_handle = finalize_loop dso_handle s (length s.entries) []
