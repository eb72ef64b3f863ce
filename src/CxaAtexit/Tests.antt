-- ===== src/CxaAtexit/Tests.antt =====
-- Concrete runs of the destructor table.
use mathlib.Core.List.{reverse}
use libsolcompat.Common.{
  ℕ, ◌≡◌, refl, true, ◌≤◌, ◌+◌, length, arith, replicate, length-replicate, take, ltb, List, [],
  ◌∷◌, ◌++◌, map, ◌==◌, if◌then◌else◌,
}
use libsolcompat.CxaAtexit.{
  Entry, Registry, Registration, new_entry, cxa_atexit, is_live, call, register_all, finalize_loop,
  cxa_finalize,
}
use libsolcompat.Common.Int.{pos, negsuc}
use libsolcompat.CxaAtexit.Table.{register_all-take}
use libsolcompat.CxaAtexit.Order.{select, cxa_finalize-reverse}

abbrev registration : ℕ → ℕ → ℕ → Registration
registration f a d = record { func = f; arg = a; dso = d }

abbrev three : Registry
three = record {
  entries =
      new_entry (registration 1 10 7)
      ∷ new_entry (registration 2 20 8)
      ∷ new_entry (registration 3 30 7)
      ∷ [];
  finalize_registered = true;
}

-- The destructor 3 registers another one for the same handle.
abbrev run : ℕ → ℕ → List Registration
run f a = if f == 3 then registration 4 40 7 ∷ [] else []

-- One place is left in the table, for the first of two registrations.
abbrev almost_full : Registry
almost_full = record {
  entries = replicate 1023 (new_entry (registration 1 10 7));
  finalize_registered = true;
}

abbrev two : List Registration
two = registration 2 20 8 ∷ registration 3 30 7 ∷ []

almost_full_size : length almost_full.entries ≤ 1024
almost_full_size =
    let size = length-replicate {0} {A = Entry} 1023 (new_entry (registration 1 10 7)) in
    omega (arith, size)

register_all-take_example :
    ((register_all almost_full two).entries ≡ take 1024 (almost_full.entries ++ map new_entry two))
    × ((cxa_atexit (register_all almost_full two) (registration 4 40 7)).1
        ≡ (if ltb (length almost_full.entries + length two) 1024 then pos 0 else negsuc 0))
register_all-take_example = register_all-take almost_full two (registration 4 40 7) almost_full_size

cxa_finalize-reverse_example :
    (cxa_finalize run three 7).1 ≡ reverse (map call (select (is_live 7) three.entries))
cxa_finalize-reverse_example = cxa_finalize-reverse run three 7

-- The destructors of the handle 7, the later one first; the one that 3 registers is not run.
two_run : (cxa_finalize run three 7).1 ≡ (3, 30) ∷ (1, 10) ∷ []
unfolding cxa_atexit is_live register_all finalize_loop cxa_finalize
two_run = refl
