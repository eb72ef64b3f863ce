-- ===== src/Network/Interface/Tests.antt =====
-- Concrete runs of the interface lookups.
use libsolcompat.Common.{
  ℕ, zero, suc, ◌<◌, ◌≤◌, ◌≡◌, ◌≢◌, refl, true, Option, none, some, List, [], ◌∷◌, length,
  get_elem?, arith, ap,
}
use libsolcompat.Network.Interface.{ifnamsiz, if_nametoindex, if_indextoname}
use libsolcompat.Network.Interface.Laws.{AreDistinct, if_indextoname-if_nametoindex}

-- lo and le
abbrev names : List (List ℕ)
names = (b'l' ∷ b'o' ∷ []) ∷ (b'l' ∷ b'e' ∷ []) ∷ []

names_distinct : AreDistinct names
names_distinct zero zero name e f = refl
names_distinct zero (suc zero) name e f = absurd (ground (arith, e, f))
names_distinct (suc zero) zero name e f = absurd (ground (arith, e, f))
names_distinct (suc zero) (suc zero) name e f = refl
names_distinct zero (suc (suc j)) name e f = absurd (ground (arith, f))
names_distinct (suc zero) (suc (suc j)) name e f = absurd (ground (arith, f))
names_distinct (suc (suc i)) j name e f = absurd (ground (arith, e))

abbrev size_of : Option (List ℕ) → ℕ
size_of none = 0
size_of (some name) = length name

names_short : (k : ℕ) (name : List ℕ) → get_elem? names k ≡ some name → length name < ifnamsiz
names_short zero name e = let two : 2 ≡ length name = ap size_of e in omega arith
names_short (suc zero) name e = let two : 2 ≡ length name = ap size_of e in omega arith
names_short (suc (suc k)) name e = absurd (ground (arith, e))

if_indextoname-if_nametoindex_example :
    ((k : ℕ) (name : List ℕ)
      → get_elem? names k ≡ some name
      → (if_nametoindex (some names) (some name) ≡ suc k)
        × (if_indextoname (some names) true (suc k) ≡ some (some name)))
    × ((name : List ℕ)
        → ((k : ℕ) → get_elem? names k ≢ some name)
        → if_nametoindex (some names) (some name) ≡ 0)
    × (if_indextoname (some names) true 0 ≡ some none)
    × ((i : ℕ) → length names < i → i < 2147483648 → if_indextoname (some names) true i ≡ some none)
    × ((i : ℕ) → length names < i → 2147483648 ≤ i → if_indextoname (some names) true i ≡ none)
if_indextoname-if_nametoindex_example =
    if_indextoname-if_nametoindex names names_distinct names_short
