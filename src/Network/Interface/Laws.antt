-- ===== src/Network/Interface/Laws.antt =====
-- src/network.c: indices and names of interfaces belong together.
use libsolcompat.Common.{
  ℕ, zero, suc, ◌+◌, ◌≤◌, ◌<◌, ◌≡◌, ◌≢◌, refl, ap, ap₂, ◌∙◌, true, false, none, some, List, [], ◌∷◌,
  length, get_elem?, take, arith, Bool-cases, inl, inr, get_elem?_bound,
}
use libsolcompat.Network.Interface.{
  ifnamsiz, is_within, str_eq, find_interface, if_nametoindex, if_indextoname,
}

str_eq-eq : (a b : List ℕ) → str_eq a b ≡ true → a ≡ b
str_eq-eq [] [] e = refl
str_eq-eq [] (y ∷ b) e = absurd (ground (arith, e))
str_eq-eq (x ∷ a) [] e = absurd (ground (arith, e))
str_eq-eq (x ∷ a) (y ∷ b) e =
    let same : x ≡ y = ground (arith, e) in
    ap₂ (λ (u : ℕ) (v : List ℕ). u ∷ v) same (str_eq-eq a b (ground (arith, e)))

str_eq_self : (a : List ℕ) → str_eq a a ≡ true
str_eq_self [] = refl
str_eq_self (x ∷ a) = ground (arith, str_eq_self a)

take_all : (n : ℕ) (s : List ℕ) → length s ≤ n → take n s ≡ s
take_all zero [] h = refl
take_all (suc n) [] h = refl
take_all zero (x ∷ s) h = absurd (omega arith)
take_all (suc n) (x ∷ s) h = ap (λ (u : List ℕ). x ∷ u) (take_all n s (omega arith))

get_elem?_outside : (xs : List (List ℕ)) (i : ℕ) → length xs ≤ i → get_elem? xs i ≡ none
get_elem?_outside [] i h = refl
get_elem?_outside (x ∷ xs) zero h = absurd (omega arith)
get_elem?_outside (x ∷ xs) (suc i) h = get_elem?_outside xs i (omega arith)

-- No name stands twice.
abbrev pub AreDistinct : List (List ℕ) → Type 0
AreDistinct names =
    (i j : ℕ) (name : List ℕ)
    → get_elem? names i ≡ some name
    → get_elem? names j ≡ some name
    → i ≡ j

-- The loop finds a name where it stands first.
find_interface_lem :
    (ifname : List ℕ) (names : List (List ℕ)) (i k : ℕ)
    → get_elem? names k ≡ some ifname
    → ((j : ℕ) → j < k → get_elem? names j ≢ some ifname)
    → find_interface ifname names i ≡ i + k + 1
unfolding find_interface
find_interface_lem ifname [] i k e first = absurd (ground (arith, e))
find_interface_lem ifname (name ∷ names) i zero e first =
    let same : name ≡ ifname = ground (arith, e) in rw (same, str_eq_self ifname) (omega arith)
find_interface_lem ifname (name ∷ names) i (suc k) e first =
    elim (Bool-cases (str_eq name ifname)) [
      | inl same ↦ absurd (first 0 (omega arith) (ap some (str_eq-eq name ifname same)))
      | inr other ↦
          let ih =
            find_interface_lem ifname names (i + 1) k e (λ j h. first (suc j) (omega arith)) in
          rw (other, ih) (omega arith)
    ]

find_interface_absent :
    (ifname : List ℕ) (names : List (List ℕ)) (i : ℕ)
    → ((k : ℕ) → get_elem? names k ≢ some ifname)
    → find_interface ifname names i ≡ 0
unfolding find_interface
find_interface_absent ifname [] i absent = refl
find_interface_absent ifname (name ∷ names) i absent = elim (Bool-cases (str_eq name ifname)) [
  | inl same ↦ absurd (absent 0 (ap some (str_eq-eq name ifname same)))
  | inr other ↦ rw other (find_interface_absent ifname names (i + 1) (λ k. absent (suc k)))
]

-- Where the interfaces have different names of at most 15 bytes: each one's index, from 1 on, is
-- that of its name, and its name that of its index; a name of no interface has the index 0, and an
-- index that is 0 or above their number and below 2 ^ 31 has no name; from 2 ^ 31 on the code reads
-- outside the list.
pub if_indextoname-if_nametoindex :
    (names : List (List ℕ))
    → AreDistinct names
    → ((k : ℕ) (name : List ℕ) → get_elem? names k ≡ some name → length name < ifnamsiz)
    → ((k : ℕ) (name : List ℕ)
        → get_elem? names k ≡ some name
        → (if_nametoindex (some names) (some name) ≡ suc k)
          × (if_indextoname (some names) true (suc k) ≡ some (some name)))
      × ((name : List ℕ)
          → ((k : ℕ) → get_elem? names k ≢ some name)
          → if_nametoindex (some names) (some name) ≡ 0)
      × (if_indextoname (some names) true 0 ≡ some none)
      × ((i : ℕ)
          → length names < i
          → i < 2147483648
          → if_indextoname (some names) true i ≡ some none)
      × ((i : ℕ) → length names < i → 2147483648 ≤ i → if_indextoname (some names) true i ≡ none)
unfolding if_nametoindex if_indextoname
if_indextoname-if_nametoindex names distinct short = (
  (λ k name e. (
    find_interface_lem name names 0 k e (λ j h e'. omega (arith, distinct j k name e' e))
        ∙ omega arith,
    let bound = get_elem?_bound names k name e in
        let whole = take_all 15 name (omega (arith, short k name e)) in
        ground (arith, e, whole, bound),
  )),
  (λ name absent. find_interface_absent name names 0 absent),
  refl,
  above,
  (λ i h q. outside i h q),
)
  where
    above :
        (i : ℕ) → length names < i → i < 2147483648 → if_indextoname (some names) true i ≡ some none
    above zero h q = refl
    above (suc i) h q =
        let test : is_within (suc i) (length names) ≡ false = ground arith in rw test refl

    outside :
        (i : ℕ) → length names < i → 2147483648 ≤ i → if_indextoname (some names) true i ≡ none
    outside zero h q = absurd (omega arith)
    outside (suc i) h q =
        let test : is_within (suc i) (length names) ≡ true = ground arith in
        let gone : get_elem? names i ≡ none = get_elem?_outside names i (omega arith) in
        rw (test, gone) refl
