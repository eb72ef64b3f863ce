-- ===== src/Qsort/Order.antt =====
-- What the comparison has to satisfy, and sorted ranges.
use libsolcompat.Common.{ℕ, ◌≤◌, ◌<◌, ◌≡◌, true, false, Option, some, List, get_elem?, arith}
use libsolcompat.Common.Int.{ℤ}
use libsolcompat.Qsort.{exceeds, greater}
use libsolcompat.Qsort.Swap.{Rearranged}

module _ {A C : Type 0} (compare_fn : A → A → C → ℤ) (context_arg : C) where
  -- The comparison is total and transitive; elements may compare equal.
  pub record IsPreorder : Type 0 where
    pub total :
        (x y : A)
        → exceeds compare_fn context_arg x y ≡ true
        → exceeds compare_fn context_arg y x ≡ false
    pub transitive :
        (x y z : A)
        → exceeds compare_fn context_arg x y ≡ false
        → exceeds compare_fn context_arg y z ≡ false
        → exceeds compare_fn context_arg x z ≡ false

  -- The elements from `lo` to `hi`, both included, are in order.
  abbrev pub SortedOn : ℕ → ℕ → List A → Type 0
  SortedOn lo hi xs =
      (i j : ℕ) (a b : A)
      → lo ≤ i
      → i < j
      → j ≤ hi
      → get_elem? xs i ≡ some a
      → get_elem? xs j ≡ some b
      → exceeds compare_fn context_arg a b ≡ false

  -- A step that returns, touches only the range, and leaves it sorted.
  pub record SortsRange (lo hi : ℕ) (xs : List A) (result : Option (List A)) : Type 0 where
    pub out : List A
    pub returns : result ≡ some out
    pub moved : Rearranged lo hi xs out
    pub sorted : SortedOn lo hi out

  pub greater_lem :
      (xs : List A) (i j : ℕ) (a b : A)
      → get_elem? xs i ≡ some a
      → get_elem? xs j ≡ some b
      → greater compare_fn context_arg xs i j ≡ some (exceeds compare_fn context_arg a b)
  unfolding greater
  greater_lem xs i j a b ea eb = ground arith
