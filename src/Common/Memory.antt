-- ===== src/Common/Memory.antt =====
-- Bytes in memory. A block is the list of its bytes; an access out of range is `none`.
use Prim.Native.Nat.{ℕ, zero, suc}
use mathlib.Core.List.{List, [], ◌∷◌}
use mathlib.Core.Option.{Option, none, some}
use mathlib.Core.Option
use libsolcompat.Common.Lists.{get_elem?}

abbrev pub Block : Type 0
Block = List ℕ

-- `p[i]`
abbrev pub load : Block → ℕ → Option ℕ
load p i = get_elem? p i

-- `p[i] = v`
abbrev pub store : Block → ℕ → ℕ → Option Block
store [] i v = none
store (x ∷ xs) zero v = some (v ∷ xs)
store (x ∷ xs) (suc i) v = Option.map (λ r. x ∷ r) (store xs i v)
