-- ===== src/Str/Tests.antt =====
-- Concrete runs of the string functions.
use libsolcompat.Common.{
  ℕ, ◌+◌, ◌-◌, ◌≤◌, ◌<◌, ◌≡◌, refl, min, Option, some, none, [], ◌∷◌, arith, get_elem?, length,
  Block, replicate, length-replicate, ap,
}
use libsolcompat.Common.Libc.{strlen}
use libsolcompat.Str.{strlcpy, strlcat, copy_bounded, pad_zeros, stpncpy, memmem}
use libsolcompat.Str.Copy.{Terminated, strlcpy-Terminated, strlcat-Terminated}
use libsolcompat.Str.Pad.{stpncpy-returns_end}
use libsolcompat.Str.Search.{FirstAt, memmem-FirstAt}

abbrev hello : Block
hello = b'h' ∷ b'e' ∷ b'l' ∷ b'l' ∷ b'o' ∷ 0 ∷ []

abbrev four : ℕ
four = 4

abbrev ab : Block
ab = b'a' ∷ b'b' ∷ 0 ∷ 9 ∷ 9 ∷ 9 ∷ []

abbrev filled : Block
filled = 9 ∷ 9 ∷ 9 ∷ 9 ∷ 9 ∷ 9 ∷ 9 ∷ 9 ∷ []

abbrev malloc : ℕ → Option Block
malloc n = some (replicate n 9)

abbrev size_of : Option Block → ℕ
size_of none = 0
size_of (some b) = length b

malloc_gives : (size : ℕ) (b : Block) → malloc size ≡ some b → size ≤ length b
malloc_gives size b e =
    let same : length (replicate size 9) ≡ length b = ap size_of e in
    omega (arith, same, length-replicate {A = ℕ} size 9)

strlen-hello : strlen hello ≡ some 5
unfolding strlen
strlen-hello = refl

strlen-ab : strlen ab ≡ some 2
unfolding strlen
strlen-ab = refl

strlcpy-Terminated_example :
    (out : Block) × (strlcpy filled hello 4 ≡ some (5, out))
    × (four ≡ 0 → out ≡ filled)
    × (0 < four → Terminated filled hello 0 (min 5 (4 - 1)) out)
strlcpy-Terminated_example = strlcpy-Terminated filled hello 4 5 strlen-hello (omega arith)

strlcat-Terminated_example :
    (out : Block) × (strlcat ab hello 6 ≡ some (2 + 5, out))
    × Terminated ab hello 2 (min 5 (6 - 2 - 1)) out
strlcat-Terminated_example =
    strlcat-Terminated ab hello 6 2 5 strlen-ab strlen-hello (omega arith) (omega arith)

stpncpy-returns_end_example :
    (out : Block) × (stpncpy filled hello 7 ≡ some (7, out))
    × (length out ≡ length filled)
    × ((k : ℕ) → k < 7 → k < 5 → get_elem? out k ≡ get_elem? hello k)
    × ((k : ℕ) → k < 7 → 5 ≤ k → get_elem? out k ≡ some 0)
    × ((k : ℕ) → 7 ≤ k → get_elem? out k ≡ get_elem? filled k)
stpncpy-returns_end_example = stpncpy-returns_end filled hello 7 5 strlen-hello (omega arith)

memmem-FirstAt_example :
    (r : Option ℕ) × (memmem hello 5 (b'l' ∷ b'o' ∷ []) 2 ≡ some r)
    × (2 ≤ 5 → FirstAt hello (b'l' ∷ b'o' ∷ []) 2 0 (5 - 2) r)
    × (5 < 2 → r ≡ none)
memmem-FirstAt_example = memmem-FirstAt hello (b'l' ∷ b'o' ∷ []) 5 2 (omega arith) (omega arith)

-- With the room to spare, the end of the string would be at 5.
stpncpy-end : stpncpy filled hello 7 ≡ some (7, b'h' ∷ b'e' ∷ b'l' ∷ b'l' ∷ b'o' ∷ 0 ∷ 0 ∷ 9 ∷ [])
unfolding stpncpy copy_bounded pad_zeros
stpncpy-end = refl
