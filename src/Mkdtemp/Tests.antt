-- ===== src/Mkdtemp/Tests.antt =====
-- Concrete runs of `mkdtemp`.
use libsolcompat.Common.{
  ℕ, ◌-◌, ◌≡◌, refl, List, [], ◌∷◌, length, take, arith, All, if◌then◌else◌, ◌==◌, Option, none,
  some, ap, sym, ◌∙◌,
}
use libsolcompat.Mkdtemp.{
  suffix_entropy, Answer, created, exists, directory, tmpnam_alphabet, fill_suffix, mkdtemp_loop,
  mkdtemp,
}
use libsolcompat.Mkdtemp.Attempts.{bytes, IsAlnum, candidate, ends_with, mkdtemp-ends_with}

-- d.XXXXXX
abbrev template : List ℕ
template = b'd' ∷ b'.' ∷ b'X' ∷ b'X' ∷ b'X' ∷ b'X' ∷ b'X' ∷ b'X' ∷ []

abbrev getentropy : ℕ → Option (List ℕ)
getentropy attempt = if attempt == 0 then none else some (0 ∷ 25 ∷ 26 ∷ 51 ∷ 52 ∷ 61 ∷ [])

abbrev time : ℕ → ℕ
time attempt = 900000000

abbrev size_of : Option (List ℕ) → ℕ
size_of none = 6
size_of (some b) = length b

getentropy_gives : (k : ℕ) (b : List ℕ) → getentropy k ≡ some b → length b ≡ 6
getentropy_gives k b e =
    let six : size_of (getentropy k) ≡ 6 = ground arith in sym (ap size_of e) ∙ six

-- The first attempt collides.
abbrev mkdir : ℕ → List ℕ → Answer
mkdir attempt path = if attempt == 0 then exists else created

mkdtemp-ends_with_example :
    (mkdtemp getentropy time 7 mkdir template
      ≡ ends_with getentropy time 7 mkdir
          (candidate getentropy time 7 mkdir (take (length template - 6) template) 1)
          created)
    × (length (candidate getentropy time 7 mkdir (take (length template - 6) template) 1)
        ≡ length template)
    × All IsAlnum (fill_suffix (bytes getentropy time 7 mkdir 1))
mkdtemp-ends_with_example =
    mkdtemp-ends_with getentropy time 7 mkdir template 1 created (omega arith) refl getentropy_gives
      (omega arith) (λ k p q. ground arith) refl (λ e. absurd (ground (arith, e)))

second_attempt :
    mkdtemp getentropy time 7 mkdir template
    ≡ directory (b'd' ∷ b'.' ∷ b'A' ∷ b'Z' ∷ b'a' ∷ b'z' ∷ b'0' ∷ b'9' ∷ [])
unfolding suffix_entropy mkdtemp mkdtemp_loop fill_suffix tmpnam_alphabet
second_attempt = refl
