-- ===== src/Common/Libc.antt =====
-- The functions of string.h that the sources use, over blocks of bytes. Positions are indices in a
-- block; `none` is an access out of it.
use Prim.Native.Nat.{ℕ, zero, suc, ◌+◌, ◌≤◌, ◌<◌}
use mathlib.Core.Path.{◌≡◌, refl, sym, ◌∙◌}
use mathlib.Core.Logic.{◌≢◌, ◌⊎◌, inl, inr}
use mathlib.Core.Bool.{Bool, true, false}
use mathlib.Core.List.{[], ◌∷◌}
use mathlib.Core.Option.{Option, none, some}
use mathlib.Core.Option
use native.Mathlib.Omega.{arith}
use libsolcompat.Common.Tests.{◌==◌, Option-cases, if◌then◌else◌, ◌>>=◌}
use libsolcompat.Common.Lists.{
  length, get_elem?, get_elem?_total, length-set, set, get_elem?-set_self, get_elem?-set_ne,
}
use libsolcompat.Common.Memory.{Block, load, store}

-- The index of the first zero byte.
unfoldable pub strlen : Block → Option ℕ
strlen [] = none
strlen (c ∷ s) = if c == 0 then some 0 else Option.map suc (strlen s)

-- `memcpy(dst + d, src + s, n)`, the blocks apart.
unfoldable pub memcpy : Block → ℕ → Block → ℕ → ℕ → Option Block
memcpy dst d src s zero = some dst
memcpy dst d src s (suc n) = do
  c ← load src s
  dst' ← store dst d c
  memcpy dst' (d + 1) src (s + 1) n

-- `memcmp(a + i, b + j, n) == 0`
unfoldable pub memeq : Block → ℕ → Block → ℕ → ℕ → Option Bool
memeq a i b j zero = some true
memeq a i b j (suc n) = do
  x ← load a i
  y ← load b j
  if x == y then memeq a (i + 1) b (j + 1) n else some false

store-set : (b : Block) (i v : ℕ) → i < length b → store b i v ≡ some (set b i v)
store-set [] i v h = absurd (omega arith)
store-set (x ∷ xs) zero v h = refl
store-set (x ∷ xs) (suc i) v h = rw (store-set xs i v (omega arith))

-- A write within a block: its result, read back at that index and at any other.
pub store_total :
    (b : Block) (i v : ℕ)
    → i < length b
    → (out : Block) × (store b i v ≡ some out)
      × (length out ≡ length b)
      × (get_elem? out i ≡ some v)
      × ((k : ℕ) → k ≢ i → get_elem? out k ≡ get_elem? b k)
store_total b i v h = (
  set b i v,
  store-set b i v h,
  length-set b i v,
  get_elem?-set_self b i v h,
  λ k ne. get_elem?-set_ne b i k v (λ e. ne (sym e)),
)

-- What `strlen` returns: the string's bytes are not zero and a zero byte follows them.
pub record IsString (s : Block) (n : ℕ) : Type 0 where
  pub ends : get_elem? s n ≡ some 0
  pub fits : n < length s
  pub bytes : (k : ℕ) → k < n → (c : ℕ) × (get_elem? s k ≡ some c) × (c ≢ 0)

-- What a copy within both blocks returns.
pub record Copied (dst : Block) (d : ℕ) (src : Block) (s n : ℕ) (result : Option Block)
    : Type 0 where
  pub out : Block
  pub returns : result ≡ some out
  pub same_length : length out ≡ length dst
  pub copied : (k : ℕ) → k < n → get_elem? out (d + k) ≡ get_elem? src (s + k)
  pub kept : (k : ℕ) → (k < d) ⊎ (d + n ≤ k) → get_elem? out k ≡ get_elem? dst k

pub memcpy_lem :
    (dst : Block) (d : ℕ) (src : Block) (s n : ℕ)
    → d + n ≤ length dst
    → s + n ≤ length src
    → Copied dst d src s n (memcpy dst d src s n)
unfolding memcpy
memcpy_lem dst d src s zero h h' = record {
  out = dst;
  returns = refl;
  same_length = refl;
  copied = λ k q. absurd (omega arith);
  kept = λ k p. refl;
}
memcpy_lem dst d src s (suc n) h h' =
    let (c, ec) = get_elem?_total src s (omega arith) in
    let (dst', es, len, at, other) = store_total dst d c (omega arith) in
    let rest = memcpy_lem dst' (d + 1) src (s + 1) n (omega (arith, len)) (omega arith) in
    rw (ec, es)
      (record {
        out = rest.out;
        returns = rest.returns;
        same_length = rest.same_length ∙ len;
        copied = elim [
          | zero ↦ λ q. ground (arith, rest.kept d (inl (omega arith)))
          | suc k ↦ λ q. ground (arith, rest.copied k (omega arith))
        ];
        kept = λ k p. ground (arith, rest.kept k, other k);
      })

strlen-IsString : (s : Block) (n : ℕ) → strlen s ≡ some n → IsString s n
unfolding strlen
strlen-IsString [] n h = cc
strlen-IsString (zero ∷ s) n h =
    let e : n ≡ 0 = cc in
    rw e (record { ends = refl; fits = omega arith; bytes = λ k q. absurd (omega arith) })
strlen-IsString (suc c ∷ s) n h = elim (Option-cases (strlen s)) [
  | inl e ↦ absurd (ground arith)
  | inr (m, e) ↦
      let r = strlen-IsString s m e in
      let eq : n ≡ suc m = ground arith in
      rw eq (record {
        ends = r.ends;
        fits = omega (arith, r.fits);
        bytes = elim [
          | zero ↦ λ q. (suc c, refl, omega arith)
          | suc k ↦ λ q. r.bytes k (omega arith)
        ];
      })
]

pub strlen_lem : (s : Block) (n : ℕ) → strlen s ≡ some n → IsString s n
strlen_lem s n h = strlen-IsString s n h

-- A byte that is not zero and stands before the first zero.
pub IsString-byte :
    {s : Block} {n : ℕ} → IsString s n → (k c : ℕ) → k < n → get_elem? s k ≡ some c → c ≢ 0
IsString-byte str k c q e = let (d, ed, ne) = str.bytes k q in ground arith
