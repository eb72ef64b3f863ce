-- ===== src/Str/Pad.antt =====
-- `stpcpy` and `stpncpy`: the copies that return where they stopped.
use native.Mathlib.Decide.{dec_lt}
use libsolcompat.Common.{
  ℕ, zero, suc, ◌+◌, ◌-◌, ◌≤◌, ◌<◌, ◌≡◌, refl, ap, ◌∙◌, ◌⊎◌, inl, inr, Option, some, arith, Block,
  get_elem?, length, min, [], ◌∷◌,
}
use libsolcompat.Common.Libc.{strlen, IsString, strlen_lem, store_total}
use libsolcompat.Str.{stpcpy_loop, stpcpy, copy_bounded, pad_zeros, stpncpy}

-- What a loop that wrote the bytes from `i` and before `e` returns.
record Written (src : Block) (i e : ℕ) (dst : Block) (result : Option (ℕ × Block)) : Type 0 where
  out : Block
  returns : result ≡ some (e, out)
  same_length : length out ≡ length dst
  copied : (k : ℕ) → i ≤ k → k < e → get_elem? out k ≡ get_elem? src k
  kept : (k : ℕ) → (k < i) ⊎ (e ≤ k) → get_elem? out k ≡ get_elem? dst k

copy_bounded_lem :
    (src : Block) (m : ℕ)
    → IsString src m
    → (rounds i : ℕ) (dst : Block) → i ≤ m
    → i + rounds ≤ length dst
    → Written src i (min m (i + rounds)) dst (copy_bounded dst src i rounds)
unfolding copy_bounded
copy_bounded_lem src m str zero i dst h h' = record {
  out = dst;
  returns = ap (λ (t : ℕ). some (t, dst)) (omega arith);
  same_length = refl;
  copied = λ k p q. absurd (omega arith);
  kept = λ k p. refl;
}
copy_bounded_lem src m str (suc rounds) i dst h h' = elim (dec_lt i m) [
  | no end ↦ record {
    out = dst;
    returns = ground (arith, str.ends);
    same_length = refl;
    copied = λ k p q. absurd (omega arith);
    kept = λ k p. refl;
  }
  | yes more ↦
      let (c, ec, ne) = str.bytes i more in
      let (dst', es, len, at, other) = store_total dst i c (omega arith) in
      let r = copy_bounded_lem src m str rounds (i + 1) dst' (omega arith) (omega (arith, len)) in
      record {
        out = r.out;
        returns = ground (arith, r.returns);
        same_length = r.same_length ∙ len;
        copied = λ k p q. ground (arith, r.copied k, r.kept k);
        kept = λ k p. ground (arith, r.kept k, other k);
      }
]

record Padded (i e : ℕ) (dst : Block) (result : Option (ℕ × Block)) : Type 0 where
  out : Block
  returns : result ≡ some (e, out)
  same_length : length out ≡ length dst
  zeros : (k : ℕ) → i ≤ k → k < e → get_elem? out k ≡ some 0
  kept : (k : ℕ) → (k < i) ⊎ (e ≤ k) → get_elem? out k ≡ get_elem? dst k

pad_zeros_lem :
    (rounds i : ℕ) (dst : Block)
    → i + rounds ≤ length dst
    → Padded i (i + rounds) dst (pad_zeros dst i rounds)
unfolding pad_zeros
pad_zeros_lem zero i dst h = record {
  out = dst;
  returns = ap (λ (t : ℕ). some (t, dst)) (omega arith);
  same_length = refl;
  zeros = λ k p q. absurd (omega arith);
  kept = λ k p. refl;
}
pad_zeros_lem (suc rounds) i dst h =
    let (dst', es, len, at, other) = store_total dst i 0 (omega arith) in
    let r = pad_zeros_lem rounds (i + 1) dst' (omega (arith, len)) in
    record {
      out = r.out;
      returns = ground (arith, r.returns);
      same_length = r.same_length ∙ len;
      zeros = λ k p q. ground (arith, r.zeros k, r.kept k);
      kept = λ k p. ground (arith, r.kept k, other k);
    }

-- On a string of `m` bytes and a destination of at least `n`, `stpncpy` writes the first `n` bytes:
-- those of the string as far as it goes, and then zeros. It returns `dst + n` whatever `m` is, so
-- not the first zero that it wrote where `m` is below `n`.
pub stpncpy-returns_end :
    (dst src : Block) (n m : ℕ)
    → strlen src ≡ some m
    → n ≤ length dst
    → (out : Block) × (stpncpy dst src n ≡ some (n, out))
      × (length out ≡ length dst)
      × ((k : ℕ) → k < n → k < m → get_elem? out k ≡ get_elem? src k)
      × ((k : ℕ) → k < n → m ≤ k → get_elem? out k ≡ some 0)
      × ((k : ℕ) → n ≤ k → get_elem? out k ≡ get_elem? dst k)
unfolding stpncpy
stpncpy-returns_end dst src n m e h =
    let str = strlen_lem src m e in
    let c = copy_bounded_lem src m str n 0 dst (omega arith) (omega arith) in
    let i = min m (0 + n) in
    let p = pad_zeros_lem (n - i) i c.out (omega (arith, c.same_length)) in
    (
      p.out,
      ground (arith, c.returns, p.returns),
      p.same_length ∙ c.same_length,
      (λ k q q'. ground (arith, c.copied k, p.kept k)),
      (λ k q q'. p.zeros k (omega arith) (omega arith)),
      λ k q. ground (arith, c.kept k, p.kept k),
    )

stpcpy_loop_lem :
    (src : Block) (d m : ℕ) (dst : Block)
    → IsString src m
    → d + m < length dst
    → (out : Block) × (stpcpy_loop dst d src ≡ some (d + m, out))
      × (length out ≡ length dst)
      × ((k : ℕ) → k ≤ m → get_elem? out (d + k) ≡ get_elem? src k)
      × ((k : ℕ) → (k < d) ⊎ (d + m < k) → get_elem? out k ≡ get_elem? dst k)
unfolding stpcpy_loop
stpcpy_loop_lem [] d m dst str h = absurd (omega (arith, str.fits))
stpcpy_loop_lem (x ∷ src) d zero dst str h =
    let (dst', es, len, at, other) = store_total dst d x (omega arith) in
    (
      dst',
      ground (arith, str.ends),
      len,
      (λ k q. let e : k ≡ 0 = omega arith in ground (arith, str.ends)),
      λ k p. other k (omega arith),
    )
stpcpy_loop_lem (x ∷ src) d (suc m) dst str h =
    let (c, ec, ne) = str.bytes 0 (omega arith) in
    let (dst', es, len, at, other) = store_total dst d x (omega arith) in
    let tail : IsString src m = record {
      ends = str.ends;
      fits = omega (arith, str.fits);
      bytes = λ k q. str.bytes (suc k) (omega arith);
    } in
    let (out, r, l, copied, kept) = stpcpy_loop_lem src (d + 1) m dst' tail (omega (arith, len)) in
    (
      out,
      ground (arith, r),
      l ∙ len,
      elim [
        | zero ↦ λ q. ground (arith, kept d (inl (omega arith)))
        | suc k ↦ λ q. ground (arith, copied k (omega arith))
      ],
      λ k p. ground (arith, kept k, other k),
    )

-- On a string of `m` bytes and a destination with room for it, `stpcpy` copies the string with its
-- zero byte, touches nothing else, and returns the index of the zero byte.
pub stpcpy_lem :
    (dst src : Block) (m : ℕ)
    → strlen src ≡ some m
    → m < length dst
    → (out : Block) × (stpcpy dst src ≡ some (m, out))
      × (length out ≡ length dst)
      × ((k : ℕ) → k ≤ m → get_elem? out k ≡ get_elem? src k)
      × ((k : ℕ) → m < k → get_elem? out k ≡ get_elem? dst k)
unfolding stpcpy
stpcpy_lem dst src m e h =
    let (out, r, l, copied, kept) =
      stpcpy_loop_lem src 0 m dst (strlen_lem src m e) (omega arith) in
    (
      out,
      ground (arith, r),
      l,
      (λ k q. ground (arith, copied k)),
      λ k q. kept k (inr (omega arith)),
    )
