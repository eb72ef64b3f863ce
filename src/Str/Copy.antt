-- ===== src/Str/Copy.antt =====
-- The bounded copies: what each writes, what it returns, and that it stays in its blocks.
use native.Mathlib.Decide.{dec_lt}
use libsolcompat.Common.{
  ap, Option-cases, true, false, ℕ, zero, suc, ◌+◌, ◌-◌, ◌≤◌, ◌<◌, ◌≡◌, refl, ◌∙◌, ◌⊎◌, inl, inr,
  Option, none, some, arith, Block, store, get_elem?, length, min, ltb, ◌==◌, Bool-cases,
}
use libsolcompat.Common.Libc.{strlen, memcpy, IsString, strlen_lem, memcpy_lem, store_total}
use libsolcompat.Str.{scan_bounded, strnlen, strndup, strlcpy, strlcat}

-- Counting stops at the zero byte of a string or at the bound.
pub scan_bounded_lem :
    (s : Block) (n : ℕ)
    → IsString s n
    → (rounds len : ℕ) → len ≤ n
    → scan_bounded s len rounds ≡ some (min n (len + rounds))
unfolding scan_bounded
scan_bounded_lem s n str zero len h = ap some (omega arith)
scan_bounded_lem s n str (suc rounds) len h = elim (dec_lt len n) [
  | yes inside ↦
      let (c, ec, ne) = str.bytes len inside in
      rw ec (ground (arith, scan_bounded_lem s n str rounds (len + 1)))
  | no end ↦ let e : len ≡ n = omega arith in rw (e, str.ends) (ap some (omega arith))
]

-- `strnlen` of a string of `n` bytes is the smaller of `n` and the bound.
pub strnlen-min :
    (s : Block) (n maxlen : ℕ) → strlen s ≡ some n → strnlen s maxlen ≡ some (min n maxlen)
unfolding strnlen
strnlen-min s n maxlen e =
    scan_bounded_lem s n (strlen_lem s n e) maxlen 0 (omega arith) ∙ ap some (omega arith)

-- `out` is `dst` with `copylen` bytes of `src` and a zero byte written at `d`.
pub record Terminated (dst src : Block) (d copylen : ℕ) (out : Block) : Type 0 where
  pub same_length : length out ≡ length dst
  pub copied : (k : ℕ) → k < copylen → get_elem? out (d + k) ≡ get_elem? src k
  pub ends : get_elem? out (d + copylen) ≡ some 0
  pub kept : (k : ℕ) → (k < d) ⊎ (d + copylen < k) → get_elem? out k ≡ get_elem? dst k

-- `memcpy` and then the zero byte, at `end`.
pub record CopyTerminate (dst : Block) (d : ℕ) (src : Block) (n end : ℕ) : Type 0 where
  pub mid : Block
  pub out : Block
  pub copies : memcpy dst d src 0 n ≡ some mid
  pub stores : store mid end 0 ≡ some out
  pub result : Terminated dst src d n out

pub copy_terminate :
    (dst : Block) (d : ℕ) (src : Block) (n end : ℕ)
    → d + n ≡ end
    → end < length dst
    → n ≤ length src
    → CopyTerminate dst d src n end
copy_terminate dst d src n end e h h' =
    let c = memcpy_lem dst d src 0 n (omega arith) (omega arith) in
    let (out, es, len, at, other) = store_total c.out end 0 (rw c.same_length h) in
    record {
      mid = c.out;
      out = out;
      copies = c.returns;
      stores = es;
      result = record {
        same_length = len ∙ c.same_length;
        copied = λ k q. other (d + k) (omega arith) ∙ ground (arith, c.copied k);
        ends = rw e at;
        kept = λ k q. other k (omega arith) ∙ c.kept k (omega arith);
      };
    }

-- On a string of `n` bytes and a destination of at least `size`, `strlcpy` returns `n` and stays
-- within the first `size` bytes: with `size` 0 it writes nothing, and else the first
-- `min n (size - 1)` bytes of the string and a zero byte.
pub strlcpy-Terminated :
    (dst src : Block) (size n : ℕ)
    → strlen src ≡ some n
    → size ≤ length dst
    → (out : Block) × (strlcpy dst src size ≡ some (n, out))
      × (size ≡ 0 → out ≡ dst)
      × (0 < size → Terminated dst src 0 (min n (size - 1)) out)
unfolding strlcpy
strlcpy-Terminated dst src size n e h = elim (Bool-cases (ltb 0 size)) [
  | inr none_fit ↦ (dst, rw (e, none_fit), (λ z. refl), λ p. absurd (ground arith))
  | inl room ↦
      let str = strlen_lem src n e in
      let c =
        copy_terminate dst 0 src (min n (size - 1)) (min n (size - 1)) (omega arith) (ground arith)
          (omega (arith, str.fits)) in
      (c.out, ground (arith, c.copies, c.stores), (λ z. absurd (ground arith)), λ p. c.result)
]

-- `strlcat` to a string of `m` bytes with `m < size`: it returns `m + n` and writes, at the end of
-- the destination's string, the first `min n (size - m - 1)` bytes of the source and a zero byte.
pub strlcat-Terminated :
    (dst src : Block) (size m n : ℕ)
    → strlen dst ≡ some m
    → strlen src ≡ some n
    → m < size
    → size ≤ length dst
    → (out : Block) × (strlcat dst src size ≡ some (m + n, out))
      × Terminated dst src m (min n (size - m - 1)) out
unfolding strlcat
strlcat-Terminated dst src size m n em en lt h =
    let str = strlen_lem src n en in
    let count : strnlen dst size ≡ some m = strnlen-min dst m size em ∙ ap some (omega arith) in
    let more : (m == size) ≡ false = ground arith in
    elim (Bool-cases (ltb n (size - m))) [
      | inl fits ↦
          let c = memcpy_lem dst m src 0 (n + 1) (ground arith) (omega (arith, str.fits)) in
          (
            c.out,
            rw (count, en, more, fits, c.returns),
            record {
              same_length = c.same_length;
              copied = λ k q. ground (arith, c.copied k);
              ends = ground (arith, c.copied n, str.ends);
              kept = λ k q. c.kept k (ground arith);
            },
          )
      | inr cut ↦
          let c =
            copy_terminate dst m src (min n (size - m - 1)) (size - 1) (ground arith) (omega arith)
              (omega (arith, str.fits)) in
          (c.out, ground (arith, c.copies, c.stores, count), c.result)
    ]

-- Where the destination has no zero byte within `size`, `strlcat` leaves it and returns the length
-- that it tried to make.
pub strlcat_full :
    (dst src : Block) (size n : ℕ)
    → strnlen dst size ≡ some size
    → strlen src ≡ some n
    → strlcat dst src size ≡ some (size + n, dst)
unfolding strlcat
strlcat_full dst src size n e en =
    let same : (size == size) ≡ true = ground arith in rw (e, en, same)

-- `strndup` of a string of `n` bytes, with an allocator that gives what is asked for or nothing:
-- it returns NULL, or a block with the first `min n bound` bytes of the string and a zero byte.
pub strndup-Terminated :
    (malloc : ℕ → Option Block) (s : Block) (bound n : ℕ)
    → ((size : ℕ) (b : Block) → malloc size ≡ some b → size ≤ length b)
    → strlen s ≡ some n
    → ((malloc (min n bound + 1) ≡ none) × (strndup malloc s bound ≡ some none))
      ⊎ ((fresh out : Block) × (malloc (min n bound + 1) ≡ some fresh)
          × (strndup malloc s bound ≡ some (some out))
          × Terminated fresh s 0 (min n bound) out)
unfolding strndup
strndup-Terminated malloc s bound n gives e =
    let str = strlen_lem s n e in
    let count : scan_bounded s 0 bound ≡ some (min n bound) =
      scan_bounded_lem s n str bound 0 (omega arith) ∙ ap some (omega arith) in
    elim (Option-cases (malloc (min n bound + 1))) [
      | inl fails ↦ inl (fails, rw (count, fails))
      | inr (fresh, ok) ↦
          let c =
            copy_terminate fresh 0 s (min n bound) (min n bound) (omega arith)
              (omega (arith, gives (min n bound + 1) fresh ok)) (omega (arith, str.fits)) in
          inr (fresh, c.out, ok, rw (count, ok, c.copies, c.stores), c.result)
    ]
