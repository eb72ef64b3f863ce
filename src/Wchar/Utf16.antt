-- ===== src/Wchar/Utf16.antt =====
-- src/wchar.c: a character that `mbrtoc16` splits into units is put together again by `c16rtomb`.
use Prim.Native.Nat.{bit_or}
use libsolcompat.Common.{
  ℕ, zero, suc, ◌+◌, ◌-◌, ◌/◌, ◌%◌, ◌^◌, ◌≤◌, ◌<◌, ◌≡◌, refl, ◌∙◌, ap, ap₂, ◌⊎◌, inl, inr, Bool,
  true, false, ◌&&◌, Option, some, List, [], leb, ◌==◌, arith, Bool-cases,
}
use libsolcompat.Wchar.{
  MbState, decoded, Locale, Got16, continued, unit16, pending, stash, high_surrogate, low_surrogate,
  encode16, mbrtoc16, is_high, is_low, write_wide, combine, c16rtomb,
}

abbrev adds_below : ℕ → ℕ → Bool
adds_below base zero = true
adds_below base (suc n) = bit_or base n == base + n && adds_below base n

adds_lem : (base n x : ℕ) → adds_below base n ≡ true → x < n → bit_or base x ≡ base + x
adds_lem base zero x e h = absurd (omega arith)
adds_lem base (suc n) x e h = elim (Bool-cases (x == n)) [
  | inl last ↦ let at : x ≡ n = ground arith in rw at (ground (arith, e))
  | inr before ↦ adds_lem base n x (ground (arith, e)) (ground arith)
]

high_adds : adds_below 0xD800 1024 ≡ true
high_adds = refl

low_adds : adds_below 0xDC00 1024 ≡ true
low_adds = refl

high_surrogate_lem : (v : ℕ) → v < 0x100000 → high_surrogate v ≡ 0xD800 + v / 1024
high_surrogate_lem v h =
    let small : v / 1024 < 1024 = omega arith in
    let adds = adds_lem 0xD800 1024 (v / 1024) high_adds small in
    ap (λ (x : ℕ). x % 2 ^ 16) adds ∙ below_word
  where
    below_word : (0xD800 + v / 1024) % 2 ^ 16 ≡ 0xD800 + v / 1024
    below_word = omega arith

low_surrogate_lem : (v : ℕ) → low_surrogate v ≡ 0xDC00 + v % 1024
low_surrogate_lem v =
    let small : v % 1024 < 1024 = omega arith in
    let adds = adds_lem 0xDC00 1024 (v % 1024) low_adds small in
    ap (λ (x : ℕ). x % 2 ^ 16) adds ∙ below_word
  where
    below_word : (0xDC00 + v % 1024) % 2 ^ 16 ≡ 0xDC00 + v % 1024
    below_word = omega arith

-- The unit that is stashed is the one that is pending.
pending-stash : (unit : ℕ) (st : MbState) → unit < 2 ^ 16 → pending (stash unit st) ≡ unit
pending-stash unit st h = omega arith

high-is_high : (x : ℕ) → x < 1024 → is_high (0xD800 + x) ≡ true
unfolding is_high
high-is_high x h = ground arith

low-is_low : (x : ℕ) → x < 1024 → (is_low (0xDC00 + x) ≡ true) × (is_high (0xDC00 + x) ≡ false)
unfolding is_low is_high
low-is_low x h = (ground arith, ground arith)

-- A unit alone, which `c16rtomb` passes on.
abbrev pub IsSingle : Locale → Option (List ℕ) → MbState → MbState → ℕ → ℕ → Type 0
IsSingle l s st out wc r =
    ((mbrtoc16 l s st).0 ≡ unit16 wc r) × (c16rtomb l (some wc) out ≡ write_wide l (some wc) out)

-- Two units, of which `c16rtomb` keeps the first and writes the character at the second.
abbrev pub IsPair : Locale → Option (List ℕ) → Option (List ℕ) → MbState → MbState → ℕ → ℕ → Type 0
IsPair l s s' st out wc r =
    (high : ℕ) × (low : ℕ) × ((mbrtoc16 l s st).0 ≡ unit16 high r)
    × ((mbrtoc16 l s' (mbrtoc16 l s st).1).0 ≡ continued low)
    × ((c16rtomb l (some high) out).0 ≡ some [])
    × (c16rtomb l (some low) (c16rtomb l (some high) out).1
        ≡ write_wide l (some wc) (record out { raw_low = 0; raw_high = 0 }))

single_lem :
    (l : Locale) (s : Option (List ℕ)) (st out : MbState) (wc r libc : ℕ)
    → l.mbrtowc s st.libc ≡ decoded wc r libc
    → pending st ≡ 0
    → wc ≤ 0xFFFF
    → (wc < 0xD800) ⊎ (0xDFFF < wc)
    → IsSingle l s st out wc r
unfolding mbrtoc16 encode16 c16rtomb is_high is_low
single_lem l s st out wc r libc e p small other =
    let none_pending : (pending st == 0) ≡ true = ground (arith, p) in
    let bmp : leb wc 0xFFFF ≡ true = ground (arith, small) in
    let word : wc % 2 ^ 16 ≡ wc = omega (arith, small) in
    let not_high : is_high wc ≡ false = ground (arith, other) in
    let not_low : is_low wc ≡ false = ground (arith, other) in
    (rw (none_pending, e, bmp, word) refl, rw (not_high, not_low) refl)

first_unit :
    (l : Locale) (s : Option (List ℕ)) (st : MbState) (wc r libc : ℕ)
    → l.mbrtowc s st.libc ≡ decoded wc r libc
    → pending st ≡ 0
    → 0xFFFF < wc
    → mbrtoc16 l s st ≡ (
      unit16 (high_surrogate (wc - 0x10000)) r,
      stash (low_surrogate (wc - 0x10000)) (record st { libc = libc }),
    )
unfolding mbrtoc16 encode16
first_unit l s st wc r libc e p large =
    let none_pending : (pending st == 0) ≡ true = ground (arith, p) in
    let bmp : leb wc 0xFFFF ≡ false = ground (arith, large) in rw (none_pending, e, bmp) refl

second_unit :
    (l : Locale) (s : Option (List ℕ)) (st : MbState) (unit : ℕ)
    → unit < 2 ^ 16
    → 0 < unit
    → (mbrtoc16 l s (stash unit st)).0 ≡ continued unit
unfolding mbrtoc16
second_unit l s st unit h p =
    let same = pending-stash unit st h in
    let waits : (pending (stash unit st) == 0) ≡ false = ground (arith, same) in
    rw waits (ap continued same)

keep_high :
    (l : Locale) (out : MbState) (high : ℕ)
    → is_high high ≡ true
    → c16rtomb l (some high) out ≡ (some [], stash high out)
unfolding c16rtomb
keep_high l out high h = rw h refl

write_low :
    (l : Locale) (out : MbState) (high low : ℕ)
    → high < 2 ^ 16
    → is_high high ≡ true
    → is_low low ≡ true
    → is_high low ≡ false
    → c16rtomb l (some low) (stash high out)
      ≡ write_wide l (some (combine high low)) (record out { raw_low = 0; raw_high = 0 })
unfolding c16rtomb
write_low l out high low h hh ll lh =
    let same = pending-stash high out h in
    let kept : is_high (pending (stash high out)) ≡ true = ap is_high same ∙ hh in
    rw (lh, ll, kept)
      (ap
        (λ (u : ℕ). write_wide l (some (combine u low)) (record out { raw_low = 0; raw_high = 0 }))
        same)

pair_lem :
    (l : Locale) (s s' : Option (List ℕ)) (st out : MbState) (wc r libc : ℕ)
    → l.mbrtowc s st.libc ≡ decoded wc r libc
    → pending st ≡ 0
    → 0xFFFF < wc
    → wc < 0x110000
    → IsPair l s s' st out wc r
pair_lem l s s' st out wc r libc e p large valid =
    let v = wc - 0x10000 in
    let st' = record st { libc = libc } in
    let high_is = high_surrogate_lem v (omega arith) in
    let low_is = low_surrogate_lem v in
    let digit : v / 1024 < 1024 = omega arith in
    let digit' : v % 1024 < 1024 = omega arith in
    let hh : is_high (high_surrogate v) ≡ true =
      ap is_high high_is ∙ high-is_high (v / 1024) digit in
    let low_tests = low-is_low (v % 1024) digit' in
    let first = first_unit l s st wc r libc e p large in
    let kept = keep_high l out (high_surrogate v) hh in
    let whole : combine (high_surrogate v) (low_surrogate v) ≡ wc =
      ap₂ combine high_is low_is ∙ omega arith in
    (
      high_surrogate v,
      low_surrogate v,
      ap (λ (x : Got16 × MbState). x.0) first,
      ap (λ (x : Got16 × MbState). (mbrtoc16 l s' (x.1)).0) first
          ∙ second_unit l s' st' (low_surrogate v) (omega (arith, low_is)) (omega (arith, low_is)),
      ap (λ (x : Option (List ℕ) × MbState). x.0) kept,
      ap (λ (x : Option (List ℕ) × MbState). c16rtomb l (some (low_surrogate v)) (x.1)) kept
          ∙ write_low l out (high_surrogate v) (low_surrogate v) (omega (arith, high_is, digit)) hh
              (ap is_low low_is ∙ low_tests.0) (ap is_high low_is ∙ low_tests.1)
          ∙ ap (λ (u : ℕ). write_wide l (some u) (record out { raw_low = 0; raw_high = 0 })) whole,
    )

-- When libc decodes a Unicode character that is no surrogate, and no unit is pending, mbrtoc16
-- gives either one unit, which c16rtomb writes as the character, or a high and then a low unit,
-- of which c16rtomb writes nothing for the first and the character for the second.
pub c16rtomb-mbrtoc16 :
    (l : Locale) (s s' : Option (List ℕ)) (st out : MbState) (wc r libc : ℕ)
    → l.mbrtowc s st.libc ≡ decoded wc r libc
    → pending st ≡ 0
    → wc < 0x110000
    → (wc < 0xD800) ⊎ (0xDFFF < wc)
    → IsSingle l s st out wc r ⊎ IsPair l s s' st out wc r
c16rtomb-mbrtoc16 l s s' st out wc r libc e p valid other = elim (Bool-cases (leb wc 0xFFFF)) [
  | inl small ↦ inl (single_lem l s st out wc r libc e p (ground arith) other)
  | inr large ↦ inr (pair_lem l s s' st out wc r libc e p (ground arith) valid)
]
