-- ===== src/Network/Inet6/Length.antt =====
-- src/network.c: the length of an IPv6 address as text, and the words of its bytes.
use mathlib.Core.Path.{subst}
use libsolcompat.Common.{
  ℕ, zero, suc, ◌+◌, ◌*◌, ◌/◌, ◌%◌, ◌≤◌, ◌<◌, ◌≡◌, refl, sym, ap, ap₂, List, [], ◌∷◌, ◌++◌, length,
  replicate, arith, All, length-append, length-replicate,
}
use libsolcompat.Network.Inet6.{words_of, bytes_of, hex, format_address}
use libsolcompat.Network.Inet6.Hex.{hex_head}
use libsolcompat.Network.Inet6.Groups.{IsWord, tail_text, joined}
use libsolcompat.Network.Inet6.Layout.{Layout, plain, shortened, format_address-Layout}

abbrev pub IsByte : ℕ → Type 0
IsByte b = b < 256

pub All-left : (xs ys : List ℕ) → All IsWord (xs ++ ys) → All IsWord xs
All-left [] ys h = tt
All-left (x ∷ xs) ys h = (h.0, All-left xs ys (h.1))

pub All-right : (xs ys : List ℕ) → All IsWord (xs ++ ys) → All IsWord ys
All-right [] ys h = h
All-right (x ∷ xs) ys h = All-right xs ys (h.1)

pub length-hex : (w : ℕ) → IsWord w → (0 < length (hex w)) × (length (hex w) ≤ 4)
length-hex w h =
    let (c, s, e, digit, short) = hex_head w h in
    subst (λ (u : List ℕ). (0 < length u) × (length u ≤ 4)) (sym e)
      (omega arith, omega (arith, short))

pub length-tail_text :
    (words : List ℕ)
    → All IsWord words
    → (length words ≤ length (tail_text words)) × (length (tail_text words) ≤ 5 * length words)
length-tail_text [] h = (omega arith, omega arith)
length-tail_text (w ∷ words) h =
    let ih = length-tail_text words (h.1) in
    let own = length-hex w (h.0) in
    let sum = length-append {0} (hex w) (tail_text words) in
    (omega (arith, ih.0, sum), omega (arith, ih.1, own.1, sum))

pub length-joined :
    (words : List ℕ)
    → All IsWord words
    → (length words ≤ length (joined words))
      × (length (joined words) + 1 ≤ 5 * length words + 1)
      × (0 < length words → length (joined words) + 1 ≤ 5 * length words)
length-joined [] h = (omega arith, omega arith, λ p. absurd (omega arith))
length-joined (w ∷ words) h =
    let rest = length-tail_text words (h.1) in
    let own = length-hex w (h.0) in
    let sum = length-append {0} (hex w) (tail_text words) in
    (
      omega (arith, rest.0, own.0, sum),
      omega (arith, rest.1, own.1, sum),
      λ p. omega (arith, rest.1, own.1, sum),
    )

words_of-IsWord : (bytes : List ℕ) → All IsByte bytes → All IsWord (words_of bytes)
unfolding words_of
words_of-IsWord [] h = tt
words_of-IsWord (a ∷ []) h = tt
words_of-IsWord (a ∷ b ∷ bytes) h = (omega (arith, h.0, h.1.0), words_of-IsWord bytes (h.1.1))

length-words_of : (n : ℕ) (bytes : List ℕ) → length bytes ≡ n * 2 → length (words_of bytes) ≡ n
unfolding words_of
length-words_of zero [] h = refl
length-words_of zero (a ∷ bytes) h = absurd (omega arith)
length-words_of (suc n) [] h = absurd (omega arith)
length-words_of (suc n) (a ∷ []) h = absurd (omega arith)
length-words_of (suc n) (a ∷ b ∷ bytes) h = ap suc (length-words_of n bytes (omega arith))

bytes_of-words_of :
    (n : ℕ) (bytes : List ℕ)
    → length bytes ≡ n * 2
    → All IsByte bytes
    → bytes_of (words_of bytes) ≡ bytes
unfolding words_of bytes_of
bytes_of-words_of zero [] h all = refl
bytes_of-words_of zero (a ∷ bytes) h all = absurd (omega arith)
bytes_of-words_of (suc n) [] h all = absurd (omega arith)
bytes_of-words_of (suc n) (a ∷ []) h all = absurd (omega arith)
bytes_of-words_of (suc n) (a ∷ b ∷ bytes) h all =
    let high : (a * 256 + b) / 256 % 256 ≡ a = omega (arith, all.0, all.1.0) in
    let low : (a * 256 + b) % 256 ≡ b = omega (arith, all.1.0) in
    ap₂ (λ (x : ℕ) (u : List ℕ). x ∷ u) high
      (ap₂ (λ (x : ℕ) (u : List ℕ). x ∷ u) low (bytes_of-words_of n bytes (omega arith) (all.1.1)))

-- An address: sixteen bytes.
abbrev pub IsAddress : List ℕ → Type 0
IsAddress bytes = (length bytes ≡ 16) × All IsByte bytes

pub record Words (bytes : List ℕ) : Type 0 where
  pub words : All IsWord (words_of bytes)
  pub eight : length (words_of bytes) ≡ 8
  pub back : bytes_of (words_of bytes) ≡ bytes

pub IsAddress-Words : (bytes : List ℕ) → IsAddress bytes → Words bytes
IsAddress-Words bytes h = record {
  words = words_of-IsWord bytes (h.1);
  eight = length-words_of 8 bytes (h.0);
  back = bytes_of-words_of 8 bytes (h.0) (h.1);
}

length-Layout :
    (words text : List ℕ)
    → All IsWord words
    → length words ≡ 8
    → Layout words text
    → length text ≤ 39
length-Layout words text all eight (plain e) =
    let bound = length-joined words all in
    omega (arith, ap (λ (u : List ℕ). length u) e, bound.2 (omega arith))
length-Layout words text all eight (shortened pre post len p split e) =
    let all' : All IsWord (pre ++ (replicate len 0 ++ post)) =
      subst (λ (u : List ℕ). All IsWord u) split all in
    let before = length-joined pre (All-left pre (replicate len 0 ++ post) all') in
    let behind =
      length-joined post
        (All-right (replicate len 0) post (All-right pre (replicate len 0 ++ post) all')) in
    let total = ap (λ (u : List ℕ). length u) split in
    let sum = length-append {0} pre (replicate len 0 ++ post) in
    let sum' = length-append {0} (replicate len 0) post in
    let text_sum = length-append {0} (joined pre) (b':' ∷ b':' ∷ joined post) in
    omega (
      arith,
      ap (λ (u : List ℕ). length u) e,
      before.1,
      behind.1,
      total,
      sum,
      sum',
      length-replicate {0} {A = ℕ} len 0,
      text_sum,
    )

-- The text of an address has at most 39 bytes, so that INET6_ADDRSTRLEN is enough for it.
pub length-format_address :
    (bytes : List ℕ) → IsAddress bytes → length (format_address (words_of bytes)) ≤ 39
length-format_address bytes h =
    let w = IsAddress-Words bytes h in
    length-Layout (words_of bytes) (format_address (words_of bytes)) (w.words) (w.eight)
      (format_address-Layout (words_of bytes))

pub bytes_of-All : (groups : List ℕ) → All IsByte (bytes_of groups)
unfolding bytes_of
bytes_of-All [] = tt
bytes_of-All (g ∷ groups) = (omega arith, (omega arith, bytes_of-All groups))
