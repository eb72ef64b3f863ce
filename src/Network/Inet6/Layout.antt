-- ===== src/Network/Inet6/Layout.antt =====
-- src/network.c: what the printing loop of `inet_ntop` makes of the words around the run.
use libsolcompat.Common.{
  ℕ, zero, suc, ◌+◌, ◌-◌, ◌≤◌, ◌<◌, ◌≡◌, refl, ◌∙◌, sym, ap, ap₂, true, false, Option, none, some,
  List, [], ◌∷◌, ◌++◌, length, take, drop, replicate, ltb, ◌==◌, arith, append_assoc, length-take,
}
use libsolcompat.Network.Inet6.{
  no_runs, scan_words, hex, is_at, is_after, format_words, format_address,
}
use libsolcompat.Network.Inet6.Groups.{tail_text, joined}
use libsolcompat.Network.Inet6.Longest.{AreZero, IsRun, scan_words-IsBest}

-- No word from `i` on is at the run or behind it.
abbrev IsPast : Option ℕ → ℕ → ℕ → Type 0
IsPast start len i = (k : ℕ) → i ≤ k → (is_at start k ≡ false) × (is_after start len k ≡ false)

format_past :
    (words : List ℕ) (start : Option ℕ) (len i : ℕ)
    → 0 < i
    → IsPast start len i
    → format_words start len i 0 words ≡ tail_text words
unfolding format_words
format_past [] start len i p past = refl
format_past (w ∷ words) start len i p past =
    let here = past i (omega arith) in
    let positive : ltb 0 i ≡ true = ground (arith, p) in
    let ih = format_past words start len (i + 1) (omega arith) (λ k q. past k (omega arith)) in
    rw (here.0, here.1, positive, ih) refl

format_skip :
    (n : ℕ) (words : List ℕ) (start : Option ℕ) (len i : ℕ)
    → format_words start len i n words ≡ format_words start len (i + n) 0 (drop n words)
unfolding format_words
format_skip zero words start len i = ap (λ (k : ℕ). format_words start len k 0 words) (omega arith)
format_skip (suc n) [] start len i = refl
format_skip (suc n) (w ∷ words) start len i =
    format_skip n words start len (i + 1)
    ∙ ap (λ (k : ℕ). format_words start len k 0 (drop n words)) (omega arith)

-- The words before the run, the first of them not at the start of the text.
format_before :
    (pre rest : List ℕ) (s len i : ℕ)
    → 0 < i
    → i + length pre ≡ s
    → format_words (some s) len i 0 (pre ++ rest)
      ≡ tail_text pre ++ format_words (some s) len s 0 rest
unfolding format_words
format_before [] rest s len i p e = ap (λ (k : ℕ). format_words (some s) len k 0 rest) (omega arith)
format_before (w ∷ pre) rest s len i p e =
    let at : (i == s) ≡ false = ground arith in
    let behind : (i == s + len) ≡ false = ground arith in
    let positive : ltb 0 i ≡ true = ground arith in
    let ih = format_before pre rest s len (i + 1) (omega arith) (omega arith) in
    rw (at, behind, positive, ih)
      (ap (λ (u : List ℕ). b':' ∷ u)
        (sym (append_assoc (hex w) (tail_text pre) (format_words (some s) len s 0 rest))))

format_first :
    (pre rest : List ℕ) (s len : ℕ)
    → length pre ≡ s
    → format_words (some s) len 0 0 (pre ++ rest) ≡ joined pre ++ format_words (some s) len s 0 rest
unfolding format_words
format_first [] rest s len e = ap (λ (k : ℕ). format_words (some s) len k 0 rest) e
format_first (w ∷ pre) rest s len e =
    let at : (0 == s) ≡ false = ground arith in
    let ih = format_before pre rest s len (0 + 1) (omega arith) (omega arith) in
    rw (at, ih) (sym (append_assoc (hex w) (tail_text pre) (format_words (some s) len s 0 rest)))

-- The words behind the run.
format_behind :
    (post : List ℕ) (s len : ℕ) → 0 < len → format_words (some s) len (s + len) 0 post ≡ joined post
unfolding format_words
format_behind [] s len p = refl
format_behind (w ∷ post) s len p =
    let at : (s + len == s) ≡ false = ground arith in
    let behind : (s + len == s + len) ≡ true = ground arith in
    let positive : ltb 0 (s + len) ≡ true = ground arith in
    let past =
      format_past post (some s) len (s + len + 1) (omega arith)
        (λ k q. (ground arith, ground arith)) in
    rw (at, behind, positive, past) refl

drop_zeros : (n : ℕ) (post : List ℕ) → drop n (replicate n 0 ++ post) ≡ post
drop_zeros zero post = refl
drop_zeros (suc n) post = drop_zeros n post

-- The run itself.
format_at :
    (post : List ℕ) (s len : ℕ)
    → 0 < len
    → format_words (some s) len s 0 (replicate len 0 ++ post) ≡ b':' ∷ b':' ∷ joined post
unfolding format_words
format_at post s zero p = absurd (omega arith)
format_at post s (suc len) p =
    let here : (s == s) ≡ true = ground arith in
    let rest : format_words (some s) (suc len) (s + 1) (suc len - 1) (replicate len 0 ++ post)
        ≡ joined post =
      ap (λ (k : ℕ). format_words (some s) (suc len) (s + 1) k (replicate len 0 ++ post))
        (omega arith)
      ∙ format_skip len (replicate len 0 ++ post) (some s) (suc len) (s + 1)
      ∙ ap₂ (λ (k : ℕ) (u : List ℕ). format_words (some s) (suc len) k 0 u) (omega arith)
          (drop_zeros len post)
      ∙ format_behind post s (suc len) (omega arith) in
    rw (here, rest) refl

format_run :
    (pre post : List ℕ) (len : ℕ)
    → 0 < len
    → format_words (some (length pre)) len 0 0 (pre ++ (replicate len 0 ++ post))
      ≡ joined pre ++ (b':' ∷ b':' ∷ joined post)
format_run pre post len p =
    format_first pre (replicate len 0 ++ post) (length pre) len refl
    ∙ ap (λ (u : List ℕ). joined pre ++ u) (format_at post (length pre) len p)

format_no_run : (words : List ℕ) (len : ℕ) → format_words none len 0 0 words ≡ joined words
unfolding format_words
format_no_run [] len = refl
format_no_run (w ∷ words) len =
    ap (λ (u : List ℕ). hex w ++ u)
      (format_past words none len (0 + 1) (omega arith) (λ k q. (refl, refl)))

zeros_prefix : (n : ℕ) (words : List ℕ) → AreZero words 0 n → words ≡ replicate n 0 ++ drop n words
zeros_prefix zero words z = refl
zeros_prefix (suc n) [] z = let e = z 0 (omega arith) (omega arith) in cc
zeros_prefix (suc n) (w ∷ words) z =
    let head : w ≡ 0 = ground (arith, z 0 (omega arith) (omega arith)) in
    ap₂ (λ (a : ℕ) (u : List ℕ). a ∷ u) head
      (zeros_prefix n words (λ k p q. z (suc k) (omega arith) (omega arith)))

-- Where the words hold a run, they are the words before it, its zeros and the words behind it.
run_split :
    (s len : ℕ) (words : List ℕ)
    → s ≤ length words
    → AreZero words s len
    → words ≡ take s words ++ (replicate len 0 ++ drop len (drop s words))
run_split zero len words b z = zeros_prefix len words (λ k p q. z k p q)
run_split (suc s) len [] b z = absurd (omega arith)
run_split (suc s) len (w ∷ words) b z =
    ap (λ (u : List ℕ). w ∷ u)
      (run_split s len words (omega arith) (λ k p q. z (suc k) (omega arith) (omega arith)))

-- The text without a run, and with one.
pub data Layout (words text : List ℕ) : Type 0 where
  plain : text ≡ joined words → Layout words text
  shortened :
      (pre post : List ℕ) (len : ℕ)
      → 2 ≤ len
      → words ≡ pre ++ (replicate len 0 ++ post)
      → text ≡ joined pre ++ (b':' ∷ b':' ∷ joined post)
      → Layout words text

format_words-Layout :
    (words : List ℕ) (start : Option ℕ) (len : ℕ)
    → IsRun words (length words) start len
    → Layout words (format_words start len 0 0 words)
format_words-Layout words none len r = plain (format_no_run words len)
format_words-Layout words (some s) len r =
    let pre = take s words in
    let post = drop len (drop s words) in
    let split = run_split s len words (omega (arith, r.1)) (r.2) in
    let at : s ≡ length pre = omega (arith, length-take s words, r.1) in
    shortened pre post len (r.0) split (
      ap₂ (λ (k : ℕ) (u : List ℕ). format_words (some k) len 0 0 u) at split
      ∙ format_run pre post len (omega (arith, r.0)))

pub format_address-Layout : (words : List ℕ) → Layout words (format_address words)
format_address-Layout words =
    format_words-Layout words (scan_words no_runs 0 words).best_start
      (scan_words no_runs 0 words).best_len (scan_words-IsBest words).run
