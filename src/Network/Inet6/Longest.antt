-- ===== src/Network/Inet6/Longest.antt =====
-- src/network.c: the scan of `inet_ntop` for the run of zero words that `::` stands for.
use libsolcompat.Common.{
  ℕ, suc, ◌+◌, ◌-◌, ◌≤◌, ◌<◌, ◌≡◌, ◌≢◌, refl, ◌∙◌, sym, ap, ◌⊎◌, inl, inr, false, ◌&&◌, Option,
  none, some, List, [], ◌∷◌, length, get_elem?, ltb, leb, ◌==◌, arith, Bool-cases,
}
use mathlib.Core.Path.{subst}
use libsolcompat.Network.Inet6.{Runs, no_runs, close_run, scan_word, scan_words}

-- The words from `a` on, `n` of them, are zero.
abbrev pub AreZero : List ℕ → ℕ → ℕ → Type 0
AreZero words a n = (k : ℕ) → a ≤ k → k < a + n → get_elem? words k ≡ some 0

-- The best run below word `c`: none, or two zero words at least.
abbrev pub IsRun : List ℕ → ℕ → Option ℕ → ℕ → Type 0
IsRun words c none len = len ≡ 0
IsRun words c (some s) len = (2 ≤ len) × (s + len ≤ c) × AreZero words s len

-- A run of `n` zero words at `a` is no better: it is shorter, or as long and not before.
abbrev pub IsBeaten : ℕ → ℕ → Option ℕ → ℕ → Type 0
IsBeaten a n none len = ⊥
IsBeaten a n (some s) len = (n < len) ⊎ ((n ≡ len) × (s ≤ a))

-- After `i` words, with the open run from `c` on.
record IsScanned (words : List ℕ) (i c : ℕ) (r : Runs) : Type 0 where
  at : c + r.cur_len ≡ i
  start : (r.cur_len ≡ 0) ⊎ (r.cur_start ≡ some c)
  none_yet : r.cur_len ≡ 0 → r.cur_start ≡ none
  zeros : AreZero words c r.cur_len
  edge : (c ≡ 0) ⊎ (get_elem? words (c - 1) ≢ some 0)
  best : IsRun words c r.best_start r.best_len
  beaten :
      (a n : ℕ)
      → 2 ≤ n
      → AreZero words a n
      → a + n ≤ i
      → (c ≤ a) ⊎ IsBeaten a n r.best_start r.best_len

scan_zero :
    (words : List ℕ) (i c : ℕ) (r : Runs)
    → IsScanned words i c r
    → get_elem? words i ≡ some 0
    → IsScanned words (i + 1) c (scan_word r i 0)
unfolding scan_word
scan_zero words i c r x e = record {
  at = omega (arith, x.at);
  start = elim (x.start) [
    | inl none_open ↦
        let c_at : c ≡ i = omega (arith, x.at) in inr (ground (arith, x.none_yet none_open, c_at))
    | inr started ↦ inr (ground (arith, started))
  ];
  none_yet = λ z. absurd (omega arith);
  zeros = λ k p q. elim (Bool-cases (k == i)) [
    | inl here ↦ let at_i : k ≡ i = ground arith in rw at_i e
    | inr past ↦ x.zeros k p (ground (arith, x.at))
  ];
  edge = x.edge;
  best = x.best;
  beaten = λ a n p z b. elim (Bool-cases (leb (a + n) i)) [
    | inl old ↦ x.beaten a n p z (ground arith)
    | inr ends ↦ elim (Bool-cases (leb c a)) [
      | inl later ↦ inl (ground arith)
      | inr before ↦ elim (x.edge) [
        | inl first ↦ absurd (ground arith)
        | inr nonzero ↦ absurd (nonzero (z (c - 1) (ground arith) (ground (arith, x.at))))
      ]
    ]
  ];
}

-- The run that `::` would stand for if the words ended here.
pub record IsBest (words : List ℕ) (i : ℕ) (start : Option ℕ) (len : ℕ) : Type 0 where
  pub run : IsRun words i start len
  pub first_longest : (a n : ℕ) → 2 ≤ n → AreZero words a n → a + n ≤ i → IsBeaten a n start len

IsRun_widen :
    (words : List ℕ) (c i : ℕ) (start : Option ℕ) (len : ℕ)
    → c ≤ i
    → IsRun words c start len
    → IsRun words i start len
IsRun_widen words c i none len h r = r
IsRun_widen words c i (some s) len h r = (r.0, omega (arith, r.1), r.2)

-- A run within the open one, where the open one is not taken.
open_loses :
    (words : List ℕ) (c a n cur : ℕ) (start : Option ℕ) (len : ℕ)
    → IsRun words c start len
    → 2 ≤ n
    → c ≤ a
    → a + n ≤ c + cur
    → (ltb len cur && leb 2 cur) ≡ false
    → IsBeaten a n start len
open_loses words c a n cur none len r p q b e = absurd (ground arith)
open_loses words c a n cur (some s) len r p q b e = elim (Bool-cases (ltb n len)) [
  | inl less ↦ inl (ground arith)
  | inr same ↦ inr (ground arith, omega (arith, r.0, r.1))
]

-- A run that the best one beats, where the open one is longer.
longer_wins :
    (a n c cur : ℕ) (start : Option ℕ) (len : ℕ)
    → IsBeaten a n start len
    → len < cur
    → IsBeaten a n (some c) cur
longer_wins a n c cur none len b h = elim b [ ]
longer_wins a n c cur (some s) len b h = elim b [
  | inl less ↦ inl (omega arith)
  | inr same ↦ inl (omega (arith, same.0))
]

close_run-IsBest :
    (words : List ℕ) (i c : ℕ) (r : Runs)
    → IsScanned words i c r
    → IsBest words i (close_run r).best_start (close_run r).best_len
close_run-IsBest words i c r x = elim (Bool-cases (ltb r.best_len r.cur_len && leb 2 r.cur_len)) [
  | inl taken ↦
      let started : r.cur_start ≡ some c = elim (x.start) [
        | inl z ↦ absurd (ground arith)
        | inr s ↦ s
      ] in
      rw (taken, started)
        (record {
          run = (ground arith, omega (arith, x.at), x.zeros);
          first_longest = λ a n p z b. elim (x.beaten a n p z b) [
            | inl later ↦ elim (Bool-cases (ltb n r.cur_len)) [
              | inl less ↦ inl (ground arith)
              | inr same ↦ inr (ground (arith, x.at), ground (arith, x.at))
            ]
            | inr old ↦ longer_wins a n c r.cur_len r.best_start r.best_len old (ground arith)
          ];
        })
  | inr kept ↦ rw kept (record {
    run = IsRun_widen words c i r.best_start r.best_len (omega (arith, x.at)) x.best;
    first_longest = λ a n p z b. elim (x.beaten a n p z b) [
      | inl later ↦
          open_loses words c a n r.cur_len r.best_start r.best_len x.best p later
            (omega (arith, x.at)) kept
      | inr old ↦ old
    ];
  })
]

-- A word that is not zero closes the run.
scan_word_nonzero :
    (words : List ℕ) (i c w : ℕ) (r : Runs)
    → IsScanned words i c r
    → get_elem? words i ≡ some w
    → w ≢ 0
    → IsScanned words (i + 1) (i + 1) (scan_word r i w)
unfolding scan_word
scan_word_nonzero words i c w r x e nz =
    let test : (w == 0) ≡ false = ground (arith, nz) in
    let closed = close_run-IsBest words i c r x in
    let word_nz : get_elem? words i ≢ some 0 = λ z. nz cc in
    let here : get_elem? words (i + 1 - 1) ≢ some 0 =
      λ z. word_nz (ap (λ (k : ℕ). get_elem? words k) (omega arith) ∙ z) in
    rw test (record {
      at = omega arith;
      start = inl refl;
      none_yet = λ z. refl;
      zeros = λ k p q. absurd (omega arith);
      edge = inr here;
      best =
          IsRun_widen words i (i + 1) (close_run r).best_start (close_run r).best_len (omega arith)
            (closed.run);
      beaten = λ a n p z b. elim (Bool-cases (leb (a + n) i)) [
        | inl old ↦ inr (closed.first_longest a n p z (ground arith))
        | inr ends ↦ absurd (word_nz (z i (ground arith) (ground arith)))
      ];
    })

-- The words from `i` on are the suffix.
abbrev IsSuffix : List ℕ → ℕ → List ℕ → Type 0
IsSuffix words i suffix = (j : ℕ) → get_elem? words (i + j) ≡ get_elem? suffix j

IsSuffix-head :
    (words : List ℕ) (i w : ℕ) (suffix : List ℕ)
    → IsSuffix words i (w ∷ suffix)
    → get_elem? words i ≡ some w
IsSuffix-head words i w suffix h = ap (λ (k : ℕ). get_elem? words k) (omega arith) ∙ h 0

IsSuffix-next :
    (words : List ℕ) (i w : ℕ) (suffix : List ℕ)
    → IsSuffix words i (w ∷ suffix)
    → IsSuffix words (i + 1) suffix
IsSuffix-next words i w suffix h j = ap (λ (k : ℕ). get_elem? words k) (omega arith) ∙ h (suc j)

scan_words_from :
    (suffix words : List ℕ) (i c : ℕ) (r : Runs)
    → IsScanned words i c r
    → IsSuffix words i suffix
    → IsBest words
        (i + length suffix)
        (scan_words r i suffix).best_start
        (scan_words r i suffix).best_len
unfolding scan_words
scan_words_from [] words i c r x h =
    let closed = close_run-IsBest words i c r x in
    subst (λ (k : ℕ). IsBest words k (close_run r).best_start (close_run r).best_len) (omega arith)
      closed
scan_words_from (w ∷ suffix) words i c r x h =
    let e = IsSuffix-head words i w suffix h in
    let next = IsSuffix-next words i w suffix h in
    let total : i + 1 + length suffix ≡ i + suc (length suffix) = omega arith in
    elim (Bool-cases (w == 0)) [
      | inl zero_word ↦
          let is_zero : w ≡ 0 = ground arith in
          subst
            (λ (k : ℕ).
              IsBest words k (scan_words (scan_word r i w) (i + 1) suffix).best_start
                (scan_words (scan_word r i w) (i + 1) suffix).best_len)
            total
            (scan_words_from suffix words (i + 1) c (scan_word r i w)
              (subst (λ (k : ℕ). IsScanned words (i + 1) c (scan_word r i k)) (sym is_zero)
                (scan_zero words i c r x (e ∙ ap some is_zero)))
              next)
      | inr other ↦
          subst
            (λ (k : ℕ).
              IsBest words k (scan_words (scan_word r i w) (i + 1) suffix).best_start
                (scan_words (scan_word r i w) (i + 1) suffix).best_len)
            total
            (scan_words_from suffix words (i + 1) (i + 1) (scan_word r i w)
              (scan_word_nonzero words i c w r x e (ground arith)) next)
    ]

-- For every list of words, the run that inet_ntop shortens is the first of the longest runs of at
-- least two zero words, and there is none only if the words have no two zeros in a row.
pub scan_words-IsBest :
    (words : List ℕ)
    → IsBest words
        (length words)
        (scan_words no_runs 0 words).best_start
        (scan_words no_runs 0 words).best_len
scan_words-IsBest words =
    subst
      (λ (k : ℕ).
        IsBest words k (scan_words no_runs 0 words).best_start
          (scan_words no_runs 0 words).best_len)
      (omega arith)
      (scan_words_from words words 0 0 no_runs
        (record {
          at = refl;
          start = inl refl;
          none_yet = λ z. refl;
          zeros = λ k p q. absurd (omega arith);
          edge = inl refl;
          best = refl;
          beaten = λ a n p z b. inl (omega arith);
        })
        (λ j. ap (λ (k : ℕ). get_elem? words k) (omega arith)))
