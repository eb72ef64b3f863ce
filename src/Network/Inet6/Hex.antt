-- ===== src/Network/Inet6/Hex.antt =====
-- src/network.c: a group that `%x` has printed is read back by `strtoul`.
use libsolcompat.Common.{
  ℕ, ◌+◌, ◌*◌, ◌/◌, ◌%◌, ◌<◌, ◌≡◌, refl, ◌∙◌, ap, true, false, List, [], ◌∷◌, ◌++◌, length, ltb,
  ◌==◌, arith, Bool-cases, inl, inr,
}
use libsolcompat.Network.Inet6.{hex_digit, hex, isxdigit, digit_value, digits_value, strtoul16}

hex_digit-isxdigit : (d : ℕ) → d < 16 → isxdigit (hex_digit d) ≡ true
unfolding hex_digit isxdigit
hex_digit-isxdigit d h = ground arith

digit_value-hex_digit : (d : ℕ) → d < 16 → digit_value (hex_digit d) ≡ d
unfolding hex_digit digit_value
digit_value-hex_digit d h = ground arith

digits_step :
    (acc d : ℕ) (s : List ℕ)
    → d < 16
    → digits_value acc (hex_digit d ∷ s) ≡ digits_value (acc * 16 + d) s
unfolding digits_value
digits_step acc d s h = rw (hex_digit-isxdigit d h, digit_value-hex_digit d h)

-- What may follow a group: nothing, or a colon.
abbrev pub Stops : List ℕ → Type 0
Stops [] = Unit
Stops (c ∷ s) = c ≡ b':'

digits_stop : (acc : ℕ) (rest : List ℕ) → Stops rest → digits_value acc rest ≡ (acc, rest)
unfolding digits_value isxdigit
digits_stop acc [] h = refl
digits_stop acc (c ∷ s) h = ground arith

-- One more digit in front.
digits_more :
    (acc d acc' : ℕ) (s : List ℕ) (r : ℕ × List ℕ)
    → d < 16
    → acc * 16 + d ≡ acc'
    → digits_value acc' s ≡ r
    → digits_value acc (hex_digit d ∷ s) ≡ r
digits_more acc d acc' s r h e k = digits_step acc d s h ∙ ap (λ (a : ℕ). digits_value a s) e ∙ k

digits_value-hex :
    (w : ℕ) (rest : List ℕ) → w < 65536 → Stops rest → digits_value 0 (hex w ++ rest) ≡ (w, rest)
unfolding hex
digits_value-hex w rest h stop =
    let last : (acc d : ℕ)
        → d < 16
        → acc * 16 + d ≡ w
        → digits_value acc (hex_digit d ∷ rest) ≡ (w, rest) =
      λ acc d b e. digits_more acc d w rest (w, rest) b e (digits_stop w rest stop) in
    elim (Bool-cases (ltb w 16)) [
      | inl one ↦ rw one (last 0 w (ground arith) (omega arith))
      | inr a ↦ elim (Bool-cases (ltb w 256)) [
        | inl two ↦
            rw (a, two)
              (digits_more 0 (w / 16) (w / 16) _ _ (ground arith) (omega arith)
                (last (w / 16) (w % 16) (omega arith) (omega arith)))
        | inr b ↦ elim (Bool-cases (ltb w 4096)) [
          | inl three ↦
              rw (a, b, three)
                (digits_more 0 (w / 256) (w / 256) _ _ (ground arith) (omega arith) (
                  digits_more (w / 256) (w / 16 % 16) (w / 16) _ _ (omega arith) (omega arith)
                    (last (w / 16) (w % 16) (omega arith) (omega arith))))
          | inr c ↦
              rw (a, b, c)
                (digits_more 0 (w / 4096) (w / 4096) _ _ (omega arith) (omega arith) (
                  digits_more (w / 4096) (w / 256 % 16) (w / 256) _ _ (omega arith) (omega arith) (
                    digits_more (w / 256) (w / 16 % 16) (w / 16) _ _ (omega arith) (omega arith)
                      (last (w / 16) (w % 16) (omega arith) (omega arith)))))
        ]
      ]
    ]

hex_digit-not_zero : (d : ℕ) → 0 < d → d < 16 → (hex_digit d == b'0') ≡ false
unfolding hex_digit
hex_digit-not_zero d p h = ground arith

strtoul16_plain :
    (z : ℕ) (s : List ℕ) → (z == b'0') ≡ false → strtoul16 (z ∷ s) ≡ digits_value 0 (z ∷ s)
unfolding strtoul16
strtoul16_plain z [] e = refl
strtoul16_plain z (x ∷ []) e = refl
strtoul16_plain z (x ∷ d ∷ s) e = rw e

strtoul16_single : (z : ℕ) (s : List ℕ) → Stops s → strtoul16 (z ∷ s) ≡ digits_value 0 (z ∷ s)
unfolding strtoul16
strtoul16_single z [] stop = refl
strtoul16_single z (x ∷ []) stop = refl
strtoul16_single z (x ∷ d ∷ s) stop = ground (arith, stop)

strtoul16_text :
    (w : ℕ) (rest : List ℕ)
    → w < 65536
    → Stops rest
    → strtoul16 (hex w ++ rest) ≡ digits_value 0 (hex w ++ rest)
unfolding hex
strtoul16_text w rest h stop = elim (Bool-cases (ltb w 16)) [
  | inl one ↦ rw one (strtoul16_single (hex_digit w) rest stop)
  | inr a ↦ elim (Bool-cases (ltb w 256)) [
    | inl two ↦
        rw (a, two)
          (strtoul16_plain (hex_digit (w / 16)) _
            (hex_digit-not_zero (w / 16) (ground arith) (ground arith)))
    | inr b ↦ elim (Bool-cases (ltb w 4096)) [
      | inl three ↦
          rw (a, b, three)
            (strtoul16_plain (hex_digit (w / 256)) _
              (hex_digit-not_zero (w / 256) (ground arith) (ground arith)))
      | inr c ↦
          rw (a, b, c)
            (strtoul16_plain (hex_digit (w / 4096)) _
              (hex_digit-not_zero (w / 4096) (ground arith) (omega arith)))
    ]
  ]
]

pub strtoul16-hex :
    (w : ℕ) (rest : List ℕ) → w < 65536 → Stops rest → strtoul16 (hex w ++ rest) ≡ (w, rest)
strtoul16-hex w rest h stop = strtoul16_text w rest h stop ∙ digits_value-hex w rest h stop

-- The text of a word is a digit and up to three more.
pub hex_head :
    (w : ℕ)
    → w < 65536
    → (c : ℕ) × (s : List ℕ) × (hex w ≡ c ∷ s) × (isxdigit c ≡ true) × (length s < 4)
unfolding hex
hex_head w h = elim (Bool-cases (ltb w 16)) [
  | inl one ↦ (hex_digit w, [], rw one refl, hex_digit-isxdigit w (ground arith), omega arith)
  | inr a ↦ elim (Bool-cases (ltb w 256)) [
    | inl two ↦ (
      hex_digit (w / 16),
      hex_digit (w % 16) ∷ [],
      rw (a, two) refl,
      hex_digit-isxdigit (w / 16) (ground arith),
      omega arith,
    )
    | inr b ↦ elim (Bool-cases (ltb w 4096)) [
      | inl three ↦ (
        hex_digit (w / 256),
        hex_digit (w / 16 % 16) ∷ hex_digit (w % 16) ∷ [],
        rw (a, b, three) refl,
        hex_digit-isxdigit (w / 256) (ground arith),
        omega arith,
      )
      | inr c ↦ (
        hex_digit (w / 4096),
        hex_digit (w / 256 % 16) ∷ hex_digit (w / 16 % 16) ∷ hex_digit (w % 16) ∷ [],
        rw (a, b, c) refl,
        hex_digit-isxdigit (w / 4096) (omega arith),
        omega arith,
      )
    ]
  ]
]
