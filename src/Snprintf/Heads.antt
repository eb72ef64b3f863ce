-- ===== src/Snprintf/Heads.antt =====
-- What the parts of a conversion begin with, and so where the scan of the part before stops.
use libsolcompat.Common.{
  ℕ, ◌≡◌, refl, Bool, true, false, Option, none, some, List, [], ◌∷◌, ◌++◌, arith, All, ◌==◌,
}
use libsolcompat.Snprintf.{Scan, is_flag, is_digit}
use libsolcompat.Snprintf.Piece.{
  Amount, digits, star, Modifier, plain, short, long, long_long, long_double, quad, size, ptrdiff,
  intmax, byte, Conversion, show_amount, show_precision, show_modifier, IsAmount, StartsWidth,
  IsConversion,
}

abbrev pub scan : List ℕ → List ℕ → Bool → Scan
scan rest out changed = record { rest = rest; out = out; changed = changed }

-- A list whose first byte fails the test.
abbrev pub Stops : (ℕ → Bool) → List ℕ → Type 0
Stops p [] = ⊥
Stops p (c ∷ s) = p c ≡ false

-- A test that no letter of a modifier passes.
abbrev pub NoLetter : (ℕ → Bool) → Type 0
NoLetter p = All (λ x. p x ≡ false) (b'h' ∷ b'l' ∷ b'L' ∷ b'q' ∷ b'z' ∷ b't' ∷ b'j' ∷ [])

pub Stops-modifier :
    (p : ℕ → Bool) (m : Modifier) (c : ℕ) (b : List ℕ)
    → NoLetter p
    → p c ≡ false
    → Stops p (show_modifier m ++ (c ∷ b))
Stops-modifier p plain c b n e = e
Stops-modifier p short c b n e = n.0
Stops-modifier p long c b n e = n.1.0
Stops-modifier p long_long c b n e = n.1.0
Stops-modifier p long_double c b n e = n.1.1.0
Stops-modifier p quad c b n e = n.1.1.1.0
Stops-modifier p size c b n e = n.1.1.1.1.0
Stops-modifier p ptrdiff c b n e = n.1.1.1.1.1.0
Stops-modifier p intmax c b n e = n.1.1.1.1.1.1.0
Stops-modifier p byte c b n e = n.0

pub Stops-precision :
    (p : ℕ → Bool) (a : Option Amount) (b : List ℕ)
    → p b'.' ≡ false
    → Stops p b
    → Stops p (show_precision a ++ b)
Stops-precision p none b e s = s
Stops-precision p (some a) b e s = e

pub Stops-width :
    (w : Amount) (b : List ℕ) → StartsWidth w → Stops is_flag b → Stops is_flag (show_amount w ++ b)
unfolding is_flag
Stops-width star b e s = refl
Stops-width (digits []) b e s = s
Stops-width (digits (c ∷ ds)) b e s = e

-- The bytes of a conversion but for its `%`, with the modifiers given, and what follows.
abbrev pub body : (Modifier → List ℕ) → Conversion → List ℕ → List ℕ
body m c b =
    c.flags
    ++ (show_amount c.width ++ (show_precision c.precision ++ (m c.modifier ++ (c.specifier ∷ b))))

-- Each part of a conversion stops the scan of the one before it.
pub record Heads (c : Conversion) (b : List ℕ) : Type 0 where
  pub digit₁ : Stops is_digit (show_modifier c.modifier ++ (c.specifier ∷ b))
  pub point₁ : Stops (λ x. x == b'.') (show_modifier c.modifier ++ (c.specifier ∷ b))
  pub star₁ : Stops (λ x. x == b'*') (show_modifier c.modifier ++ (c.specifier ∷ b))
  pub digit₂ :
      Stops is_digit (show_precision c.precision ++ (show_modifier c.modifier ++ (c.specifier ∷ b)))
  pub star₂ :
      Stops
        (λ x. x == b'*')
        (show_precision c.precision ++ (show_modifier c.modifier ++ (c.specifier ∷ b)))
  pub flag₃ : Stops is_flag (
      show_amount c.width
      ++ (show_precision c.precision ++ (show_modifier c.modifier ++ (c.specifier ∷ b))))

pub heads : (c : Conversion) (b : List ℕ) → IsConversion c → Heads c b
unfolding is_digit is_flag
heads c b w =
    let s = w.specifier in
    let m = c.modifier in
    let x = c.specifier in
    let none : NoLetter is_digit = (refl, (refl, (refl, (refl, (refl, (refl, (refl, tt))))))) in
    let no_star : NoLetter (λ x. x == b'*') =
      (refl, (refl, (refl, (refl, (refl, (refl, (refl, tt))))))) in
    let no_point : NoLetter (λ x. x == b'.') =
      (refl, (refl, (refl, (refl, (refl, (refl, (refl, tt))))))) in
    let no_flag : NoLetter is_flag = (refl, (refl, (refl, (refl, (refl, (refl, (refl, tt))))))) in
    record {
      digit₁ = Stops-modifier is_digit m x b none s.no_digit;
      point₁ = Stops-modifier (λ y. y == b'.') m x b no_point s.no_point;
      star₁ = Stops-modifier (λ y. y == b'*') m x b no_star s.no_star;
      digit₂ =
          Stops-precision is_digit c.precision _ refl
            (Stops-modifier is_digit m x b none s.no_digit);
      star₂ =
          Stops-precision (λ y. y == b'*') c.precision _ refl
            (Stops-modifier (λ y. y == b'*') m x b no_star s.no_star);
      flag₃ = Stops-width c.width _ w.starts (
          Stops-precision is_flag c.precision _ refl
            (Stops-modifier is_flag m x b no_flag s.no_flag));
    }

pub Stops-cons :
    (p : ℕ → Bool) (xs : List ℕ)
    → Stops p xs
    → (c : ℕ) × (s : List ℕ) × (xs ≡ c ∷ s) × (p c ≡ false)
Stops-cons p [] h = absurd h
Stops-cons p (c ∷ s) h = (c, s, refl, h)

pub not_digit : (d : ℕ) → is_digit d ≡ true → (d == b'%') ≡ false
unfolding is_digit
not_digit d h = ground arith

pub not_flag : (d : ℕ) → is_flag d ≡ true → (d == b'%') ≡ false
unfolding is_flag
not_flag d h = ground arith

-- A conversion does not go on with a second `%`.
pub Stops-body :
    (c : Conversion) (b : List ℕ) → IsConversion c → Stops (λ x. x == b'%') (body show_modifier c b)
Stops-body c b v = in_flags c.flags v.flags
  where
    is_other : ℕ → Bool
    is_other x = x == b'%'

    rest : List ℕ
    rest = show_precision c.precision ++ (show_modifier c.modifier ++ (c.specifier ∷ b))

    in_rest : Stops is_other rest
    in_rest = Stops-precision is_other c.precision _ refl (
        Stops-modifier is_other c.modifier c.specifier b
          (refl, (refl, (refl, (refl, (refl, (refl, (refl, tt))))))) v.specifier.no_percent)

    in_width : (w : Amount) → IsAmount w → Stops is_other (show_amount w ++ rest)
    in_width star a = refl
    in_width (digits []) a = in_rest
    in_width (digits (d ∷ ds)) a = not_digit d a.0

    in_flags :
        (f : List ℕ)
        → All (λ x. is_flag x ≡ true) f
        → Stops is_other (f ++ (show_amount c.width ++ rest))
    in_flags [] a = in_width c.width v.width
    in_flags (d ∷ ds) a = not_flag d a.0
