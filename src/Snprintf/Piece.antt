-- ===== src/Snprintf/Piece.antt =====
-- Formats as they are meant: literal bytes, `%%`, and conversions with their parts. `show` prints
-- them with the modern modifiers, `lower` with those that Solaris 7 has (the table at the top of
-- src/snprintf.c).
use libsolcompat.Common.{
  ℕ, Bool, true, false, ◌||◌, ◌≡◌, ◌≢◌, Option, none, some, List, [], ◌∷◌, ◌++◌, ◌==◌, All,
}
use libsolcompat.Snprintf.{is_flag, is_digit, is_modifier}

pub data Amount : Type 0 where
  digits : List ℕ → Amount
  star : Amount

pub data Modifier : Type 0 where
  plain short long long_long long_double quad size ptrdiff intmax byte : Modifier

pub record Conversion : Type 0 where
  pub flags : List ℕ
  pub width : Amount
  pub precision : Option Amount
  pub modifier : Modifier
  pub specifier : ℕ

pub data Piece : Type 0 where
  literal : ℕ → Piece
  percent : Piece
  conversion : Conversion → Piece

abbrev pub show_amount : Amount → List ℕ
show_amount (digits ds) = ds
show_amount star = b'*' ∷ []

abbrev pub show_precision : Option Amount → List ℕ
show_precision none = []
show_precision (some a) = b'.' ∷ show_amount a

abbrev pub show_modifier : Modifier → List ℕ
show_modifier plain = []
show_modifier short = b'h' ∷ []
show_modifier long = b'l' ∷ []
show_modifier long_long = b'l' ∷ b'l' ∷ []
show_modifier long_double = b'L' ∷ []
show_modifier quad = b'q' ∷ []
show_modifier size = b'z' ∷ []
show_modifier ptrdiff = b't' ∷ []
show_modifier intmax = b'j' ∷ []
show_modifier byte = b'h' ∷ b'h' ∷ []

-- `%z` and `%t` lose the modifier, `%j` becomes `%ll` and `%hh` becomes `%h`.
abbrev pub lower_modifier : Modifier → List ℕ
lower_modifier size = []
lower_modifier ptrdiff = []
lower_modifier intmax = b'l' ∷ b'l' ∷ []
lower_modifier byte = b'h' ∷ []
lower_modifier m = show_modifier m

abbrev pub is_c99 : Modifier → Bool
is_c99 size = true
is_c99 ptrdiff = true
is_c99 intmax = true
is_c99 byte = true
is_c99 m = false

abbrev pub show_with : (Modifier → List ℕ) → List Piece → List ℕ
show_with m [] = []
show_with m (literal c ∷ ps) = c ∷ show_with m ps
show_with m (percent ∷ ps) = b'%' ∷ b'%' ∷ show_with m ps
show_with m (conversion c ∷ ps) =
    b'%'
    ∷ (c.flags
        ++ (show_amount c.width
            ++ (show_precision c.precision ++ (m c.modifier ++ (c.specifier ∷ show_with m ps)))))

abbrev pub show : List Piece → List ℕ
show = show_with show_modifier

abbrev pub lower : List Piece → List ℕ
lower = show_with lower_modifier

abbrev pub any_c99 : List Piece → Bool
any_c99 [] = false
any_c99 (literal c ∷ ps) = any_c99 ps
any_c99 (percent ∷ ps) = any_c99 ps
any_c99 (conversion c ∷ ps) = is_c99 c.modifier || any_c99 ps

abbrev pub IsAmount : Amount → Type 0
IsAmount star = Unit
IsAmount (digits ds) = All (λ c. is_digit c ≡ true) ds

-- A zero at the front of a width is a flag.
abbrev pub StartsWidth : Amount → Type 0
StartsWidth (digits (c ∷ ds)) = is_flag c ≡ false
StartsWidth _ = Unit

abbrev pub IsPrecision : Option Amount → Type 0
IsPrecision none = Unit
IsPrecision (some a) = IsAmount a

-- No byte of a flag, a width, a precision or a modifier.
pub record IsSpecifier (c : ℕ) : Type 0 where
  pub no_flag : is_flag c ≡ false
  pub no_digit : is_digit c ≡ false
  pub no_modifier : is_modifier c ≡ false
  pub no_star : (c == b'*') ≡ false
  pub no_percent : (c == b'%') ≡ false
  pub no_point : (c == b'.') ≡ false
  pub no_z : (c == b'z') ≡ false
  pub no_t : (c == b't') ≡ false
  pub no_j : (c == b'j') ≡ false

pub record IsConversion (c : Conversion) : Type 0 where
  pub flags : All (λ b. is_flag b ≡ true) c.flags
  pub width : IsAmount c.width
  pub starts : StartsWidth c.width
  pub precision : IsPrecision c.precision
  pub specifier : IsSpecifier c.specifier

abbrev pub IsPiece : Piece → Type 0
IsPiece (literal c) = c ≢ b'%'
IsPiece percent = Unit
IsPiece (conversion c) = IsConversion c
