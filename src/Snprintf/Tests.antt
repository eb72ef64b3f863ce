-- ===== src/Snprintf/Tests.antt =====
-- Concrete runs of the modern formatter.
use libsolcompat.Common.{
  ℕ, ◌-◌, ◌≡◌, refl, ◌∙◌, sym, ap, ◌<◌, ◌≤◌, ◌*◌, min, Bool, true, false, Option, some, none, List,
  [], ◌∷◌, ◌++◌, arith, length, Block, if◌then◌else◌, ◌==◌,
}
use libsolcompat.Str.Copy.{Terminated}
use libsolcompat.Snprintf.{
  Scan, is_flag, is_digit, is_modifier, copy_while, copy_width, copy_digits_or_star, copy_precision,
  after_hh, convert_modifier, copy_conversion, convert_spec, preprocess_loop, scan_format, chosen,
  preprocess_fmt,
}
use libsolcompat.Snprintf.Piece.{digits, size, Piece, literal, percent, conversion}
use libsolcompat.Snprintf.Fuel.{scan_format-Ends}
use libsolcompat.Snprintf.Bounds.{scan_format_overflow}
use libsolcompat.Snprintf.Print.{vsnprintf, fmt_buf_size, passes_buffer}
use libsolcompat.Snprintf.Contract.{printed, vsnprintf-c99}

-- a%-5zu%%
abbrev pieces : List Piece
pieces =
    literal b'a'
    ∷ conversion (record {
      flags = b'-' ∷ [];
      width = digits (b'5' ∷ []);
      precision = none;
      modifier = size;
      specifier = b'u';
    })
    ∷ percent
    ∷ []

abbrev pub source : List ℕ
source = b'n' ∷ b'=' ∷ b'%' ∷ b'z' ∷ b'u' ∷ []

abbrev pub translated : List ℕ
translated = b'n' ∷ b'=' ∷ b'%' ∷ b'u' ∷ []

abbrev pub text : List ℕ
text = b'n' ∷ b'=' ∷ b'7' ∷ []

-- A `vsprintf` whose argument is the number 7.
abbrev pub print_seven : List ℕ → Option (List ℕ)
print_seven [] = some []
print_seven (c ∷ s) =
    let rest = print_seven s in
    elim rest [
      | none ↦ none
      | some t ↦ if c == b'%' then some t else if c == b'u' then some (b'7' ∷ t) else some (c ∷ t)
    ]

abbrev pub malloc : ℕ → Bool
malloc n = true

pub translation : preprocess_fmt fmt_buf_size source ≡ some translated
unfolding is_flag is_digit is_modifier copy_while copy_width copy_digits_or_star copy_precision
    after_hh convert_modifier copy_conversion convert_spec preprocess_loop scan_format
    preprocess_fmt
translation = refl

-- The text that the translation leads to, whichever it is.
pub seven :
    (fmt' : List ℕ) → preprocess_fmt fmt_buf_size source ≡ some fmt' → print_seven fmt' ≡ some text
seven fmt' e = ap (printed_of fmt') (sym e ∙ translation)
  where
    printed_of : List ℕ → Option (List ℕ) → Option (List ℕ)
    printed_of f none = print_seven f
    printed_of f (some g) = print_seven g

abbrev target : Block
target = 9 ∷ 9 ∷ 9 ∷ []

scan_format-Ends_example :
    (x : Scan) × (scan_format 5 source ≡ some x)
    × (preprocess_fmt 5 source ≡ some (chosen x source))
    × (length x.out ≤ 2 * length source)
scan_format-Ends_example = scan_format-Ends 5 source

vsnprintf-c99_example :
    (x : Scan) × (scan_format fmt_buf_size source ≡ some x)
    × (length source < 1024 → passes_buffer x ≡ false)
    × ((out : Block) × (vsnprintf malloc print_seven (some target) 3 source
          ≡ some (printed text (some out) x))
        × Terminated target (text ++ (0 ∷ [])) 0 (min (length text) (3 - 1)) out)
vsnprintf-c99_example =
    vsnprintf-c99 malloc print_seven target 3 source text (λ n. refl) seven (omega arith)
      (omega arith) (omega arith)

scan_format_overflow_example :
    (x : Scan) × (scan_format 5 ((b'a' ∷ b'b' ∷ []) ++ (b'%' ∷ b'-' ∷ b'*' ∷ b'd' ∷ [])) ≡ some x)
    × (length x.out ≡ 5)
scan_format_overflow_example =
    scan_format_overflow (b'a' ∷ b'b' ∷ []) 5
      ((λ e. absurd (omega arith)), ((λ e. absurd (omega arith)), tt)) (omega arith)
