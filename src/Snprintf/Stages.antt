-- ===== src/Snprintf/Stages.antt =====
-- Each stage of `convert_spec` on the part of a conversion that it is for.
use libsolcompat.Common.{
  ℕ, ◌+◌, ◌≤◌, ◌<◌, ◌≡◌, refl, Bool, true, false, ◌||◌, Option, none, some, List, [], ◌∷◌, ◌++◌,
  arith, length, length-append, append_assoc, append-nil, All, ◌==◌,
}
use libsolcompat.Snprintf.{
  is_digit, is_modifier, copy_while, copy_width, copy_digits_or_star, copy_precision,
  convert_modifier, copy_conversion,
}
use libsolcompat.Snprintf.Piece.{
  Amount, digits, star, Modifier, plain, short, long, long_long, long_double, quad, size, ptrdiff,
  intmax, byte, show_amount, show_precision, show_modifier, lower_modifier, is_c99, IsAmount,
  IsPrecision, IsSpecifier,
}
use libsolcompat.Snprintf.Heads.{scan, Stops}

module _ (end : ℕ) where
  pub copy_while-All :
      (p : ℕ → Bool) (a b out : List ℕ) (changed : Bool)
      → All (λ c. p c ≡ true) a
      → Stops p b
      → length out + length a ≤ end
      → copy_while end p (a ++ b) out changed ≡ scan b (out ++ a) changed
  unfolding copy_while
  copy_while-All p [] [] out changed all s room = absurd s
  copy_while-All p [] (c ∷ b) out changed all s room = rw append-nil (ground arith)
  copy_while-All p (c ∷ a) b out changed all s room = ground (
    arith,
    all.0,
    copy_while-All p a b (out ++ (c ∷ [])) changed all.1 s
        (omega (arith, length-append {0} out (c ∷ []))),
    append_assoc out (c ∷ []) a,
  )

  pub copy_width_lem :
      (w : Amount) (b out : List ℕ) (changed : Bool)
      → IsAmount w
      → Stops is_digit b
      → Stops (λ c. c == b'*') b
      → length out + length (show_amount w) ≤ end
      → copy_width end (show_amount w ++ b) out changed ≡ scan b (out ++ show_amount w) changed
  unfolding copy_width
  copy_width_lem star b out changed all s s' room = refl
  copy_width_lem (digits []) [] out changed all s s' room = absurd s
  copy_width_lem (digits []) (c ∷ b) out changed all s s' room =
      ground (arith, copy_while-All is_digit [] (c ∷ b) out changed all s room)
  copy_width_lem (digits (d ∷ ds)) b out changed all s s' room =
      let other : (d == b'*') ≡ false = unfold is_digit in ground (arith, all.0) in
      ground (arith, copy_while-All is_digit (d ∷ ds) b out changed all s room)

  pub copy_precision_lem :
      (p : Option Amount) (b out : List ℕ) (changed : Bool)
      → IsPrecision p
      → Stops is_digit b
      → Stops (λ c. c == b'.') b
      → Stops (λ c. c == b'*') b
      → length out + length (show_precision p) ≤ end
      → copy_precision end (show_precision p ++ b) out changed
        ≡ scan b (out ++ show_precision p) changed
  unfolding copy_precision copy_digits_or_star
  copy_precision_lem none [] out changed all s s' s'' room = absurd s
  copy_precision_lem none (c ∷ b) out changed all s s' s'' room = rw append-nil (ground arith)
  copy_precision_lem (some star) b out changed all s s' s'' room =
      ground (arith, length-append {0} out (b'.' ∷ []), append_assoc out (b'.' ∷ []) (b'*' ∷ []))
  copy_precision_lem (some (digits [])) [] out changed all s s' s'' room = absurd s
  copy_precision_lem (some (digits [])) (c ∷ b) out changed all s s' s'' room = ground (
    arith,
    copy_while-All is_digit [] (c ∷ b) (out ++ (b'.' ∷ [])) changed all s
        (omega (arith, length-append {0} out (b'.' ∷ []))),
    append-nil (out ++ (b'.' ∷ [])),
  )
  copy_precision_lem (some (digits (d ∷ ds))) b out changed all s s' s'' room =
      let other : (d == b'*') ≡ false = unfold is_digit in ground (arith, all.0) in
      ground (
        arith,
        copy_while-All is_digit (d ∷ ds) b (out ++ (b'.' ∷ [])) changed all s
            (omega (arith, length-append {0} out (b'.' ∷ []))),
        append_assoc out (b'.' ∷ []) (d ∷ ds),
      )

  pub no_h : (c : ℕ) → IsSpecifier c → (c == b'h') ≡ false
  no_h c s = let e = s.no_modifier in unfold is_modifier in ground arith

  pub letters :
      (m : Modifier) (c : ℕ) (b out : List ℕ) (changed : Bool)
      → IsSpecifier c
      → All (λ x. is_modifier x ≡ true) (show_modifier m)
      → length out + 2 < end
      → copy_while end is_modifier (show_modifier m ++ (c ∷ b)) out changed
        ≡ scan (c ∷ b) (out ++ show_modifier m) changed
  letters m c b out changed s all room =
      copy_while-All is_modifier (show_modifier m) (c ∷ b) out changed all s.no_modifier
        (omega (arith, at_most_two m))
    where
      at_most_two : (m : Modifier) → length (show_modifier m) ≤ 2
      at_most_two plain = omega arith
      at_most_two _ = omega arith

  pub convert_modifier_lem :
      (m : Modifier) (c : ℕ) (b out : List ℕ) (changed : Bool)
      → IsSpecifier c
      → length out + 2 < end
      → convert_modifier end (show_modifier m ++ (c ∷ b)) out changed
        ≡ scan (c ∷ b) (out ++ lower_modifier m) (is_c99 m || changed)
  unfolding convert_modifier is_modifier
  convert_modifier_lem plain c [] out changed s room = ground (
    arith,
    append-nil out,
    copy_while-All is_modifier [] (c ∷ []) out changed tt s.no_modifier (omega arith),
    s.no_z,
    s.no_t,
    s.no_j,
  )
  convert_modifier_lem plain c (e ∷ b) out changed s room = ground (
    arith,
    append-nil out,
    no_h c s,
    copy_while-All is_modifier [] (c ∷ e ∷ b) out changed tt s.no_modifier (omega arith),
  )
  convert_modifier_lem short c b out changed s room =
      ground (arith, no_h c s, letters short c b out changed s (refl, tt) room)
  convert_modifier_lem long c b out changed s room = letters long c b out changed s (refl, tt) room
  convert_modifier_lem long_long c b out changed s room =
      letters long_long c b out changed s (refl, (refl, tt)) room
  convert_modifier_lem long_double c b out changed s room =
      letters long_double c b out changed s (refl, tt) room
  convert_modifier_lem quad c b out changed s room = letters quad c b out changed s (refl, tt) room
  convert_modifier_lem size c b out changed s room = rw append-nil refl
  convert_modifier_lem ptrdiff c b out changed s room = rw append-nil refl
  convert_modifier_lem intmax c b out changed s room = ground arith
  convert_modifier_lem byte c b out changed s room = refl

  pub copy_conversion_lem :
      (c : ℕ) (b out : List ℕ) (changed : Bool)
      → length out < end
      → copy_conversion end (c ∷ b) out changed ≡ scan b (out ++ (c ∷ [])) changed
  unfolding copy_conversion
  copy_conversion_lem c b out changed room = ground arith
