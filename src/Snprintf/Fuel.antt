-- ===== src/Snprintf/Fuel.antt =====
-- The loop of `preprocess_fmt` has fuel enough for every format, and how long its result can be.
use libsolcompat.Common.{
  ℕ, zero, suc, ◌+◌, ◌-◌, ◌*◌, ◌≤◌, ◌<◌, ◌≡◌, refl, Bool, true, false, ◌&&◌, ◌||◌, inl, inr, Option,
  some, List, [], ◌∷◌, ◌++◌, length, length-append, ltb, ◌==◌, if◌then◌else◌, arith, Bool-cases,
}
use libsolcompat.Snprintf.{
  Scan, is_flag, is_digit, is_modifier, has_room, copy_while, copy_width, copy_digits_or_star,
  copy_precision, convert_modifier, copy_conversion, convert_spec, preprocess_loop, scan_format,
  chosen, preprocess_fmt,
}

-- A stage leaves no more of the format, and writes two bytes at most for each byte that it takes.
record Takes (s out : List ℕ) (x : Scan) : Type 0 where
  shorter : length x.rest ≤ length s
  doubled : length x.out + 2 * length x.rest ≤ length out + 2 * length s

self-Takes :
    (s out : List ℕ) (changed : Bool)
    → Takes s out (record { rest = s; out = out; changed = changed })
self-Takes s out changed = record { shorter = omega arith; doubled = omega arith }

-- One byte is taken and one written.
one-Takes :
    (c d : ℕ) (s out : List ℕ) (changed : Bool)
    → Takes (c ∷ s) out (record { rest = s; out = out ++ (d ∷ []); changed = changed })
one-Takes c d s out changed =
    let one = length-append {0} out (d ∷ []) in
    record { shorter = omega arith; doubled = omega (arith, one) }

then-Takes : (s out : List ℕ) (x y : Scan) → Takes s out x → Takes x.rest x.out y → Takes s out y
then-Takes s out x y a b = record {
  shorter = omega (arith, a.shorter, b.shorter);
  doubled = omega (arith, a.doubled, b.doubled);
}

module _ (end : ℕ) where
  copy_while-Takes :
      (p : ℕ → Bool) (s out : List ℕ) (changed : Bool)
      → Takes s out (copy_while end p s out changed)
  unfolding copy_while
  copy_while-Takes p [] out changed = self-Takes [] out changed
  copy_while-Takes p (c ∷ s) out changed = elim (Bool-cases (has_room end out && p c)) [
    | inl t ↦ rw t (
        then-Takes (c ∷ s) out (record { rest = s; out = out ++ (c ∷ []); changed = changed }) _
          (one-Takes c c s out changed) (copy_while-Takes p s (out ++ (c ∷ [])) changed))
    | inr f ↦ rw f (self-Takes (c ∷ s) out changed)
  ]

  copy_width-Takes : (s out : List ℕ) (changed : Bool) → Takes s out (copy_width end s out changed)
  unfolding copy_width
  copy_width-Takes [] out changed = self-Takes [] out changed
  copy_width-Takes (c ∷ s) out changed = elim (Bool-cases (c == b'*')) [
    | inl t ↦ rw t (one-Takes c c s out changed)
    | inr f ↦ rw f (copy_while-Takes is_digit (c ∷ s) out changed)
  ]

  copy_digits_or_star-Takes :
      (s out : List ℕ) (changed : Bool) → Takes s out (copy_digits_or_star end s out changed)
  unfolding copy_digits_or_star
  copy_digits_or_star-Takes [] out changed = self-Takes [] out changed
  copy_digits_or_star-Takes (c ∷ s) out changed =
      elim (Bool-cases (c == b'*' && has_room end out)) [
        | inl t ↦ rw t (one-Takes c c s out changed)
        | inr f ↦ rw f (copy_while-Takes is_digit (c ∷ s) out changed)
      ]

  copy_precision-Takes :
      (s out : List ℕ) (changed : Bool) → Takes s out (copy_precision end s out changed)
  unfolding copy_precision
  copy_precision-Takes [] out changed = self-Takes [] out changed
  copy_precision-Takes (c ∷ s) out changed = elim (Bool-cases (c == b'.' && has_room end out)) [
    | inl t ↦ rw t (
        then-Takes (c ∷ s) out (record { rest = s; out = out ++ (c ∷ []); changed = changed }) _
          (one-Takes c c s out changed) (copy_digits_or_star-Takes s (out ++ (c ∷ [])) changed))
    | inr f ↦ rw f (self-Takes (c ∷ s) out changed)
  ]

  copy_conversion-Takes :
      (s out : List ℕ) (changed : Bool) → Takes s out (copy_conversion end s out changed)
  unfolding copy_conversion
  copy_conversion-Takes [] out changed = self-Takes [] out changed
  copy_conversion-Takes (c ∷ s) out changed = elim (Bool-cases (has_room end out)) [
    | inl t ↦ rw t (one-Takes c c s out changed)
    | inr f ↦ rw f (self-Takes (c ∷ s) out changed)
  ]

  -- `j` is taken, and both bytes of `ll` or none are written.
  intmax-Takes :
      (c : ℕ) (s out : List ℕ)
      → Takes (c ∷ s) out (record {
        rest = s;
        out = if ltb (length out + 1) end then out ++ (b'l' ∷ b'l' ∷ []) else out;
        changed = true;
      })
  intmax-Takes c s out =
      let two = length-append {0} out (b'l' ∷ b'l' ∷ []) in
      elim (Bool-cases (ltb (length out + 1) end)) [
        | inl t ↦ rw t (record { shorter = omega arith; doubled = omega (arith, two) })
        | inr f ↦ rw f (record { shorter = omega arith; doubled = omega arith })
      ]

  convert_modifier-Takes :
      (s out : List ℕ) (changed : Bool) → Takes s out (convert_modifier end s out changed)
  unfolding convert_modifier
  convert_modifier-Takes [] out changed = self-Takes [] out changed
  convert_modifier-Takes (c ∷ []) out changed = elim (Bool-cases (c == b'z' || c == b't')) [
    | inl t ↦ rw t (record { shorter = omega arith; doubled = omega arith })
    | inr f ↦ elim (Bool-cases (c == b'j')) [
      | inl j ↦ rw (f, j) (intmax-Takes c [] out)
      | inr g ↦ rw (f, g) (copy_while-Takes is_modifier (c ∷ []) out changed)
    ]
  ]
  convert_modifier-Takes (c ∷ e ∷ s) out changed = elim (Bool-cases (c == b'z' || c == b't')) [
    | inl t ↦ rw t (record { shorter = omega arith; doubled = omega arith })
    | inr f ↦ elim (Bool-cases (c == b'j')) [
      | inl j ↦ rw (f, j) (intmax-Takes c (e ∷ s) out)
      | inr g ↦ elim (Bool-cases (c == b'h' && e == b'h')) [
        | inl h ↦
            let one = length-append {0} out (b'h' ∷ []) in
            rw (f, g, h) (record { shorter = omega arith; doubled = omega (arith, one) })
        | inr h ↦ rw (f, g, h) (copy_while-Takes is_modifier (c ∷ e ∷ s) out changed)
      ]
    ]
  ]

  convert_spec-Takes :
      (s out : List ℕ) (changed : Bool) → Takes s out (convert_spec end s out changed)
  unfolding convert_spec
  convert_spec-Takes s out changed =
      let flags = copy_while end is_flag s out changed in
      let width = copy_width end flags.rest flags.out flags.changed in
      let precision = copy_precision end width.rest width.out width.changed in
      let modifier = convert_modifier end precision.rest precision.out precision.changed in
      then-Takes s out modifier _
        (then-Takes s out precision modifier
          (then-Takes s out width precision
            (then-Takes s out flags width (copy_while-Takes is_flag s out changed)
              (copy_width-Takes flags.rest flags.out flags.changed))
            (copy_precision-Takes width.rest width.out width.changed))
          (convert_modifier-Takes precision.rest precision.out precision.changed))
        (copy_conversion-Takes modifier.rest modifier.out modifier.changed)

  -- The loop ends, with two bytes at most for each byte of the format.
  abbrev Ends : List ℕ → List ℕ → Option Scan → Type 0
  Ends s out result = (x : Scan) × (result ≡ some x) × (length x.out ≤ length out + 2 * length s)

  done-Ends :
      (s out : List ℕ) (changed : Bool)
      → Ends s out (some (record { rest = s; out = out; changed = changed }))
  done-Ends s out changed = (record { rest = s; out = out; changed = changed }, refl, omega arith)

  -- From a later state of the loop.
  from-Ends :
      (s out s' out' : List ℕ) (result : Option Scan)
      → length out' + 2 * length s' ≤ length out + 2 * length s
      → Ends s' out' result
      → Ends s out result
  from-Ends s out s' out' result h (x, e, b) = (x, e, omega (arith, h, b))

  preprocess_loop-Ends :
      (fuel : ℕ) (s out : List ℕ) (changed : Bool)
      → length s < fuel
      → Ends s out (preprocess_loop end fuel s out changed)
  unfolding preprocess_loop
  preprocess_loop-Ends zero s out changed h = absurd (omega arith)
  preprocess_loop-Ends (suc fuel) [] out changed h = done-Ends [] out changed
  preprocess_loop-Ends (suc fuel) (c ∷ []) out changed h =
      let one = length-append {0} out (c ∷ []) in
      elim (Bool-cases (has_room end out)) [
        | inr full ↦ rw full (done-Ends (c ∷ []) out changed)
        | inl room ↦ elim (Bool-cases (c == b'%')) [
          | inr other ↦
              rw (room, other)
                (from-Ends (c ∷ []) out [] (out ++ (c ∷ [])) _ (omega (arith, one))
                  (preprocess_loop-Ends fuel [] (out ++ (c ∷ [])) changed (omega arith)))
          | inl last ↦
              rw (room, last)
                (from-Ends (c ∷ []) out [] (out ++ (c ∷ [])) _ (omega (arith, one))
                  (done-Ends [] (out ++ (c ∷ [])) changed))
        ]
      ]
  preprocess_loop-Ends (suc fuel) (c ∷ e ∷ s) out changed h =
      let one = length-append {0} out (c ∷ []) in
      let two = length-append {0} out (c ∷ e ∷ []) in
      let o = out ++ (c ∷ []) in
      elim (Bool-cases (has_room end out)) [
        | inr full ↦ rw full (done-Ends (c ∷ e ∷ s) out changed)
        | inl room ↦ elim (Bool-cases (c == b'%')) [
          | inr other ↦
              rw (room, other)
                (from-Ends (c ∷ e ∷ s) out (e ∷ s) o _ (omega (arith, one))
                  (preprocess_loop-Ends fuel (e ∷ s) o changed (omega arith)))
          | inl spec ↦ elim (Bool-cases (has_room end o)) [
            | inr full ↦
                rw (room, spec, full)
                  (from-Ends (c ∷ e ∷ s) out (e ∷ s) o _ (omega (arith, one))
                    (done-Ends (e ∷ s) o changed))
            | inl more ↦ elim (Bool-cases (e == b'%')) [
              | inl twice ↦
                  rw (room, spec, more, twice)
                    (from-Ends (c ∷ e ∷ s) out s (out ++ (c ∷ e ∷ [])) _ (omega (arith, two))
                      (preprocess_loop-Ends fuel s (out ++ (c ∷ e ∷ [])) changed (omega arith)))
              | inr single ↦
                  let x = convert_spec end (e ∷ s) o changed in
                  let taken = convert_spec-Takes (e ∷ s) o changed in
                  rw (room, spec, more, single)
                    (from-Ends (c ∷ e ∷ s) out x.rest x.out _ (omega (arith, one, taken.doubled)) (
                      preprocess_loop-Ends fuel x.rest x.out x.changed
                        (omega (arith, taken.shorter))))
            ]
          ]
        ]
      ]

-- `preprocess_fmt` returns for every format and size of the buffer: the scan comes to an end, the
-- result is its copy where something was changed and else the format, and the copy has two bytes at
-- most for each byte of the format.
pub scan_format-Ends :
    (outsize : ℕ) (fmt : List ℕ)
    → (x : Scan) × (scan_format outsize fmt ≡ some x)
      × (preprocess_fmt outsize fmt ≡ some (chosen x fmt))
      × (length x.out ≤ 2 * length fmt)
unfolding scan_format preprocess_fmt
scan_format-Ends outsize fmt =
    let (x, e, b) =
      preprocess_loop-Ends (outsize - 1) (suc (length fmt)) fmt [] false (omega arith) in
    (x, e, rw e refl, omega (arith, b))
