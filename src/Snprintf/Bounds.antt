-- ===== src/Snprintf/Bounds.antt =====
-- The two copies of `preprocess_fmt` that do not test for room: a class of formats for which the
-- zero byte at the end lands behind the buffer.
use native.Mathlib.Nat.{suc-add}
use libsolcompat.Common.{
  ap₂, ltb, ℕ, suc, ◌+◌, ◌-◌, ◌≤◌, ◌≡◌, ◌≢◌, refl, ◌∙◌, sym, Bool, true, false, some, List, [], ◌∷◌,
  ◌++◌, arith, length, length-append, append_assoc, append-nil, All,
}
use libsolcompat.Snprintf.{
  Scan, is_flag, is_digit, is_modifier, copy_while, copy_width, copy_precision, convert_modifier,
  copy_conversion, convert_spec, preprocess_loop, scan_format,
}

module _ (end : ℕ) where
  -- Literal bytes are copied as they stand.
  pub copy_literals :
      (p s out : List ℕ) (fuel : ℕ) (changed : Bool)
      → All (λ c. c ≢ b'%') p
      → length out + length p ≤ end
      → preprocess_loop end (length p + fuel) (p ++ s) out changed
        ≡ preprocess_loop end fuel s (out ++ p) changed
  unfolding preprocess_loop
  copy_literals [] s out fuel changed all room =
      ap₂ (λ (n : ℕ) (o : List ℕ). preprocess_loop end n s o changed) (omega arith)
        (sym (append-nil out))
  copy_literals (c ∷ p) s out fuel changed all room =
      let r =
        copy_literals p s (out ++ (c ∷ [])) fuel changed all.1
          (omega (arith, length-append {0} out (c ∷ []))) in
      rw (suc-add) (ground (arith, all.0, r, append_assoc out (c ∷ []) p))

  -- With room for one byte, a flag takes it; the star behind it is copied all the same.
  star_spec :
      (o : List ℕ)
      → length o + 1 ≡ end
      → convert_spec end (b'-' ∷ b'*' ∷ b'd' ∷ []) o false
        ≡ record { rest = b'd' ∷ []; out = (o ++ (b'-' ∷ [])) ++ (b'*' ∷ []); changed = false }
  unfolding convert_spec copy_while copy_width copy_precision convert_modifier copy_conversion
      is_flag is_digit is_modifier
  star_spec o e =
      let room : ltb (length o) end ≡ true = ground arith in
      let full : ltb (length (o ++ (b'-' ∷ []))) end ≡ false =
        ground (arith, length-append {0} o (b'-' ∷ [])) in
      let over : ltb (length ((o ++ (b'-' ∷ [])) ++ (b'*' ∷ []))) end ≡ false = ground (
        arith,
        length-append {0} o (b'-' ∷ []),
        length-append {0} (o ++ (b'-' ∷ [])) (b'*' ∷ []),
      ) in
      rw (room, full, over) (rw over)

  star_at_end :
      (out : List ℕ) (fuel : ℕ)
      → length out + 2 ≡ end
      → (x : Scan) × (preprocess_loop end
            (suc (suc fuel))
            (b'%' ∷ b'-' ∷ b'*' ∷ b'd' ∷ [])
            out
            false
          ≡ some x)
        × (length x.out ≡ end + 1)
  unfolding preprocess_loop
  star_at_end out fuel e =
      let o = out ++ (b'%' ∷ []) in
      let one = length-append {0} out (b'%' ∷ []) in
      let two = length-append {0} o (b'-' ∷ []) in
      let three = length-append {0} (o ++ (b'-' ∷ [])) (b'*' ∷ []) in
      let spec = star_spec o (omega (arith, one)) in
      let over : ltb (length ((o ++ (b'-' ∷ [])) ++ (b'*' ∷ []))) end ≡ false =
        ground (arith, one, two, three) in
      let here : ltb (length out) end ≡ true = ground arith in
      let room : ltb (length o) end ≡ true = ground (arith, one) in
      (
        record { rest = b'd' ∷ []; out = (o ++ (b'-' ∷ [])) ++ (b'*' ∷ []); changed = false },
        rw (here, room, spec, over) refl,
        omega (arith, one, two, three),
      )

-- The star of a width is copied with no test for room. So for every format that fills all but three
-- bytes of the buffer with literal bytes and goes on with `%-*d`, the bytes that are copied are as
-- many as the buffer has, and the zero byte is written one past its end.
pub scan_format_overflow :
    (p : List ℕ) (outsize : ℕ)
    → All (λ c. c ≢ b'%') p
    → length p + 3 ≡ outsize
    → (x : Scan) × (scan_format outsize (p ++ (b'%' ∷ b'-' ∷ b'*' ∷ b'd' ∷ [])) ≡ some x)
      × (length x.out ≡ outsize)
unfolding scan_format
scan_format_overflow p outsize all e =
    let s : List ℕ = b'%' ∷ b'-' ∷ b'*' ∷ b'd' ∷ [] in
    let (x, ex, len) = star_at_end (outsize - 1) p 3 (omega arith) in
    let fuel : suc (length (p ++ s)) ≡ length p + 5 = omega (arith, length-append {0} p s) in
    (
      x,
      rw fuel (copy_literals (outsize - 1) p s [] 5 false all (omega arith) ∙ ex),
      omega (arith, len),
    )
