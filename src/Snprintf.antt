-- ===== src/Snprintf.antt =====
-- src/snprintf.c: the modern `snprintf` family on top of a `vsprintf` that knows no modern modifiers.
-- A format is the list of its bytes before the zero byte.
pub mod Piece
pub mod Heads
pub mod Stages
pub mod Format
pub mod Bounds
pub mod Print
pub mod Fuel
pub mod Contract
pub mod Tests
use mathlib.Core.Option
use libsolcompat.Common.{
  ℕ, zero, suc, ◌+◌, ◌-◌, ◌*◌, ◌<◌, Bool, true, false, not, ◌&&◌, ◌||◌, Option, none, some, List,
  [], ◌∷◌, ◌++◌, length, ltb, leb, ◌==◌, if◌then◌else◌, ◌>>=◌, Block, store,
}
use libsolcompat.Common.Int.{ℤ, pos, negsuc}
use libsolcompat.Common.Libc.{memcpy}

pub is_flag : ℕ → Bool
is_flag c = c == b'-' || c == b'+' || c == b' ' || c == b'0' || c == b'#'

pub is_digit : ℕ → Bool
is_digit c = leb b'0' c && leb c b'9'

pub is_modifier : ℕ → Bool
is_modifier c = c == b'h' || c == b'l' || c == b'L' || c == b'q'

-- What is left of the format, what stands in `out` before `d`, and `changed`.
pub record Scan : Type 0 where
  pub rest : List ℕ
  pub out : List ℕ
  pub changed : Bool

-- `end` is `outsize - 1`; `d < end` says that `out` is shorter.
module _ (end : ℕ) where
  abbrev pub has_room : List ℕ → Bool
  has_room out = ltb (length out) end

  -- `while (*s && d < end && p(*s)) *d++ = *s++;` on the bytes of `s` and `out`.
  pub copy_while : (ℕ → Bool) → List ℕ → List ℕ → Bool → Scan
  copy_while p [] out changed = record { rest = []; out = out; changed = changed }
  copy_while p (c ∷ s) out changed =
      if has_room out && p c
      then copy_while p s (out ++ (c ∷ [])) changed
      else record { rest = c ∷ s; out = out; changed = changed }

  -- Width: a star is copied with no test of the room.
  pub copy_width : List ℕ → List ℕ → Bool → Scan
  copy_width [] out changed = record { rest = []; out = out; changed = changed }
  copy_width (c ∷ s) out changed =
      if c == b'*'
      then record { rest = s; out = out ++ (c ∷ []); changed = changed }
      else copy_while is_digit (c ∷ s) out changed

  -- After the point of a precision.
  pub copy_digits_or_star : List ℕ → List ℕ → Bool → Scan
  copy_digits_or_star [] out changed = record { rest = []; out = out; changed = changed }
  copy_digits_or_star (c ∷ s) out changed =
      if c == b'*' && has_room out
      then record { rest = s; out = out ++ (c ∷ []); changed = changed }
      else copy_while is_digit (c ∷ s) out changed

  pub copy_precision : List ℕ → List ℕ → Bool → Scan
  copy_precision [] out changed = record { rest = []; out = out; changed = changed }
  copy_precision (c ∷ s) out changed =
      if c == b'.' && has_room out
      then copy_digits_or_star s (out ++ (c ∷ [])) changed
      else record { rest = c ∷ s; out = out; changed = changed }

  -- `s[0] == 'h' && s[1] == 'h'` with what follows both.
  abbrev pub after_hh : List ℕ → Option (List ℕ)
  after_hh (c ∷ e ∷ s) = if c == b'h' && e == b'h' then some s else none
  after_hh (c ∷ []) = none
  after_hh [] = none

  -- The length modifier: `hh` is shortened with no test of the room.
  pub convert_modifier : List ℕ → List ℕ → Bool → Scan
  convert_modifier [] out changed = record { rest = []; out = out; changed = changed }
  convert_modifier (c ∷ s) out changed =
      if c == b'z' || c == b't'
      then record { rest = s; out = out; changed = true }
      else if c == b'j'
      then record {
        rest = s;
        out = if ltb (length out + 1) end then out ++ (b'l' ∷ b'l' ∷ []) else out;
        changed = true;
      }
      else elim (after_hh (c ∷ s)) [
        | some s' ↦ record { rest = s'; out = out ++ (b'h' ∷ []); changed = true }
        | none ↦ copy_while is_modifier (c ∷ s) out changed
      ]

  pub copy_conversion : List ℕ → List ℕ → Bool → Scan
  copy_conversion [] out changed = record { rest = []; out = out; changed = changed }
  copy_conversion (c ∷ s) out changed =
      if has_room out
      then record { rest = s; out = out ++ (c ∷ []); changed = changed }
      else record { rest = c ∷ s; out = out; changed = changed }

  -- What follows a `%` that begins a conversion.
  pub convert_spec : List ℕ → List ℕ → Bool → Scan
  convert_spec s out changed =
      let flags = copy_while is_flag s out changed in
      let width = copy_width flags.rest flags.out flags.changed in
      let precision = copy_precision width.rest width.out width.changed in
      let modifier = convert_modifier precision.rest precision.out precision.changed in
      copy_conversion modifier.rest modifier.out modifier.changed

  -- The outer loop. Each round takes a byte of the format at least, so its length and one more
  -- rounds are enough; `none` is the end of the fuel.
  pub preprocess_loop : ℕ → List ℕ → List ℕ → Bool → Option Scan
  preprocess_loop zero s out changed = none
  preprocess_loop (suc fuel) [] out changed =
      some (record { rest = []; out = out; changed = changed })
  preprocess_loop (suc fuel) (c ∷ s) out changed =
      let done : Scan = record { rest = c ∷ s; out = out; changed = changed } in
      let literal = preprocess_loop fuel s (out ++ (c ∷ [])) changed in
      if not (has_room out) then some done else if not (c == b'%') then literal else elim s [
        | [] ↦ some (record { rest = []; out = out ++ (c ∷ []); changed = changed })
        | e ∷ s' ↦
            if not (has_room (out ++ (c ∷ [])))
            then some (record { rest = e ∷ s'; out = out ++ (c ∷ []); changed = changed })
            else elim (e == b'%') [
              | true ↦ preprocess_loop fuel s' (out ++ (c ∷ e ∷ [])) changed
              | false ↦
                  let x = convert_spec (e ∷ s') (out ++ (c ∷ [])) changed in
                  preprocess_loop fuel x.rest x.out x.changed
            ]
      ]

-- The bytes of `out` before the zero byte at `*d`, and `changed`.
pub scan_format : ℕ → List ℕ → Option Scan
scan_format outsize fmt = preprocess_loop (outsize - 1) (suc (length fmt)) fmt [] false

-- The string that is returned: `out` where something was changed.
abbrev pub chosen : Scan → List ℕ → List ℕ
chosen x fmt = if x.changed then x.out else fmt

pub preprocess_fmt : ℕ → List ℕ → Option (List ℕ)
preprocess_fmt outsize fmt = Option.map (λ x. chosen x fmt) (scan_format outsize fmt)
