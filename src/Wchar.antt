-- ===== src/Wchar.antt =====
-- src/wchar.c: characters as units of UTF-16. The state of a conversion is libc's part and the two bytes behind it.
pub mod Utf16
pub mod Tests
use Prim.Native.Nat.{bit_or}
use libsolcompat.Common.{
  ℕ, zero, suc, ◌+◌, ◌-◌, ◌*◌, ◌/◌, ◌%◌, ◌^◌, Bool, true, false, not, ◌&&◌, ◌||◌, Option, none,
  some, List, [], ◌∷◌, length, ltb, leb, ◌==◌, if◌then◌else◌,
}

-- `raw[sizeof(mbstate_t) - 2]` and the byte after it.
pub record MbState : Type 0 where
  pub libc : ℕ
  pub raw_low : ℕ
  pub raw_high : ℕ

-- What `mbrtowc` of libc answers.
pub data Decoded : Type 0 where
  invalid : Decoded
  incomplete : ℕ → Decoded
  decoded : ℕ → ℕ → ℕ → Decoded

-- The calls of libc, on their part of the state.
pub record Locale : Type 0 where
  pub mbrtowc : Option (List ℕ) → ℕ → Decoded
  pub wcrtomb : Option ℕ → ℕ → Option (List ℕ) × ℕ

-- -1, -2, -3 with a unit, or a unit with the number of bytes.
pub data Got16 : Type 0 where
  error16 : Got16
  incomplete16 : Got16
  continued : ℕ → Got16
  unit16 : ℕ → ℕ → Got16

-- The bytes of the pending unit share no bits.
abbrev pub pending : MbState → ℕ
pending st = st.raw_low + st.raw_high * 256

abbrev pub stash : ℕ → MbState → MbState
stash unit st = record st { raw_low = unit % 256; raw_high = unit / 256 % 256 }

abbrev pub high_surrogate : ℕ → ℕ
high_surrogate v = bit_or 0xD800 (v / 1024) % 2 ^ 16

abbrev pub low_surrogate : ℕ → ℕ
low_surrogate v = bit_or 0xDC00 (v % 1024) % 2 ^ 16

pub encode16 : Decoded → MbState → Got16 × MbState
encode16 invalid st = (error16, st)
encode16 (incomplete libc) st = (incomplete16, record st { libc = libc })
encode16 (decoded wc r libc) st =
    let st' = record st { libc = libc } in
    if leb wc 0xFFFF
    then (unit16 (wc % 2 ^ 16) r, st')
    else (unit16 (high_surrogate (wc - 0x10000)) r, stash (low_surrogate (wc - 0x10000)) st')

-- `s` is none for NULL, which stands for the empty string.
pub mbrtoc16 : Locale → Option (List ℕ) → MbState → Got16 × MbState
mbrtoc16 l s st =
    if not (pending st == 0)
    then (continued (pending st), record st { raw_low = 0; raw_high = 0 })
    else encode16 (l.mbrtowc s (st.libc)) st

pub is_high : ℕ → Bool
is_high c16 = leb 0xD800 c16 && leb c16 0xDBFF

pub is_low : ℕ → Bool
is_low c16 = leb 0xDC00 c16 && leb c16 0xDFFF

-- The bytes that `wcrtomb` writes, none for -1.
abbrev pub write_wide : Locale → Option ℕ → MbState → Option (List ℕ) × MbState
write_wide l wc st =
    let (bytes, libc) = l.wcrtomb wc (st.libc) in (bytes, record st { libc = libc })

abbrev pub combine : ℕ → ℕ → ℕ
combine high c16 = 0x10000 + (high - 0xD800) * 1024 + (c16 - 0xDC00)

-- `c16` is none where `s` is NULL.
pub c16rtomb : Locale → Option ℕ → MbState → Option (List ℕ) × MbState
c16rtomb l none st = write_wide l none st
c16rtomb l (some c16) st =
    if is_high c16
    then (some [], stash c16 st)
    else if is_low c16
    then (if is_high (pending st)
        then write_wide l (some (combine (pending st) c16))
            (record st { raw_low = 0; raw_high = 0 })
        else (none, record st { raw_low = 0; raw_high = 0 }))
    else write_wide l (some c16) st
