-- ===== src/Wchar/Tests.antt =====
-- src/wchar.c: a character above the first plane.
use libsolcompat.Common.{refl, ◌⊎◌, inr, none, some, [], ◌∷◌, arith}
use libsolcompat.Wchar.{MbState, decoded, Locale}
use libsolcompat.Wchar.Utf16.{IsSingle, IsPair, c16rtomb-mbrtoc16}

-- Four bytes are U+1F600, whichever they are; every character is written as a byte 7.
abbrev locale : Locale
locale = record {
  mbrtowc = λ s libc. decoded 0x1F600 4 libc;
  wcrtomb = λ wc libc. (some (7 ∷ []), libc);
}

abbrev initial : MbState
initial = record { libc = 0; raw_low = 0; raw_high = 0 }

c16rtomb-mbrtoc16_example :
    IsSingle locale none initial initial 0x1F600 4
    ⊎ IsPair locale none none initial initial 0x1F600 4
c16rtomb-mbrtoc16_example =
    c16rtomb-mbrtoc16 locale none none initial initial 0x1F600 4 0 refl refl (omega arith)
      (inr (omega arith))
