-- ===== src/Asprintf.antt =====
-- src/stdio.c: `vasprintf`, on the `vsnprintf` of src/snprintf.c. The bytes of a new block are all
-- `fill` before it is printed to.
pub mod Whole
pub mod Tests
use libsolcompat.Common.Int.{ℤ, pos, negsuc}
use libsolcompat.Snprintf.Print.{Printed, vsnprintf}
use libsolcompat.Common.{
  ℕ, ◌+◌, Bool, not, ◌||◌, Option, none, some, List, replicate, if◌then◌else◌,
}

-- The result of `vasprintf`, `*strp`, none for NULL, and whether a call of `vsnprintf` has written
-- past its heap buffer, or past the buffer of the format.
pub record Allocated : Type 0 where
  pub ret : ℤ
  pub strp : Option (List ℕ)
  pub overrun : Bool
  pub fmt_overrun : Bool

-- A failure after the first call.
abbrev pub no_text : Printed → Allocated
no_text measured = record {
  ret = negsuc 0;
  strp = none;
  overrun = measured.overrun;
  fmt_overrun = measured.fmt_overrun;
}

abbrev pub printed_to : ℕ → Printed → Option Printed → Option Allocated
printed_to len measured none = none
printed_to len measured (some p) = some (record {
  ret = pos len;
  strp = p.str;
  overrun = measured.overrun || p.overrun;
  fmt_overrun = measured.fmt_overrun || p.fmt_overrun;
})

-- After the length is known.
abbrev pub print_measured :
    (ℕ → Bool) → (List ℕ → Option (List ℕ)) → ℕ → List ℕ → Printed → ℤ → Option Allocated
print_measured malloc vsprintf fill fmt measured (negsuc n) = some (no_text measured)
print_measured malloc vsprintf fill fmt measured (pos len) =
    if not (malloc (len + 1))
    then some (no_text measured)
    else printed_to len measured
        (vsnprintf malloc vsprintf (some (replicate (len + 1) fill)) (len + 1) fmt)

abbrev pub then_print :
    (ℕ → Bool) → (List ℕ → Option (List ℕ)) → ℕ → List ℕ → Option Printed → Option Allocated
then_print malloc vsprintf fill fmt none = none
then_print malloc vsprintf fill fmt (some measured) =
    print_measured malloc vsprintf fill fmt measured measured.ret

-- The result none is the end of the fuel of `vsnprintf`.
pub vasprintf : (ℕ → Bool) → (List ℕ → Option (List ℕ)) → ℕ → List ℕ → Option Allocated
vasprintf malloc vsprintf fill fmt =
    then_print malloc vsprintf fill fmt (vsnprintf malloc vsprintf none 0 fmt)
