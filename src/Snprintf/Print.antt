-- ===== src/Snprintf/Print.antt =====
-- `solcompat_vsnprintf`: the heap buffer that grows until the text fits, and the copy to the
-- caller's. The C library's `vsprintf`, with its arguments, is a function from the format to the
-- text (none where it returns a negative length); `malloc n` says whether the allocation succeeds.
use libsolcompat.Common.{
  ℕ, zero, suc, ◌+◌, ◌-◌, ◌*◌, Bool, true, false, not, Option, none, some, List, [], ◌∷◌, ◌++◌,
  length, ltb, leb, if◌then◌else◌, ◌>>=◌, Block, store,
}
use libsolcompat.Common.Int.{ℤ, pos, negsuc}
use libsolcompat.Common.Libc.{memcpy}
use libsolcompat.Snprintf.{Scan, chosen, scan_format}

abbrev pub stack_buf_size : ℕ
stack_buf_size = 8192

abbrev pub fmt_buf_size : ℕ
fmt_buf_size = 2048

abbrev pub sanity_limit : ℕ
sanity_limit = 8 * 1024 * 1024

-- How the growing loop ends.
pub data Attempt : Type 0 where
  no_memory bad_encoding : Attempt
  formatted : List ℕ → Attempt

-- The loop, and whether some `vsprintf` wrote past its buffer. `none` is the end of the fuel.
unfoldable pub grow : ℕ → (ℕ → Bool) → Option (List ℕ) → ℕ → Bool → Option (Attempt × Bool)
grow zero malloc text work_size overrun = none
grow (suc fuel) malloc text work_size overrun =
    let again = grow fuel malloc text (work_size * 2) true in
    if not (malloc work_size) then some (no_memory, overrun) else elim text [
      | none ↦ some (bad_encoding, overrun)
      | some s ↦
          if ltb (length s) work_size
          then some (formatted s, overrun)
          else if ltb sanity_limit work_size
          then some (no_memory, true)
          else again
    ]

-- The copy to the caller's buffer, where there is one.
unfoldable pub copy_out : Option Block → ℕ → List ℕ → Option (Option Block)
copy_out none size text = some none
copy_out (some str) size text =
    if ltb 0 size
    then (if ltb (length text) size
        then (do str' ← memcpy str 0 (text ++ (0 ∷ [])) 0 (length text + 1); some (some str'))
        else do
          str' ← memcpy str 0 (text ++ (0 ∷ [])) 0 (size - 1)
          str'' ← store str' (size - 1) 0
          some (some str''))
    else some (some str)

-- `overrun` is whether a `vsprintf` wrote past its heap buffer, `fmt_overrun` whether the translation
-- of the format did past `fmt_buf`. The other fields are what is left where such a write does no
-- harm.
pub record Printed : Type 0 where
  pub ret : ℤ
  pub str : Option Block
  pub enomem : Bool
  pub overrun : Bool
  pub fmt_overrun : Bool

-- The bytes of the translation and the zero byte behind them reach past `fmt_buf`.
abbrev pub passes_buffer : Scan → Bool
passes_buffer x = leb fmt_buf_size (length x.out)

-- The sizes that the loop tries are 12, from 8 KB to 16 MB.
unfoldable pub vsnprintf :
    (ℕ → Bool) → (List ℕ → Option (List ℕ)) → Option Block → ℕ → List ℕ → Option Printed
vsnprintf malloc vsprintf str size fmt = do
  x ← scan_format fmt_buf_size fmt
  (attempt, overrun) ← grow 12 malloc (vsprintf (chosen x fmt)) stack_buf_size false
  elim attempt [
    | no_memory ↦ some (record {
      ret = negsuc 0;
      str = str;
      enomem = true;
      overrun = overrun;
      fmt_overrun = passes_buffer x;
    })
    | bad_encoding ↦ some (record {
      ret = negsuc 0;
      str = str;
      enomem = false;
      overrun = overrun;
      fmt_overrun = passes_buffer x;
    })
    | formatted text ↦ do
      str' ← copy_out str size text
      some (record {
        ret = pos (length text);
        str = str';
        enomem = false;
        overrun = overrun;
        fmt_overrun = passes_buffer x;
      })
  ]
