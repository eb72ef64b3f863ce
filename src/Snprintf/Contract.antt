-- ===== src/Snprintf/Contract.antt =====
-- The modern contract of `vsnprintf`: the length of the whole text is returned, and the buffer gets as
-- much of it as fits, with a zero byte.
use libsolcompat.Common.{
  ℕ, suc, ◌+◌, ◌-◌, ◌*◌, ◌≤◌, ◌<◌, ◌≡◌, refl, inl, inr, Bool, true, false, ◌||◌, Option, none, some,
  List, [], ◌∷◌, ◌++◌, arith, length, length-append, ltb, leb, Block, min, Bool-cases, get_elem?,
}
use libsolcompat.Common.Int.{pos}
use libsolcompat.Common.Libc.{memcpy_lem}
use libsolcompat.Str.Copy.{Terminated, copy_terminate}
use libsolcompat.Snprintf.{Scan, chosen, scan_format, preprocess_fmt}
use libsolcompat.Snprintf.Fuel.{scan_format-Ends}
use libsolcompat.Snprintf.Print.{
  formatted, sanity_limit, grow, copy_out, vsnprintf, fmt_buf_size, stack_buf_size, Printed,
  passes_buffer,
}

module _ (malloc : ℕ → Bool) (text : List ℕ) (gives : (n : ℕ) → malloc n ≡ true) where
  -- One size: the text fits, or the next size is tried.
  grow_step :
      (fuel work_size : ℕ) (overrun : Bool)
      → (work_size ≤ length text
          → (work_size ≤ sanity_limit)
            × (grow fuel malloc (some text) (work_size * 2) true ≡ some (formatted text, true)))
      → grow (suc fuel) malloc (some text) work_size overrun
        ≡ some (formatted text, overrun || leb work_size (length text))
  unfolding grow
  grow_step fuel w o next = elim (Bool-cases (ltb (length text) w)) [
    | inl fits ↦ rw (gives w, fits) (ground arith)
    | inr large ↦ let (bound, rest) = next (ground arith) in ground (arith, gives w, rest)
  ]

  grow_fits :
      length text < 2 * sanity_limit
      → grow 12 malloc (some text) stack_buf_size false
        ≡ some (formatted text, leb stack_buf_size (length text))
  grow_fits small = grow_step 11 8192 false λ h. (
    omega arith,
    grow_step 10 16384 true λ h. (
      omega arith,
      grow_step 9 32768 true λ h. (
        omega arith,
        grow_step 8 65536 true λ h. (
          omega arith,
          grow_step 7 131072 true λ h. (
            omega arith,
            grow_step 6 262144 true λ h. (
              omega arith,
              grow_step 5 524288 true λ h. (
                omega arith,
                grow_step 4 1048576 true λ h. (
                  omega arith,
                  grow_step 3 2097152 true λ h. (
                    omega arith,
                    grow_step 2 4194304 true λ h. (
                      omega arith,
                      grow_step 1 8388608 true
                          λ h. (omega arith, grow_step 0 16777216 true λ h. absurd (omega arith)),
                    ),
                  ),
                ),
              ),
            ),
          ),
        ),
      ),
    ),
  )

get_elem?-append : (xs : List ℕ) (a : ℕ) → get_elem? (xs ++ (a ∷ [])) (length xs) ≡ some a
get_elem?-append [] a = refl
get_elem?-append (x ∷ xs) a = get_elem?-append xs a

copy_out_lem :
    (str : Block) (size : ℕ) (text : List ℕ)
    → 0 < size
    → size ≤ length str
    → (out : Block) × (copy_out (some str) size text ≡ some (some out))
      × Terminated str (text ++ (0 ∷ [])) 0 (min (length text) (size - 1)) out
unfolding copy_out
copy_out_lem str size text pos_size room =
    let len = length-append {0} text (0 ∷ []) in
    elim (Bool-cases (ltb (length text) size)) [
      | inl fits ↦
          let c =
            memcpy_lem str 0 (text ++ (0 ∷ [])) 0 (length text + 1) (ground arith)
              (omega (arith, len)) in
          (
            c.out,
            ground (arith, c.returns),
            record {
              same_length = c.same_length;
              copied = λ k q. ground (arith, c.copied k);
              ends = ground (arith, c.copied (length text), get_elem?-append text 0);
              kept = λ k q. c.kept k (ground arith);
            },
          )
      | inr cut ↦
          let c =
            copy_terminate str 0 (text ++ (0 ∷ [])) (min (length text) (size - 1)) (size - 1)
              (ground arith) (omega arith) (ground (arith, len)) in
          (c.out, ground (arith, c.copies, c.stores), c.result)
    ]

-- What `vsnprintf` returns for a text: its length, whether a heap buffer was written past its end
-- (from 8192 bytes on), and whether `fmt_buf` was, by the scan that its translation ends with.
abbrev pub printed : List ℕ → Option Block → Scan → Printed
printed text str x = record {
  ret = pos (length text);
  str = str;
  enomem = false;
  overrun = leb stack_buf_size (length text);
  fmt_overrun = passes_buffer x;
}

-- A format below 1024 bytes has a translation that fits.
short_fits :
    (x : Scan) (fmt : List ℕ)
    → length x.out ≤ 2 * length fmt
    → length fmt < 1024
    → passes_buffer x ≡ false
short_fits x fmt h q = ground (arith, h, q)

-- Where memory is not short and the text that `vsprintf` makes of the translated format is shorter
-- than 16 MB, `vsnprintf` returns, for every format, with the whole length of the text, also where
-- it does not fit. A buffer of `size` bytes, not 0, holds the first `min (length text) (size - 1)`
-- bytes and a zero byte. The heap buffer is written past its end exactly where the text has 8192
-- bytes or more; the buffer of the format is exactly where its translation has 2048 bytes or more,
-- which a format below 1024 bytes never has. After such a write the rest holds only where it does
-- no harm.
pub vsnprintf-c99 :
    (malloc : ℕ → Bool) (vsprintf : List ℕ → Option (List ℕ)) (str : Block) (size : ℕ)
    (fmt text : List ℕ)
    → ((n : ℕ) → malloc n ≡ true)
    → ((fmt' : List ℕ) → preprocess_fmt fmt_buf_size fmt ≡ some fmt' → vsprintf fmt' ≡ some text)
    → length text < 2 * sanity_limit
    → 0 < size
    → size ≤ length str
    → (x : Scan) × (scan_format fmt_buf_size fmt ≡ some x)
      × (length fmt < 1024 → passes_buffer x ≡ false)
      × ((out : Block) × (vsnprintf malloc vsprintf (some str) size fmt
            ≡ some (printed text (some out) x))
          × Terminated str (text ++ (0 ∷ [])) 0 (min (length text) (size - 1)) out)
unfolding vsnprintf
vsnprintf-c99 malloc vsprintf str size fmt text gives makes small pos_size room =
    let (x, es, ep, b) = scan_format-Ends fmt_buf_size fmt in
    let et = makes (chosen x fmt) ep in
    let (out, e, t) = copy_out_lem str size text pos_size room in
    (x, es, short_fits x fmt b, (out, rw (es, et, grow_fits malloc text gives small, e), t))

-- The idiom `vsnprintf(NULL, 0, ...)` measures: nothing is written and the length is returned.
pub vsnprintf_measures :
    (malloc : ℕ → Bool) (vsprintf : List ℕ → Option (List ℕ)) (fmt text : List ℕ) (x : Scan)
    → ((n : ℕ) → malloc n ≡ true)
    → ((fmt' : List ℕ) → preprocess_fmt fmt_buf_size fmt ≡ some fmt' → vsprintf fmt' ≡ some text)
    → length text < 2 * sanity_limit
    → scan_format fmt_buf_size fmt ≡ some x
    → vsnprintf malloc vsprintf none 0 fmt ≡ some (printed text none x)
unfolding vsnprintf copy_out preprocess_fmt
vsnprintf_measures malloc vsprintf fmt text x gives makes small es =
    let ep : preprocess_fmt fmt_buf_size fmt ≡ some (chosen x fmt) = rw es refl in
    let et = makes (chosen x fmt) ep in rw (es, et, grow_fits malloc text gives small)
