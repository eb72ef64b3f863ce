-- ===== src/Asprintf/Whole.antt =====
-- src/stdio.c: what `vasprintf` prints, by what `vsnprintf` promises.
use libsolcompat.Common.{
  ℕ, suc, ◌+◌, ◌-◌, ◌*◌, ◌<◌, ◌≡◌, refl, ◌∙◌, sym, ap, ap₂, min, Bool, true, false, ◌||◌, leb, inl,
  inr, Option, none, some, List, [], ◌∷◌, ◌++◌, length, replicate, get_elem?, ◌==◌, arith,
  Bool-cases, length-append, length-replicate,
}
use libsolcompat.Str.Copy.{Terminated}
use libsolcompat.Common.Int.{pos}
use libsolcompat.Snprintf.{Scan, scan_format, preprocess_fmt}
use libsolcompat.Snprintf.Print.{
  fmt_buf_size, stack_buf_size, sanity_limit, passes_buffer, vsnprintf,
}
use libsolcompat.Snprintf.Contract.{printed, vsnprintf-c99, vsnprintf_measures}
use libsolcompat.Asprintf.{Allocated, printed_to, then_print, vasprintf}

-- Lists of one length with the same elements.
same_elements :
    (xs ys : List ℕ)
    → length xs ≡ length ys
    → ((k : ℕ) → k < length xs → get_elem? xs k ≡ get_elem? ys k)
    → xs ≡ ys
same_elements [] [] e h = refl
same_elements [] (y ∷ ys) e h = absurd (omega arith)
same_elements (x ∷ xs) [] e h = absurd (omega arith)
same_elements (x ∷ xs) (y ∷ ys) e h =
    let head : x ≡ y = ground (arith, h 0 (omega arith)) in
    ap₂ (λ (a : ℕ) (l : List ℕ). a ∷ l) head
      (same_elements xs ys (omega arith) (λ k p. h (suc k) (omega arith)))

get_last : (xs : List ℕ) (a : ℕ) → get_elem? (xs ++ (a ∷ [])) (length xs) ≡ some a
get_last [] a = refl
get_last (x ∷ xs) a = get_last xs a

Terminated-whole :
    (str text out : List ℕ)
    → length str ≡ length text + 1
    → Terminated str (text ++ (0 ∷ [])) 0 (min (length text) (length text + 1 - 1)) out
    → out ≡ text ++ (0 ∷ [])
Terminated-whole str text out size t =
    let whole : min (length text) (length text + 1 - 1) ≡ length text = omega arith in
    let total : length out ≡ length text + 1 = omega (arith, t.same_length, size) in
    let sum = length-append {0} text (0 ∷ []) in
    same_elements out (text ++ (0 ∷ [])) (omega (arith, total, sum)) (λ k p.
      elim (Bool-cases (k == length text)) [
        | inl last ↦
            let at : k ≡ length text = ground arith in
            ap (λ (i : ℕ). get_elem? out i) (at_end at whole)
            ∙ t.ends
            ∙ sym (ap (λ (i : ℕ). get_elem? (text ++ (0 ∷ [])) i) at ∙ get_last text 0)
        | inr before ↦
            ap (λ (i : ℕ). get_elem? out i) (omega arith)
            ∙ t.copied k (ground (arith, whole, total))
      ])
  where
    at_end : {k n : ℕ} → k ≡ length text → n ≡ length text → k ≡ 0 + n
    at_end e f = omega (arith, e, f)

-- What `vasprintf` returns for a text, by the scan of the format.
abbrev pub allocated : List ℕ → Scan → Allocated
allocated text x = record {
  ret = pos (length text);
  strp = some (text ++ (0 ∷ []));
  overrun = leb stack_buf_size (length text);
  fmt_overrun = passes_buffer x;
}

or_self : (b : Bool) → (b || b) ≡ b
or_self true = refl
or_self false = refl

-- The second call, with the block for the whole text.
print_whole :
    (malloc : ℕ → Bool) (vsprintf : List ℕ → Option (List ℕ)) (fill : ℕ) (fmt text : List ℕ)
    → ((n : ℕ) → malloc n ≡ true)
    → ((fmt' : List ℕ) → preprocess_fmt fmt_buf_size fmt ≡ some fmt' → vsprintf fmt' ≡ some text)
    → length text < 2 * sanity_limit
    → (x : Scan) × (scan_format fmt_buf_size fmt ≡ some x)
      × (length fmt < 1024 → passes_buffer x ≡ false)
      × (printed_to (length text) (printed text none x) (
            vsnprintf malloc vsprintf
              (some (replicate (length text + 1) fill))
              (length text + 1)
              fmt)
          ≡ some (allocated text x))
print_whole malloc vsprintf fill fmt text gives makes small =
    let size = length-replicate {0} {A = ℕ} (length text + 1) fill in
    let (x, es, short, (out, e, t)) =
      vsnprintf-c99 malloc vsprintf (replicate (length text + 1) fill) (length text + 1) fmt text
        gives makes small (omega arith) (omega (arith, size)) in
    (
      x,
      es,
      short,
      ap (printed_to (length text) (printed text none x)) e
          ∙ ap₂
              (λ (b : List ℕ) (o : Bool × Bool). some (record {
                ret = pos (length text);
                strp = some b;
                overrun = o.0;
                fmt_overrun = o.1;
              }))
              (Terminated-whole (replicate (length text + 1) fill) text out size t)
              (ap₂ (λ (a b : Bool). (a, b)) (or_self (leb stack_buf_size (length text)))
                (or_self (passes_buffer x))),
    )

-- Where memory is not short and the text that `vsprintf` makes of the translated format is shorter
-- than 16 MB, vasprintf returns, for every format, with the length of the text, and stores a block
-- with the whole text and a zero byte. On the way it has written past a heap buffer exactly where
-- the text has 8192 bytes or more, and past the buffer of the format exactly where its translation
-- has 2048 bytes or more, which a format below 1024 bytes never has; after such a write the rest
-- holds only where it does no harm.
pub vasprintf-whole :
    (malloc : ℕ → Bool) (vsprintf : List ℕ → Option (List ℕ)) (fill : ℕ) (fmt text : List ℕ)
    → ((n : ℕ) → malloc n ≡ true)
    → ((fmt' : List ℕ) → preprocess_fmt fmt_buf_size fmt ≡ some fmt' → vsprintf fmt' ≡ some text)
    → length text < 2 * sanity_limit
    → (x : Scan) × (scan_format fmt_buf_size fmt ≡ some x)
      × (length fmt < 1024 → passes_buffer x ≡ false)
      × (vasprintf malloc vsprintf fill fmt ≡ some (allocated text x))
unfolding vasprintf
vasprintf-whole malloc vsprintf fill fmt text gives makes small =
    let (x, es, short, whole) = print_whole malloc vsprintf fill fmt text gives makes small in
    (
      x,
      es,
      short,
      ap (then_print malloc vsprintf fill fmt)
            (vsnprintf_measures malloc vsprintf fmt text x gives makes small es)
          ∙ rw (gives (length text + 1)) whole,
    )
