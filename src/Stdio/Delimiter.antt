-- ===== src/Stdio/Delimiter.antt =====
-- src/stdio.c: what `getdelim` reads.
use mathlib.Core.Path.{subst}
use libsolcompat.Common.{
  ℕ, zero, suc, ◌+◌, ◌-◌, ◌*◌, ◌%◌, ◌^◌, ◌≤◌, ◌<◌, ◌≡◌, refl, ◌∙◌, sym, ap, false, Option, none,
  some, List, [], ◌∷◌, ◌++◌, length, take, replicate, set, leb, ◌==◌, if◌then◌else◌, arith,
  Bool-cases, inl, inr, length-append, length-replicate, length-set, take-append_le, append_assoc,
  append-nil,
}
use libsolcompat.Stdio.{
  Allocator, Line, Got, initial_size, doubled, terminated, getdelim_loop, start_line, getdelim,
}

-- The bytes up to the delimiter, and with it.
abbrev pub line_of : ℕ → List ℕ → List ℕ
line_of delim [] = []
line_of delim (c ∷ input) = if c == delim then c ∷ [] else c ∷ line_of delim input

abbrev pub after_line : ℕ → List ℕ → List ℕ
after_line delim [] = []
after_line delim (c ∷ input) = if c == delim then input else after_line delim input

-- The line with a zero byte behind it is at the beginning of a block whose size is `*n`.
abbrev pub IsRead : List ℕ → List ℕ → Got → Type 0
IsRead line rest g =
    (buf : List ℕ) × (g.result ≡ some (length line))
    × (g.line.block ≡ some buf)
    × (length buf ≡ g.line.n)
    × (take (length line + 1) buf ≡ line ++ (0 ∷ []))
    × (g.rest ≡ rest)

take-set_next :
    (xs : List ℕ) (i k v : ℕ)
    → i < length xs
    → k ≡ suc i
    → take k (set xs i v) ≡ take i xs ++ (v ∷ [])
take-set_next [] i k v h e = absurd (omega arith)
take-set_next (x ∷ xs) i zero v h e = absurd (omega arith)
take-set_next (x ∷ xs) zero (suc k) v h e = let first : k ≡ 0 = omega arith in rw first refl
take-set_next (x ∷ xs) (suc i) (suc k) v h e =
    ap (λ (l : List ℕ). x ∷ l) (take-set_next xs i k v (omega arith) (omega arith))

-- The bytes so far are in the block, which has room for one more and the zero byte.
record IsFilled (done buf : List ℕ) (bufsize pos : ℕ) : Type 0 where
  size : length buf ≡ bufsize
  room : pos < bufsize
  count : length done ≡ pos
  bytes : take pos buf ≡ done

terminated-IsRead :
    (done buf : List ℕ) (bufsize pos : ℕ) (input : List ℕ)
    → IsFilled done buf bufsize pos
    → IsRead done input (terminated buf bufsize pos input)
terminated-IsRead done buf bufsize pos input f = (
  set buf pos 0,
  ap some (sym (f.count)),
  refl,
  length-set buf pos 0 ∙ f.size,
  take-set_next buf pos (length done + 1) 0 (omega (arith, f.size, f.room)) (omega (arith, f.count))
      ∙ ap (λ (l : List ℕ). l ++ (0 ∷ [])) (f.bytes),
  refl,
)

-- One more byte.
store-IsFilled :
    (done buf : List ℕ) (bufsize pos c : ℕ)
    → IsFilled done buf bufsize pos
    → pos + 1 < bufsize
    → IsFilled (done ++ (c ∷ [])) (set buf pos c) bufsize (pos + 1)
store-IsFilled done buf bufsize pos c f more = record {
  size = length-set buf pos c ∙ f.size;
  room = more;
  count = omega (arith, length-append {0} done (c ∷ []), f.count);
  bytes =
      take-set_next buf pos (pos + 1) c (omega (arith, f.size, f.room)) (omega arith)
      ∙ ap (λ (l : List ℕ). l ++ (c ∷ [])) (f.bytes);
}

-- A larger block, where the next byte and the zero byte would not fit.
grow-IsFilled :
    (done buf : List ℕ) (bufsize pos fill : ℕ)
    → IsFilled done buf bufsize pos
    → bufsize ≤ pos + 1
    → pos + 1 < 2 ^ 31
    → IsFilled done (buf ++ replicate (doubled bufsize - length buf) fill) (doubled bufsize) pos
      × (pos + 1 < doubled bufsize)
unfolding doubled
grow-IsFilled done buf bufsize pos fill f full small =
    let larger : bufsize * 2 % 2 ^ 32 ≡ bufsize * 2 = omega (arith, f.room) in
    (
      record {
        size = omega (
          arith,
          length-append {0} buf (replicate (bufsize * 2 % 2 ^ 32 - length buf) fill),
          length-replicate {0} {A = ℕ} (bufsize * 2 % 2 ^ 32 - length buf) fill,
          f.size,
          larger,
        );
        room = omega (arith, larger, f.room);
        count = f.count;
        bytes =
            take-append_le pos buf (replicate (bufsize * 2 % 2 ^ 32 - length buf) fill)
              (omega (arith, f.size, f.room))
            ∙ f.bytes;
      },
      omega (arith, larger, f.room),
    )

abbrev IsLine : ℕ → List ℕ → List ℕ → Got → Type 0
IsLine delim done input g = IsRead (done ++ line_of delim input) (after_line delim input) g

abbrev pub willing : ℕ → Allocator
willing fill = record { answers = []; fill = fill }

fresh-IsFilled : (fill : ℕ) → IsFilled [] (replicate initial_size fill) initial_size 0
unfolding initial_size
fresh-IsFilled fill = record {
  size = length-replicate {0} {A = ℕ} 128 fill;
  room = omega arith;
  count = refl;
  bytes = refl;
}

-- After a byte, the line ends at the delimiter or goes on.
byte-IsLine :
    (delim c : ℕ) (done input buf : List ℕ) (bufsize pos : ℕ) (more : Got)
    → IsFilled (done ++ (c ∷ [])) buf bufsize pos
    → IsLine delim (done ++ (c ∷ [])) input more
    → IsLine delim done (c ∷ input) (if c == delim then terminated buf bufsize pos input else more)
byte-IsLine delim c done input buf bufsize pos more f go = elim (Bool-cases (c == delim)) [
  | inl last ↦ rw last (terminated-IsRead (done ++ (c ∷ [])) buf bufsize pos input f)
  | inr other ↦ rw other (
      subst (λ (l : List ℕ). IsRead l (after_line delim input) more)
        (append_assoc done (c ∷ []) (line_of delim input)) go)
]

loop-IsLine :
    (input : List ℕ) (delim fill : ℕ) (done buf : List ℕ) (bufsize pos : ℕ)
    → IsFilled done buf bufsize pos
    → 0 < pos + length input
    → pos + length input < 2 ^ 31
    → IsLine delim done input (getdelim_loop delim (willing fill) input buf bufsize pos)
unfolding getdelim_loop
loop-IsLine [] delim fill done buf bufsize pos f some_byte small =
    let test : (pos == 0) ≡ false = ground arith in
    rw (test, append-nil done) (terminated-IsRead done buf bufsize pos [] f)
loop-IsLine (c ∷ input) delim fill done buf bufsize pos f some_byte small =
    let grown = buf ++ replicate (doubled bufsize - length buf) fill in
    elim (Bool-cases (leb bufsize (pos + 1))) [
      | inl full ↦
          let (f', more) = grow-IsFilled done buf bufsize pos fill f (ground arith) (omega arith) in
          let f'' = store-IsFilled done grown (doubled bufsize) pos c f' more in
          rw full (
            byte-IsLine delim c done input (set grown pos c) (doubled bufsize) (pos + 1) _ f'' (
              loop-IsLine input delim fill (done ++ (c ∷ [])) (set grown pos c) (doubled bufsize)
                (pos + 1) f'' (omega arith) (omega (arith, small))))
      | inr room ↦
          let f' = store-IsFilled done buf bufsize pos c f (ground arith) in
          rw room (
            byte-IsLine delim c done input (set buf pos c) bufsize (pos + 1) _ f' (
              loop-IsLine input delim fill (done ++ (c ∷ [])) (set buf pos c) bufsize (pos + 1) f'
                (omega arith) (omega (arith, small))))
    ]

-- The line that the caller passes: NULL, or a block of `*n` bytes.
abbrev pub IsLineptr : Option (List ℕ) → ℕ → Type 0
IsLineptr none n = Unit
IsLineptr (some buf) n = length buf ≡ n

start-IsLine :
    (delim fill : ℕ) (input : List ℕ) (l : Line) (block : Option (List ℕ)) (n : ℕ)
    → IsLineptr block n
    → 0 < length input
    → length input < 2 ^ 31
    → IsLine delim [] input (start_line delim (willing fill) input l block n)
start-IsLine delim fill input l none n h some_byte small =
    loop-IsLine input delim fill [] (replicate initial_size fill) initial_size 0
      (fresh-IsFilled fill) (omega arith) (omega arith)
start-IsLine delim fill input l (some buf) zero h some_byte small =
    loop-IsLine input delim fill [] (replicate initial_size fill) initial_size 0
      (fresh-IsFilled fill) (omega arith) (omega arith)
start-IsLine delim fill input l (some buf) (suc n) h some_byte small =
    loop-IsLine input delim fill [] buf (suc n) 0
      (record { size = h; room = omega arith; count = refl; bytes = refl }) (omega arith)
      (omega arith)

-- For every delimiter, every stream with a byte left and less than 2 GB, and *lineptr either NULL
-- or a block of *n bytes, when no allocation fails, getdelim returns the length of the line up to
-- and with the delimiter, stores it and a zero byte at the beginning of a block of *n bytes, and
-- takes no more from the stream than the line.
pub getdelim-IsRead :
    (delim fill : ℕ) (input : List ℕ) (l : Line)
    → IsLineptr l.block l.n
    → 0 < length input
    → length input < 2 ^ 31
    → IsRead (line_of delim input) (after_line delim input) (getdelim delim (willing fill) input l)
unfolding getdelim
getdelim-IsRead delim fill input l h some_byte small =
    start-IsLine delim fill input l (l.block) (l.n) h some_byte small
