-- ===== src/Stdio.antt =====
-- src/stdio.c: lines of any length. A stream is the bytes that
-- `fgetc` will still give.
pub mod Delimiter
pub mod Tests
use libsolcompat.Common.{
  ℕ, zero, suc, ◌+◌, ◌-◌, ◌*◌, ◌%◌, ◌^◌, Bool, true, false, ◌&&◌, ◌||◌, Option, none, some, List,
  [], ◌∷◌, ◌++◌, length, take, drop, replicate, set, ltb, leb, ◌==◌, if◌then◌else◌,
}

-- The answers of `malloc` and `realloc`; where they end, all succeed. A new byte of a block is
-- `fill`.
pub record Allocator : Type 0 where
  pub answers : List Bool
  pub fill : ℕ

abbrev pub next_answer : List Bool → Bool
next_answer [] = true
next_answer (a ∷ answers) = a

abbrev pub later_answers : List Bool → List Bool
later_answers [] = []
later_answers (a ∷ answers) = answers

-- `*lineptr`, none for NULL, and `*n`.
pub record Line : Type 0 where
  pub block : Option (List ℕ)
  pub n : ℕ

-- The result, none for -1, with the line and what is left of the stream.
pub record Got : Type 0 where
  pub result : Option ℕ
  pub line : Line
  pub rest : List ℕ

pub initial_size : ℕ
initial_size = 128

abbrev pub got : Option ℕ → List ℕ → ℕ → List ℕ → Got
got result buf bufsize rest = record {
  result = result;
  line = record { block = some buf; n = bufsize };
  rest = rest;
}

-- `size_t` has 32 bits.
pub doubled : ℕ → ℕ
doubled bufsize = bufsize * 2 % 2 ^ 32

abbrev pub terminated : List ℕ → ℕ → ℕ → List ℕ → Got
terminated buf bufsize pos rest = got (some pos) (set buf pos 0) bufsize rest

-- `buf` is the block of `*lineptr`, and `bufsize` is `*n`.
pub getdelim_loop : ℕ → Allocator → List ℕ → List ℕ → ℕ → ℕ → Got
getdelim_loop delim a [] buf bufsize pos =
    if pos == 0 then got none buf bufsize [] else terminated buf bufsize pos []
getdelim_loop delim a (c ∷ input) buf bufsize pos =
    let grown = buf ++ replicate (doubled bufsize - length buf) a.fill in
    let after = record a { answers = later_answers a.answers } in
    let more = getdelim_loop delim after input (set grown pos c) (doubled bufsize) (pos + 1) in
    let same = getdelim_loop delim a input (set buf pos c) bufsize (pos + 1) in
    if leb bufsize (pos + 1)
    then (if next_answer a.answers
        then (if c == delim
            then terminated (set grown pos c) (doubled bufsize) (pos + 1) input
            else more)
        else got none buf bufsize input)
    else if c == delim
    then terminated (set buf pos c) bufsize (pos + 1) input
    else same

abbrev pub allocate_line : ℕ → Allocator → List ℕ → Line → Got
allocate_line delim a input l =
    if next_answer a.answers
    then getdelim_loop delim (record a { answers = later_answers a.answers }) input
        (replicate initial_size a.fill) initial_size 0
    else record { result = none; line = l; rest = input }

abbrev pub start_line : ℕ → Allocator → List ℕ → Line → Option (List ℕ) → ℕ → Got
start_line delim a input l none n = allocate_line delim a input l
start_line delim a input l (some buf) zero = allocate_line delim a input l
start_line delim a input l (some buf) (suc n) = getdelim_loop delim a input buf (suc n) 0

pub getdelim : ℕ → Allocator → List ℕ → Line → Got
getdelim delim a input l = start_line delim a input l l.block l.n

pub getline : Allocator → List ℕ → Line → Got
getline a input l = getdelim b'\n' a input l
