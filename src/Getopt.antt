-- ===== src/Getopt.antt =====
-- src/getopt_long.c: the option parser, as a function of its global variables. A string is the
-- list of its bytes before the zero byte, so the byte at its length is the zero byte, `none`. An
-- index of `argv` with no entry reads as NULL.
pub mod Long
pub mod Progress
pub mod Tests
use mathlib.Core.Option
use libsolcompat.Common.{
  ℕ, zero, suc, ◌+◌, ◌-◌, Bool, true, false, not, ◌&&◌, ◌||◌, Option, none, some, List, [], ◌∷◌,
  ◌++◌, length, get_elem?, drop, ltb, leb, ◌==◌, if◌then◌else◌,
}
use libsolcompat.Common.Int.{ℤ, pos, negsuc}

abbrev pub Str : Type 0
Str = List ℕ

-- The value of a byte in a `char`, which is signed.
abbrev pub char_value : ℕ → ℤ
char_value c = if ltb c 128 then pos c else negsuc (255 - c)

-- What is printed to stderr.
pub data Diagnostic : Type 0 where
  invalid_option requires_argument : ℕ → Diagnostic
  ambiguous unrecognized no_argument_allowed long_requires_argument : Str → Diagnostic

pub record State : Type 0 where
  pub optarg : Option Str
  pub optind : ℕ
  pub opterr : Bool
  pub optopt : ℤ
  pub short_next : ℕ
  pub stderr : List Diagnostic
  -- The assignments `*flag = val`, each by the number that stands for its address.
  pub flags : List (ℕ × ℤ)
  -- What `*longindex` holds, once a call has stored it.
  pub longindex : Option ℕ

abbrev pub Args : Type 0
Args = List Str

abbrev pub end_of_options : ℤ
end_of_options = negsuc 0

abbrev pub question : ℤ
question = pos b'?'

-- `argv[optind]`, as the loops test it: NULL at `argc` and after.
abbrev pub current : ℕ → Args → ℕ → Option Str
current argc argv i = if leb argc i then none else get_elem? argv i

-- The byte after a character's first place in a string, and all that follow it.
pub strchr_rest : Str → ℕ → Option Str
strchr_rest [] c = none
strchr_rest (x ∷ s) c = if x == c then some s else strchr_rest s c

abbrev pub head_is : Str → ℕ → Bool
head_is [] c = false
head_is (x ∷ s) c = x == c

-- The option string past its mode prefix.
abbrev pub lookup_part : Str → Str
lookup_part [] = []
lookup_part (x ∷ s) = if x == b'+' || x == b'-' then s else x ∷ s

abbrev pub report : Bool → Diagnostic → State → State
report on d s = if on then record s { stderr = s.stderr ++ (d ∷ []) } else s

-- Moves on to the next element of `argv`.
abbrev pub next_arg : State → State
next_arg s = record s { optind = s.optind + 1; short_next = 0 }

-- Moves past one character of a cluster.
abbrev pub next_char : Str → State → State
next_char arg s =
    if leb (length arg) (s.short_next + 1)
    then next_arg s
    else record s { short_next = s.short_next + 1 }

module _ (argc : ℕ) (argv : Args) (optstring : Str) where
  abbrev pub silent : Bool
  silent = head_is optstring b':'

  -- An option that takes an argument; `spec` is what follows its colon.
  pub take_argument : State → Str → ℕ → Str → State × ℤ
  take_argument s arg opt spec =
      if ltb (s.short_next + 1) (length arg)
      then (record (next_arg s) { optarg = some (drop (s.short_next + 1) arg) }, char_value opt)
      else if head_is spec b':'
      then (record (next_arg s) { optarg = none }, char_value opt)
      else if leb argc (s.optind + 1)
      then (
        record (report (s.opterr && not silent) (requires_argument opt) (next_arg s)) {
          optopt = char_value opt;
        },
        if silent then pos b':' else question,
      )
      else (
        record (next_arg s) { optarg = get_elem? argv (s.optind + 1); optind = s.optind + 2 },
        char_value opt,
      )

  -- A character that is no option.
  pub unknown_option : State → Str → ℕ → State × ℤ
  unknown_option s arg opt = (
    next_char arg (record (report (s.opterr && not silent) (invalid_option opt) s) {
      optopt = char_value opt;
    }),
    question,
  )

  -- The character `opt` of `arg`, by what follows it in the option string.
  pub found_option : State → Str → ℕ → Option Str → State × ℤ
  found_option s arg opt none = unknown_option s arg opt
  found_option s arg opt (some []) =
      if opt == b':'
      then unknown_option s arg opt
      else (next_char arg (record s { optarg = none }), char_value opt)
  found_option s arg opt (some (x ∷ spec)) =
      if opt == b':'
      then unknown_option s arg opt
      else if x == b':'
      then take_argument s arg opt spec
      else (next_char arg (record s { optarg = none }), char_value opt)

  -- The character `opt` of `arg`, at `short_next`.
  pub short_option : State → Str → ℕ → State × ℤ
  short_option s arg opt = found_option s arg opt (strchr_rest (lookup_part optstring) opt)

  -- An element that is no option: returned as code 1 in the mode "-", and else the end.
  pub non_option : State → Str → State × ℤ
  non_option s arg =
      if head_is optstring b'-'
      then (record s { optarg = some arg; optind = s.optind + 1 }, pos 1)
      else (s, end_of_options)

  -- A new element of `argv`, by its first bytes.
  pub start_with : State → Str → State × ℤ
  start_with s [] = non_option s []
  start_with s (a ∷ []) = non_option s (a ∷ [])
  start_with s (a ∷ b ∷ rest) =
      if not (a == b'-')
      then non_option s (a ∷ b ∷ rest)
      else if b == b'-' && leb (length rest) 0
      then (record s { optind = s.optind + 1 }, end_of_options)
      else short_option (record s { short_next = 1 }) (a ∷ b ∷ rest) b

  pub start_at : State → Option Str → State × ℤ
  start_at s none = (s, end_of_options)
  start_at s (some arg) = start_with s arg

  pub start_element : State → State × ℤ
  start_element s = start_at s (current argc argv s.optind)

  -- The next character of a cluster, or its end.
  pub continue_char : State → Str → Option ℕ → State × ℤ
  continue_char s arg none = start_element (next_arg s)
  continue_char s arg (some opt) = short_option s arg opt

  pub continue_at : State → Option Str → State × ℤ
  continue_at s none = (record s { short_next = 0 }, end_of_options)
  continue_at s (some arg) = continue_char s arg (get_elem? arg s.short_next)

  pub getopt : State → State × ℤ
  getopt s =
      if ltb 0 s.short_next then continue_at s (current argc argv s.optind) else start_element s
