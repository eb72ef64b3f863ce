-- ===== src/Getopt/Long.antt =====
-- src/getopt_long.c: `getopt_long` and `getopt_long_only`.
pub mod Match
pub mod LongProgress
pub mod OnlyProgress
use mathlib.Core.Option
use libsolcompat.Common.{
  ℕ, zero, suc, ◌+◌, Bool, true, false, not, ◌&&◌, ◌||◌, Option, none, some, List, [], ◌∷◌, ◌++◌,
  length, get_elem?, drop, ltb, leb, ◌==◌, if◌then◌else◌, ◌>>=◌,
}
use libsolcompat.Common.Int.{ℤ, pos, negsuc}
use libsolcompat.Getopt.{
  Str, Diagnostic, ambiguous, unrecognized, no_argument_allowed, long_requires_argument, State,
  Args, current, strchr_rest, head_is, report, end_of_options, question, getopt,
}

pub record LongOption : Type 0 where
  pub name : Str
  pub has_arg : ℕ
  -- The address in `flag`, unless it is NULL.
  pub flag : Option ℕ
  pub val : ℤ

abbrev pub no_argument : ℕ
no_argument = 0

abbrev pub required_argument : ℕ
required_argument = 1

abbrev pub optional_argument : ℕ
optional_argument = 2

-- The first `namelen` bytes of the name: those before `=`.
pub name_part : Str → Str
name_part [] = []
name_part (x ∷ s) = if x == b'=' then [] else x ∷ name_part s

-- `strncmp(candidate, part, strlen(part)) == 0`.
pub is_prefix : Str → Str → Bool
is_prefix [] candidate = true
is_prefix (x ∷ part) [] = false
is_prefix (x ∷ part) (y ∷ candidate) = x == y && is_prefix part candidate

abbrev pub is_exact : Str → LongOption → Bool
is_exact part o = length o.name == length part

-- What the scan of `longopts` has found so far.
pub record Lookup : Type 0 where
  pub matched : Option ℕ
  pub several : Bool

abbrev pub add_match : ℕ → Lookup → Lookup
add_match i l = elim (l.matched) [
  | none ↦ record { matched = some i; several = l.several }
  | some j ↦ record { matched = some j; several = true }
]

-- The scan of `getopt_long`, from index `i`.
pub find_long : Str → List LongOption → ℕ → Lookup → Lookup
find_long part [] i l = l
find_long part (o ∷ options) i l =
    let rest = find_long part options (suc i) in
    if is_prefix part o.name
    then (if is_exact part o
        then record { matched = some i; several = false }
        else rest (add_match i l))
    else rest l

-- The scan of `getopt_long_only`, which takes an exact match alone.
pub find_exact : Str → List LongOption → ℕ → Option ℕ
find_exact part [] i = none
find_exact part (o ∷ options) i =
    if is_prefix part o.name && is_exact part o then some i else find_exact part options (suc i)

abbrev pub nothing_found : Lookup
nothing_found = record { matched = none; several = false }

-- `longopts[match]`, with the index.
abbrev pub entry_at : List LongOption → Option ℕ → Option (ℕ × LongOption)
entry_at longopts none = none
entry_at longopts (some i) = get_elem? longopts i >>= λ o. some (i, o)

-- The end of both functions: the value is stored or returned.
abbrev pub finish_with : Option ℕ → ℤ → State → State × ℤ
finish_with none v s = (s, v)
finish_with (some address) v s = (record s { flags = s.flags ++ ((address, v) ∷ []) }, pos 0)

abbrev pub finish : LongOption → State → State × ℤ
finish o s = finish_with o.flag o.val s

module _ (argc : ℕ) (argv : Args) (optstring : Str) where
  -- The argument of an option that requires one.
  pub long_argument : LongOption → Option Str → State → State × ℤ
  long_argument o (some value) s = finish o (record s { optarg = some value })
  long_argument o none s =
      if ltb s.optind argc
      then finish o (record s { optarg = get_elem? argv s.optind; optind = s.optind + 1 })
      else (
        report s.opterr (long_requires_argument o.name) s,
        if head_is optstring b':' then pos b':' else question,
      )

  -- The argument of an option that allows none.
  pub long_plain : LongOption → Option Str → State → State × ℤ
  long_plain o (some value) s = (report s.opterr (no_argument_allowed o.name) s, question)
  long_plain o none s = finish o (record s { optarg = none })

  pub long_match : LongOption → Option Str → State → State × ℤ
  long_match o value s =
      if o.has_arg == no_argument
      then long_plain o value s
      else if o.has_arg == required_argument
      then long_argument o value s
      else finish o (record s { optarg = value })

  pub long_only_match : LongOption → Option Str → State → State × ℤ
  long_only_match o value s =
      if o.has_arg == required_argument
      then long_argument o value s
      else if o.has_arg == optional_argument
      then finish o (record s { optarg = value })
      else long_plain o value s

  -- `*longindex = match` where the caller asks for it, and `optind++`.
  pub matched_at : Bool → ℕ → State → State
  matched_at wants i s = record s {
    longindex = if wants then some i else s.longindex;
    optind = s.optind + 1;
  }

  -- What follows the lookup of `--name`.
  pub long_found : Bool → State → Str → Option (ℕ × LongOption) → State × ℤ
  long_found wants s name none = (
    record (report s.opterr (unrecognized (name_part name)) s) { optind = s.optind + 1 },
    question,
  )
  long_found wants s name (some m) = long_match m.1 (strchr_rest name b'=') (matched_at wants m.0 s)

  -- An element `--name`. An index that the scan returns has its entry.
  pub long_option : List LongOption → Bool → State → Str → State × ℤ
  long_option longopts wants s name =
      let found : Lookup = find_long (name_part name) longopts 0 nothing_found in
      if found.several
      then (
        record (report s.opterr (ambiguous (name_part name)) s) { optind = s.optind + 1 },
        question,
      )
      else long_found wants s name (entry_at longopts found.matched)

  -- Which of its ways `getopt_long` takes, by the first bytes of the element.
  pub long_element : Option (List LongOption) → Bool → State → Str → State × ℤ
  long_element (some longopts) wants s (a ∷ b ∷ c ∷ name) =
      if a == b'-' && b == b'-'
      then long_option longopts wants s (c ∷ name)
      else getopt argc argv optstring s
  long_element longopts wants s (a ∷ b ∷ []) =
      if a == b'-' && b == b'-'
      then (record s { optind = s.optind + 1 }, end_of_options)
      else getopt argc argv optstring s
  long_element longopts wants s arg = getopt argc argv optstring s

  pub getopt_long_at : Option (List LongOption) → Bool → State → Option Str → State × ℤ
  getopt_long_at longopts wants s none = (s, end_of_options)
  getopt_long_at longopts wants s (some arg) =
      if ltb 0 s.short_next then getopt argc argv optstring s else long_element longopts wants s arg

  pub getopt_long : Option (List LongOption) → Bool → State → State × ℤ
  getopt_long longopts wants s = getopt_long_at longopts wants s (current argc argv s.optind)

  -- What follows the lookup of `-name`.
  pub long_only_found : Bool → State → Str → Option (ℕ × LongOption) → State × ℤ
  long_only_found wants s name none = getopt argc argv optstring s
  long_only_found wants s name (some m) =
      long_only_match m.1 (strchr_rest name b'=') (matched_at wants m.0 s)

  -- An element `-name` of at least two bytes after the dash.
  pub single_dash : List LongOption → Bool → State → Str → State × ℤ
  single_dash longopts wants s name =
      long_only_found wants s name (entry_at longopts (find_exact (name_part name) longopts 0))

  pub long_only_element : Option (List LongOption) → Bool → State → Str → State × ℤ
  long_only_element (some longopts) wants s (a ∷ b ∷ c ∷ name) =
      if a == b'-' && b == b'-'
      then getopt_long (some longopts) wants s
      else if a == b'-'
      then single_dash longopts wants s (b ∷ c ∷ name)
      else getopt argc argv optstring s
  long_only_element longopts wants s (a ∷ b ∷ []) =
      if a == b'-' && b == b'-'
      then (record s { optind = s.optind + 1 }, end_of_options)
      else getopt argc argv optstring s
  long_only_element longopts wants s arg = getopt argc argv optstring s

  pub getopt_long_only_at : Option (List LongOption) → Bool → State → Option Str → State × ℤ
  getopt_long_only_at longopts wants s none = (s, end_of_options)
  getopt_long_only_at longopts wants s (some arg) =
      if ltb 0 s.short_next
      then getopt argc argv optstring s
      else long_only_element longopts wants s arg

  pub getopt_long_only : Option (List LongOption) → Bool → State → State × ℤ
  getopt_long_only longopts wants s =
      getopt_long_only_at longopts wants s (current argc argv s.optind)
