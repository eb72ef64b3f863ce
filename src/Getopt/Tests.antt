-- ===== src/Getopt/Tests.antt =====
-- Concrete runs of the option parser.
use libsolcompat.Common.{◌≡◌, refl, inl, true, false, none, some, List, [], ◌∷◌, arith, leb}
use libsolcompat.Common.Int.{ℤ, pos}
use libsolcompat.Getopt.{
  Str, State, Args, getopt, end_of_options, start_element, start_at, start_with, short_option,
  found_option, strchr_rest,
}
use libsolcompat.Getopt.Progress.{IsStep, getopt-IsStep}
use libsolcompat.Getopt.Long.{LongOption, find_long, nothing_found, getopt_long, getopt_long_only}
use libsolcompat.Getopt.Long.Match.{first_at, count_if, has_name, begins, find_long-reference}
use libsolcompat.Getopt.Long.LongProgress.{getopt_long-IsStep}
use libsolcompat.Getopt.Long.OnlyProgress.{getopt_long_only-IsStep}

abbrev initial : State
initial = record {
  optarg = none;
  optind = 1;
  opterr = true;
  optopt = pos 0;
  short_next = 0;
  stderr = [];
  flags = [];
  longindex = none;
}

-- prog -ab --size=3
abbrev args : Args
args =
    (b'p' ∷ b'r' ∷ b'o' ∷ b'g' ∷ [])
    ∷ (b'-' ∷ b'a' ∷ b'b' ∷ [])
    ∷ (b'-' ∷ b'-' ∷ b's' ∷ b'i' ∷ b'z' ∷ b'e' ∷ b'=' ∷ b'3' ∷ [])
    ∷ []

abbrev option : Str → ℤ → LongOption
option name v = record { name = name; has_arg = 1; flag = none; val = v }

abbrev options : List LongOption
options =
    option (b's' ∷ b'i' ∷ b'z' ∷ b'e' ∷ b'd' ∷ []) (pos 1)
    ∷ option (b's' ∷ b'i' ∷ b'z' ∷ b'e' ∷ []) (pos 2)
    ∷ []

abbrev size_name : Str
size_name = b's' ∷ b'i' ∷ b'z' ∷ b'e' ∷ []

getopt-IsStep_example : IsStep 3 args initial (getopt 3 args (b'a' ∷ b'b' ∷ []) initial)
getopt-IsStep_example = getopt-IsStep 3 args (b'a' ∷ b'b' ∷ []) initial (omega arith, inl refl)

getopt_long-IsStep_example :
    IsStep 3 args initial (getopt_long 3 args (b'a' ∷ b'b' ∷ []) (some options) true initial)
getopt_long-IsStep_example =
    getopt_long-IsStep 3 args (b'a' ∷ b'b' ∷ []) (some options) true initial (omega arith, inl refl)

getopt_long_only-IsStep_example :
    IsStep 3 args initial (getopt_long_only 3 args (b'a' ∷ b'b' ∷ []) (some options) true initial)
getopt_long_only-IsStep_example =
    getopt_long_only-IsStep 3 args (b'a' ∷ b'b' ∷ []) (some options) true initial
      (omega arith, inl refl)

find_long-reference_example :
    find_long size_name options 0 nothing_found ≡ elim (first_at (has_name size_name) options 0) [
      | some k ↦ record { matched = some k; several = false }
      | none ↦ record {
        matched = first_at (begins size_name) options 0;
        several = leb 2 (count_if (begins size_name) options);
      }
    ]
find_long-reference_example = find_long-reference size_name options

-- prog -\xff with the option \xff: the result is that of the end of the options.
last_byte : (getopt 2 ((b'p' ∷ []) ∷ (b'-' ∷ 255 ∷ []) ∷ []) (255 ∷ []) initial).1 ≡ end_of_options
unfolding getopt start_element start_at start_with short_option found_option strchr_rest
last_byte = refl
