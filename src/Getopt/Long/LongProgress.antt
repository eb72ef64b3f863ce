-- ===== src/Getopt/Long/LongProgress.antt =====
-- src/getopt_long.c: `getopt_long` and `getopt_long_only` keep the globals within `argv`, and each
-- call that returns an option moves forward.
use libsolcompat.Common.{
  ℕ, ◌+◌, ◌≤◌, ◌<◌, ◌≡◌, refl, inl, inr, Bool, ◌&&◌, Option, none, some, List, [], ◌∷◌, get_elem?,
  ltb, ◌==◌, if◌then◌else◌, arith, if-holds,
}
use libsolcompat.Common.Int.{ℤ, pos}
use libsolcompat.Getopt.{
  Str, State, Args, Diagnostic, ambiguous, unrecognized, no_argument_allowed,
  long_requires_argument, report, current, head_is, strchr_rest, question, end_of_options,
}
use libsolcompat.Getopt.Progress.{
  IsStep, IsWithin, getopt-IsStep, current-bound, report-next, report-optind,
}
use libsolcompat.Getopt.Long.{
  LongOption, Lookup, name_part, find_long, nothing_found, entry_at, finish_with, finish,
  long_found, getopt_long_at, long_argument, long_plain, long_match, long_only_match, matched_at,
  long_option, long_element, getopt_long, no_argument, required_argument, optional_argument,
}

module _ (argc : ℕ) (argv : Args) where
  moved_to :
      (s : State) (r : State × ℤ)
      → s.optind < (r.0).optind
      → (r.0).optind ≤ argc
      → (r.0).short_next ≡ 0
      → IsStep argc argv s r
  moved_to s r p q z = ((q, inl z), inr (inl p))

  -- A diagnostic changes no position.
  reported :
      (s t : State) (on : Bool) (d : Diagnostic) (code : ℤ)
      → s.optind < t.optind
      → t.optind ≤ argc
      → t.short_next ≡ 0
      → IsStep argc argv s (report on d t, code)
  reported s t on d code p q z =
      let i = report-optind on d t in
      let n = report-next on d t in
      moved_to s (report on d t, code) (omega arith) (omega arith) (omega arith)

  finish_with-IsStep :
      (s t : State) (flag : Option ℕ) (v : ℤ)
      → s.optind < t.optind
      → t.optind ≤ argc
      → t.short_next ≡ 0
      → IsStep argc argv s (finish_with flag v t)
  finish_with-IsStep s t none v p q z = moved_to s (t, v) p q z
  finish_with-IsStep s t (some f) v p q z = ((q, inl z), inr (inl p))

  finish-IsStep :
      (s t : State) (o : LongOption)
      → s.optind < t.optind
      → t.optind ≤ argc
      → t.short_next ≡ 0
      → IsStep argc argv s (finish o t)
  finish-IsStep s t o p q z = finish_with-IsStep s t o.flag o.val p q z

  module _ (optstring : Str) where
    long_argument-IsStep :
        (s t : State) (o : LongOption) (value : Option Str)
        → s.optind < t.optind
        → t.optind ≤ argc
        → t.short_next ≡ 0
        → IsStep argc argv s (long_argument argc argv optstring o value t)
    unfolding long_argument
    long_argument-IsStep s t o (some v) p q z =
        finish-IsStep s (record t { optarg = some v }) o p q z
    long_argument-IsStep s t o none p q z =
        if-holds (IsStep argc argv s) (ltb t.optind argc)
          (λ e.
            finish-IsStep s (record t { optarg = get_elem? argv t.optind; optind = t.optind + 1 }) o
              (omega arith) (ground arith) z)
          (λ e.
            reported s t t.opterr (long_requires_argument o.name)
              (if head_is optstring b':' then pos b':' else question) p q z)

    long_plain-IsStep :
        (s t : State) (o : LongOption) (value : Option Str)
        → s.optind < t.optind
        → t.optind ≤ argc
        → t.short_next ≡ 0
        → IsStep argc argv s (long_plain argc argv optstring o value t)
    unfolding long_plain
    long_plain-IsStep s t o (some v) p q z =
        reported s t t.opterr (no_argument_allowed o.name) question p q z
    long_plain-IsStep s t o none p q z = finish-IsStep s (record t { optarg = none }) o p q z

    long_match-IsStep :
        (s t : State) (o : LongOption) (value : Option Str)
        → s.optind < t.optind
        → t.optind ≤ argc
        → t.short_next ≡ 0
        → IsStep argc argv s (long_match argc argv optstring o value t)
    unfolding long_match
    long_match-IsStep s t o value p q z =
        if-holds (IsStep argc argv s) (o.has_arg == no_argument)
          (λ e. long_plain-IsStep s t o value p q z)
          (λ e.
            if-holds (IsStep argc argv s) (o.has_arg == required_argument)
              (λ e. long_argument-IsStep s t o value p q z)
              (λ e. finish-IsStep s (record t { optarg = value }) o p q z))

    pub long_only_match-IsStep :
        (s t : State) (o : LongOption) (value : Option Str)
        → s.optind < t.optind
        → t.optind ≤ argc
        → t.short_next ≡ 0
        → IsStep argc argv s (long_only_match argc argv optstring o value t)
    unfolding long_only_match
    long_only_match-IsStep s t o value p q z =
        if-holds (IsStep argc argv s) (o.has_arg == required_argument)
          (λ e. long_argument-IsStep s t o value p q z)
          (λ e.
            if-holds (IsStep argc argv s) (o.has_arg == optional_argument)
              (λ e. finish-IsStep s (record t { optarg = value }) o p q z)
              (λ e. long_plain-IsStep s t o value p q z))

    long_found-IsStep :
        (wants : Bool) (s : State) (name : Str) (m : Option (ℕ × LongOption))
        → s.optind < argc
        → s.short_next ≡ 0
        → IsStep argc argv s (long_found argc argv optstring wants s name m)
    unfolding long_found matched_at
    long_found-IsStep wants s name none b z =
        let n = report-next s.opterr (unrecognized (name_part name)) s in
        moved_to s (long_found argc argv optstring wants s name none) (omega arith) (omega arith)
          (omega arith)
    long_found-IsStep wants s name (some m) b z =
        long_match-IsStep s (matched_at argc argv optstring wants (m.0) s) (m.1)
          (strchr_rest name b'=') (omega arith) (omega arith) z

    long_option-IsStep :
        (longopts : List LongOption) (wants : Bool) (s : State) (name : Str)
        → s.optind < argc
        → s.short_next ≡ 0
        → IsStep argc argv s (long_option argc argv optstring longopts wants s name)
    unfolding long_option
    long_option-IsStep longopts wants s name b z =
        let found : Lookup = find_long (name_part name) longopts 0 nothing_found in
        let n = report-next s.opterr (ambiguous (name_part name)) s in
        if-holds (IsStep argc argv s) found.several
          (λ e. ((omega arith, inl (omega arith)), inr (inl (omega arith))))
          (λ e. long_found-IsStep wants s name (entry_at longopts found.matched) b z)

    pub ending :
        (s : State)
        → s.optind < argc
        → s.short_next ≡ 0
        → IsStep argc argv s (record s { optind = s.optind + 1 }, end_of_options)
    ending s b z = ((omega arith, inl z), inl refl)

    long_element-IsStep :
        (longopts : Option (List LongOption)) (wants : Bool) (s : State) (arg : Str)
        → s.optind < argc
        → s.short_next ≡ 0
        → IsStep argc argv s (long_element argc argv optstring longopts wants s arg)
    unfolding long_element
    long_element-IsStep (some longopts) wants s (a ∷ b ∷ c ∷ name) l z =
        if-holds (IsStep argc argv s) (a == b'-' && b == b'-')
          (λ e. long_option-IsStep longopts wants s (c ∷ name) l z)
          (λ e. getopt-IsStep argc argv optstring s (omega arith, inl z))
    long_element-IsStep none wants s (a ∷ b ∷ c ∷ name) l z =
        getopt-IsStep argc argv optstring s (omega arith, inl z)
    long_element-IsStep (some longopts) wants s (a ∷ b ∷ []) l z =
        if-holds (IsStep argc argv s) (a == b'-' && b == b'-') (λ e. ending s l z)
          (λ e. getopt-IsStep argc argv optstring s (omega arith, inl z))
    long_element-IsStep none wants s (a ∷ b ∷ []) l z =
        if-holds (IsStep argc argv s) (a == b'-' && b == b'-') (λ e. ending s l z)
          (λ e. getopt-IsStep argc argv optstring s (omega arith, inl z))
    long_element-IsStep (some longopts) wants s (a ∷ []) l z =
        getopt-IsStep argc argv optstring s (omega arith, inl z)
    long_element-IsStep none wants s (a ∷ []) l z =
        getopt-IsStep argc argv optstring s (omega arith, inl z)
    long_element-IsStep (some longopts) wants s [] l z =
        getopt-IsStep argc argv optstring s (omega arith, inl z)
    long_element-IsStep none wants s [] l z =
        getopt-IsStep argc argv optstring s (omega arith, inl z)

    getopt_long_at-IsStep :
        (longopts : Option (List LongOption)) (wants : Bool) (s : State) (cur : Option Str)
        → IsWithin argc argv s.optind s.short_next
        → current argc argv s.optind ≡ cur
        → IsStep argc argv s (getopt_long_at argc argv optstring longopts wants s cur)
    unfolding getopt_long_at
    getopt_long_at-IsStep longopts wants s none w c = (w, inl refl)
    getopt_long_at-IsStep longopts wants s (some arg) w c =
        let b = current-bound argc argv s.optind arg c in
        if-holds (IsStep argc argv s) (ltb 0 s.short_next)
          (λ e. getopt-IsStep argc argv optstring s w)
          (λ e. long_element-IsStep longopts wants s arg b (ground arith))

    -- From globals within `argv`, `getopt_long` leaves them within `argv`, and either it returns -1
    -- or it moves forward: to a later element, or to a later character of the same one.
    pub getopt_long-IsStep :
        (longopts : Option (List LongOption)) (wants : Bool) (s : State)
        → IsWithin argc argv s.optind s.short_next
        → IsStep argc argv s (getopt_long argc argv optstring longopts wants s)
    unfolding getopt_long
    getopt_long-IsStep longopts wants s w =
        getopt_long_at-IsStep longopts wants s (current argc argv s.optind) w refl
