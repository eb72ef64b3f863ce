-- ===== src/Getopt/Long/OnlyProgress.antt =====
-- src/getopt_long.c: `getopt_long_only` keeps the globals within `argv`, and each call that returns
-- an option moves forward.
use libsolcompat.Common.{
  ℕ, ◌<◌, ◌≡◌, refl, inl, Bool, ◌&&◌, Option, none, some, List, [], ◌∷◌, ltb, ◌==◌, arith, if-holds,
}
use libsolcompat.Getopt.{Str, State, Args, current, strchr_rest}
use libsolcompat.Getopt.Progress.{IsStep, IsWithin, getopt-IsStep, current-bound}
use libsolcompat.Getopt.Long.{
  LongOption, name_part, find_exact, entry_at, matched_at, long_only_found, getopt_long_only_at,
  single_dash, long_only_element, getopt_long_only,
}
use libsolcompat.Getopt.Long.LongProgress.{long_only_match-IsStep, getopt_long-IsStep, ending}

module _ (argc : ℕ) (argv : Args) (optstring : Str) where
  long_only_found-IsStep :
      (wants : Bool) (s : State) (name : Str) (m : Option (ℕ × LongOption))
      → s.optind < argc
      → s.short_next ≡ 0
      → IsStep argc argv s (long_only_found argc argv optstring wants s name m)
  unfolding long_only_found matched_at
  long_only_found-IsStep wants s name none b z =
      getopt-IsStep argc argv optstring s (omega arith, inl z)
  long_only_found-IsStep wants s name (some m) b z =
      long_only_match-IsStep argc argv optstring s (matched_at argc argv optstring wants (m.0) s)
        (m.1) (strchr_rest name b'=') (omega arith) (omega arith) z

  long_only_element-IsStep :
      (longopts : Option (List LongOption)) (wants : Bool) (s : State) (arg : Str)
      → s.optind < argc
      → s.short_next ≡ 0
      → IsStep argc argv s (long_only_element argc argv optstring longopts wants s arg)
  unfolding long_only_element single_dash
  long_only_element-IsStep (some longopts) wants s (a ∷ b ∷ c ∷ name) l z =
      if-holds (IsStep argc argv s) (a == b'-' && b == b'-')
        (λ e. getopt_long-IsStep argc argv optstring (some longopts) wants s (omega arith, inl z))
        (λ e.
          if-holds (IsStep argc argv s) (a == b'-')
            (λ e.
              long_only_found-IsStep wants s (b ∷ c ∷ name)
                (entry_at longopts (find_exact (name_part (b ∷ c ∷ name)) longopts 0)) l z)
            (λ e. getopt-IsStep argc argv optstring s (omega arith, inl z)))
  long_only_element-IsStep none wants s (a ∷ b ∷ c ∷ name) l z =
      getopt-IsStep argc argv optstring s (omega arith, inl z)
  long_only_element-IsStep (some longopts) wants s (a ∷ b ∷ []) l z =
      if-holds (IsStep argc argv s) (a == b'-' && b == b'-') (λ e. ending argc argv optstring s l z)
        (λ e. getopt-IsStep argc argv optstring s (omega arith, inl z))
  long_only_element-IsStep none wants s (a ∷ b ∷ []) l z =
      if-holds (IsStep argc argv s) (a == b'-' && b == b'-') (λ e. ending argc argv optstring s l z)
        (λ e. getopt-IsStep argc argv optstring s (omega arith, inl z))
  long_only_element-IsStep (some longopts) wants s (a ∷ []) l z =
      getopt-IsStep argc argv optstring s (omega arith, inl z)
  long_only_element-IsStep none wants s (a ∷ []) l z =
      getopt-IsStep argc argv optstring s (omega arith, inl z)
  long_only_element-IsStep (some longopts) wants s [] l z =
      getopt-IsStep argc argv optstring s (omega arith, inl z)
  long_only_element-IsStep none wants s [] l z =
      getopt-IsStep argc argv optstring s (omega arith, inl z)

  getopt_long_only_at-IsStep :
      (longopts : Option (List LongOption)) (wants : Bool) (s : State) (cur : Option Str)
      → IsWithin argc argv s.optind s.short_next
      → current argc argv s.optind ≡ cur
      → IsStep argc argv s (getopt_long_only_at argc argv optstring longopts wants s cur)
  unfolding getopt_long_only_at
  getopt_long_only_at-IsStep longopts wants s none w c = (w, inl refl)
  getopt_long_only_at-IsStep longopts wants s (some arg) w c =
      let b = current-bound argc argv s.optind arg c in
      if-holds (IsStep argc argv s) (ltb 0 s.short_next)
        (λ e. getopt-IsStep argc argv optstring s w)
        (λ e. long_only_element-IsStep longopts wants s arg b (ground arith))

  -- From globals within `argv`, `getopt_long_only` leaves them within `argv`, and either it returns
  -- -1 or it moves forward: to a later element, or to a later character of the same one.
  pub getopt_long_only-IsStep :
      (longopts : Option (List LongOption)) (wants : Bool) (s : State)
      → IsWithin argc argv s.optind s.short_next
      → IsStep argc argv s (getopt_long_only argc argv optstring longopts wants s)
  unfolding getopt_long_only
  getopt_long_only-IsStep longopts wants s w =
      getopt_long_only_at-IsStep longopts wants s (current argc argv s.optind) w refl
