-- ===== src/Getopt/Progress.antt =====
-- src/getopt_long.c: `getopt` keeps its globals within `argv`, and each call that returns an option
-- moves forward.
use libsolcompat.Common.{
  ℕ, ◌+◌, ◌≤◌, ◌<◌, ◌≡◌, refl, sym, ap, ◌⊎◌, inl, inr, Bool, true, false, not, ◌&&◌, Option, none,
  some, [], ◌∷◌, length, get_elem?, ltb, leb, ◌==◌, arith, Bool-cases, if-holds,
}
use libsolcompat.Common.Int.{ℤ}
use libsolcompat.Getopt.{
  Str, State, Args, Diagnostic, report, next_arg, next_char, strchr_rest, lookup_part, current,
  take_argument, short_option, unknown_option, found_option, non_option, start_with, start_at,
  start_element, continue_char, continue_at, getopt, invalid_option, requires_argument, silent,
  head_is, end_of_options, char_value,
}

-- The globals stand within `argv`, and inside a cluster at one of its characters.
abbrev pub IsWithin : ℕ → Args → ℕ → ℕ → Type 0
IsWithin argc argv i next =
    (i ≤ argc)
    × ((next ≡ 0) ⊎ ((arg : Str) × (current argc argv i ≡ some arg) × (next < length arg)))

-- A later element, or the same one at a later character.
abbrev pub IsLater : ℕ → ℕ → ℕ → ℕ → Type 0
IsLater i m j n = (i < j) ⊎ ((i ≡ j) × (m < n))

abbrev pub Advances : ℕ → Args → State → State → Type 0
Advances argc argv s t =
    IsWithin argc argv t.optind t.short_next × IsLater s.optind s.short_next t.optind t.short_next

abbrev pub IsStep : ℕ → Args → State → State × ℤ → Type 0
IsStep argc argv s r =
    IsWithin argc argv (r.0).optind (r.0).short_next
    × ((r.1 ≡ end_of_options) ⊎ IsLater s.optind s.short_next (r.0).optind (r.0).short_next)

pub current-bound :
    (argc : ℕ) (argv : Args) (i : ℕ) (arg : Str) → current argc argv i ≡ some arg → i < argc
current-bound argc argv i arg e = ground arith

pub report-next :
    (on : Bool) (d : Diagnostic) (s : State) → (report on d s).short_next ≡ s.short_next
report-next true d s = refl
report-next false d s = refl

pub report-optind : (on : Bool) (d : Diagnostic) (s : State) → (report on d s).optind ≡ s.optind
report-optind true d s = refl
report-optind false d s = refl

module _ (argc : ℕ) (argv : Args) where
  moved : {i m j n : ℕ} → i < j → j ≤ argc → n ≡ 0 → IsWithin argc argv j n × IsLater i m j n
  moved p q z = ((q, inl z), inl p)

  moved_char :
      (s t : State) (arg : Str)
      → t.optind ≡ s.optind
      → t.short_next ≡ s.short_next
      → t.short_next < length arg
      → current argc argv s.optind ≡ some arg
      → Advances argc argv s (next_char arg t)
  moved_char s t arg e z l c = elim (Bool-cases (leb (length arg) (t.short_next + 1))) [
    | inl last ↦
        let i : (next_char arg t).optind ≡ t.optind + 1 = ground arith in
        let n : (next_char arg t).short_next ≡ 0 = ground arith in
        let b = current-bound argc argv s.optind arg c in moved (omega arith) (omega arith) n
    | inr more ↦
        let i : (next_char arg t).optind ≡ s.optind = ground arith in
        let n : (next_char arg t).short_next ≡ s.short_next + 1 = ground arith in
        let b = current-bound argc argv s.optind arg c in
        let m : s.short_next + 1 < length arg = ground arith in
        ((omega arith, inr (arg, ground arith, omega arith)), inr (sym i, omega arith))
  ]

  module _ (optstring : Str) where
    take_argument-Advances :
        (s : State) (arg : Str) (opt : ℕ) (spec : Str)
        → current argc argv s.optind ≡ some arg
        → Advances argc argv s ((take_argument argc argv optstring s arg opt spec).0)
    unfolding take_argument
    take_argument-Advances s arg opt spec c =
        let b = current-bound argc argv s.optind arg c in
        let P : State × ℤ → Type 0 = λ r. Advances argc argv s (r.0) in
        if-holds P (ltb (s.short_next + 1) (length arg))
          (λ e. moved (omega arith) (omega arith) refl)
          (λ e.
            if-holds P (head_is spec b':') (λ e. moved (omega arith) (omega arith) refl)
              (λ e.
                if-holds P (leb argc (s.optind + 1))
                  (λ e.
                    let on : Bool = s.opterr && not (silent argc argv optstring) in
                    let i = report-optind on (requires_argument opt) (next_arg s) in
                    let n = report-next on (requires_argument opt) (next_arg s) in
                    moved (omega arith) (omega arith) n)
                  (λ e. moved (omega arith) (ground arith) refl)))

    unknown_option-Advances :
        (s : State) (arg : Str) (opt : ℕ)
        → current argc argv s.optind ≡ some arg
        → s.short_next < length arg
        → Advances argc argv s ((unknown_option argc argv optstring s arg opt).0)
    unfolding unknown_option
    unknown_option-Advances s arg opt c l =
        let on : Bool = s.opterr && not (silent argc argv optstring) in
        let i = report-optind on (invalid_option opt) s in
        let n = report-next on (invalid_option opt) s in
        moved_char s (record (report on (invalid_option opt) s) { optopt = char_value opt }) arg i n
          (omega arith) c

    found_option-Advances :
        (s : State) (arg : Str) (opt : ℕ) (spec : Option Str)
        → current argc argv s.optind ≡ some arg
        → s.short_next < length arg
        → Advances argc argv s ((found_option argc argv optstring s arg opt spec).0)
    unfolding found_option
    found_option-Advances s arg opt none c l = unknown_option-Advances s arg opt c l
    found_option-Advances s arg opt (some []) c l =
        if-holds (λ (r : State × ℤ). Advances argc argv s (r.0)) (opt == b':')
          (λ e. unknown_option-Advances s arg opt c l)
          (λ e. moved_char s (record s { optarg = none }) arg refl refl l c)
    found_option-Advances s arg opt (some (x ∷ spec)) c l =
        if-holds (λ (r : State × ℤ). Advances argc argv s (r.0)) (opt == b':')
          (λ e. unknown_option-Advances s arg opt c l)
          (λ e.
            if-holds (λ (r : State × ℤ). Advances argc argv s (r.0)) (x == b':')
              (λ e. take_argument-Advances s arg opt spec c)
              (λ e. moved_char s (record s { optarg = none }) arg refl refl l c))

    short_option-Advances :
        (s : State) (arg : Str) (opt : ℕ)
        → current argc argv s.optind ≡ some arg
        → s.short_next < length arg
        → Advances argc argv s ((short_option argc argv optstring s arg opt).0)
    unfolding short_option
    short_option-Advances s arg opt =
        found_option-Advances s arg opt (strchr_rest (lookup_part optstring) opt)

    non_option-IsStep :
        (s : State) (arg : Str)
        → s.short_next ≡ 0
        → s.optind < argc
        → IsStep argc argv s (non_option argc argv optstring s arg)
    unfolding non_option
    non_option-IsStep s arg z b =
        if-holds (IsStep argc argv s) (head_is optstring b'-')
          (λ e. ((omega arith, inl z), inr (inl (omega arith))))
          (λ e. ((omega arith, inl z), inl refl))

    start_with-IsStep :
        (s : State) (arg : Str)
        → s.short_next ≡ 0
        → current argc argv s.optind ≡ some arg
        → IsStep argc argv s (start_with argc argv optstring s arg)
    unfolding start_with
    start_with-IsStep s [] z c = non_option-IsStep s [] z (current-bound argc argv s.optind [] c)
    start_with-IsStep s (a ∷ []) z c =
        non_option-IsStep s (a ∷ []) z (current-bound argc argv s.optind (a ∷ []) c)
    start_with-IsStep s (a ∷ b ∷ rest) z c =
        let bound = current-bound argc argv s.optind (a ∷ b ∷ rest) c in
        if-holds (IsStep argc argv s) (not (a == b'-'))
          (λ e. non_option-IsStep s (a ∷ b ∷ rest) z bound)
          (λ e.
            if-holds (IsStep argc argv s) (b == b'-' && leb (length rest) 0)
              (λ e. ((omega arith, inl z), inl refl))
              (λ e.
                let (within, later) =
                  short_option-Advances (record s { short_next = 1 }) (a ∷ b ∷ rest) b c
                    (omega arith) in
                (within, inr (elim later [ inl p ↦ inl p | inr q ↦ inr (q.0, omega arith) ]))))

    start_at-IsStep :
        (s : State) (cur : Option Str)
        → s.short_next ≡ 0
        → s.optind ≤ argc
        → current argc argv s.optind ≡ cur
        → IsStep argc argv s (start_at argc argv optstring s cur)
    unfolding start_at
    start_at-IsStep s none z b c = ((b, inl z), inl refl)
    start_at-IsStep s (some arg) z b c = start_with-IsStep s arg z c

    start_element-IsStep :
        (s : State)
        → s.short_next ≡ 0
        → s.optind ≤ argc
        → IsStep argc argv s (start_element argc argv optstring s)
    unfolding start_element
    start_element-IsStep s z b = start_at-IsStep s (current argc argv s.optind) z b refl

    continue_char-IsStep :
        (s : State) (arg : Str) (o : Option ℕ)
        → 0 < s.short_next
        → s.short_next < length arg
        → current argc argv s.optind ≡ some arg
        → IsStep argc argv s (continue_char argc argv optstring s arg o)
    unfolding continue_char
    continue_char-IsStep s arg none p l c =
        let b = current-bound argc argv s.optind arg c in
        let (within, later) = start_element-IsStep (next_arg s) refl (omega arith) in
        (
          within,
          elim later [
            | inl e ↦ inl e
            | inr q ↦ inr (elim q [ inl r ↦ inl (omega arith) | inr r ↦ inl (omega (arith, r.0)) ])
          ],
        )
    continue_char-IsStep s arg (some opt) p l c =
        let (within, later) = short_option-Advances s arg opt c l in (within, inr later)

    continue_at-IsStep :
        (s : State) (cur : Option Str)
        → IsWithin argc argv s.optind s.short_next
        → 0 < s.short_next
        → current argc argv s.optind ≡ cur
        → IsStep argc argv s (continue_at argc argv optstring s cur)
    unfolding continue_at
    continue_at-IsStep s none w p c = ((w.0, inl refl), inl refl)
    continue_at-IsStep s (some arg) w p c = elim (w.1) [
      | inl z ↦ absurd (omega arith)
      | inr h ↦
          let same : h.0 ≡ arg = ground (arith, c, h.1) in
          let len : length h.0 ≡ length arg = ap length same in
          continue_char-IsStep s arg (get_elem? arg s.short_next) p (omega arith) c
    ]

    -- From globals within `argv`, `getopt` leaves them within `argv`, and either it returns -1 or
    -- it moves forward: to a later element, or to a later character of the same one.
    pub getopt-IsStep :
        (s : State)
        → IsWithin argc argv s.optind s.short_next
        → IsStep argc argv s (getopt argc argv optstring s)
    unfolding getopt
    getopt-IsStep s w =
        if-holds (IsStep argc argv s) (ltb 0 s.short_next)
          (λ e. continue_at-IsStep s (current argc argv s.optind) w (ground arith) refl)
          (λ e. start_element-IsStep s (ground arith) (w.0))
