-- ===== src/Getopt/Long/Match.antt =====
-- src/getopt_long.c: which entry of `longopts` a name stands for.
use libsolcompat.Common.{
  ℕ, suc, ◌+◌, ◌≤◌, ◌≡◌, refl, Bool, true, false, ◌&&◌, ◌||◌, Option, none, some, List, [], ◌∷◌,
  length, leb, ◌==◌, if◌then◌else◌, arith, inl, inr, Bool-cases,
}
use libsolcompat.Getopt.{Str}
use libsolcompat.Getopt.Long.{
  LongOption, is_prefix, Lookup, find_long, find_exact, nothing_found, add_match,
}

-- The reference: two passes, with the first entry that has the name, and else the first that
-- begins with it and whether there is another.
abbrev pub same_name : Str → Str → Bool
same_name a b = is_prefix a b && is_prefix b a

abbrev pub first_at : (LongOption → Bool) → List LongOption → ℕ → Option ℕ
first_at p [] i = none
first_at p (o ∷ options) i = if p o then some i else first_at p options (suc i)

abbrev pub count_if : (LongOption → Bool) → List LongOption → ℕ
count_if p [] = 0
count_if p (o ∷ options) = (if p o then 1 else 0) + count_if p options

abbrev pub has_name : Str → LongOption → Bool
has_name part o = same_name part o.name

abbrev pub begins : Str → LongOption → Bool
begins part o = is_prefix part o.name

abbrev pub held : Lookup → ℕ
held l = elim (l.matched) [ none ↦ 0 | some j ↦ 1 ]

abbrev pub or_else : Option ℕ → Option ℕ → Option ℕ
or_else none y = y
or_else (some x) y = some x

abbrev pub after_scan : Str → List LongOption → ℕ → Lookup → Lookup
after_scan part options i l = elim (first_at (has_name part) options i) [
  | some k ↦ record { matched = some k; several = false }
  | none ↦ record {
    matched = or_else l.matched (first_at (begins part) options i);
    several = l.several || leb 2 (held l + count_if (begins part) options);
  }
]

abbrev outcome : Option ℕ → Option ℕ → ℕ → Lookup → Lookup
outcome named rest n l = elim named [
  | some k ↦ record { matched = some k; several = false }
  | none ↦ record { matched = or_else l.matched rest; several = l.several || leb 2 (held l + n) }
]

scan_done :
    (m : Option ℕ) (s : Bool)
    → record { matched = m; several = s }
      ≡ outcome none none 0 (record { matched = m; several = s })
scan_done none true = refl
scan_done none false = refl
scan_done (some j) true = refl
scan_done (some j) false = refl

scan_step :
    (named rest m : Option ℕ) (s : Bool) (i n : ℕ)
    → outcome named rest n (add_match i (record { matched = m; several = s }))
      ≡ outcome named (some i) (1 + n) (record { matched = m; several = s })
scan_step (some k) rest m s i n = refl
scan_step none rest none true i n = ground arith
scan_step none rest none false i n = ground arith
scan_step none rest (some j) true i n = refl
scan_step none rest (some j) false i n = ground arith

is_prefix-bound : (a b : Str) → is_prefix a b ≡ true → length a ≤ length b
unfolding is_prefix
is_prefix-bound [] b e = ground arith
is_prefix-bound (x ∷ a) [] e = ground arith
is_prefix-bound (x ∷ a) (y ∷ b) e = let ih = is_prefix-bound a b (ground arith) in omega arith

same_name-length : (a b : Str) → is_prefix a b ≡ true → is_prefix b a ≡ (length b == length a)
unfolding is_prefix
same_name-length [] [] e = refl
same_name-length [] (y ∷ b) e = ground arith
same_name-length (x ∷ a) [] e = ground arith
same_name-length (x ∷ a) (y ∷ b) e =
    let ih = same_name-length a b (ground arith) in
    let both : (y == x) ≡ true = ground arith in
    elim (Bool-cases (is_prefix b a)) [ inl same ↦ ground arith | inr other ↦ ground arith ]

find_long-after_scan :
    (part : Str) (options : List LongOption) (i : ℕ) (l : Lookup)
    → find_long part options i l ≡ after_scan part options i l
unfolding find_long
find_long-after_scan part [] i l = scan_done l.matched l.several
find_long-after_scan part (o ∷ options) i l = elim (Bool-cases (is_prefix part o.name)) [
  | inr other ↦ let ih = find_long-after_scan part options (suc i) l in ground (arith, ih, other)
  | inl prefix ↦
      let ih = find_long-after_scan part options (suc i) (add_match i l) in
      let len = same_name-length part o.name prefix in
      elim (Bool-cases (is_prefix o.name part)) [
        | inl same ↦ ground (arith, len, same, prefix)
        | inr longer ↦
            let step =
              scan_step (first_at (has_name part) options (suc i))
                (first_at (begins part) options (suc i)) l.matched l.several i
                (count_if (begins part) options) in
            ground (arith, len, prefix, longer, ih, step)
      ]
]

-- The scan of `getopt_long` gives what two passes give: the first entry with exactly that name,
-- wherever it stands, and without one the first entry that begins with it, as ambiguous when
-- another begins with it too.
pub find_long-reference :
    (part : Str) (options : List LongOption)
    → find_long part options 0 nothing_found ≡ elim (first_at (has_name part) options 0) [
      | some k ↦ record { matched = some k; several = false }
      | none ↦ record {
        matched = first_at (begins part) options 0;
        several = leb 2 (count_if (begins part) options);
      }
    ]
find_long-reference part options =
    let after = find_long-after_scan part options 0 nothing_found in ground (arith, after)

-- The scan of `getopt_long_only` finds the first entry with exactly that name.
pub find_exact-reference :
    (part : Str) (options : List LongOption) (i : ℕ)
    → find_exact part options i ≡ first_at (has_name part) options i
unfolding find_exact
find_exact-reference part [] i = refl
find_exact-reference part (o ∷ options) i =
    let ih = find_exact-reference part options (suc i) in
    elim (Bool-cases (is_prefix part o.name)) [
      | inr other ↦ ground (arith, ih, other)
      | inl prefix ↦
          let len = same_name-length part o.name prefix in
          elim (Bool-cases (is_prefix o.name part)) [
            | inl same ↦ ground (arith, ih, len, same, prefix)
            | inr longer ↦ ground (arith, ih, len, longer, prefix)
          ]
    ]
