-- ===== src/CxaAtexit/Table.antt =====
-- The table as registrations change it.
use libsolcompat.Common.{
  All, Bool, Bool-cases, inl, inr, ap, ℕ, zero, suc, ◌+◌, ◌≤◌, ◌≡◌, refl, ◌∙◌, sym, true, false,
  List, [], ◌∷◌, ◌++◌, arith, length, append_assoc, append-nil, length-append, ltb, map, min, take,
  take-append_le, length-take, if◌then◌else◌,
}
use libsolcompat.Common.Int.{pos, negsuc}
use libsolcompat.CxaAtexit.{
  Entry, Registry, Registration, cxa_atexit_max, new_entry, cxa_atexit, register_all,
}

-- `t` is `s` with entries appended, all in use.
pub record Extends (s t : Registry) : Type 0 where
  pub more : List Entry
  pub appended : t.entries ≡ s.entries ++ more
  pub in_use : All (λ e. e.in_use ≡ true) more

Extends-step : (s : Registry) (r : Registration) → Extends s (cxa_atexit s r).0
unfolding cxa_atexit
Extends-step s r = elim (Bool-cases (ltb (length s.entries) cxa_atexit_max)) [
  | inl room ↦ rw room (record { more = new_entry r ∷ []; appended = refl; in_use = (refl, tt) })
  | inr full ↦ rw full (record { more = []; appended = sym (append-nil s.entries); in_use = tt })
]

pub All-append {ℓ} :
    {A : Type 0} (P : A → Type ℓ) (xs ys : List A) → All P xs → All P ys → All P (xs ++ ys)
All-append P [] ys h k = k
All-append P (x ∷ xs) ys h k = (h.0, All-append P xs ys h.1 k)

-- What a destructor registers while it runs is appended.
pub register_all-Extends : (rs : List Registration) (s : Registry) → Extends s (register_all s rs)
unfolding register_all
register_all-Extends [] s = record { more = []; appended = sym (append-nil s.entries); in_use = tt }
register_all-Extends (r ∷ rs) s =
    let a = Extends-step s r in
    let b = register_all-Extends rs (cxa_atexit s r).0 in
    record {
      more = a.more ++ b.more;
      appended =
          b.appended
          ∙ ap (λ (t : List Entry). t ++ b.more) a.appended
          ∙ append_assoc s.entries a.more b.more;
      in_use = All-append _ a.more b.more a.in_use b.in_use;
    }

take_whole : (n : ℕ) (es : List Entry) → length es ≤ n → take n es ≡ es
take_whole zero [] h = refl
take_whole zero (e ∷ es) h = absurd (omega arith)
take_whole (suc n) [] h = refl
take_whole (suc n) (e ∷ es) h = ap (λ (l : List Entry). e ∷ l) (take_whole n es (omega arith))

cxa_atexit_room :
    (s : Registry) (r : Registration)
    → ltb (length s.entries) cxa_atexit_max ≡ true
    → (cxa_atexit s r).0
      ≡ record { entries = s.entries ++ (new_entry r ∷ []); finalize_registered = true }
unfolding cxa_atexit
cxa_atexit_room s r room = rw room refl

cxa_atexit_full :
    (s : Registry) (r : Registration)
    → ltb (length s.entries) cxa_atexit_max ≡ false
    → (cxa_atexit s r).0 ≡ record { entries = s.entries; finalize_registered = true }
unfolding cxa_atexit
cxa_atexit_full s r full = rw full refl

cxa_atexit_result :
    (s : Registry) (r : Registration)
    → (cxa_atexit s r).1 ≡ (if ltb (length s.entries) 1024 then pos 0 else negsuc 0)
unfolding cxa_atexit
cxa_atexit_result s r = elim (Bool-cases (ltb (length s.entries) cxa_atexit_max)) [
  | inl room ↦ rw room refl
  | inr full ↦ rw full refl
]

same_test : (m n : ℕ) → m ≡ min 1024 n → ltb m 1024 ≡ ltb n 1024
same_test m n e = ground (arith, e)

-- The table after any registrations: the first 1024 entries of all.
table_lem :
    (rs : List Registration) (s : Registry)
    → length s.entries ≤ 1024
    → (register_all s rs).entries ≡ take 1024 (s.entries ++ map new_entry rs)
unfolding register_all
table_lem [] s h =
    sym (take_whole 1024 s.entries h)
    ∙ ap (λ (l : List Entry). take 1024 l) (sym (append-nil s.entries))
table_lem (r ∷ rs) s h = elim (Bool-cases (ltb (length s.entries) cxa_atexit_max)) [
  | inl room ↦
      let longer : Registry = record {
        entries = s.entries ++ (new_entry r ∷ []);
        finalize_registered = true;
      } in
      let one = length-append s.entries (new_entry r ∷ []) in
      ap (λ (u : Registry). (register_all u rs).entries) (cxa_atexit_room s r room)
      ∙ table_lem rs longer (ground (arith, one, room))
      ∙ ap (λ (l : List Entry). take 1024 l)
          (append_assoc s.entries (new_entry r ∷ []) (map new_entry rs))
  | inr full ↦
      let same : Registry = record { entries = s.entries; finalize_registered = true } in
      let size : 1024 ≤ length s.entries = ground (arith, full) in
      ap (λ (u : Registry). (register_all u rs).entries) (cxa_atexit_full s r full)
      ∙ table_lem rs same h
      ∙ take-append_le 1024 s.entries (map new_entry rs) size
      ∙ sym (take-append_le 1024 s.entries (map new_entry (r ∷ rs)) size)
]

-- From a table of at most 1024 entries, any registrations leave the first 1024 of its entries and
-- the new ones, each in use with its function, argument and handle. A call of __cxa_atexit after
-- them returns 0 exactly if all these are fewer than 1024, and else -1.
pub register_all-take :
    (s : Registry) (rs : List Registration) (r : Registration)
    → length s.entries ≤ 1024
    → ((register_all s rs).entries ≡ take 1024 (s.entries ++ map new_entry rs))
      × ((cxa_atexit (register_all s rs) r).1
          ≡ (if ltb (length s.entries + length rs) 1024 then pos 0 else negsuc 0))
register_all-take s rs r h =
    let table = table_lem rs s h in
    let all = s.entries ++ map new_entry rs in
    let count : length (register_all s rs).entries ≡ min 1024 (length s.entries + length rs) =
      ap (λ (l : List Entry). length l) table
      ∙ length-take {0} {A = Entry} 1024 all
      ∙ ap (λ (n : ℕ). min 1024 n)
          (length-append s.entries (map new_entry rs)
            ∙ ap (λ (n : ℕ). length s.entries + n) (length-map_entries rs)) in
    (
      table,
      cxa_atexit_result (register_all s rs) r
          ∙ ap (λ (b : Bool). if b then pos 0 else negsuc 0)
              (same_test (length (register_all s rs).entries) (length s.entries + length rs) count),
    )
  where
    length-map_entries : (rs : List Registration) → length (map new_entry rs) ≡ length rs
    length-map_entries [] = refl
    length-map_entries (r ∷ rs) = omega (arith, length-map_entries rs)
