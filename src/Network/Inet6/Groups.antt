-- ===== src/Network/Inet6/Groups.antt =====
-- src/network.c: the loop of `inet_pton` on groups that are joined by colons.
use mathlib.Core.Path.{subst}
use libsolcompat.Common.{
  ℕ, zero, suc, ◌+◌, ◌-◌, ◌<◌, ◌≡◌, refl, ◌∙◌, sym, ap, false, Option, none, some, List, [], ◌∷◌,
  ◌++◌, length, ltb, leb, ◌==◌, arith, All, append_assoc, append-nil, length-append,
}
use libsolcompat.Network.Inet6.{hex, isxdigit, strtoul16, Parsed, after_group, parse_groups}
use libsolcompat.Network.Inet6.Hex.{Stops, strtoul16-hex, hex_head}

abbrev pub IsWord : ℕ → Type 0
IsWord w = w < 65536

-- The words, each behind a colon.
abbrev pub tail_text : List ℕ → List ℕ
tail_text [] = []
tail_text (w ∷ words) = b':' ∷ (hex w ++ tail_text words)

-- The words with colons between them.
abbrev pub joined : List ℕ → List ℕ
joined [] = []
joined (w ∷ words) = hex w ++ tail_text words

tail_text-Stops : (words : List ℕ) → Stops (tail_text words)
tail_text-Stops [] = tt
tail_text-Stops (w ∷ words) = refl

parse_step :
    (fuel : ℕ) (groups : List ℕ) (dcolon : Option ℕ) (w : ℕ) (rest : List ℕ)
    → IsWord w
    → Stops rest
    → length groups < 8
    → parse_groups (suc fuel) groups dcolon (hex w ++ rest)
      ≡ after_group
          (λ s k. parse_groups fuel (groups ++ (w ∷ [])) k s)
          (groups ++ (w ∷ []))
          dcolon
          rest
unfolding parse_groups
parse_step fuel groups dcolon w rest h stop room =
    let (c, s, e, digit, short) = hex_head w h in
    let value : strtoul16 (c ∷ (s ++ rest)) ≡ (w, rest) =
      ap (λ (u : List ℕ). strtoul16 (u ++ rest)) (sym e) ∙ strtoul16-hex w rest h stop in
    let few : leb 8 (length groups) ≡ false = ground arith in
    let small : ltb 0xFFFF w ≡ false = ground arith in
    subst
      (λ (u : List ℕ).
        parse_groups (suc fuel) groups dcolon (u ++ rest)
        ≡ after_group (λ s k. parse_groups fuel (groups ++ (w ∷ [])) k s) (groups ++ (w ∷ []))
            dcolon rest)
      (sym e) (rw (value, digit, few, small) refl)

after_colon :
    (again : List ℕ → Option ℕ → Option Parsed) (groups : List ℕ) (dcolon : Option ℕ) (w : ℕ)
    (rest : List ℕ)
    → IsWord w
    → after_group again groups dcolon (b':' ∷ (hex w ++ rest)) ≡ again (hex w ++ rest) dcolon
unfolding after_group isxdigit
after_colon again groups dcolon w rest h =
    let (c, s, e, digit, short) = hex_head w h in
    let other : (c == b':') ≡ false = ground (arith, digit) in
    subst
      (λ (u : List ℕ).
        after_group again groups dcolon (b':' ∷ (u ++ rest)) ≡ again (u ++ rest) dcolon)
      (sym e) (rw other refl)

-- The loop over groups with a rest that stops the last one.
pub parse_joined :
    (words : List ℕ) (w : ℕ) (fuel left : ℕ) (groups : List ℕ) (dcolon : Option ℕ) (rest : List ℕ)
    → All IsWord (w ∷ words)
    → Stops rest
    → fuel ≡ suc (length words) + left
    → length groups + length words < 8
    → parse_groups fuel groups dcolon (joined (w ∷ words) ++ rest)
      ≡ after_group
          (λ s k. parse_groups left (groups ++ (w ∷ words)) k s)
          (groups ++ (w ∷ words))
          dcolon
          rest
parse_joined words w zero left groups dcolon rest all stop e room = absurd (omega arith)
parse_joined [] w (suc fuel) left groups dcolon rest all stop e room =
    let same : fuel ≡ left = omega arith in
    rw (append-nil (hex w), sym same)
      (parse_step fuel groups dcolon w rest (all.0) stop (omega arith))
parse_joined (v ∷ words) w (suc fuel) left groups dcolon rest all stop e room =
    let more = b':' ∷ (hex v ++ (tail_text words ++ rest)) in
    let step = parse_step fuel groups dcolon w more (all.0) refl (omega arith) in
    let colon =
      after_colon (λ s k. parse_groups fuel (groups ++ (w ∷ [])) k s) (groups ++ (w ∷ [])) dcolon v
        (tail_text words ++ rest) (all.1.0) in
    let ih =
      parse_joined words v fuel left (groups ++ (w ∷ [])) dcolon rest (all.1) stop (omega arith)
        (omega (arith, length-append {0} groups (w ∷ []))) in
    ap (λ (u : List ℕ). parse_groups (suc fuel) groups dcolon u)
      (append_assoc (hex w) (b':' ∷ (hex v ++ tail_text words)) rest
        ∙ ap (λ (u : List ℕ). hex w ++ (b':' ∷ u)) (append_assoc (hex v) (tail_text words) rest))
    ∙ step
    ∙ colon
    ∙ ap (λ (u : List ℕ). parse_groups fuel (groups ++ (w ∷ [])) dcolon u)
        (sym (append_assoc (hex v) (tail_text words) rest))
    ∙ ih
    ∙ ap (λ (g : List ℕ). after_group (λ s k. parse_groups left g k s) g dcolon rest)
        (append_assoc groups (w ∷ []) (v ∷ words))

-- Groups up to the end of the text.
pub parse_to_end :
    (words : List ℕ) (w fuel : ℕ) (groups : List ℕ) (dcolon : Option ℕ)
    → All IsWord (w ∷ words)
    → length words + 1 < fuel
    → length groups + length words < 8
    → parse_groups fuel groups dcolon (joined (w ∷ words))
      ≡ some (record { groups = groups ++ (w ∷ words); dcolon = dcolon; rest = [] })
unfolding after_group parse_groups
parse_to_end words w fuel groups dcolon all enough room =
    let left = fuel - length words - 2 in
    let parsed = parse_joined words w fuel (suc left) groups dcolon [] all tt (omega arith) room in
    ap (λ (u : List ℕ). parse_groups fuel groups dcolon u) (sym (append-nil (joined (w ∷ words))))
    ∙ parsed

-- Groups, and then `::` at the end of the text.
pub parse_dcolon_end :
    (words : List ℕ) (w fuel : ℕ)
    → All IsWord (w ∷ words)
    → length words < fuel
    → length words < 8
    → parse_groups fuel [] none (joined (w ∷ words) ++ (b':' ∷ b':' ∷ []))
      ≡ some (record { groups = w ∷ words; dcolon = some (length (w ∷ words)); rest = [] })
unfolding after_group
parse_dcolon_end words w fuel all enough room =
    parse_joined words w fuel (fuel - length words - 1) [] none (b':' ∷ b':' ∷ []) all refl
      (omega arith) (omega arith)

-- Groups on both sides of `::`.
pub parse_both :
    (words : List ℕ) (w : ℕ) (after : List ℕ) (v fuel : ℕ)
    → All IsWord (w ∷ words)
    → All IsWord (v ∷ after)
    → length words + length after + 2 < fuel
    → length words + length after + 1 < 8
    → parse_groups fuel [] none (joined (w ∷ words) ++ (b':' ∷ b':' ∷ joined (v ∷ after)))
      ≡ some (record {
        groups = (w ∷ words) ++ (v ∷ after);
        dcolon = some (length (w ∷ words));
        rest = [];
      })
unfolding after_group
parse_both words w after v fuel all all' enough room =
    let left = fuel - length words - 1 in
    let (c, s, e, digit, short) = hex_head v (all'.0) in
    let first =
      parse_joined words w fuel left [] none (b':' ∷ b':' ∷ joined (v ∷ after)) all refl
        (omega arith) (omega arith) in
    let second =
      parse_to_end after v left (w ∷ words) (some (length (w ∷ words))) all' (omega arith)
        (omega arith) in
    first
    ∙ subst
        (λ (u : List ℕ).
          after_group (λ s k. parse_groups left (w ∷ words) k s) (w ∷ words) none
            (b':' ∷ b':' ∷ (u ++ tail_text after))
          ≡ parse_groups left (w ∷ words) (some (length (w ∷ words))) (u ++ tail_text after))
        (sym e) refl
    ∙ second
