-- ===== src/Network/Inet6.antt =====
-- src/network.c: IPv6 addresses as text. An address is the list of its sixteen bytes, a text the
-- list of its bytes before the zero byte.
pub mod Hex
pub mod Groups
pub mod Longest
pub mod Layout
pub mod Length
pub mod RoundTrip
pub mod Tests
use libsolcompat.Common.{
  ℕ, zero, suc, ◌+◌, ◌-◌, ◌*◌, ◌/◌, ◌%◌, Bool, true, false, not, ◌&&◌, ◌||◌, Option, none, some,
  List, [], ◌∷◌, ◌++◌, length, take, drop, replicate, ltb, leb, ◌==◌, if◌then◌else◌,
}

-- `words[i]`
pub words_of : List ℕ → List ℕ
words_of (a ∷ b ∷ bytes) = (a * 256 + b) ∷ words_of bytes
words_of _ = []

-- The run of zero words that is longest so far, and the one that is not closed yet. -1 is none.
pub record Runs : Type 0 where
  pub best_start : Option ℕ
  pub best_len : ℕ
  pub cur_start : Option ℕ
  pub cur_len : ℕ

abbrev pub no_runs : Runs
no_runs = record { best_start = none; best_len = 0; cur_start = none; cur_len = 0 }

-- Takes the open run for the best where it is longer, and of two words at least.
abbrev pub close_run : Runs → Runs
close_run r =
    if ltb r.best_len r.cur_len && leb 2 r.cur_len
    then record r { best_start = r.cur_start; best_len = r.cur_len }
    else r

abbrev pub or_start : Option ℕ → ℕ → Option ℕ
or_start none i = some i
or_start (some s) i = some s

pub scan_word : Runs → ℕ → ℕ → Runs
scan_word r i w =
    if w == 0
    then record r { cur_start = or_start r.cur_start i; cur_len = r.cur_len + 1 }
    else record (close_run r) { cur_start = none; cur_len = 0 }

pub scan_words : Runs → ℕ → List ℕ → Runs
scan_words r i [] = close_run r
scan_words r i (w ∷ words) = scan_words (scan_word r i w) (i + 1) words

-- `"%x"` of libc, for a word.
pub hex_digit : ℕ → ℕ
hex_digit d = if ltb d 10 then b'0' + d else b'a' + (d - 10)

pub hex : ℕ → List ℕ
hex w =
    if ltb w 16
    then hex_digit w ∷ []
    else if ltb w 256
    then hex_digit (w / 16) ∷ hex_digit (w % 16) ∷ []
    else if ltb w 4096
    then hex_digit (w / 256) ∷ hex_digit (w / 16 % 16) ∷ hex_digit (w % 16) ∷ []
    else hex_digit (w / 4096)
      ∷ hex_digit (w / 256 % 16)
      ∷ hex_digit (w / 16 % 16)
      ∷ hex_digit (w % 16)
      ∷ []

abbrev pub is_at : Option ℕ → ℕ → Bool
is_at none i = false
is_at (some s) i = i == s

abbrev pub is_after : Option ℕ → ℕ → ℕ → Bool
is_after none len i = false
is_after (some s) len i = i == s + len

-- The loop that prints, at word `i`; the next `skip` words are in the run.
pub format_words : Option ℕ → ℕ → ℕ → ℕ → List ℕ → List ℕ
format_words best_start best_len i skip [] = []
format_words best_start best_len i (suc skip) (w ∷ words) =
    format_words best_start best_len (i + 1) skip words
format_words best_start best_len i zero (w ∷ words) =
    if is_at best_start i
    then b':' ∷ b':' ∷ format_words best_start best_len (i + 1) (best_len - 1) words
    else (if ltb 0 i && not (is_after best_start best_len i) then b':' ∷ [] else [])
      ++ (hex w ++ format_words best_start best_len (i + 1) 0 words)

abbrev pub format_address : List ℕ → List ℕ
format_address words =
    let r = scan_words no_runs 0 words in format_words r.best_start r.best_len 0 0 words

-- `inet_ntop(AF_INET6, ...)`: the text for a buffer of `size` bytes, or none for ENOSPC.
pub inet_ntop6 : List ℕ → ℕ → Option (List ℕ)
inet_ntop6 src size =
    let text = format_address (words_of src) in
    if ltb size (length text + 1) then none else some text

pub isxdigit : ℕ → Bool
isxdigit c = (leb b'0' c && leb c b'9') || (leb b'a' c && leb c b'f') || (leb b'A' c && leb c b'F')

pub digit_value : ℕ → ℕ
digit_value c = if leb c b'9' then c - b'0' else if leb b'a' c then c - b'a' + 10 else c - b'A' + 10

-- `strtoul(p, &endptr, 16)` of libc on a text that begins with a hexadecimal digit: the value and
-- the rest. It stops growing at ULONG_MAX, where it is too large for a group either way.
pub digits_value : ℕ → List ℕ → ℕ × List ℕ
digits_value acc [] = (acc, [])
digits_value acc (c ∷ s) =
    if isxdigit c then digits_value (acc * 16 + digit_value c) s else (acc, c ∷ s)

pub strtoul16 : List ℕ → ℕ × List ℕ
strtoul16 (z ∷ x ∷ d ∷ s) =
    if z == b'0' && (x == b'x' || x == b'X') && isxdigit d
    then digits_value 0 (d ∷ s)
    else digits_value 0 (z ∷ x ∷ d ∷ s)
strtoul16 s = digits_value 0 s

-- Where the loop stops: `groups[0..ngroups)`, `dcolon` and `p`.
pub record Parsed : Type 0 where
  pub groups : List ℕ
  pub dcolon : Option ℕ
  pub rest : List ℕ

-- What follows a group: the loop goes on with `again`, stops, or the text is refused.
pub after_group : (List ℕ → Option ℕ → Option Parsed) → List ℕ → Option ℕ → List ℕ → Option Parsed
after_group again groups dcolon [] = again [] dcolon
after_group again groups dcolon (c ∷ []) = if c == b':' then again [] dcolon else none
after_group again groups dcolon (c ∷ d ∷ s) =
    if not (c == b':')
    then none
    else if not (d == b':')
    then again (d ∷ s) dcolon
    else elim dcolon [
      | some k ↦ none
      | none ↦ elim s [
        | [] ↦ some (record { groups = groups; dcolon = some (length groups); rest = [] })
        | e ∷ s' ↦ again (e ∷ s') (some (length groups))
      ]
    ]

-- Each round takes a byte, so a fuel above the length of the text is enough.
pub parse_groups : ℕ → List ℕ → Option ℕ → List ℕ → Option Parsed
parse_groups zero groups dcolon p = none
parse_groups (suc fuel) groups dcolon [] =
    some (record { groups = groups; dcolon = dcolon; rest = [] })
parse_groups (suc fuel) groups dcolon (c ∷ p) =
    let (value, rest) = strtoul16 (c ∷ p) in
    let next =
      after_group (λ s k. parse_groups fuel (groups ++ (value ∷ [])) k s) (groups ++ (value ∷ []))
        dcolon rest in
    if leb 8 (length groups)
    then some (record { groups = groups; dcolon = dcolon; rest = c ∷ p })
    else if not (isxdigit c)
    then none
    else if ltb 0xFFFF value
    then none
    else next

-- The groups behind `::` move to the end, with zeros before them.
pub expand : List ℕ → Option ℕ → List ℕ
expand groups none = groups
expand groups (some dcolon) =
    take dcolon groups ++ (replicate (8 - length groups) 0 ++ drop dcolon groups)

pub bytes_of : List ℕ → List ℕ
bytes_of [] = []
bytes_of (g ∷ groups) = (g / 256 % 256) ∷ (g % 256) ∷ bytes_of groups

-- What is stored, or none for the result 0.
pub finish_groups : Parsed → Option (List ℕ)
finish_groups x = elim (x.rest) [
  | [] ↦
      let groups = expand x.groups x.dcolon in
      if length groups == 8 then some (bytes_of groups) else none
  | c ∷ p ↦ none
]

abbrev pub finish : Option Parsed → Option (List ℕ)
finish none = none
finish (some x) = finish_groups x

abbrev pub parse_from : ℕ → List ℕ → Option ℕ → Option (List ℕ)
parse_from fuel p dcolon = finish (parse_groups fuel [] dcolon p)

-- What follows a leading `::`.
pub after_leading : List ℕ → Option (List ℕ)
after_leading [] = some (replicate 16 0)
after_leading (e ∷ p) = parse_from (length p + 2) (e ∷ p) (some 0)

-- `inet_pton(AF_INET6, ...)`
pub inet_pton6 : List ℕ → Option (List ℕ)
inet_pton6 (c ∷ d ∷ p) =
    if c == b':' && d == b':' then after_leading p else parse_from (length p + 3) (c ∷ d ∷ p) none
inet_pton6 p = parse_from (length p + 1) p none
