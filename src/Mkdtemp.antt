-- ===== src/Mkdtemp.antt =====
-- src/stdlib.c: `mkdtemp`. A path is the list of its bytes. What `getentropy` gives at each attempt
-- (none where it fails), the time then, the process and what `mkdir` answers are parameters.
pub mod Attempts
pub mod Tests
use Prim.Native.Nat.{bit_xor}
use libsolcompat.Common.{
  ℕ, zero, suc, ◌+◌, ◌-◌, ◌%◌, ◌*◌, ◌/◌, ◌^◌, Bool, true, false, not, Option, none, some, List, [],
  ◌∷◌, ◌++◌, map, length, take, drop, ltb, ◌==◌, if◌then◌else◌, ◌&&◌,
}

pub data Answer : Type 0 where
  created exists refused : Answer

-- `TMPNAM_ALPHABET[i]`
pub tmpnam_alphabet : ℕ → ℕ
tmpnam_alphabet i =
    if ltb i 26 then b'A' + i else if ltb i 52 then b'a' + (i - 26) else b'0' + (i - 52)

pub fill_suffix : List ℕ → List ℕ
fill_suffix entropy = map (λ e. tmpnam_alphabet (e % 62)) entropy

-- `strcmp(suffix, "XXXXXX") == 0`
abbrev pub is_template_suffix : List ℕ → Bool
is_template_suffix [] = true
is_template_suffix (c ∷ s) = c == b'X' && is_template_suffix s

-- What it returns: NULL with EINVAL, with the error of `mkdir` or with EEXIST, or the path.
pub data Made : Type 0 where
  invalid failed exhausted : Made
  directory : List ℕ → Made

-- The bytes that the generator takes from its seed, of 32 bits.
pub mix_bytes : ℕ → ℕ → List ℕ
mix_bytes seed zero = []
mix_bytes seed (suc n) =
    let next = (seed * 1103515245 + 12345) % 2 ^ 32 in (next / 2 ^ 16 % 2 ^ 8) ∷ mix_bytes next n

-- The seed where `getentropy` fails.
pub weak_seed : ℕ → ℕ → ℕ → ℕ
weak_seed time pid retry_count =
    bit_xor (bit_xor (time % 2 ^ 32) (pid * 2654435761 % 2 ^ 32)) (retry_count * 16777619 % 2 ^ 32)

pub suffix_entropy : Option (List ℕ) → ℕ → ℕ → ℕ → List ℕ
suffix_entropy (some bytes) time pid retry_count = bytes
suffix_entropy none time pid retry_count = mix_bytes (weak_seed time pid retry_count) 6

module _ (getentropy : ℕ → Option (List ℕ)) (time : ℕ → ℕ) (pid : ℕ)
    (mkdir : ℕ → List ℕ → Answer) where
  -- The bytes that attempt `attempt` makes its suffix of.
  abbrev pub entropy : ℕ → List ℕ
  entropy attempt = suffix_entropy (getentropy attempt) (time attempt) pid attempt

  pub mkdtemp_loop : List ℕ → ℕ → ℕ → Made
  mkdtemp_loop stem attempt zero = exhausted
  mkdtemp_loop stem attempt (suc rounds) =
      let again = mkdtemp_loop stem (suc attempt) rounds in
      elim (mkdir attempt (stem ++ fill_suffix (entropy attempt))) [
        | created ↦ directory (stem ++ fill_suffix (entropy attempt))
        | exists ↦ again
        | refused ↦ failed
      ]

  pub mkdtemp : List ℕ → Made
  mkdtemp tmpl =
      if ltb (length tmpl) 6
      then invalid
      else if not (is_template_suffix (drop (length tmpl - 6) tmpl))
      then invalid
      else mkdtemp_loop (take (length tmpl - 6) tmpl) 0 1000
