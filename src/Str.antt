-- ===== src/Str.antt =====
-- src/string.c: the string functions that Solaris 7 lacks. A block is the memory from the pointer
-- that the function is given, so the pointers that the functions return are indices in it.
pub mod Copy
pub mod Pad
pub mod Search
pub mod Tests
use mathlib.Core.Bool.{◌||◌}
use mathlib.Core.Option
use libsolcompat.Common.{
  ℕ, zero, suc, ◌+◌, ◌-◌, ◌%◌, ◌≡◌, Bool, true, false, ◌&&◌, Option, none, some, List, [], ◌∷◌,
  Block, load, store, ltb, leb, ◌==◌, if◌then◌else◌, ◌>>=◌,
}
use libsolcompat.Common.Libc.{strlen, memcpy, memeq}

-- `while (len < n && s[len] != '\0') len++`, with `rounds` values below `n` left.
pub scan_bounded : Block → ℕ → ℕ → Option ℕ
scan_bounded s len zero = some len
scan_bounded s len (suc rounds) = do
  c ← load s len
  if c == 0 then some len else scan_bounded s (len + 1) rounds

pub strnlen : Block → ℕ → Option ℕ
strnlen s maxlen = scan_bounded s 0 maxlen

-- `malloc n` is the block of at least `n` bytes that the allocator hands out, or `none`. The result
-- is `some none` where the function returns NULL.
pub strndup : (ℕ → Option Block) → Block → ℕ → Option (Option Block)
strndup malloc s n = do
  len ← scan_bounded s 0 n
  elim (malloc (len + 1)) [
    | none ↦ some none
    | some dup ↦ do dup' ← memcpy dup 0 s 0 len; dup'' ← store dup' len 0; some (some dup'')
  ]

pub strlcpy : Block → Block → ℕ → Option (ℕ × Block)
strlcpy dst src size = do
  srclen ← strlen src
  let copylen = if leb size srclen then size - 1 else srclen
  if ltb 0 size
      then (do
        dst' ← memcpy dst 0 src 0 copylen
        dst'' ← store dst' copylen 0
        some (srclen, dst''))
      else some (srclen, dst)

pub strlcat : Block → Block → ℕ → Option (ℕ × Block)
strlcat dst src size = do
  dstlen ← strnlen dst size
  srclen ← strlen src
  if dstlen == size
      then some (size + srclen, dst)
      else if ltb srclen (size - dstlen)
      then (do dst' ← memcpy dst dstlen src 0 (srclen + 1); some (dstlen + srclen, dst'))
      else do
        dst' ← memcpy dst dstlen src 0 (size - dstlen - 1)
        dst'' ← store dst' (size - 1) 0
        some (dstlen + srclen, dst'')

-- The index that is returned, and the destination.
pub stpcpy_loop : Block → ℕ → Block → Option (ℕ × Block)
stpcpy_loop dst d [] = none
stpcpy_loop dst d (c ∷ src) = do
  dst' ← store dst d c
  if c == 0 then some (d, dst') else stpcpy_loop dst' (d + 1) src

pub stpcpy : Block → Block → Option (ℕ × Block)
stpcpy dst src = stpcpy_loop dst 0 src

-- The first loop of `stpncpy`: the index at which it stops, and the destination.
pub copy_bounded : Block → Block → ℕ → ℕ → Option (ℕ × Block)
copy_bounded dst src i zero = some (i, dst)
copy_bounded dst src i (suc rounds) = do
  c ← load src i
  if c == 0 then some (i, dst) else do dst' ← store dst i c; copy_bounded dst' src (i + 1) rounds

-- The second loop.
pub pad_zeros : Block → ℕ → ℕ → Option (ℕ × Block)
pad_zeros dst i zero = some (i, dst)
pad_zeros dst i (suc rounds) = do dst' ← store dst i 0; pad_zeros dst' (i + 1) rounds

-- The returned pointer is `dst` and the index.
pub stpncpy : Block → Block → ℕ → Option (ℕ × Block)
stpncpy dst src n = do
  (i, dst') ← copy_bounded dst src 0 n
  (i', dst'') ← pad_zeros dst' i (n - i)
  some (if ltb i' n then i' else n, dst'')

-- `c` is converted to `char`; bytes are compared as numbers below 256.
pub strchrnul : Block → ℕ → Option ℕ
strchrnul [] c = none
strchrnul (x ∷ s) c = if x == 0 || x == c % 256 then some 0 else Option.map suc (strchrnul s c)

-- `p` runs down from `s + n`.
pub memrchr : Block → ℕ → ℕ → Option (Option ℕ)
memrchr s c zero = some none
memrchr s c (suc k) = do x ← load s k; if x == c % 256 then some (some k) else memrchr s c k

-- The loop over `i`, with `rounds` values up to `haystacklen - needlelen` left.
pub memmem_loop : Block → Block → ℕ → ℕ → ℕ → Option (Option ℕ)
memmem_loop h n needlelen i zero = some none
memmem_loop h n needlelen i (suc rounds) = do
  x ← load h i
  y ← load n 0
  same ← elim (x == y) [ true ↦ memeq h i n 0 needlelen | false ↦ some false ]
  if same then some (some i) else memmem_loop h n needlelen (i + 1) rounds

pub memmem : Block → ℕ → Block → ℕ → Option (Option ℕ)
memmem haystack haystacklen needle needlelen =
    if needlelen == 0
    then some (some 0)
    else if ltb haystacklen needlelen
    then some none
    else memmem_loop haystack needle needlelen 0 (haystacklen - needlelen + 1)
