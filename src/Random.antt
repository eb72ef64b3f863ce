-- ===== src/Random.antt =====
-- src/random.c: reads from an entropy source, the choice of the source, and bounded numbers.
pub mod Reads
pub mod Uniform
pub mod Tests
use libsolcompat.Common.{
  ℕ, zero, suc, ◌+◌, ◌-◌, ◌*◌, ◌/◌, ◌%◌, ◌^◌, Bool, true, false, Option, none, some, List, [], ◌∷◌,
  ◌++◌, length, take, drop, ltb, leb, ◌==◌, if◌then◌else◌,
}
use libsolcompat.Common.Int.{ℤ, pos, negsuc}

-- What the descriptor has for the next `read`. Of more bytes than are asked for, the rest stays.
pub data Reply : Type 0 where
  interrupted failed closed : Reply
  received : List ℕ → Reply

-- How a loop of reads ends: it fails, or it has all bytes and leaves the other replies. `blocked`
-- is a wait for a reply that does not come.
pub data Reading : Type 0 where
  blocked broken : Reading
  filled : List ℕ → List Reply → Reading

abbrev pub after : List ℕ → Reading → Reading
after bytes blocked = blocked
after bytes broken = broken
after bytes (filled more replies) = filled (bytes ++ more) replies

-- `read_all`, and the inner loop of `egd_get_bytes`.
pub read_all : List Reply → ℕ → Reading
read_all replies zero = filled [] replies
read_all [] (suc len) = blocked
read_all (interrupted ∷ replies) (suc len) = read_all replies (suc len)
read_all (failed ∷ replies) (suc len) = broken
read_all (closed ∷ replies) (suc len) = broken
read_all (received [] ∷ replies) (suc len) = broken
read_all (received (b ∷ bytes) ∷ replies) (suc len) =
    let rest = read_all replies (len - length bytes) in
    if leb (length bytes) len
    then after (b ∷ bytes) rest
    else filled (b ∷ take len bytes) (received (drop len bytes) ∷ replies)

abbrev pub egd_max_request : ℕ
egd_max_request = 255

-- `fallback_random_bytes` after seeding, with the 32-bit state that it leaves.
pub fallback_random_bytes : ℕ → ℕ → ℕ × List ℕ
fallback_random_bytes state zero = (state, [])
fallback_random_bytes state (suc len) =
    let next = (state * 1103515245 + 12345) % 2 ^ 32 in
    let (last, bytes) = fallback_random_bytes next len in (last, next / 2 ^ 16 % 2 ^ 8 ∷ bytes)

-- `random_source`
pub data Source : Type 0 where
  not_probed device egd no_source : Source

-- The loop of `arc4random_uniform` from draw `i` on; `none` is the end of the fuel.
abbrev pub rejection_bound : ℕ → ℕ
rejection_bound upper_bound = (2 ^ 32 - upper_bound) % upper_bound

pub uniform_loop : (ℕ → ℕ) → ℕ → ℕ → ℕ → Option ℕ
uniform_loop arc4random upper_bound i zero = none
uniform_loop arc4random upper_bound i (suc fuel) =
    let again = uniform_loop arc4random upper_bound (i + 1) fuel in
    let r = arc4random i in
    if leb (rejection_bound upper_bound) r then some (r % upper_bound) else again

pub arc4random_uniform : (ℕ → ℕ) → ℕ → ℕ → Option ℕ
arc4random_uniform arc4random upper_bound fuel =
    if ltb upper_bound 2 then some 0 else uniform_loop arc4random upper_bound 0 fuel

-- Whether a device opens, whether the daemon answers the probe, and what each gives for a length;
-- none where it fails.
module _ (can_open can_probe : Bool) (device_bytes egd_bytes : ℕ → Option (List ℕ)) where
  -- The probe at the first call.
  pub choose_source : Source → Source
  choose_source not_probed = if can_open then device else if can_probe then egd else no_source
  choose_source source = source

  pub read_source : Source → ℕ → Option (List ℕ)
  read_source device len = device_bytes len
  read_source egd len = egd_bytes len
  read_source _ len = none

  pub get_random_bytes : Source → ℕ → Source × Option (List ℕ)
  get_random_bytes source len = (choose_source source, read_source (choose_source source) len)

  -- `allow_weak` is whether SOLCOMPAT_ALLOW_WEAK_RANDOM is set; `state` that of the generator.
  pub weak_bytes : Bool → ℕ → ℕ → Option (List ℕ) → ℕ × Option (List ℕ)
  weak_bytes allow_weak state len (some bytes) = (state, some bytes)
  weak_bytes allow_weak state len none =
      if allow_weak
      then ((fallback_random_bytes state len).0, some (fallback_random_bytes state len).1)
      else (state, none)

  -- The bytes, or none for -1 with EIO.
  pub getrandom : Bool → Source → ℕ → ℕ → Source × ℕ × Option (List ℕ)
  getrandom allow_weak source state buflen =
      let (source', bytes) = get_random_bytes source buflen in
      let (state', given) = weak_bytes allow_weak state buflen bytes in (source', state', given)

  -- It goes on as `getrandom` does, with the same calls.
  pub getentropy : Bool → Source → ℕ → ℕ → Source × ℕ × Option (List ℕ)
  getentropy allow_weak source state length =
      if ltb 256 length then (source, state, none) else getrandom allow_weak source state length
