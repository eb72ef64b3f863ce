-- ===== src/Network/Resolve/Ownership.antt =====
-- src/network.c: who owns the memory of `getaddrinfo`.
use libsolcompat.Common.{
  ℕ, ◌+◌, ◌-◌, ◌≡◌, refl, Bool, Option, none, some, List, [], ◌∷◌, ◌++◌, if◌then◌else◌, arith,
  Bool-cases, inl, inr,
}
use libsolcompat.Network.Resolve.{
  Services, Lookup, found, failed, Hints, Family, unspec, inet, inet6, other_family, Addrinfo,
  Memory, calloc_from, calloc, free, free_name, freeaddrinfo, Outcome, error, success,
  hints_or_default, entry, single, strdup, add_addresses, duplicate, wants_both, complete,
  canonical_name, numeric_host, named_host, resolve_service, resolve_host, resolve_in, getaddrinfo,
}

abbrev name_blocks : Option (List ℕ) → ℕ
name_blocks none = 0
name_blocks (some name) = 1

-- The blocks of a list of results.
abbrev pub blocks : List Addrinfo → ℕ
blocks [] = 0
blocks (ai ∷ res) = 1 + name_blocks ai.canon + blocks res

blocks-append : (xs ys : List Addrinfo) → blocks (xs ++ ys) ≡ blocks xs + blocks ys
blocks-append [] ys = omega arith
blocks-append (x ∷ xs) ys = omega (arith, blocks-append xs ys)

live-calloc_from :
    (answers : List Bool) (n : ℕ)
    → (calloc_from answers n).1.live ≡ (if (calloc_from answers n).0 then n + 1 else n)
live-calloc_from [] n = refl
live-calloc_from (a ∷ answers) n = refl

-- What a caller does who frees the results.
abbrev pub release : Outcome (List Addrinfo) × Memory → Memory
release (error e, m) = m
release (success res, m) = freeaddrinfo res m

-- What a call has to answer for: nothing new where it fails, and its results where it succeeds.
abbrev pub IsOwned : ℕ → Outcome (List Addrinfo) × Memory → Type 0
IsOwned before (error e, m) = m.live ≡ before
IsOwned before (success res, m) = m.live ≡ before + blocks res

live-free_name :
    (name : Option (List ℕ)) (m : Memory)
    → (free (free_name name m)).live ≡ m.live - (1 + name_blocks name)
live-free_name none m = refl
live-free_name (some name) m = omega arith

live-freeaddrinfo :
    (res : List Addrinfo) (m : Memory) → (freeaddrinfo res m).live ≡ m.live - blocks res
unfolding freeaddrinfo
live-freeaddrinfo [] m = omega arith
live-freeaddrinfo (ai ∷ res) m =
    let own = live-free_name (ai.canon) m in
    omega (arith, own, live-freeaddrinfo res (free (free_name ai.canon m)))

single-IsOwned : (h : Hints) (port addr : ℕ) (m : Memory) → IsOwned (m.live) (single h port addr m)
unfolding single
single-IsOwned h port addr m =
    let counted = live-calloc_from (m.answers) (m.live) in
    elim (Bool-cases ((calloc m).0)) [
      | inl ok ↦ rw ok (ground (arith, counted, ok))
      | inr bad ↦ rw bad (ground (arith, counted, bad))
    ]

live-strdup :
    (name : Option (List ℕ)) (m : Memory)
    → (strdup name m).1.live ≡ m.live + name_blocks (strdup name m).0
unfolding strdup
live-strdup none m = omega arith
live-strdup (some name) m =
    let counted = live-calloc_from (m.answers) (m.live) in
    elim (Bool-cases ((calloc m).0)) [
      | inl ok ↦ rw ok (ground (arith, counted, ok))
      | inr bad ↦ rw bad (ground (arith, counted, bad))
    ]

add_addresses-IsOwned :
    (addrs : List ℕ) (before : ℕ) (h : Hints) (port : ℕ) (name : Option (List ℕ))
    (head : List Addrinfo) (m : Memory)
    → m.live ≡ before + blocks head
    → IsOwned before (add_addresses h port name addrs head m)
unfolding add_addresses
add_addresses-IsOwned [] before h port name head m e = e
add_addresses-IsOwned (a ∷ addrs) before h port name head m e =
    let counted = live-calloc_from (m.answers) (m.live) in
    elim (Bool-cases ((calloc m).0)) [
      | inl ok ↦
          let m' = (calloc m).1 in
          let canon = (strdup name m').0 in
          let ai = record (entry h port a) { canon = canon } in
          let named = live-strdup name m' in
          let sum = blocks-append head (ai ∷ []) in
          let more : m'.live ≡ m.live + 1 = ground (arith, counted, ok) in
          rw ok (
            add_addresses-IsOwned addrs before h port none (head ++ (ai ∷ [])) ((strdup name m').1)
              (omega (arith, e, named, sum, more)))
      | inr bad ↦
          let same : (calloc m).1.live ≡ m.live = ground (arith, counted, bad) in
          rw bad (omega (arith, live-freeaddrinfo head ((calloc m).1), e, same))
    ]

live-duplicate :
    (res : List Addrinfo) (m : Memory)
    → (duplicate res m).1.live ≡ m.live + blocks (duplicate res m).0
unfolding duplicate
live-duplicate [] m = omega arith
live-duplicate (ai ∷ res) m =
    let counted = live-calloc_from (m.answers) (m.live) in
    let m' = (calloc m).1 in
    elim (Bool-cases ((calloc m).0)) [
      | inl ok ↦
          let more : m'.live ≡ m.live + 1 = ground (arith, counted, ok) in
          rw ok (omega (arith, live-duplicate res m', more))
      | inr bad ↦
          let same : m'.live ≡ m.live = ground (arith, counted, bad) in rw bad (omega (arith, same))
    ]

complete-IsOwned :
    (before : ℕ) (hints : Option Hints) (o : Outcome (List Addrinfo)) (m : Memory)
    → IsOwned before (o, m)
    → IsOwned before (complete hints (o, m))
unfolding complete
complete-IsOwned before hints (error e) m h = h
complete-IsOwned before hints (success []) m h = omega (arith, h)
complete-IsOwned before hints (success (ai ∷ head)) m h = elim (Bool-cases (wants_both hints)) [
  | inl both ↦ rw both (
      omega (
        arith,
        h,
        live-duplicate (ai ∷ head) m,
        blocks-append (ai ∷ head) (duplicate (ai ∷ head) m).0,
      ))
  | inr one ↦ rw one h
]

complete_pair :
    (before : ℕ) (hints : Option Hints) (r : Outcome (List Addrinfo) × Memory)
    → IsOwned before r
    → IsOwned before (complete hints r)
complete_pair before hints (o, m) h = complete-IsOwned before hints o m h

named_host-IsOwned :
    (hints : Option Hints) (port : ℕ) (l : Lookup) (m : Memory)
    → IsOwned (m.live) (named_host hints port l m)
unfolding named_host
named_host-IsOwned hints port (failed e) m = refl
named_host-IsOwned hints port (found he) m =
    let h = hints_or_default hints in
    complete_pair (m.live) hints (add_addresses h port (canonical_name h he) (he.h_addr_list) [] m)
      (add_addresses-IsOwned (he.h_addr_list) (m.live) h port (canonical_name h he) [] m
        (omega arith))

numeric_host-IsOwned :
    (h : Hints) (port : ℕ) (addr : Option ℕ) (m : Memory)
    → IsOwned (m.live) (numeric_host h port addr m)
unfolding numeric_host
numeric_host-IsOwned h port none m = refl
numeric_host-IsOwned h port (some addr) m = single-IsOwned h port addr m

resolve_host-IsOwned :
    (r : Services) (hints : Option Hints) (host : Option (List ℕ)) (port : Outcome ℕ) (m : Memory)
    → IsOwned (m.live) (resolve_host r hints host port m)
unfolding resolve_host
resolve_host-IsOwned r hints host (error e) m = refl
resolve_host-IsOwned r hints none (success port) m =
    let h = hints_or_default hints in
    complete_pair (m.live) hints
      (single h port (if h.passive then r.inaddr_any else r.inaddr_loopback) m)
      (single-IsOwned h port (if h.passive then r.inaddr_any else r.inaddr_loopback) m)
resolve_host-IsOwned r hints (some host) (success port) m =
    elim (Bool-cases (hints_or_default hints).numerichost) [
      | inl numeric ↦
          rw numeric (numeric_host-IsOwned (hints_or_default hints) port (r.inet_aton host) m)
      | inr named ↦ rw named (named_host-IsOwned hints port (r.gethostbyname host) m)
    ]

resolve_family :
    (f : Family) (r : Services) (hints : Option Hints) (host name : Option (List ℕ)) (m : Memory)
    → IsOwned (m.live) (resolve_in f r hints host name m)
resolve_family unspec r hints host name m =
    resolve_host-IsOwned r hints host (resolve_service r (hints_or_default hints) name) m
resolve_family inet r hints host name m =
    resolve_host-IsOwned r hints host (resolve_service r (hints_or_default hints) name) m
resolve_family inet6 r hints host name m = refl
resolve_family other_family r hints host name m = refl

request-IsOwned :
    (r : Services) (host name : Option (List ℕ)) (hints : Option Hints) (m : Memory)
    → IsOwned (m.live) (getaddrinfo r host name hints m)
unfolding getaddrinfo
request-IsOwned r none none hints m = refl
request-IsOwned r (some host) name hints m =
    resolve_family (hints_or_default hints).ai_family r hints (some host) name m
request-IsOwned r none (some name) hints m =
    resolve_family (hints_or_default hints).ai_family r hints none (some name) m

freed :
    (before : ℕ) (o : Outcome (List Addrinfo)) (m : Memory)
    → IsOwned before (o, m)
    → (release (o, m)).live ≡ before
freed before (error e) m h = h
freed before (success res) m h = omega (arith, h, live-freeaddrinfo res m)

-- For every request, every answer of the name services and every allocation that fails, a call of
-- getaddrinfo that fails leaves as many live blocks as there were, and one that succeeds leaves as
-- many more as its results have blocks, so that freeaddrinfo of them gives the count back.
pub getaddrinfo-IsOwned :
    (r : Services) (host name : Option (List ℕ)) (hints : Option Hints) (m : Memory)
    → IsOwned (m.live) (getaddrinfo r host name hints m)
      × ((release (getaddrinfo r host name hints m)).live ≡ m.live)
getaddrinfo-IsOwned r host name hints m =
    let owned = request-IsOwned r host name hints m in
    (
      owned,
      freed (m.live) ((getaddrinfo r host name hints m).0) ((getaddrinfo r host name hints m).1)
          owned,
    )
