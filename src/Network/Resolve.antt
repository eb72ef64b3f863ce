-- ===== src/Network/Resolve.antt =====
-- src/network.c: `getaddrinfo` and `freeaddrinfo`. The name services are parameters, and memory is
-- the answers that the allocator will give and the number of blocks that are live.
pub mod Ownership
pub mod Results
pub mod Tests
use libsolcompat.Common.{
  ℕ, zero, suc, ◌+◌, ◌-◌, Bool, true, false, not, ◌&&◌, ◌||◌, Option, none, some, List, [], ◌∷◌,
  ◌++◌, leb, ◌==◌, if◌then◌else◌,
}

pub data Family : Type 0 where
  unspec : Family
  inet : Family
  inet6 : Family
  other_family : Family

pub data SockType : Type 0 where
  any : SockType
  stream : SockType
  dgram : SockType
  other_type : SockType

pub data Eai : Type 0 where
  again : Eai
  fail : Eai
  bad_family : Eai
  memory : Eai
  noname : Eai
  service : Eai

-- What `strtol` reads: the number, and the text behind it.
pub record Number : Type 0 where
  pub negative : Bool
  pub value : ℕ
  pub rest : List ℕ

pub record Hostent : Type 0 where
  pub h_name : Option (List ℕ)
  pub h_addr_list : List ℕ

pub data HostError : Type 0 where
  host_not_found : HostError
  try_again : HostError
  no_recovery : HostError
  other_error : HostError

pub data Lookup : Type 0 where
  found : Hostent → Lookup
  failed : HostError → Lookup

-- The calls of libc. A port and an address are in network order.
pub record Services : Type 0 where
  pub strtol : List ℕ → Number
  pub htons : ℕ → ℕ
  pub getservbyname : List ℕ → Option (List ℕ) → Option ℕ
  pub inet_aton : List ℕ → Option ℕ
  pub gethostbyname : List ℕ → Lookup
  pub inaddr_any : ℕ
  pub inaddr_loopback : ℕ

-- Whether each of the flags is set.
pub record Hints : Type 0 where
  pub numericserv : Bool
  pub numerichost : Bool
  pub canonname : Bool
  pub passive : Bool
  pub ai_family : Family
  pub ai_socktype : SockType
  pub ai_protocol : ℕ

pub record Addrinfo : Type 0 where
  pub socktype : SockType
  pub protocol : ℕ
  pub port : ℕ
  pub addr : ℕ
  pub canon : Option (List ℕ)

-- Where the answers end, every allocation succeeds.
pub record Memory : Type 0 where
  pub answers : List Bool
  pub live : ℕ

abbrev pub calloc_from : List Bool → ℕ → Bool × Memory
calloc_from [] live = (true, record { answers = []; live = live + 1 })
calloc_from (a ∷ answers) live =
    (a, record { answers = answers; live = if a then live + 1 else live })

abbrev pub calloc : Memory → Bool × Memory
calloc m = calloc_from m.answers m.live

abbrev pub free : Memory → Memory
free m = record m { live = m.live - 1 }

abbrev pub free_name : Option (List ℕ) → Memory → Memory
free_name none m = m
free_name (some name) m = free m

pub freeaddrinfo : List Addrinfo → Memory → Memory
freeaddrinfo [] m = m
freeaddrinfo (ai ∷ res) m = freeaddrinfo res (free (free_name ai.canon m))

pub data Outcome (A : Type 0) : Type 0 where
  error : Eai → Outcome A
  success : A → Outcome A

abbrev no_hints : Hints
no_hints = record {
  numericserv = false;
  numerichost = false;
  canonname = false;
  passive = false;
  ai_family = unspec;
  ai_socktype = any;
  ai_protocol = 0;
}

abbrev pub hints_or_default : Option Hints → Hints
hints_or_default none = no_hints
hints_or_default (some h) = h

abbrev is_empty : List ℕ → Bool
is_empty [] = true
is_empty (c ∷ s) = false

named_port : Option ℕ → Outcome ℕ
named_port none = error service
named_port (some port) = success port

abbrev protocol_name : SockType → Option (List ℕ)
protocol_name any = none
protocol_name stream = some (b't' ∷ b'c' ∷ b'p' ∷ [])
protocol_name dgram = some (b'u' ∷ b'd' ∷ b'p' ∷ [])
protocol_name other_type = none

pub resolve_service : Services → Hints → Option (List ℕ) → Outcome ℕ
resolve_service r h none = success 0
resolve_service r h (some name) =
    let n = r.strtol name in
    if is_empty (n.rest) && (not n.negative && leb n.value 65535)
    then success (r.htons n.value)
    else if h.numericserv
    then error noname
    else named_port (r.getservbyname name (protocol_name h.ai_socktype))

abbrev pub type_or_stream : SockType → SockType
type_or_stream any = stream
type_or_stream t = t

abbrev pub entry : Hints → ℕ → ℕ → Addrinfo
entry h port addr = record {
  socktype = type_or_stream h.ai_socktype;
  protocol = h.ai_protocol;
  port = port;
  addr = addr;
  canon = none;
}

-- The single result of a numeric address, and of no host at all.
pub single : Hints → ℕ → ℕ → Memory → Outcome (List Addrinfo) × Memory
single h port addr m =
    let (ok, m') = calloc m in
    if ok then (success (entry h port addr ∷ []), m') else (error memory, m')

pub strdup : Option (List ℕ) → Memory → Option (List ℕ) × Memory
strdup none m = (none, m)
strdup (some name) m = let (ok, m') = calloc m in if ok then (some name, m') else (none, m')

-- The loop over `h_addr_list`; `name` is what the next entry has for its canonical name.
pub add_addresses :
    Hints → ℕ → Option (List ℕ) → List ℕ → List Addrinfo → Memory → Outcome (List Addrinfo) × Memory
add_addresses h port name [] head m = (success head, m)
add_addresses h port name (a ∷ addrs) head m =
    let (ok, m') = calloc m in
    let (canon, m'') = strdup name m' in
    let rest =
      add_addresses h port none addrs (head ++ (record (entry h port a) { canon = canon } ∷ []))
        m'' in
    if ok then rest else (error memory, freeaddrinfo head m')

abbrev as_udp : Addrinfo → Addrinfo
as_udp ai = record ai { socktype = dgram; protocol = 17; canon = none }

-- The copies for UDP; they end where the memory does.
pub duplicate : List Addrinfo → Memory → List Addrinfo × Memory
duplicate [] m = ([], m)
duplicate (ai ∷ res) m =
    let (ok, m') = calloc m in
    let (copies, m'') = duplicate res m' in if ok then (as_udp ai ∷ copies, m'') else ([], m')

abbrev pub wants_both : Option Hints → Bool
wants_both none = false
wants_both (some h) = elim (h.ai_socktype) [
  | any ↦ true
  | stream ↦ false
  | dgram ↦ false
  | other_type ↦ false
]

-- What follows the lookup.
pub complete : Option Hints → Outcome (List Addrinfo) × Memory → Outcome (List Addrinfo) × Memory
complete hints (error e, m) = (error e, m)
complete hints (success [], m) = (error noname, m)
complete hints (success (ai ∷ head), m) =
    let (copies, m') = duplicate (ai ∷ head) m in
    if wants_both hints then (success ((ai ∷ head) ++ copies), m') else (success (ai ∷ head), m)

abbrev host_error : HostError → Eai
host_error host_not_found = noname
host_error try_again = again
host_error no_recovery = fail
host_error other_error = noname

abbrev pub canonical_name : Hints → Hostent → Option (List ℕ)
canonical_name h he = if h.canonname then he.h_name else none

pub numeric_host : Hints → ℕ → Option ℕ → Memory → Outcome (List Addrinfo) × Memory
numeric_host h port none m = (error noname, m)
numeric_host h port (some addr) m = single h port addr m

pub named_host : Option Hints → ℕ → Lookup → Memory → Outcome (List Addrinfo) × Memory
named_host hints port (failed e) m = (error (host_error e), m)
named_host hints port (found he) m =
    let h = hints_or_default hints in
    complete hints (add_addresses h port (canonical_name h he) (he.h_addr_list) [] m)

pub resolve_host :
    Services
    → Option Hints
    → Option (List ℕ)
    → Outcome ℕ
    → Memory
    → Outcome (List Addrinfo) × Memory
resolve_host r hints host (error e) m = (error e, m)
resolve_host r hints none (success port) m =
    let h = hints_or_default hints in
    complete hints (single h port (if h.passive then r.inaddr_any else r.inaddr_loopback) m)
resolve_host r hints (some host) (success port) m =
    let h = hints_or_default hints in
    if h.numerichost
    then numeric_host h port (r.inet_aton host) m
    else named_host hints port (r.gethostbyname host) m

abbrev pub resolve_in :
    Family
    → Services
    → Option Hints
    → Option (List ℕ)
    → Option (List ℕ)
    → Memory
    → Outcome (List Addrinfo) × Memory
resolve_in unspec r hints host name m =
    resolve_host r hints host (resolve_service r (hints_or_default hints) name) m
resolve_in inet r hints host name m =
    resolve_host r hints host (resolve_service r (hints_or_default hints) name) m
resolve_in inet6 r hints host name m = (error noname, m)
resolve_in other_family r hints host name m = (error bad_family, m)

pub getaddrinfo :
    Services
    → Option (List ℕ)
    → Option (List ℕ)
    → Option Hints
    → Memory
    → Outcome (List Addrinfo) × Memory
getaddrinfo r none none hints m = (error noname, m)
getaddrinfo r (some host) name hints m =
    resolve_in (hints_or_default hints).ai_family r hints (some host) name m
getaddrinfo r none (some name) hints m =
    resolve_in (hints_or_default hints).ai_family r hints none (some name) m
