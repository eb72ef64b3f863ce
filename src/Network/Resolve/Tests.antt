-- ===== src/Network/Resolve/Tests.antt =====
-- src/network.c: a lookup of a host with two addresses.
use libsolcompat.Common.{
  ℕ, ◌≡◌, refl, inr, true, false, Option, none, some, List, [], ◌∷◌, if◌then◌else◌,
}
use libsolcompat.Network.Resolve.{
  Services, Lookup, found, failed, host_not_found, Hostent, Hints, inet, any, Memory, error,
  success, memory, resolve_service, getaddrinfo, complete, add_addresses, strdup, freeaddrinfo,
  named_host, resolve_host,
}
use libsolcompat.Network.Resolve.Ownership.{IsOwned, release, getaddrinfo-IsOwned}
use libsolcompat.Network.Resolve.Results.{plenty, all_results, getaddrinfo-all_results}

abbrev two : Hostent
two = record { h_name = some (b'a' ∷ b'b' ∷ []); h_addr_list = 0x0A000001 ∷ 0x0A000002 ∷ [] }

-- "a" is a host with two addresses; a service is a number that `strtol` reads to the end.
abbrev lookup_a : List ℕ → Lookup
lookup_a [] = failed host_not_found
lookup_a (c ∷ s) = found two

abbrev services : Services
services = record {
  strtol = λ s. record { negative = false; value = 80; rest = [] };
  htons = λ x. x;
  getservbyname = λ s p. none;
  inet_aton = λ s. none;
  gethostbyname = lookup_a;
  inaddr_any = 0;
  inaddr_loopback = 0x7F000001;
}

abbrev open_hints : Hints
open_hints = record {
  numericserv = false;
  numerichost = false;
  canonname = true;
  passive = false;
  ai_family = inet;
  ai_socktype = any;
  ai_protocol = 0;
}

abbrev port_80 : Option (List ℕ)
port_80 = some (b'8' ∷ b'0' ∷ [])

-- The second allocation for a result fails, after the canonical name.
abbrev short : Memory
short = record { answers = true ∷ true ∷ false ∷ []; live = 5 }

short_lem :
    (getaddrinfo services (some (b'a' ∷ [])) port_80 (some open_hints) short).0 ≡ error memory
unfolding getaddrinfo resolve_host resolve_service named_host add_addresses strdup complete
    freeaddrinfo
short_lem = refl

getaddrinfo-IsOwned_example :
    IsOwned 5 (getaddrinfo services (some (b'a' ∷ [])) port_80 (some open_hints) short)
    × ((release (getaddrinfo services (some (b'a' ∷ [])) port_80 (some open_hints) short)).live ≡ 5)
getaddrinfo-IsOwned_example =
    getaddrinfo-IsOwned services (some (b'a' ∷ [])) port_80 (some open_hints) short

served : resolve_service services open_hints port_80 ≡ success 80
unfolding resolve_service
served = refl

getaddrinfo-all_results_example :
    (getaddrinfo services (some (b'a' ∷ [])) port_80 (some open_hints) (plenty 0)).0
    ≡ success (
        all_results open_hints 80
          (if true then some (b'a' ∷ b'b' ∷ []) else none)
          (0x0A000001 ∷ 0x0A000002 ∷ []))
getaddrinfo-all_results_example =
    getaddrinfo-all_results services (b'a' ∷ []) port_80 open_hints 80 (some (b'a' ∷ b'b' ∷ []))
      0x0A000001 (0x0A000002 ∷ []) 0 (inr refl) served refl refl
