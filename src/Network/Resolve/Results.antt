-- ===== src/Network/Resolve/Results.antt =====
-- src/network.c: the results of `getaddrinfo` for a host name.
use libsolcompat.Common.{
  ℕ, ◌+◌, ◌≡◌, refl, ◌∙◌, sym, ap, ◌⊎◌, inl, inr, false, Option, none, some, List, [], ◌∷◌, ◌++◌,
  map, if◌then◌else◌, Bool-cases, append_assoc, append-nil,
}
use libsolcompat.Network.Resolve.{
  Services, found, Hints, unspec, inet, dgram, Addrinfo, Memory, Outcome, success, strdup,
  add_addresses, duplicate, wants_both, complete, named_host, resolve_service, resolve_host,
  getaddrinfo, type_or_stream,
}

-- Memory in which no allocation fails.
abbrev pub plenty : ℕ → Memory
plenty n = record { answers = []; live = n }

abbrev pub result : Hints → ℕ → Option (List ℕ) → ℕ → Addrinfo
result h port name addr = record {
  socktype = type_or_stream h.ai_socktype;
  protocol = h.ai_protocol;
  port = port;
  addr = addr;
  canon = name;
}

-- One result for each address, in the order of the addresses; the first has the canonical name.
abbrev pub listed : Hints → ℕ → Option (List ℕ) → List ℕ → List Addrinfo
listed h port name [] = []
listed h port name (a ∷ addrs) = result h port name a ∷ map (result h port none) addrs

abbrev pub udp_result : ℕ → ℕ → Addrinfo
udp_result port addr = record {
  socktype = dgram;
  protocol = 17;
  port = port;
  addr = addr;
  canon = none;
}

abbrev pub all_results : Hints → ℕ → Option (List ℕ) → List ℕ → List Addrinfo
all_results h port name addrs =
    listed h port name addrs ++ (if wants_both (some h) then map (udp_result port) addrs else [])

listed-none :
    (h : Hints) (port : ℕ) (addrs : List ℕ)
    → listed h port none addrs ≡ map (result h port none) addrs
listed-none h port [] = refl
listed-none h port (a ∷ addrs) = refl

strdup-plenty :
    (name : Option (List ℕ)) (n : ℕ) → (n' : ℕ) × (strdup name (plenty n) ≡ (name, plenty n'))
unfolding strdup
strdup-plenty none n = (n, refl)
strdup-plenty (some name) n = (n + 1, refl)

add_plenty :
    (addrs : List ℕ) (h : Hints) (port : ℕ) (name : Option (List ℕ)) (head : List Addrinfo) (n : ℕ)
    → (n' : ℕ) × (add_addresses h port name addrs head (plenty n)
        ≡ (success (head ++ listed h port name addrs), plenty n'))
unfolding add_addresses
add_plenty [] h port name head n =
    (n, ap (λ (u : List Addrinfo). (success u, plenty n)) (sym (append-nil head)))
add_plenty (a ∷ addrs) h port name head n =
    let (k, copied) = strdup-plenty name (n + 1) in
    let (n', rest) = add_plenty addrs h port none (head ++ (result h port name a ∷ [])) k in
    (
      n',
      rw copied (
          rest
          ∙ ap
              (λ (u : List Addrinfo).
                (success ((head ++ (result h port name a ∷ [])) ++ u), plenty n'))
              (listed-none h port addrs)
          ∙ ap (λ (u : List Addrinfo). (success u, plenty n'))
              (append_assoc head (result h port name a ∷ []) (map (result h port none) addrs))),
    )

duplicate-plenty :
    (addrs : List ℕ) (h : Hints) (port n : ℕ)
    → (duplicate (map (result h port none) addrs) (plenty n)).0 ≡ map (udp_result port) addrs
unfolding duplicate
duplicate-plenty [] h port n = refl
duplicate-plenty (a ∷ addrs) h port n =
    ap (λ (u : List Addrinfo). udp_result port a ∷ u) (duplicate-plenty addrs h port (n + 1))

complete-plenty :
    (a : ℕ) (addrs : List ℕ) (h : Hints) (port n : ℕ) (name : Option (List ℕ))
    → (complete (some h) (success (listed h port name (a ∷ addrs)), plenty n)).0
      ≡ success (all_results h port name (a ∷ addrs))
unfolding complete duplicate
complete-plenty a addrs h port n name = elim (Bool-cases (wants_both (some h))) [
  | inl both ↦ rw (both, duplicate-plenty addrs h port (n + 1)) refl
  | inr one ↦ rw (one, append-nil (listed h port name (a ∷ addrs))) refl
]

named_plenty :
    (a : ℕ) (addrs : List ℕ) (h : Hints) (port n : ℕ) (name : Option (List ℕ))
    → (complete (some h) (add_addresses h port name (a ∷ addrs) [] (plenty n))).0
      ≡ success (all_results h port name (a ∷ addrs))
named_plenty a addrs h port n name =
    let (n', e) = add_plenty (a ∷ addrs) h port name [] n in
    ap (λ (r : Outcome (List Addrinfo) × Memory). (complete (some h) r).0) e
    ∙ complete-plenty a addrs h port n' name

-- Where hints are given, of the family unspecified or INET and without AI_NUMERICHOST, the service
-- has a port, the host is a name that has an address, and no allocation fails, getaddrinfo returns one result for each address, in their order, with
-- the canonical name at the first where it is asked for, and after them one for UDP for each
-- address where the hints leave the type of socket open.
pub getaddrinfo-all_results :
    (r : Services) (host : List ℕ) (name : Option (List ℕ)) (h : Hints) (port : ℕ)
    (h_name : Option (List ℕ)) (a : ℕ) (addrs : List ℕ) (n : ℕ)
    → (h.ai_family ≡ unspec) ⊎ (h.ai_family ≡ inet)
    → resolve_service r h name ≡ success port
    → h.numerichost ≡ false
    → r.gethostbyname host ≡ found (record { h_name = h_name; h_addr_list = a ∷ addrs })
    → (getaddrinfo r (some host) name (some h) (plenty n)).0
      ≡ success (all_results h port (if h.canonname then h_name else none) (a ∷ addrs))
unfolding getaddrinfo resolve_host named_host resolve_service add_addresses complete
getaddrinfo-all_results r host name h port h_name a addrs n family served named answer =
    let result = named_plenty a addrs h port n (if h.canonname then h_name else none) in
    elim family [
      | inl f ↦ rw (f, served, named, answer) result
      | inr f ↦ rw (f, served, named, answer) result
    ]
