-- ===== src/Network/Interface.antt =====
-- src/network.c: the index of an interface, and its name. What SIOCGIFCONF gives is a parameter:
-- none where the socket or the `ioctl` fails, and else the names, none of them with a zero byte.
pub mod Laws
pub mod Tests
use mathlib.Core.Option
use libsolcompat.Common.{
  ℕ, zero, suc, ◌+◌, ◌-◌, Bool, true, false, ◌&&◌, ◌||◌, Option, none, some, List, [], ◌∷◌, length,
  get_elem?, take, leb, ◌==◌, if◌then◌else◌,
}

abbrev pub ifnamsiz : ℕ
ifnamsiz = 16

-- `strcmp(a, b) == 0`
abbrev pub str_eq : List ℕ → List ℕ → Bool
str_eq [] [] = true
str_eq [] (y ∷ b) = false
str_eq (x ∷ a) [] = false
str_eq (x ∷ a) (y ∷ b) = x == y && str_eq a b

-- The loop from position `i` on; 0 is no index.
pub find_interface : List ℕ → List (List ℕ) → ℕ → ℕ
find_interface ifname [] i = 0
find_interface ifname (name ∷ names) i =
    if str_eq name ifname then i + 1 else find_interface ifname names (i + 1)

pub if_nametoindex : Option (List (List ℕ)) → Option (List ℕ) → ℕ
if_nametoindex ifconf none = 0
if_nametoindex none (some ifname) = 0
if_nametoindex (some names) (some ifname) = find_interface ifname names 0

-- `strncpy(ifname, name, IFNAMSIZ - 1)` and the zero byte.
abbrev pub copied_name : List ℕ → List ℕ
copied_name name = take (ifnamsiz - 1) name

-- `(int)ifindex <= n`: from 2 ^ 31 on the cast index is negative.
abbrev pub is_within : ℕ → ℕ → Bool
is_within ifindex n = leb 2147483648 ifindex || leb ifindex n

-- The name that the caller's buffer gets, or none for NULL; without a result it has read outside
-- the list of interfaces. `has_buffer` is whether `ifname` is not NULL.
pub if_indextoname : Option (List (List ℕ)) → Bool → ℕ → Option (Option (List ℕ))
if_indextoname none has_buffer ifindex = some none
if_indextoname (some names) has_buffer zero = some none
if_indextoname (some names) false (suc i) = some none
if_indextoname (some names) true (suc i) =
    if is_within (suc i) (length names)
    then Option.map (λ name. some (copied_name name)) (get_elem? names i)
    else some none
