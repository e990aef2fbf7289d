-- ===== src/Address/Resolve.antt =====
-- Looking addresses up, src/address.cc: how `Lookup` takes a host apart, what it makes of the
-- resolver's answer, and the addresses of the interfaces.
use ztyco.Base.{
  ℕ, ◌+◌, ◌*◌, Bool, true, false, not, ◌&&◌, ◌||◌, Option, none, some, List, [], ◌∷◌, ◌++◌, map,
  ◌==◌, if◌then◌else◌, is_empty, replicate, keep, mem, Str, same, Outcome, ok, undefined, ◌>>=◌,
}
use ztyco.Address.{Ipv4, Ipv6, ipv4, ipv6, count_bytes, af_inet, af_inet6}

-- An address that the program holds.
pub data Address : Type 0 where
  v4 : Ipv4 → Address
  v6 : Ipv6 → Address
  unknown : ℕ → Address

-- What a `sockaddr` holds, by its family.
pub data SockAddr : Type 0 where
  inet : Ipv4 → SockAddr
  inet6 : Ipv6 → SockAddr
  other : ℕ → SockAddr

-- `Address::Create`, `none` being the null pointer.
abbrev pub made : SockAddr → Address
made (inet a) = v4 a
made (inet6 a) = v6 a
made (other family) = unknown family

abbrev pub create : Option SockAddr → Option Address
create none = none
create (some s) = some (made s)

-- The text before the first character `c` and the text behind it.
abbrev pub beside : ℕ → Str → Option (Str × Str)
beside c [] = none
beside c (x ∷ xs) =
    let rest = beside c xs in
    if x == c then some ([], xs) else elim rest [ none ↦ none | some (l, r) ↦ some (x ∷ l, r) ]

-- `[`, `]` and `:`
abbrev pub bracket : ℕ
bracket = 91

abbrev pub end_bracket : ℕ
end_bracket = 93

abbrev pub colon : ℕ
colon = 58

-- The node and the service of a host in brackets.
abbrev pub service_of : Str → Option Str
service_of [] = none
service_of (c ∷ s) = if c == colon then some s else none

abbrev pub bracketed : Option (Str × Str) → Str × Option Str
bracketed none = ([], none)
bracketed (some (node, rest)) = (node, service_of rest)

abbrev pub in_brackets : Str → Str × Option Str
in_brackets [] = ([], none)
in_brackets (c ∷ s) = if c == bracket then bracketed (beside end_bracket s) else ([], none)

-- The first colon: with another one behind it the service is left at the colon.
abbrev pub at_colon : Option (Str × Str) → Str × Option Str
at_colon none = ([], none)
at_colon (some (node, rest)) =
    if mem colon rest then ([], some (colon ∷ rest)) else (node, some rest)

-- `if (node.empty())`
abbrev pub or_else : Str × Option Str → Str × Option Str → Str × Option Str
or_else ([], service) found = found
or_else (c ∷ node, service) found = (c ∷ node, service)

abbrev pub or_host : Str → Str × Option Str → Str × Option Str
or_host host ([], service) = (host, service)
or_host host (c ∷ node, service) = (c ∷ node, service)

-- The node and the service that `Lookup` hands to `getaddrinfo`.
unfoldable pub split_host : Str → Str × Option Str
split_host host = or_host host (or_else (in_brackets host) (at_colon (beside colon host)))

-- `Lookup`, where `getaddrinfo` of a node and a service gives a list of addresses or fails: after a
-- failure the loop runs over a pointer that was never set.
abbrev pub resolved : Option (List SockAddr) → Outcome (List Address)
resolved none = undefined
resolved (some found) = ok (map made found)

unfoldable pub lookup : (Str → Option Str → Option (List SockAddr)) → Str → Outcome (List Address)
unfolding split_host
lookup getaddrinfo host =
    let (node, service) = split_host host in resolved (getaddrinfo node service)

-- `LookupAny` and `LookupAnyIPAddress`
abbrev pub head : List Address → Option Address
head [] = none
head (a ∷ rest) = some a

abbrev pub is_ip : Address → Bool
is_ip (v4 a) = true
is_ip (v6 a) = true
is_ip (unknown f) = false

unfoldable pub lookup_any :
    (Str → Option Str → Option (List SockAddr)) → Str → Outcome (Option Address)
unfolding lookup
lookup_any getaddrinfo host = do found ← lookup getaddrinfo host; ok (head found)

unfoldable pub lookup_any_ip :
    (Str → Option Str → Option (List SockAddr)) → Str → Outcome (Option Address)
unfolding lookup
lookup_any_ip getaddrinfo host = do found ← lookup getaddrinfo host; ok (head (keep is_ip found))

-- An interface as `getifaddrs` lists it: its address, and the bytes of its mask.
pub record Interface : Type 0 where
  pub name : Str
  pub addr : Option SockAddr
  pub netmask : List ℕ

abbrev pub family_of : SockAddr → ℕ
family_of (inet a) = af_inet
family_of (inet6 a) = af_inet6
family_of (other f) = f

-- The number that the four bytes of a mask are in memory, and the count over 16 bytes.
abbrev pub word_of : List ℕ → ℕ
word_of [] = 0
word_of (b ∷ bs) = b + 256 * word_of bs

abbrev pub count_each : List ℕ → ℕ
count_each [] = 0
count_each (b ∷ bs) = count_bytes b + count_each bs

-- The entry that an interface adds, if it adds one.
abbrev pub entry_of : Interface → SockAddr → List (Str × Address × ℕ)
entry_of i (inet a) = (i.name, v4 a, count_bytes (word_of i.netmask)) ∷ []
entry_of i (inet6 a) = (i.name, v6 a, count_each i.netmask) ∷ []
entry_of i (other f) = []

-- `GetInterfaceAddresses(result, family)`: an interface without an address is a null pointer.
-- 0 is AF_UNSPEC.
abbrev pub one_interface : ℕ → Interface → Option SockAddr → Outcome (List (Str × Address × ℕ))
one_interface family i none = undefined
one_interface family i (some s) =
    ok (if not (family == 0) && not (family == family_of s) then [] else entry_of i s)

abbrev pub all_interfaces : ℕ → List Interface → Outcome (List (Str × Address × ℕ))
all_interfaces family [] = ok []
all_interfaces family (i ∷ is) = do
  first ← one_interface family i i.addr
  rest ← all_interfaces family is
  ok (first ++ rest)

unfoldable pub interface_addresses :
    ℕ → Option (List Interface) → Outcome (List (Str × Address × ℕ) × Bool)
interface_addresses family none = ok ([], false)
interface_addresses family (some is) = do
  found ← all_interfaces family is
  ok (found, not (is_empty found))

-- The entries of one name, in the order in which they were added.
abbrev pub of_name : Str → List (Str × Address × ℕ) → List (Address × ℕ)
of_name name [] = []
of_name name ((n, a, k) ∷ es) =
    let rest = of_name name es in if same name n then (a, k) ∷ rest else rest

abbrev pub any_address : ℕ → List (Address × ℕ)
any_address family =
    (if family == af_inet || family == 0 then (v4 (ipv4 0 0), 0) ∷ [] else [])
    ++ (if family == af_inet6 || family == 0 then (v6 (ipv6 (replicate 16 0) 0), 0) ∷ [] else [])

-- `iface.empty() || iface == "*"`
abbrev pub is_any : Str → Bool
is_any iface = is_empty iface || same iface (42 ∷ [])

-- `GetInterfaceAddresses(result, iface, family)`, from an empty result.
unfoldable pub addresses_of :
    ℕ → Option (List Interface) → Str → Outcome (List (Address × ℕ) × Bool)
unfolding interface_addresses
addresses_of family is iface = if is_any iface then ok (any_address family, true) else do
  (found, good) ← interface_addresses family is
  let result = of_name iface found
  ok (if good then (result, not (is_empty result)) else ([], false))
