-- ===== src/Address.antt =====
-- Socket addresses, src/address.cc, include/address.h and include/endian.hpp.
-- An IP address is the list of its bytes as they lie in memory; a port is the stored word. The
-- machine is little-endian, so `byteswapOnLittleEndian` of a word has in memory the bytes of the
-- word from the highest to the lowest.
pub mod Bytes
pub mod Text
pub mod Local
pub mod Order
pub mod Resolve
pub mod Hosts
pub mod Prefixes
pub mod Count
pub mod Masks
mod Tests
use ztyco.Base.{
  ℕ, zero, suc, ◌+◌, ◌-◌, ◌*◌, ◌/◌, ◌%◌, ◌^◌, Bool, Option, none, some, List, [], ◌∷◌, map, ltb,
  if◌then◌else◌, get_elem?, set, replicate, take, Outcome, ok, undefined, ◌>>=◌,
}
use Prim.Native.Nat.{bit_and, bit_or}

-- `byteswap` of two bytes.
unfoldable pub byteswap16 : ℕ → ℕ
byteswap16 w = w % 256 * 256 + w / 256

-- The memory of `byteswapOnLittleEndian` of a `uint32_t`.
unfoldable pub swapped_bytes : ℕ → List ℕ
swapped_bytes w = w / 2 ^ 24 % 256 ∷ w / 2 ^ 16 % 256 ∷ w / 2 ^ 8 % 256 ∷ w % 256 ∷ []

-- `CreateMask<T>`, for a `T` of `width` bits. The shift is a `size_t`; `1 << shift` is an `int`,
-- and so is the difference: where the shift is 31 or more, one of them overflows.
unfoldable pub create_mask : ℕ → ℕ → Outcome ℕ
create_mask width bits =
    let shift = (width + 2 ^ 64 - bits) % 2 ^ 64 in
    if ltb shift 31 then ok ((2 ^ shift - 1) % 2 ^ width) else undefined

-- `CountBytes`: the loop, for a number of rounds, and with as many as the value has at most.
pub count_loop : ℕ → ℕ → ℕ → ℕ
count_loop zero value result = result
count_loop (suc rounds) value result =
    let rest = count_loop rounds (bit_and value (value - 1)) (result + 1) in
    elim value [ zero ↦ result | suc _ ↦ rest ]

unfoldable pub count_bytes : ℕ → ℕ
unfolding count_loop
count_bytes value = count_loop value value 0

-- `sockaddr_in` and `IPv4Address`
pub record Ipv4 : Type 0 where
  pub family : ℕ
  pub port : ℕ
  pub addr : List ℕ
  pub padding : List ℕ

abbrev pub af_inet : ℕ
af_inet = 2

abbrev pub af_inet6 : ℕ
af_inet6 = 10

-- `IPv4Address(address, port)`
unfoldable pub ipv4 : ℕ → ℕ → Ipv4
unfolding byteswap16 swapped_bytes
ipv4 address port = record {
  family = af_inet;
  port = byteswap16 port;
  addr = swapped_bytes address;
  padding = replicate 8 0;
}

-- `&` and `|` of words, byte by byte.
abbrev pub zip_bytes : (ℕ → ℕ → ℕ) → List ℕ → List ℕ → List ℕ
zip_bytes f [] ys = []
zip_bytes f (x ∷ xs) [] = []
zip_bytes f (x ∷ xs) (y ∷ ys) = f x y ∷ zip_bytes f xs ys

unfoldable pub broadcast_address : Ipv4 → ℕ → Outcome (Option Ipv4)
broadcast_address a prefix_len = if ltb 32 prefix_len then ok none else do
  mask ← create_mask 32 prefix_len
  ok (some (record a { addr = zip_bytes bit_or a.addr (swapped_bytes mask) }))

unfoldable pub network_address : Ipv4 → ℕ → Outcome (Option Ipv4)
network_address a prefix_len = if ltb 32 prefix_len then ok none else do
  mask ← create_mask 32 prefix_len
  ok (some (record a { addr = zip_bytes bit_and a.addr (swapped_bytes (2 ^ 32 - 1 - mask)) }))

unfoldable pub subnet_mask : ℕ → Outcome Ipv4
subnet_mask prefix_len = do
  mask ← create_mask 32 prefix_len
  ok (record {
    family = af_inet;
    port = 0;
    addr = map (λ b. 255 - b) (swapped_bytes mask);
    padding = replicate 8 0;
  })

-- `sockaddr_in6` and `IPv6Address`
pub record Ipv6 : Type 0 where
  pub family : ℕ
  pub port : ℕ
  pub flowinfo : ℕ
  pub addr : List ℕ
  pub scope_id : ℕ

-- `IPv6Address(address, port)`
unfoldable pub ipv6 : List ℕ → ℕ → Ipv6
unfolding byteswap16
ipv6 address port = record {
  family = af_inet6;
  port = byteswap16 port;
  flowinfo = 0;
  addr = take 16 address;
  scope_id = 0;
}

-- A change of `s6_addr[i]`, which has 16 bytes.
abbrev pub at_byte : List ℕ → ℕ → (ℕ → ℕ) → Outcome (List ℕ)
at_byte bs i f = elim (get_elem? bs i) [ none ↦ undefined | some b ↦ ok (set bs i (f b)) ]

-- The bytes from `i` on set to a value, and those before `i`.
abbrev pub fill_from : ℕ → ℕ → List ℕ → List ℕ
fill_from i v [] = []
fill_from zero v (b ∷ bs) = v ∷ fill_from zero v bs
fill_from (suc i) v (b ∷ bs) = b ∷ fill_from i v bs

abbrev pub fill_before : ℕ → ℕ → List ℕ → List ℕ
fill_before i v [] = []
fill_before zero v (b ∷ bs) = b ∷ bs
fill_before (suc i) v (b ∷ bs) = v ∷ fill_before i v bs

unfoldable pub broadcast_address6 : Ipv6 → ℕ → Outcome Ipv6
unfolding create_mask
broadcast_address6 a prefix_len = do
  mask ← create_mask 8 (prefix_len % 8)
  bs ← at_byte a.addr (prefix_len / 8) (λ b. bit_or b mask)
  ok (record a { addr = fill_from (suc (prefix_len / 8)) 255 bs })

unfoldable pub network_address6 : Ipv6 → ℕ → Outcome Ipv6
unfolding create_mask
network_address6 a prefix_len = do
  mask ← create_mask 8 (prefix_len % 8)
  bs ← at_byte a.addr (prefix_len / 8) (λ b. bit_and b mask)
  ok (record a { addr = fill_from (suc (prefix_len / 8)) 0 bs })

unfoldable pub subnet_mask6 : ℕ → Outcome Ipv6
unfolding create_mask
subnet_mask6 prefix_len = do
  mask ← create_mask 8 (prefix_len % 8)
  bs ← at_byte (replicate 16 0) (prefix_len / 8) (λ _. 255 - mask)
  ok (record {
    family = af_inet6;
    port = 0;
    flowinfo = 0;
    addr = fill_before (prefix_len / 8) 255 bs;
    scope_id = 0;
  })

-- `getPort` and `setPort`, of both kinds.
unfoldable pub get_port : ℕ → ℕ
unfolding byteswap16
get_port stored = byteswap16 stored

unfoldable pub set_port : ℕ → ℕ
unfolding byteswap16
set_port v = byteswap16 v
