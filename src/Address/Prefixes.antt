-- ===== src/Address/Prefixes.antt =====
-- Prefix lengths, src/address.cc: the masks that `subnetMask` makes are counted back by
-- `GetInterfaceAddresses`, and what the addresses of a network are in IPv6.
use Prim.Native.Nat.{bit_and}
use ztyco.Base.{
  ℕ, zero, suc, ◌+◌, ◌-◌, ◌/◌, ◌%◌, ◌^◌, ◌≤◌, ◌<◌, ◌≡◌, refl, Bool, true, false, List, [], ◌∷◌,
  ◌==◌, ltb, if◌then◌else◌, arith, Outcome, ok, undefined, abort, subst, All, length, ==_iff,
}
use ztyco.Base.Bits.{all_below, all_below_sound}
use ztyco.Address.{
  create_mask, Ipv4, Ipv6, network_address6, at_byte, fill_from, subnet_mask, subnet_mask6,
  swapped_bytes, count_bytes,
}
use ztyco.Address.Resolve.{count_each, word_of}

abbrev counted4 : Outcome Ipv4 → ℕ → Bool
counted4 (ok m) p = count_bytes (word_of m.addr) == p
counted4 other p = false

abbrev counted6 : Outcome Ipv6 → ℕ → Bool
counted6 (ok m) p = count_each m.addr == p
counted6 other p = false

table4 : all_below 31 (λ j. counted4 (subnet_mask (j + 2)) (j + 2)) ≡ true
unfolding count_bytes subnet_mask swapped_bytes create_mask
table4 = refl

table6 : all_below 128 (λ p. counted6 (subnet_mask6 p) p) ≡ true
unfolding count_bytes subnet_mask6
table6 = refl

counted4_lem :
    (o : Outcome Ipv4) (p : ℕ)
    → counted4 o p ≡ true
    → (m : Ipv4) × (o ≡ ok m) × (count_bytes (word_of m.addr) ≡ p)
counted4_lem (ok m) p h = (m, refl, (==_iff _ _).0 h)
counted4_lem abort p h = cc
counted4_lem undefined p h = cc

counted6_lem :
    (o : Outcome Ipv6) (p : ℕ)
    → counted6 o p ≡ true
    → (m : Ipv6) × (o ≡ ok m) × (count_each m.addr ≡ p)
counted6_lem (ok m) p h = (m, refl, (==_iff _ _).0 h)
counted6_lem abort p h = cc
counted6_lem undefined p h = cc

-- The prefix length that `GetInterfaceAddresses` counts in the mask that `subnetMask` makes is the
-- one that the mask was made for: for IPv4 from 2 to 32, for IPv6 below 128.
pub count-subnet_mask :
    (p q : ℕ)
    → 2 ≤ p
    → p ≤ 32
    → q < 128
    → ((m : Ipv4) × (subnet_mask p ≡ ok m) × (count_bytes (word_of m.addr) ≡ p))
      × ((m : Ipv6) × (subnet_mask6 q ≡ ok m) × (count_each m.addr ≡ q))
count-subnet_mask p q few many near =
    let e : p - 2 + 2 ≡ p = omega arith in
    let row =
      all_below_sound 31 (λ j. counted4 (subnet_mask (j + 2)) (j + 2)) (p - 2) table4
        (omega arith) in
    (
      counted4_lem (subnet_mask p) p (subst (λ r. counted4 (subnet_mask r) r ≡ true) e row),
      counted6_lem (subnet_mask6 q) q
          (all_below_sound 128 (λ r. counted6 (subnet_mask6 r) r) q table6 near),
    )

abbrev low_part : ℕ → ℕ → Bool
low_part r b = bit_and b ((2 ^ (8 - r) - 1) % 256) == b % 2 ^ (8 - r)

low_table : all_below 8 (λ r. all_below 256 (low_part r)) ≡ true
low_table = refl

low_byte : (r b : ℕ) → r < 8 → b < 256 → bit_and b ((2 ^ (8 - r) - 1) % 256) ≡ b % 2 ^ (8 - r)
low_byte r b hr hb = (==_iff _ _).0 (
    all_below_sound 256 (low_part r) b
      (all_below_sound 8 (λ q. all_below 256 (low_part q)) r low_table hr) hb)

create_mask8 : (r : ℕ) → r < 8 → create_mask 8 r ≡ ok ((2 ^ (8 - r) - 1) % 256)
unfolding create_mask
create_mask8 r h =
    let shift : (8 + 2 ^ 64 - r) % 2 ^ 64 ≡ 8 - r = omega arith in
    let small : ltb (8 - r) 31 ≡ true = ground arith in rw (shift, small)

-- The bytes before the one in which a prefix of `q` bytes and `r` bits ends, of that byte the bits
-- behind the prefix, and zeros.
abbrev pub host_bits : ℕ → ℕ → List ℕ → List ℕ
host_bits q r [] = []
host_bits zero r (b ∷ bs) = b % 2 ^ (8 - r) ∷ fill_from zero 0 bs
host_bits (suc q) r (b ∷ bs) = b ∷ host_bits q r bs

abbrev filled : ℕ → Outcome (List ℕ) → Outcome (List ℕ)
filled q (ok bs) = ok (fill_from (suc q) 0 bs)
filled q other = other

at_byte_lem :
    (bs : List ℕ) (q r : ℕ)
    → All (λ b. b < 256) bs
    → r < 8
    → filled q (at_byte bs q (λ b. bit_and b ((2 ^ (8 - r) - 1) % 256)))
      ≡ (if ltb q (length bs) then ok (host_bits q r bs) else undefined)
at_byte_lem [] q r h hr = ground arith
at_byte_lem (b ∷ bs) zero r h hr = ground (arith, low_byte r b hr h.0)
at_byte_lem (b ∷ bs) (suc q) r h hr = let ih = at_byte_lem bs q r h.1 hr in ground (arith, ih)

-- `IPv6Address::networkAddress` of an address of 16 bytes: below 128, the bytes before the one in
-- which the prefix ends stay, those behind it are 0, and in that one the low bits stay, which
-- belong to the host, while the bits of the prefix are lost. From 128 on it writes outside the
-- address.
network_address6_lem :
    (a : Ipv6) (p : ℕ)
    → length a.addr ≡ 16
    → All (λ b. b < 256) a.addr
    → network_address6 a p
      ≡ (if ltb p 128 then ok (record a { addr = host_bits (p / 8) (p % 8) a.addr }) else undefined)
unfolding network_address6
network_address6_lem a p e h =
    ground (
      arith,
      create_mask8 (p % 8) (omega arith),
      at_byte_lem a.addr (p / 8) (p % 8) h (omega arith),
    )
