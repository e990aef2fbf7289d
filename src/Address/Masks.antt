-- ===== src/Address/Masks.antt =====
-- The masks of src/address.cc: the count of one bits, and the addresses that a prefix gives.
use Prim.Native.Nat.{bit_and, bit_or}
use native.Mathlib.Nat.{mod-lt, mod-le}
use ztyco.Base.{
  ℕ, ◌+◌, ◌-◌, ◌*◌, ◌%◌, ◌^◌, ◌≤◌, ◌<◌, min, ◌≡◌, ◌⊎◌, refl, ap, ◌∙◌, Bool, true, false, ◌&&◌, inl,
  inr, some, List, [], ◌∷◌, map, ltb, ◌==◌, ==_iff, arith, ok, undefined, same, same→eq, replicate,
}
use ztyco.Base.Bits.{all_below, all_below_sound, bit_and_high, bit_or_low}
use ztyco.Address.Bytes.{clear_low, clear_low_step, pow_pos}
use ztyco.Address.{
  create_mask, Ipv4, swapped_bytes, zip_bytes, broadcast_address, network_address, subnet_mask,
}

-- The number that the bytes of an address are, the first one highest.
abbrev pub number : List ℕ → ℕ
number (b0 ∷ b1 ∷ b2 ∷ b3 ∷ []) = ((b0 * 256 + b1) * 256 + b2) * 256 + b3
number bs = 0

clear_low-number :
    (b0 b1 b2 b3 k : ℕ)
    → b1 < 256
    → b2 < 256
    → b3 < 256
    → number (
        clear_low (k - 8 - 8 - 8) b0
        ∷ clear_low (min 8 (k - 8 - 8)) b1
        ∷ clear_low (min 8 (k - 8)) b2
        ∷ clear_low (min 8 k) b3
        ∷ [])
      ≡ clear_low k (number (b0 ∷ b1 ∷ b2 ∷ b3 ∷ []))
clear_low-number b0 b1 b2 b3 k h1 h2 h3 =
    let s3 = clear_low_step ((b0 * 256 + b1) * 256 + b2) b3 k h3 in
    let s2 = clear_low_step (b0 * 256 + b1) b2 (k - 8) h2 in
    rw (s3, s2, clear_low_step b0 b1 (k - 8 - 8) h1)

-- The bytes of a mask of `k` low ones, and of its complement.
abbrev pub low_mask : ℕ → ℕ
low_mask k = 2 ^ k - 1

abbrev high_mask : ℕ → ℕ
high_mask k = 256 - 2 ^ k

abbrev four : (ℕ → ℕ) → ℕ → List ℕ
four f k = f (k - 8 - 8 - 8) ∷ f (min 8 (k - 8 - 8)) ∷ f (min 8 (k - 8)) ∷ f (min 8 k) ∷ []

abbrev mask_ok : ℕ → Bool
mask_ok k =
    same (swapped_bytes (low_mask k)) (four low_mask k)
    && same (swapped_bytes (2 ^ 32 - 1 - low_mask k)) (four high_mask k)

mask_table : all_below 31 mask_ok ≡ true
unfolding swapped_bytes
mask_table = refl

both_true : (a b : Bool) → (a && b) ≡ true → (a ≡ true) × (b ≡ true)
both_true true b h = (refl, h)
both_true false b h = cc

mask_bytes :
    (k : ℕ)
    → k < 31
    → (swapped_bytes (low_mask k) ≡ four low_mask k)
      × (swapped_bytes (2 ^ 32 - 1 - low_mask k) ≡ four high_mask k)
mask_bytes k h =
    let t = both_true _ _ (all_below_sound 31 mask_ok k mask_table h) in
    (same→eq _ _ t.0, same→eq _ _ t.1)

-- `CreateMask<uint32_t>` from 2 on.
create_mask_lem : (p : ℕ) → 2 ≤ p → p ≤ 32 → create_mask 32 p ≡ ok (low_mask (32 - p))
unfolding create_mask
create_mask_lem p h2 h =
    let shift : (32 + 2 ^ 64 - p) % 2 ^ 64 ≡ 32 - p = omega arith in
    let small : ltb (32 - p) 31 ≡ true = ground arith in
    let fits =
      all_below_sound 31 (λ k. low_mask k % 2 ^ 32 == low_mask k) (32 - p) refl (omega arith) in
    rw (shift, small) (ap ok ((==_iff _ _).0 fits))

-- `CreateMask<uint32_t>` of 0 or 1, and a `subnetMask` of more than 32, overflow.
pub create_mask_overflow : (p : ℕ) → p < 2 ⊎ 32 < p → p < 2 ^ 32 → create_mask 32 p ≡ undefined
unfolding create_mask
create_mask_overflow p (inl h) b =
    let big : ltb ((32 + 2 ^ 64 - p) % 2 ^ 64) 31 ≡ false = ground arith in rw big
create_mask_overflow p (inr h) b =
    let big : ltb ((32 + 2 ^ 64 - p) % 2 ^ 64) 31 ≡ false = ground arith in rw big

-- The bytes of an IPv4 address.
pub record IsBytes (bs : List ℕ) (b0 b1 b2 b3 : ℕ) : Type 0 where
  pub shape : bs ≡ b0 ∷ b1 ∷ b2 ∷ b3 ∷ []
  pub first : b0 < 256
  pub second : b1 < 256
  pub third : b2 < 256
  pub fourth : b3 < 256

high_bytes :
    (b0 b1 b2 b3 k : ℕ)
    → k ≤ 32
    → b0 < 256
    → b1 < 256
    → b2 < 256
    → b3 < 256
    → zip_bytes bit_and (b0 ∷ b1 ∷ b2 ∷ b3 ∷ []) (four high_mask k)
      ≡ clear_low (k - 8 - 8 - 8) b0
        ∷ clear_low (min 8 (k - 8 - 8)) b1
        ∷ clear_low (min 8 (k - 8)) b2
        ∷ clear_low (min 8 k) b3
        ∷ []
high_bytes b0 b1 b2 b3 k hk h0 h1 h2 h3 = rw (
  bit_and_high (k - 8 - 8 - 8) b0 (omega arith) h0,
  bit_and_high (min 8 (k - 8 - 8)) b1 (omega arith) h1,
  bit_and_high (min 8 (k - 8)) b2 (omega arith) h2,
  bit_and_high (min 8 k) b3 (omega arith) h3,
)

low_bytes :
    (b0 b1 b2 b3 k : ℕ)
    → k ≤ 32
    → b0 < 256
    → b1 < 256
    → b2 < 256
    → b3 < 256
    → zip_bytes bit_or (b0 ∷ b1 ∷ b2 ∷ b3 ∷ []) (four low_mask k)
      ≡ (clear_low (k - 8 - 8 - 8) b0 + low_mask (k - 8 - 8 - 8))
        ∷ (clear_low (min 8 (k - 8 - 8)) b1 + low_mask (min 8 (k - 8 - 8)))
        ∷ (clear_low (min 8 (k - 8)) b2 + low_mask (min 8 (k - 8)))
        ∷ (clear_low (min 8 k) b3 + low_mask (min 8 k))
        ∷ []
low_bytes b0 b1 b2 b3 k hk h0 h1 h2 h3 = rw (
  bit_or_low (k - 8 - 8 - 8) b0 (omega arith) h0,
  bit_or_low (min 8 (k - 8 - 8)) b1 (omega arith) h1,
  bit_or_low (min 8 (k - 8)) b2 (omega arith) h2,
  bit_or_low (min 8 k) b3 (omega arith) h3,
)

four_low : (k : ℕ) → k < 31 → number (four low_mask k) ≡ low_mask k
four_low k h =
    (==_iff _ _).0 (all_below_sound 31 (λ j. number (four low_mask j) == low_mask j) k refl h)

module _ (a : Ipv4) (b0 b1 b2 b3 : ℕ) (w : IsBytes a.addr b0 b1 b2 b3) (p : ℕ) (few : 2 ≤ p)
    (many : p ≤ 32) where
  pub network_number :
      (n : Ipv4) × (network_address a p ≡ ok (some n))
      × (number n.addr ≡ clear_low (32 - p) (number a.addr))
  unfolding network_address
  network_number =
      let k = 32 - p in
      let within : ltb 32 p ≡ false = ground arith in
      let bytes = high_bytes b0 b1 b2 b3 k (omega arith) w.first w.second w.third w.fourth in
      (
        record a { addr = zip_bytes bit_and a.addr (four high_mask k) },
        rw (within, create_mask_lem p few many, (mask_bytes k (omega arith)).1),
        rw w.shape (ap number bytes ∙ clear_low-number b0 b1 b2 b3 k w.second w.third w.fourth),
      )

  pub broadcast_number :
      (n : Ipv4) × (broadcast_address a p ≡ ok (some n))
      × (number n.addr ≡ clear_low (32 - p) (number a.addr) + low_mask (32 - p))
  unfolding broadcast_address
  broadcast_number =
      let k = 32 - p in
      let within : ltb 32 p ≡ false = ground arith in
      let bytes = low_bytes b0 b1 b2 b3 k (omega arith) w.first w.second w.third w.fourth in
      let sum = clear_low-number b0 b1 b2 b3 k w.second w.third w.fourth in
      (
        record a { addr = zip_bytes bit_or a.addr (four low_mask k) },
        rw (within, create_mask_lem p few many, (mask_bytes k (omega arith)).0),
        rw w.shape (ap number bytes ∙ omega (arith, sum, four_low k (omega arith))),
      )

abbrev subnet_ok : ℕ → Bool
subnet_ok k = number (map (λ b. 255 - b) (four low_mask k)) == 2 ^ 32 - 2 ^ k

subnet_number :
    (p : ℕ)
    → 2 ≤ p
    → p ≤ 32
    → (m : Ipv4) × (subnet_mask p ≡ ok m) × (number m.addr ≡ 2 ^ 32 - 2 ^ (32 - p))
unfolding subnet_mask
subnet_number p few many =
    let k = 32 - p in
    (
      record {
        family = 2;
        port = 0;
        addr = map (λ b. 255 - b) (four low_mask k);
        padding = replicate 8 0;
      },
      rw (create_mask_lem p few many, (mask_bytes k (omega arith)).0),
      (==_iff _ _).0 (all_below_sound 31 subnet_ok k refl (omega arith)),
    )

-- For a prefix of 2 to 32 bits of an IPv4 address: the network address is the address with the
-- other bits cleared, the broadcast address the one with them set, both lie around the address,
-- and the subnet mask is the number whose other bits are cleared.
pub prefix_addresses :
    (a : Ipv4) (b0 b1 b2 b3 p : ℕ)
    → IsBytes a.addr b0 b1 b2 b3
    → 2 ≤ p
    → p ≤ 32
    → let k = 32 - p in
      let x = number a.addr in
      (n : Ipv4) × (c : Ipv4) × (m : Ipv4) × (network_address a p ≡ ok (some n))
      × (broadcast_address a p ≡ ok (some c))
      × (subnet_mask p ≡ ok m)
      × (number n.addr ≡ x - x % 2 ^ k)
      × (number c.addr ≡ x - x % 2 ^ k + (2 ^ k - 1))
      × (number n.addr ≤ x)
      × (x ≤ number c.addr)
      × (number m.addr ≡ 2 ^ 32 - 2 ^ k)
prefix_addresses a b0 b1 b2 b3 p w few many =
    let n = network_number a b0 b1 b2 b3 w p few many in
    let c = broadcast_number a b0 b1 b2 b3 w p few many in
    let m = subnet_number p few many in
    let x = number a.addr in
    let rest = mod-lt x (pow_pos (32 - p)) in
    let le = mod-le x (2 ^ (32 - p)) in
    (n.0, c.0, m.0, n.1, c.1, m.1, n.2, c.2, omega (arith, n.2), omega (arith, c.2, rest, le), m.2)
