-- ===== src/Address/Count.antt =====
-- `CountBytes` of src/address.cc: the count of a word's one bits.
use Prim.Native.Nat.{bit_and}
use native.Mathlib.Nat.{pow-suc}
use ztyco.Base.{
  ℕ, zero, suc, ◌+◌, ◌-◌, ◌*◌, ◌/◌, ◌%◌, ◌^◌, ◌≤◌, ◌<◌, ◌≡◌, refl, ap, inl, inr, ◌==◌, Bool-cases,
  arith,
}
use ztyco.Base.Bits.{bit_and_halves, bit_and_self}
use ztyco.Address.{count_loop, count_bytes}

-- The sum of the `n` lowest binary digits.
abbrev pub ones : ℕ → ℕ → ℕ
ones zero v = 0
ones (suc n) v = v % 2 + ones n (v / 2)

ones-le : (n v : ℕ) → ones n v ≤ v
ones-le zero v = omega arith
ones-le (suc n) v = omega (arith, ones-le n (v / 2))

ones_zero : (n : ℕ) → ones n 0 ≡ 0
ones_zero zero = refl
ones_zero (suc n) = omega (arith, ones_zero n)

ones_pos : (n v : ℕ) → 0 < v → v < 2 ^ n → 0 < ones n v
ones_pos zero v p h = absurd (omega arith)
ones_pos (suc n) v p h = elim (Bool-cases (v % 2 == 1)) [
  | inl odd ↦ ground arith
  | inr even ↦
      let r : 0 < ones n (v / 2) = ones_pos n (v / 2) (ground arith) (omega (arith, pow-suc 2 n)) in
      omega (arith, r)
]

ones_double : (n w d : ℕ) → w ≡ d * 2 → ones (suc n) w ≡ ones n d
ones_double n w d e = let half : w / 2 ≡ d = omega arith in omega (arith, ap (ones n) half)

-- One round takes away the lowest one bit.
round_ones :
    (n v : ℕ)
    → 0 < v
    → v < 2 ^ n
    → (ones n (bit_and v (v - 1)) + 1 ≡ ones n v) × (bit_and v (v - 1) < 2 ^ n)
round_ones zero v p h = absurd (omega arith)
round_ones (suc n) v p h = elim (Bool-cases (v % 2 == 1)) [
  | inl odd ↦
      let e : (v - 1) / 2 ≡ v / 2 = ground arith in
      let half : v / 2 < 2 ^ n = omega (arith, pow-suc 2 n) in
      let r : bit_and v (v - 1) ≡ v / 2 * 2 =
        ground
          (arith, bit_and_halves v (v - 1), ap (bit_and (v / 2)) e, bit_and_self n (v / 2) half) in
      (ground (arith, ones_double n (bit_and v (v - 1)) (v / 2) r), omega (arith, pow-suc 2 n))
  | inr even ↦
      let e : (v - 1) / 2 ≡ v / 2 - 1 = ground arith in
      let half : v / 2 < 2 ^ n = omega (arith, pow-suc 2 n) in
      let ih = round_ones n (v / 2) (ground arith) half in
      let r : bit_and v (v - 1) ≡ bit_and (v / 2) (v / 2 - 1) * 2 =
        ground (arith, bit_and_halves v (v - 1), ap (bit_and (v / 2)) e) in
      (
        ground (arith, ones_double n (bit_and v (v - 1)) (bit_and (v / 2) (v / 2 - 1)) r, ih),
        omega (arith, pow-suc 2 n, ih),
      )
]

count_loop_lem :
    (n rounds v r : ℕ) → v < 2 ^ n → ones n v ≤ rounds → count_loop rounds v r ≡ r + ones n v
unfolding count_loop
count_loop_lem n zero zero r h b = omega (arith, ones_zero n)
count_loop_lem n zero (suc v) r h b = absurd (omega (arith, ones_pos n (suc v) (omega arith) h))
count_loop_lem n (suc k) zero r h b = omega (arith, ones_zero n)
count_loop_lem n (suc k) (suc v) r h b =
    let step = round_ones n (suc v) (omega arith) h in
    let w = bit_and (suc v) (suc v - 1) in
    omega (arith, step, count_loop_lem n k w (r + 1) step.1 (omega (arith, step)))

-- `CountBytes` of a word of `n` bits is the number of its one bits, and its loop makes as many
-- rounds: with any greater number of rounds allowed, the result is the same.
pub count_bytes_lem :
    (n v rounds : ℕ)
    → v < 2 ^ n
    → ones n v ≤ rounds
    → (count_bytes v ≡ ones n v) × (count_loop rounds v 0 ≡ count_bytes v)
unfolding count_bytes
count_bytes_lem n v rounds h b =
    let whole = count_loop_lem n v v 0 h (ones-le n v) in
    (omega (arith, whole), omega (arith, whole, count_loop_lem n rounds v 0 h b))
