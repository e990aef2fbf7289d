-- ===== src/Address/Bytes.antt =====
-- Arithmetic of numbers written in bytes: clearing the low bits of a number byte by byte, and the
-- count of the one bits.
use ztyco.Base.{
  ℕ, zero, suc, ◌+◌, ◌-◌, ◌*◌, ◌/◌, ◌%◌, ◌^◌, ◌≤◌, ◌<◌, min, ◌≡◌, refl, ap, ◌∙◌, inl, inr, ltb,
  ◌==◌, ==_iff, Bool-cases, arith,
}
use ztyco.Base.Bits.{all_below_sound}
use native.Mathlib.Nat.{pow-suc, mod-eq_of_lt, add-mul-mod_self_right, mod-lt, mod-le, div-add-mod'}

-- A number with its `k` low bits cleared.
abbrev pub clear_low : ℕ → ℕ → ℕ
clear_low k x = x - x % 2 ^ k

pub pow_pos : (k : ℕ) → 0 < 2 ^ k
pow_pos zero = omega arith
pow_pos (suc k) = omega (arith, pow-suc 2 k, pow_pos k)

pow_byte : (t : ℕ) → 2 ^ (t + 8) ≡ 2 ^ t * 256
pow_byte zero = refl
pow_byte (suc t) =
    let e : suc t + 8 ≡ suc (t + 8) = omega arith in
    rw e (omega (arith, pow-suc 2 (t + 8), pow-suc 2 t, pow_byte t))

pow_split : (k : ℕ) → k ≤ 8 → 2 ^ (8 - k) * 2 ^ k ≡ 256
pow_split k h =
    (==_iff _ _).0 (all_below_sound 9 (λ j. 2 ^ (8 - j) * 2 ^ j == 256) k refl (omega arith))

mod_low : (r b k : ℕ) → k ≤ 8 → (r * 256 + b) % 2 ^ k ≡ b % 2 ^ k
mod_low r b k h =
    let e : r * 256 + b ≡ b + r * 2 ^ (8 - k) * 2 ^ k =
      grind (arith, ap (λ (t : ℕ). r * t) (pow_split k h)) in
    rw e (add-mul-mod_self_right b (r * 2 ^ (8 - k)) (2 ^ k))

mod_byte : (p r b : ℕ) → 0 < p → b < 256 → (r * 256 + b) % (p * 256) ≡ r % p * 256 + b
mod_byte p r b hp hb =
    let d = div-add-mod' r p in
    let e : r * 256 + b ≡ r % p * 256 + b + r / p * (p * 256) =
      grind (arith, ap (λ (t : ℕ). t * 256) d) in
    let small : r % p * 256 + b < p * 256 = omega (arith, mod-lt r hp) in
    rw e (add-mul-mod_self_right (r % p * 256 + b) (r / p) (p * 256) ∙ mod-eq_of_lt small)

mod_high : (r b t : ℕ) → b < 256 → (r * 256 + b) % 2 ^ (t + 8) ≡ r % 2 ^ t * 256 + b
mod_high r b t h = rw (pow_byte t) (mod_byte (2 ^ t) r b (pow_pos t) h)

-- One byte at a time.
pub clear_low_step :
    (r b k : ℕ)
    → b < 256
    → clear_low k (r * 256 + b) ≡ clear_low (k - 8) r * 256 + clear_low (min 8 k) b
clear_low_step r b k h = elim (Bool-cases (ltb 8 k)) [
  | inl high ↦
      let e : k ≡ k - 8 + 8 = ground arith in
      let m : min 8 k ≡ 8 = ground arith in
      rw m (
        omega (
          arith,
          ap (λ (j : ℕ). (r * 256 + b) % 2 ^ j) e ∙ mod_high r b (k - 8) h,
          mod-le r (2 ^ (k - 8)),
        ))
  | inr low ↦
      let z : k - 8 ≡ 0 = ground arith in
      let m : min 8 k ≡ k = ground arith in
      rw (z, m) (omega (arith, mod_low r b k (ground arith), mod-le b (2 ^ k)))
]
