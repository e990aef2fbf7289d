-- ===== src/Base/Bits.antt =====
-- Bit operations at variables: one step of `&`, and `&` and `|` of a byte with a mask.
use Prim.Native.Nat.{
  ℕ, zero, suc, ◌+◌, ◌-◌, ◌*◌, ◌/◌, ◌%◌, ◌^◌, ◌≤◌, ◌<◌, min, bit_and, bit_or, digits,
  bit_and-bitwise,
}
use native.Mathlib.Nat.{pow-suc}
use mathlib.Core.Path.{◌≡◌, refl, ◌∙◌, sym}
use mathlib.Core.Bool.{Bool, true, false, ◌&&◌}
use native.Mathlib.Omega.{arith}
use ztyco.Base.Tests.{◌==◌, ==_iff}

-- Every value below a bound, by evaluation.
abbrev pub all_below : ℕ → (ℕ → Bool) → Bool
all_below zero p = true
all_below (suc n) p = p n && all_below n p

pub all_below_sound : (n : ℕ) (p : ℕ → Bool) (x : ℕ) → all_below n p ≡ true → x < n → p x ≡ true
all_below_sound zero p x h lt = absurd (omega arith)
all_below_sound (suc n) p x h lt = ground (arith, all_below_sound n p x)

and_true : (a b : Bool) → (a && b) ≡ true → (a ≡ true) × (b ≡ true)
and_true true b h = (refl, h)
and_true false b h = cc

-- The recursion on binary digits does not depend on a count of digits that is large enough.
abbrev both : ℕ → ℕ → ℕ → ℕ
both = digits (λ b. zero) min

none_left : (n b : ℕ) → both n 0 b ≡ 0
none_left zero b = refl
none_left (suc n) b = refl

both-enough : (a b n m : ℕ) → a ≤ n → a ≤ m → both n a b ≡ both m a b
both-enough zero b n m p q = none_left n b ∙ sym (none_left m b)
both-enough (suc a) b zero m p q = absurd (omega arith)
both-enough (suc a) b (suc n) zero p q = absurd (omega arith)
both-enough (suc a) b (suc n) (suc m) p q =
    let same_rest = both-enough (suc a / 2) (b / 2) n m (omega arith) (omega arith) in
    omega (arith, same_rest)

pub zero-bit_and : (b : ℕ) → bit_and 0 b ≡ 0
zero-bit_and b = bit_and-bitwise 0 b

-- The lowest digit, and the others.
pub bit_and_halves : (a b : ℕ) → bit_and a b ≡ bit_and (a / 2) (b / 2) * 2 + min (a % 2) (b % 2)
bit_and_halves zero b = omega (arith, zero-bit_and b, zero-bit_and (b / 2))
bit_and_halves (suc a) b =
    let h = suc a / 2 in
    let enough = both-enough h (b / 2) a h (omega arith) (omega arith) in
    omega (arith, bit_and-bitwise (suc a) b, bit_and-bitwise h (b / 2), enough)

-- A byte and the mask of its high or its low bits, by the table of all cases.
abbrev high_bits : ℕ → ℕ → Bool
high_bits k b = bit_and b (256 - 2 ^ k) == b - b % 2 ^ k

abbrev low_bits : ℕ → ℕ → Bool
low_bits k b = bit_or b (2 ^ k - 1) == b - b % 2 ^ k + (2 ^ k - 1)

byte_table : all_below 9 (λ k. all_below 256 (λ b. high_bits k b && low_bits k b)) ≡ true
byte_table = refl

byte_case : (k b : ℕ) → k < 9 → b < 256 → (high_bits k b && low_bits k b) ≡ true
byte_case k b hk hb =
    all_below_sound 256 (λ c. high_bits k c && low_bits k c) b
      (all_below_sound 9 (λ j. all_below 256 (λ c. high_bits j c && low_bits j c)) k byte_table hk)
      hb

pub bit_and_high : (k b : ℕ) → k < 9 → b < 256 → bit_and b (256 - 2 ^ k) ≡ b - b % 2 ^ k
bit_and_high k b hk hb = (==_iff _ _).0 ((and_true _ _ (byte_case k b hk hb)).0)

pub bit_or_low : (k b : ℕ) → k < 9 → b < 256 → bit_or b (2 ^ k - 1) ≡ b - b % 2 ^ k + (2 ^ k - 1)
bit_or_low k b hk hb = (==_iff _ _).0 ((and_true _ _ (byte_case k b hk hb)).1)

-- A word with the same word, for words of `n` bits.
pub bit_and_self : (n a : ℕ) → a < 2 ^ n → bit_and a a ≡ a
bit_and_self zero a h = let e : a ≡ 0 = omega arith in rw e (zero-bit_and 0)
bit_and_self (suc n) a h =
    omega (arith, bit_and_halves a a, bit_and_self n (a / 2) (omega (arith, pow-suc 2 n)))
