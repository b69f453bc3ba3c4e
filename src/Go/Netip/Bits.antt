-- ===== src/Go/Netip/Bits.antt =====
-- The bitwise or of numbers whose bits do not overlap is their sum.
use Prim.Native.Nat.{max, bit_or, digits, bit_or-bitwise}
use native.Mathlib.Nat.{pow-suc}
use argora.Base.{ℕ, zero, suc, ◌+◌, ◌*◌, ◌/◌, ◌%◌, ◌^◌, ◌≤◌, ◌<◌, ◌≡◌, refl, arith}

abbrev or_digits : ℕ → ℕ → ℕ → ℕ
or_digits n a b = digits (λ b. b) max n a b

or_digits_fuel : (n m a b : ℕ) → a ≤ n → a ≤ m → or_digits n a b ≡ or_digits m a b
or_digits_fuel zero zero a b p q = refl
or_digits_fuel zero (suc m) zero b p q = refl
or_digits_fuel zero (suc m) (suc a) b p q = absurd (omega arith)
or_digits_fuel (suc n) zero zero b p q = refl
or_digits_fuel (suc n) zero (suc a) b p q = absurd (omega arith)
or_digits_fuel (suc n) (suc m) zero b p q = refl
or_digits_fuel (suc n) (suc m) (suc a) b p q =
    omega (arith, or_digits_fuel n m (suc a / 2) (b / 2) (omega arith) (omega arith))

pub zero-bit_or : (b : ℕ) → bit_or 0 b ≡ b
zero-bit_or b = bit_or-bitwise 0 b

bit_or_step : (a b : ℕ) → bit_or a b ≡ bit_or (a / 2) (b / 2) * 2 + max (a % 2) (b % 2)
bit_or_step zero b = omega (arith, zero-bit_or b, zero-bit_or (b / 2))
bit_or_step (suc a) b = omega (
  arith,
  bit_or-bitwise (suc a) b,
  bit_or-bitwise (suc a / 2) (b / 2),
  or_digits_fuel a (suc a / 2) (suc a / 2) (b / 2) (omega arith) (omega arith),
)

bit_or-zero_fuel : (n a : ℕ) → a ≤ n → bit_or a 0 ≡ a
bit_or-zero_fuel n zero h = zero-bit_or 0
bit_or-zero_fuel zero (suc a) h = absurd (omega arith)
bit_or-zero_fuel (suc n) (suc a) h =
    omega (arith, bit_or_step (suc a) 0, bit_or-zero_fuel n (suc a / 2) (omega arith))

bit_or-double : (p r : ℕ) → bit_or p (r / 2) ≡ p + r / 2 → bit_or (p * 2) r ≡ p * 2 + r
bit_or-double p r h =
    let half : p * 2 / 2 ≡ p = omega arith in
    let e : bit_or (p * 2 / 2) (r / 2) ≡ p + r / 2 = rw half h in
    omega (arith, bit_or_step (p * 2) r, e)

-- By the number of low bits.
pub bit_or-disjoint : (k q r : ℕ) → r < 2 ^ k → bit_or (q * 2 ^ k) r ≡ q * 2 ^ k + r
bit_or-disjoint zero q r h =
    let e : r ≡ 0 = omega arith in
    rw e (omega (arith, bit_or-zero_fuel (q * 2 ^ 0) (q * 2 ^ 0) (omega arith)))
bit_or-disjoint (suc k) q r h =
    let power : q * 2 ^ suc k ≡ q * 2 ^ k * 2 = rw pow-suc (omega arith) in
    let bound : r < 2 ^ k * 2 = rw pow-suc at h in
    rw power (bit_or-double (q * 2 ^ k) r (bit_or-disjoint k q (r / 2) (omega arith)))
