-- ===== src/Controller/IpPool/Addresses/Greatest.antt =====
-- The address that `lastAddrInPrefix` of internal/controller/ippoolimport_controller.go computes with
-- shifts and a mask is the greatest of the prefix.
use native.Mathlib.Nat.{
  pow-le-pow_right, mul-le-mul_right, div-lt_iff_lt-mul, lt-div-mul-add, mul-add-div_right,
  div-eq_of_lt,
}
use argora.Base.{
  ℕ, zero, suc, ◌+◌, ◌-◌, ◌*◌, ◌/◌, ◌%◌, ◌^◌, ◌≤◌, ◌<◌, ◌≡◌, refl, Bool, true, ◌&&◌, ◌==◌, ap, some,
  arith,
}
use Prim.Native.Nat.{bit_or}
use argora.Go.Netip.{
  v4, NetPrefix, contains_addr, contains_at, mask_low, masked, masked_by, as4, to_bytes4,
  addr_from4,
}
use argora.Go.Netip.Bits.{bit_or-disjoint}
use argora.Errors.{ok}
use argora.Controller.IpPool.Addresses.{last_number, last_addr_of, last_addr_in_prefix}

-- What the powers of a mask of `b` bits satisfy.
abbrev splits : ℕ → Bool
splits b = (0xffffffff / 2 ^ b == 2 ^ (32 - b) - 1) && (2 ^ b * 2 ^ (32 - b) == 2 ^ 32)

abbrev all_split : ℕ → Bool
all_split zero = true
all_split (suc n) = splits n && all_split n

all_split-splits : (n b : ℕ) → all_split n ≡ true → b < n → splits b ≡ true
all_split-splits zero b h k = absurd (omega arith)
all_split-splits (suc n) b h k = ground (arith, all_split-splits n b)

splits_up_to_32 : (b : ℕ) → b ≤ 32 → splits b ≡ true
splits_up_to_32 b h = all_split-splits 33 b refl (omega arith)

power_pos : (k : ℕ) → 1 ≤ 2 ^ k
power_pos k = pow-le-pow_right {n = 2} (omega arith) {i = 0} {j = k} (omega arith)

-- The block of `m` numbers that holds `a` ends below `n * m`, if `a` does.
block-lt : (a m n : ℕ) → 1 ≤ m → a < n * m → a / m * m + m ≤ n * m
block-lt a m n pos h =
    let below : a / m < n = (div-lt_iff_lt-mul {k = m} {x = a} {y = n} (omega arith)).1 h in
    let e : (a / m + 1) * m ≤ n * m = mul-le-mul_right m (omega arith) in omega arith

or_join : (k x q r : ℕ) → x ≡ q * 2 ^ k → r < 2 ^ k → bit_or x r ≡ x + r
or_join k x q r e h = rw e (bit_or-disjoint k q r h)

bytes_sum : (n : ℕ) → n < 2 ^ 32 → addr_from4 (to_bytes4 n) ≡ v4 n
bytes_sum n h = ap v4 (omega arith)

or_bytes :
    (n : ℕ)
    → n < 2 ^ 32
    → bit_or
        (bit_or
          (bit_or (n / 2 ^ 24 % 256 * 2 ^ 24) (n / 2 ^ 16 % 256 * 2 ^ 16))
          (n / 2 ^ 8 % 256 * 2 ^ 8))
        (n % 256)
      ≡ n
or_bytes n h =
    let b0 = n / 2 ^ 24 % 256 in
    let b1 = n / 2 ^ 16 % 256 in
    let b2 = n / 2 ^ 8 % 256 in
    let e1 : bit_or (b0 * 2 ^ 24) (b1 * 2 ^ 16) ≡ b0 * 2 ^ 24 + b1 * 2 ^ 16 =
      or_join 24 (b0 * 2 ^ 24) b0 (b1 * 2 ^ 16) refl (omega arith) in
    let e2 : bit_or (b0 * 2 ^ 24 + b1 * 2 ^ 16) (b2 * 2 ^ 8)
        ≡ b0 * 2 ^ 24 + b1 * 2 ^ 16 + b2 * 2 ^ 8 =
      or_join 16 (b0 * 2 ^ 24 + b1 * 2 ^ 16) (b0 * 2 ^ 8 + b1) (b2 * 2 ^ 8) (omega arith)
        (omega arith) in
    let e3 : bit_or (b0 * 2 ^ 24 + b1 * 2 ^ 16 + b2 * 2 ^ 8) (n % 256)
        ≡ b0 * 2 ^ 24 + b1 * 2 ^ 16 + b2 * 2 ^ 8 + n % 256 =
      or_join 8 (b0 * 2 ^ 24 + b1 * 2 ^ 16 + b2 * 2 ^ 8) (b0 * 2 ^ 16 + b1 * 2 ^ 8 + b2) (n % 256)
        (omega arith) (omega arith) in
    rw (e1, e2, e3) (omega arith)

-- `last` is in the prefix, and no IPv4 address of the prefix is greater.
pub record IsGreatest (p : NetPrefix) (last : ℕ) : Type 0 where
  pub inside : contains_addr p (v4 last) ≡ true
  pub greatest : (n : ℕ) → contains_addr p (v4 n) ≡ true → n ≤ last

module _ (a b : ℕ) (address : a < 2 ^ 32) (bits : b ≤ 32) where
  mask_of : 0xffffffff / 2 ^ b ≡ 2 ^ (32 - b) - 1
  mask_of = ground (arith, splits_up_to_32 b)

  product_of : 2 ^ b * 2 ^ (32 - b) ≡ 2 ^ 32
  product_of = ground (arith, splits_up_to_32 b)

  end-lt : a / 2 ^ (32 - b) * 2 ^ (32 - b) + 2 ^ (32 - b) ≤ 2 ^ 32
  end-lt =
      let bound : a < 2 ^ b * 2 ^ (32 - b) = rw product_of address in
      rw (← product_of) (block-lt a (2 ^ (32 - b)) (2 ^ b) (power_pos (32 - b)) bound)

  last_number_lem :
      last_number (to_bytes4 (mask_low a (32 - b))) b ≡ mask_low a (32 - b) + (2 ^ (32 - b) - 1)
  unfolding last_number
  last_number_lem =
      let pos : 1 ≤ 2 ^ (32 - b) = power_pos (32 - b) in
      let le = end-lt in
      rw (or_bytes (mask_low a (32 - b)) (omega arith), mask_of)
        (or_join (32 - b) (mask_low a (32 - b)) (a / 2 ^ (32 - b)) (2 ^ (32 - b) - 1) refl
          (omega arith))

  last_quotient : (mask_low a (32 - b) + (2 ^ (32 - b) - 1)) / 2 ^ (32 - b) ≡ a / 2 ^ (32 - b)
  last_quotient =
      let pos : 1 ≤ 2 ^ (32 - b) = power_pos (32 - b) in
      let e : (2 ^ (32 - b) - 1) / 2 ^ (32 - b) ≡ 0 = div-eq_of_lt (omega arith) in
      let f =
        mul-add-div_right {m = 2 ^ (32 - b)} (omega arith) (a / 2 ^ (32 - b)) (2 ^ (32 - b) - 1) in
      omega (arith, e, f)

  last_addr_in_prefix_lem :
      last_addr_in_prefix (record { addr = v4 a; bits = some b })
      ≡ ok (v4 (mask_low a (32 - b) + (2 ^ (32 - b) - 1)))
  unfolding last_addr_in_prefix last_addr_of masked masked_by as4
  last_addr_in_prefix_lem =
      let le = end-lt in
      let pos : 1 ≤ 2 ^ (32 - b) = power_pos (32 - b) in
      rw (last_number_lem, bytes_sum (mask_low a (32 - b) + (2 ^ (32 - b) - 1)) (omega arith)) refl

  last-IsGreatest :
      IsGreatest (record { addr = v4 a; bits = some b }) (mask_low a (32 - b) + (2 ^ (32 - b) - 1))
  unfolding contains_addr contains_at
  last-IsGreatest = record {
    inside = ground (arith, last_quotient);
    greatest = λ n h.
        let pos : 1 ≤ 2 ^ (32 - b) = power_pos (32 - b) in
        let same : a / 2 ^ (32 - b) ≡ n / 2 ^ (32 - b) = ground arith in
        let below : n < n / 2 ^ (32 - b) * 2 ^ (32 - b) + 2 ^ (32 - b) =
          lt-div-mul-add {a = n} {b = 2 ^ (32 - b)} (omega arith) in
        rw same (omega arith);
  }

  -- For every IPv4 prefix `lastAddrInPrefix` returns an address of the prefix, and no address of the
  -- prefix is greater.
  pub last_addr_in_prefix-IsGreatest :
      (last : ℕ) × (last_addr_in_prefix (record { addr = v4 a; bits = some b }) ≡ ok (v4 last))
      × IsGreatest (record { addr = v4 a; bits = some b }) last
  last_addr_in_prefix-IsGreatest =
      (mask_low a (32 - b) + (2 ^ (32 - b) - 1), last_addr_in_prefix_lem, last-IsGreatest)
