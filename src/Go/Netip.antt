-- ===== src/Go/Netip.antt =====
-- Package `netip`, with the texts of IPv4. An IPv6 text is read and printed by parameters, and has no
-- zone. An address is a number of 32 or 128 bits.
pub mod Bits
use Prim.Native.Char.{Char, code}
use argora.Base.{
  ℕ, zero, suc, ◌+◌, ◌-◌, ◌*◌, ◌/◌, ◌%◌, ◌^◌, String, ◌<>◌, Bool, true, false, ◌&&◌, ◌||◌, Option,
  none, some, List, [], ◌∷◌, ◌==◌, ltb, leb, if◌then◌else◌, length, ℤ, pos, negsuc, refl, ◌≡◌,
}
use argora.Errors.{Result, ok, panic}
use argora.Go.Strings.{codes}
use argora.Go.Strconv.{itoa, parse_digits}

pub data Addr : Type 0 where
  invalid : Addr
  v4 : ℕ → Addr
  v6 : ℕ → Addr

-- `bits` is `none` where `IsValid` is false.
pub record NetPrefix : Type 0 where
  pub addr : Addr
  pub bits : Option ℕ

abbrev pub bit_len : Addr → ℕ
bit_len invalid = 0
bit_len (v4 n) = 32
bit_len (v6 n) = 128

abbrev is_valid_addr : Addr → Bool
is_valid_addr invalid = false
is_valid_addr _ = true

-- `PrefixFrom`
unfoldable pub prefix_from : Addr → ℕ → NetPrefix
prefix_from a bits = record {
  addr = a;
  bits = if is_valid_addr a && leb bits (bit_len a) then some bits else none;
}

-- The number at the start of the block of 2^(w - bits) numbers that holds `n`.
abbrev pub mask_low : ℕ → ℕ → ℕ
mask_low n free = n / 2 ^ free * 2 ^ free

unfoldable pub masked_by : Addr → ℕ → NetPrefix
masked_by invalid b = record { addr = invalid; bits = none }
masked_by (v4 n) b = record { addr = v4 (mask_low n (32 - b)); bits = some b }
masked_by (v6 n) b = record { addr = v6 (mask_low n (128 - b)); bits = some b }

-- `Prefix.Masked`
unfoldable pub masked : NetPrefix → NetPrefix
unfolding masked_by
masked p = elim (p.bits) [
  | none ↦ record { addr = invalid; bits = none }
  | some b ↦ masked_by p.addr b
]

-- `Addr.Next`
unfoldable pub next : Addr → Addr
next invalid = invalid
next (v4 n) = if ltb (n + 1) (2 ^ 32) then v4 (n + 1) else invalid
next (v6 n) = if ltb (n + 1) (2 ^ 128) then v6 (n + 1) else invalid

-- `Addr.Prev`
unfoldable pub prev : Addr → Addr
prev invalid = invalid
prev (v4 n) = if n == 0 then invalid else v4 (n - 1)
prev (v6 n) = if n == 0 then invalid else v6 (n - 1)

unfoldable pub contains_at : Addr → Addr → ℕ → Bool
contains_at (v4 n) (v4 m) b = n / 2 ^ (32 - b) == m / 2 ^ (32 - b)
contains_at (v6 n) (v6 m) b = n / 2 ^ (128 - b) == m / 2 ^ (128 - b)
contains_at _ _ b = false

-- `Prefix.Contains`
unfoldable pub contains_addr : NetPrefix → Addr → Bool
unfolding contains_at
contains_addr p a = elim (p.bits) [ none ↦ false | some b ↦ contains_at p.addr a b ]

pub record Bytes4 : Type 0 where
  pub b0 : ℕ
  pub b1 : ℕ
  pub b2 : ℕ
  pub b3 : ℕ

abbrev pub to_bytes4 : ℕ → Bytes4
to_bytes4 n = record {
  b0 = n / 2 ^ 24 % 256;
  b1 = n / 2 ^ 16 % 256;
  b2 = n / 2 ^ 8 % 256;
  b3 = n % 256;
}

-- `AddrFrom4`
abbrev pub addr_from4 : Bytes4 → Addr
addr_from4 b = v4 (b.b0 * 2 ^ 24 + b.b1 * 2 ^ 16 + b.b2 * 2 ^ 8 + b.b3)

-- `Addr.As4` panics on an IPv6 address, unless an IPv4 address is mapped to it.
unfoldable pub as4 : Addr → Result Bytes4
as4 invalid = panic
as4 (v4 n) = ok (to_bytes4 n)
as4 (v6 n) = if n / 2 ^ 32 == 0xffff then ok (to_bytes4 (n % 2 ^ 32)) else panic

print_v4 : ℕ → String
unfolding itoa
print_v4 n =
    let b = to_bytes4 n in itoa b.b0 <> "." <> itoa b.b1 <> "." <> itoa b.b2 <> "." <> itoa b.b3

-- The parts of a text between the occurrences of a character.
push_code : ℕ → ℕ → List (List ℕ) → List (List ℕ)
push_code sep c [] = []
push_code sep c (part ∷ parts) = if c == sep then [] ∷ part ∷ parts else (c ∷ part) ∷ parts

split_codes : ℕ → List ℕ → List (List ℕ)
split_codes sep [] = [] ∷ []
split_codes sep (c ∷ s) = push_code sep c (split_codes sep s)

-- Whether a number has a leading zero, or a sign.
irregular : List ℕ → Bool
irregular [] = false
irregular (c ∷ []) = false
irregular (c ∷ d ∷ s) = ltb c b'1' || ltb b'9' c

number_up_to : ℕ → List ℕ → Option ℕ
unfolding parse_digits irregular
number_up_to bound s = elim (parse_digits s) [
  | none ↦ none
  | some n ↦ if irregular s then none else if leb n bound then some n else none
]

four_fields : Option ℕ → Option ℕ → Option ℕ → Option ℕ → Option Addr
four_fields (some a) (some b) (some c) (some d) =
    some (addr_from4 (record { b0 = a; b1 = b; b2 = c; b3 = d }))
four_fields _ _ _ _ = none

parse_v4_fields : List (List ℕ) → Option Addr
parse_v4_fields (a ∷ b ∷ c ∷ d ∷ []) =
    four_fields (number_up_to 255 a) (number_up_to 255 b) (number_up_to 255 c) (number_up_to 255 d)
parse_v4_fields _ = none

-- Which of `.` and `:` comes first decides the syntax.
pub data Syntax : Type 0 where
  dotted colons neither : Syntax

syntax_of : List ℕ → Syntax
syntax_of [] = neither
syntax_of (c ∷ s) =
    let rest = syntax_of s in if c == b'.' then dotted else if c == b':' then colons else rest

v6_of : Option ℕ → Option Addr
v6_of none = none
v6_of (some n) = some (v6 n)

cut_at : Char → String → Option (String × String) → Option (String × String)
cut_at c s none = if code c == b'/' then some ("", s) else none
cut_at c s (some (before, after)) = some (String.◌∷◌ c before, after)

-- `s[:i]` and `s[i+1:]` at the last `/`
cut_last_slash : String → Option (String × String)
cut_last_slash String.[] = none
cut_last_slash (String.◌∷◌ c s) = cut_at c s (cut_last_slash s)

-- `ParsePrefix` refuses a sign and leading zeros, and more bits than the address has.
prefix_of : Option Addr → List ℕ → Option NetPrefix
prefix_of none bits = none
prefix_of (some a) bits = elim (number_up_to (bit_len a) bits) [
  | none ↦ none
  | some b ↦ some (record { addr = a; bits = some b })
]

module _ (parse_ipv6 : String → Option ℕ) where
  -- `ParseAddr`
  unfoldable pub parse_addr : String → Option Addr
  unfolding syntax_of parse_v4_fields four_fields number_up_to irregular split_codes push_code v6_of
  parse_addr s = elim (syntax_of (codes s)) [
    | dotted ↦ parse_v4_fields (split_codes b'.' (codes s))
    | colons ↦ v6_of (parse_ipv6 s)
    | neither ↦ none
  ]

  -- `ParsePrefix`
  unfoldable pub parse_prefix : String → Option NetPrefix
  unfolding cut_last_slash cut_at parse_addr number_up_to irregular prefix_of
  parse_prefix s = elim (cut_last_slash s) [
    | none ↦ none
    | some (ip, bits) ↦ prefix_of (parse_addr ip) (codes bits)
  ]

module _ (print_ipv6 : ℕ → String) where
  -- `Addr.String`
  unfoldable pub addr_string : Addr → String
  unfolding print_v4
  addr_string invalid = "invalid IP"
  addr_string (v4 n) = print_v4 n
  addr_string (v6 n) = print_ipv6 n

  -- `Prefix.String`
  unfoldable pub prefix_string : NetPrefix → String
  unfolding addr_string itoa
  prefix_string p = elim (p.bits) [
    | none ↦ "invalid Prefix"
    | some b ↦ addr_string p.addr <> "/" <> itoa b
  ]

parse_test :
    (parse_prefix (λ s. none) "10.0.4.0/22" ≡ some (record { addr = v4 167773184; bits = some 22 }))
    × (parse_prefix (λ s. none) "10.0.4.0/33" ≡ none)
    × (parse_prefix (λ s. none) "10.0.04.0/22" ≡ none)
    × (parse_addr (λ s. none) "10.0.4.256" ≡ none)
unfolding parse_prefix
parse_test = (refl, refl, refl, refl)

print_test : prefix_string (λ n. "") (prefix_from (v4 167773184) 22) ≡ "10.0.4.0/22"
unfolding prefix_string prefix_from
print_test = refl
