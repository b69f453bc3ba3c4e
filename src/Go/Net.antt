-- ===== src/Go/Net.antt =====
-- Package `net`: `ParseCIDR`, of which the program uses the address, and the text of that address.
use Prim.Native.Char.{code}
use argora.Base.{ℕ, ◌/◌, ◌%◌, ◌^◌, String, Option, none, some, leb, ◌==◌, if◌then◌else◌, ◌≡◌, refl}
use argora.Go.Strings.{codes}
use argora.Go.Strconv.{parse_digits}
use argora.Go.Netip.{Addr, v4, v6, bit_len, parse_addr, addr_string}

-- `s[:i]` and `s[i+1:]` at the first `/`
cut_first_slash : String → Option (String × String)
cut_first_slash String.[] = none
cut_first_slash (String.◌∷◌ c s) =
    let rest = cut_first_slash s in
    if code c == b'/'
    then some ("", s)
    else elim rest [ none ↦ none | some (before, after) ↦ some (String.◌∷◌ c before, after) ]

-- The bits are digits only, with leading zeros or not, and no more than the address has.
with_bits : Option Addr → Option ℕ → Option Addr
with_bits none bits = none
with_bits (some a) none = none
with_bits (some a) (some n) = if leb n (bit_len a) then some a else none

-- The address of `ParseCIDR`
unfoldable pub parse_cidr : (String → Option ℕ) → String → Option Addr
unfolding cut_first_slash with_bits parse_addr parse_digits
parse_cidr parse_ipv6 s = elim (cut_first_slash s) [
  | none ↦ none
  | some (ip, bits) ↦ with_bits (parse_addr parse_ipv6 ip) (parse_digits (codes bits))
]

-- `IP.String`, which prints an IPv4 address in its IPv6 form as an IPv4 address
unfoldable pub ip_string : (ℕ → String) → Addr → String
unfolding addr_string
ip_string print_ipv6 (v6 n) =
    if n / 2 ^ 32 == 0xffff
    then addr_string print_ipv6 (v4 (n % 2 ^ 32))
    else addr_string print_ipv6 (v6 n)
ip_string print_ipv6 a = addr_string print_ipv6 a

cidr_test :
    (parse_cidr (λ s. none) "10.0.4.7/022" ≡ some (v4 167773191))
    × (parse_cidr (λ s. none) "10.0.4.7" ≡ none)
    × (parse_cidr (λ s. none) "10.0.4.7/33" ≡ none)
    × (parse_cidr (λ s. none) "10.0.4.7/" ≡ none)
unfolding parse_cidr
cidr_test = (refl, refl, refl, refl)
