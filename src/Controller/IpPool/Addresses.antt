-- ===== src/Controller/IpPool/Addresses.antt =====
-- The last addresses of a prefix: `getLastNIPs` and `lastAddrInPrefix` of
-- internal/controller/ippoolimport_controller.go.
pub mod Last
pub mod Greatest
use argora.Base.{
  ℕ, zero, suc, Option, none, some, List, [], ◌∷◌, ◌*◌, ◌^◌, ◌/◌, ◌%◌, if◌then◌else◌, ℤ, pos,
  negsuc,
}
use Prim.Native.Nat.{bit_or}
use argora.Go.Netip.{Addr, NetPrefix, Bytes4, addr_from4, as4, masked, prev, contains_addr}
use argora.Errors.{Result, ok, err, panic}

-- The number of the last address, from the bytes of the first; `bits` is at most 128.
unfoldable pub last_number : Bytes4 → ℕ → ℕ
last_number b bits =
    let mask = 0xffffffff / 2 ^ bits in
    bit_or (bit_or (bit_or (bit_or (b.b0 * 2 ^ 24) (b.b1 * 2 ^ 16)) (b.b2 * 2 ^ 8)) b.b3) mask

last_addr_of : Result Bytes4 → Option ℕ → Result Addr
last_addr_of (ok b) (some bits) =
    let last = last_number b bits in
    ok (
      addr_from4 (record {
        b0 = last / 2 ^ 24 % 256;
        b1 = last / 2 ^ 16 % 256;
        b2 = last / 2 ^ 8 % 256;
        b3 = last % 256;
      }))
last_addr_of (ok b) none = panic
last_addr_of (err e) bits = err e
last_addr_of panic bits = panic

-- `lastAddrInPrefix`
unfoldable pub last_addr_in_prefix : NetPrefix → Result Addr
unfolding last_addr_of last_number
last_addr_in_prefix p = let m = masked p in last_addr_of (as4 m.addr) m.bits

-- The loop of `getLastNIPs`, over the rounds left, the current address and the list so far
unfoldable pub collect_back : ℕ → NetPrefix → Addr → List Addr → List Addr
collect_back zero p current ips = ips
collect_back (suc n) p current ips =
    let ips' = current ∷ ips in
    let rest = collect_back n p (prev current) ips' in
    if contains_addr p (prev current) then rest else ips'

-- `for range n` makes no round where n is negative.
abbrev pub rounds : ℤ → ℕ
rounds (pos n) = n
rounds (negsuc n) = 0

last_n_from : NetPrefix → ℤ → Result Addr → Result (List Addr)
last_n_from p n (ok last) = ok (collect_back (rounds n) p last [])
last_n_from p n (err e) = err e
last_n_from p n panic = panic

-- `getLastNIPs`
unfoldable pub get_last_n_ips : NetPrefix → ℤ → Result (List Addr)
unfolding last_n_from
get_last_n_ips p n = last_n_from p n (last_addr_in_prefix p)
