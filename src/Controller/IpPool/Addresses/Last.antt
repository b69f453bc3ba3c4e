-- ===== src/Controller/IpPool/Addresses/Last.antt =====
-- What `getLastNIPs` of internal/controller/ippoolimport_controller.go returns, and where it panics.
use argora.Base.{
  ℕ, zero, suc, ◌+◌, ◌≤◌, ◌≡◌, refl, true, false, List, [], ◌∷◌, length, ℤ, ◌==◌, ◌/◌, ◌^◌, ◌-◌,
  some, Bool-cases, inl, inr, ◌⊎◌, arith,
}
use native.Mathlib.Numerals.{unary_clauses}
use argora.Go.Netip.{Addr, v6, NetPrefix, prev, contains_addr, mask_low, masked, masked_by, as4}
use argora.Errors.{ok, panic}
use argora.Controller.IpPool.Addresses.{
  last_addr_of, last_addr_in_prefix, collect_back, rounds, last_n_from, get_last_n_ips,
}

-- Addresses of the prefix that follow one another without a gap, up to `last`.
pub data RunTo (p : NetPrefix) (last : Addr) : List Addr → Type 0 where
  none : RunTo p last []
  one : RunTo p last (last ∷ [])
  before :
      {a : Addr} {ips : List Addr}
      → contains_addr p (prev a) ≡ true
      → RunTo p last (a ∷ ips)
      → RunTo p last (prev a ∷ a ∷ ips)

-- The address before the first is outside of the prefix.
abbrev pub StopsBefore : NetPrefix → List Addr → Type 0
StopsBefore p [] = ⊥
StopsBefore p (a ∷ ips) = contains_addr p (prev a) ≡ false

-- The `n` last addresses up to `last`, or all of them where the prefix has fewer
pub record LastAddrs (p : NetPrefix) (last : Addr) (n : ℕ) (ips : List Addr) : Type 0 where
  pub run : RunTo p last ips
  pub at_most : length ips ≤ n
  pub complete : (length ips ≡ n) ⊎ StopsBefore p ips

collect_back-LastAddrs :
    (n : ℕ) (p : NetPrefix) (last current : Addr) (ips : List Addr)
    → RunTo p last ips
    → RunTo p last (current ∷ ips)
    → LastAddrs p last (n + length ips) (collect_back n p current ips)
unfolding collect_back
collect_back-LastAddrs zero p last current ips h k = record {
  run = h;
  at_most = omega arith;
  complete = inl (omega arith);
}
collect_back-LastAddrs (suc n) p last current ips h k =
    elim (Bool-cases (contains_addr p (prev current))) [
      | inl inside ↦
          let ih =
            collect_back-LastAddrs n p last (prev current) (current ∷ ips) k (before inside k) in
          rw inside (record {
            run = ih.run;
            at_most = ground (arith, ih.at_most);
            complete = elim (ih.complete) [
              | inl all ↦ inl (ground (arith, all))
              | inr outside ↦ inr outside
            ];
          })
      | inr outside ↦ rw outside (record { run = k; at_most = omega arith; complete = inr outside })
    ]

-- The list of `getLastNIPs` has the `n` addresses that end at the last address of the prefix, without
-- a gap; all but that last address are known to be in the prefix. It has fewer only where the address
-- before its first one is outside of the prefix, so it is empty only where n is not positive.
pub get_last_n_ips-LastAddrs :
    (p : NetPrefix) (n : ℤ) (last : Addr)
    → last_addr_in_prefix p ≡ ok last
    → (ips : List Addr) × (get_last_n_ips p n ≡ ok ips) × LastAddrs p last (rounds n) ips
unfolding get_last_n_ips last_n_from
get_last_n_ips-LastAddrs p n last h =
    let run = collect_back-LastAddrs (rounds n) p last last [] none one in
    (collect_back (rounds n) p last [], rw h refl, simp unary_clauses at run)

-- `getLastNIPs` panics on every IPv6 prefix, whatever the number is, but on one of IPv4 addresses in
-- their IPv6 form.
pub get_last_n_ips_panics :
    (p : NetPrefix) (n : ℤ) (a b : ℕ)
    → p ≡ record { addr = v6 a; bits = some b }
    → (mask_low a (128 - b) / 2 ^ 32 == 0xffff) ≡ false
    → get_last_n_ips p n ≡ panic
unfolding get_last_n_ips last_n_from last_addr_in_prefix last_addr_of masked masked_by as4
get_last_n_ips_panics p n a b h k = rw (h, k) refl
