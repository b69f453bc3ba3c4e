-- ===== src/Netbox/Requests.antt =====
-- The list requests of internal/netbox/*/*_requests.go: a request is made from options, each of
-- which sets one field, and is turned into the filter that is sent, where only set fields stand.
pub mod Dcim
pub mod Ipam
pub mod Others
use argora.Base.{List, [], ◌∷◌}

-- `New…Request(opts...)`: the options act in order on the zero value.
unfoldable pub apply_options : {R : Type 0} → R → List (R → R) → R
apply_options r [] = r
apply_options r (opt ∷ opts) = apply_options (opt r) opts
