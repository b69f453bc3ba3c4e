-- ===== src/Controller/Metal3/Mac.antt =====
-- `getMacForIP` of internal/controller/metal3_controller.go: the MAC address of the first member, by
-- name, of the bond that has an address.
pub mod First
use argora.Base.{String, Option, none, some, List, [], ◌∷◌, ◌++◌, Dict, insert, lookup}
use argora.Go.Sort.{sort_strings}
use argora.Errors.{text}
use argora.Models.Netbox.{Interface}
use argora.World.{World}
use argora.Effect.{Action, pure, raise, first, ◌>>=◌, ◌>>◌}
use argora.Netbox.Dcim
use argora.Netbox.Ipam

-- The loop that fills `macs` and `names`
unfoldable pub collect_macs : List Interface → Dict String × List String → Dict String × List String
collect_macs [] state = state
collect_macs (iface ∷ ifaces) (macs, names) =
    collect_macs ifaces (insert iface.name iface.mac_address macs, names ++ iface.name ∷ [])

abbrev pub mac_at : Option String → String
mac_at none = ""
mac_at (some mac) = mac

-- From the members of the bond on
unfoldable pub first_mac : {W : World} → List Interface → Action W String
unfolding collect_macs
first_mac [] = raise (text "no LAG interfaces found")
first_mac (iface ∷ ifaces) =
    let (macs, names) = collect_macs (iface ∷ ifaces) ([], []) in
    first (sort_strings names) >>= λ name. pure (mac_at (lookup name macs))

-- `getMacForIP`
unfoldable pub get_mac_for_ip : {W : World} → String → Action W String
get_mac_for_ip ip_address = do
  ip ← Ipam.get_ip_address_by_address ip_address
  assigned_iface ← Dcim.get_interface_by_id ip.assigned_interface.id
  lag_ifaces ← Dcim.get_interfaces_by_lag_id assigned_iface.id
  first_mac lag_ifaces
