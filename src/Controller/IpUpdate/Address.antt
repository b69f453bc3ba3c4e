-- ===== src/Controller/IpUpdate/Address.antt =====
-- `reconcileNetbox` of internal/controller/ipupdate_controller.go: the address is found or created in
-- NetBox, and made the primary address of its device.
pub mod Assignment
use argora.Base.{ℕ, String, Option, none, some, List, [], ◌∷◌, ◌==◌, if◌then◌else◌}
use argora.Go.Netip.{NetPrefix, masked, prefix_from, prefix_string, parse_addr}
use argora.Errors.{text, netbox_conflict, is_no_objects_found}
use argora.Models.Netbox.{Device, Interface, IpAddress, Prefix}
use argora.Models.Kubernetes
use argora.World.{World}
use argora.Effect.{Action, pure, raise, on_result, require, wrap_error, ◌>>=◌, ◌>>◌}
use argora.Netbox.Dcim
use argora.Netbox.Ipam

-- `ptr.Deref(address.Spec.Prefix, 32)`
abbrev pub cidr_of : Option ℕ → ℕ
cidr_of none = 32
cidr_of (some n) = n

-- `getPrefix`
unfoldable pub get_prefix : (W : World) → Kubernetes.IpAddress → Option NetPrefix
get_prefix W ip = elim (parse_addr W.parse_ipv6 ip.address) [
  | none ↦ none
  | some a ↦ some (prefix_from a (cidr_of ip.prefix))
]

-- The default VRF is 0; a single prefix decides another.
unfoldable pub vrf_of : List Prefix → ℕ
vrf_of (p ∷ []) = p.vrf.id
vrf_of _ = 0

-- `createIPAddress`
unfoldable pub create_ip_address : {W : World} → NetPrefix → ℕ → ℕ → Action W IpAddress
create_ip_address {W} prefix iface_id tenant_id = do
  netbox_prefixes ← Ipam.get_prefixes_by_prefix (prefix_string W.print_ipv6 (masked prefix))
  Ipam.create_ip_address (record {
    address = prefix_string W.print_ipv6 prefix;
    tenant_id = tenant_id;
    interface_id = iface_id;
    vrf_id = vrf_of netbox_prefixes;
  })

-- The checks of `reconcileNetboxAddressIP` on an address that NetBox has
unfoldable pub check_assignment : {W : World} → Interface → Device → IpAddress → Action W IpAddress
check_assignment iface needed_device addr =
    if addr.assigned_interface.id == iface.id
    then if needed_device.id == addr.assigned_interface.device_id
      then pure addr
      else raise (
          netbox_conflict (record {
            ip_address_id = addr.id;
            conflict_obj = "device";
            assigned_netbox_id = addr.assigned_interface.device_id;
            needed_netbox_id = needed_device.id;
          }))
    else raise (
        netbox_conflict (record {
          ip_address_id = addr.id;
          conflict_obj = "interface";
          assigned_netbox_id = addr.assigned_interface.id;
          needed_netbox_id = iface.id;
        }))

-- `reconcileNetboxAddressIP`
unfoldable pub reconcile_netbox_address_ip :
    {W : World} → Interface → Kubernetes.IpAddress → Device → Action W IpAddress
reconcile_netbox_address_ip {W} iface ip needed_device = do
  prefix ← require (get_prefix W ip) (text "netip.ParseAddr")
  on_result (Ipam.get_ip_address_by_address (prefix_string W.print_ipv6 prefix))
      (check_assignment iface needed_device)
      (λ e.
        if is_no_objects_found e
        then wrap_error "unable to create IPAddress: "
            (create_ip_address prefix iface.id needed_device.tenant.id)
        else raise e)

-- `reconcileDevicePrimaryIP`
unfoldable pub reconcile_device_primary_ip : {W : World} → IpAddress → Device → Action W (Unit {0})
reconcile_device_primary_ip {W} addr device =
    if device.primary_ip.id == addr.id
    then pure tt
    else (Dcim.update_device (record (W.writeable device) { primary_ip4 = addr.id }) >> pure tt)

-- `reconcileNetbox`
unfoldable pub reconcile_netbox :
    {W : World} → Interface → Device → Kubernetes.IpAddress → Action W (Unit {0})
reconcile_netbox iface device ip = do
  addr ← reconcile_netbox_address_ip iface ip device
  reconcile_device_primary_ip addr device
