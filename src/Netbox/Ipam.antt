-- ===== src/Netbox/Ipam.antt =====
-- internal/netbox/ipam/ipam.go
use argora.Base.{ℕ, String, ◌<>◌, List, [], ◌∷◌, ◌==◌, length}
use argora.Go.Strconv.{itoa}
use argora.Errors.{Error, text, wrapped, no_objects_found}
use argora.Models.Netbox.{IpAddress, WriteableIpAddress, Vlan, Prefix}
use argora.World.{World}
use argora.Effect.{Call, Action, pure, raise, ask, send, guard, wrap_error, first, ◌>>=◌, ◌>>◌}
use argora.Netbox.Requests.Ipam.{
  new_list_vlan_request, vlan_with_name, build_list_vlan_request, new_list_ip_addresses_request,
  ip_addresses_with_interface_id, ip_addresses_with_address, build_list_ip_addresses_request,
  new_list_prefixes_request, prefix_with_contains, prefix_with_region, prefix_with_role,
  prefix_with_prefix, build_list_prefixes_request,
}
use argora.Netbox.Clients.{ipam_service}

-- `GetVlanByName`
unfoldable pub get_vlan_by_name : {W : World} → String → Action W Vlan
get_vlan_by_name {W} vlan_name = do
  client ← ipam_service {W = W}
  let request = build_list_vlan_request (new_list_vlan_request (vlan_with_name vlan_name ∷ []))
  res ←
      wrap_error ("unable to list VLANs by name " <> vlan_name <> ": ")
        (ask {W = W} (W.list_vlans client request))
  guard (res.count == 1)
      (text ("unexpected number of VLANs found by name " <> vlan_name <> ": " <> itoa res.count))
  first res.results

-- The results of a search by address: there must be exactly one.
unfoldable pub one_address : {W : World} → String → List IpAddress → Action W IpAddress
one_address address [] =
    raise (wrapped ("no IP addresses found with address " <> address <> ": ") no_objects_found)
one_address address (x ∷ []) = pure x
one_address address (x ∷ y ∷ rest) = raise (
    text (
      "unexpected number of IP addresses found with address "
      <> address
      <> ": "
      <> itoa (length (x ∷ y ∷ rest))))

-- `GetIPAddressByAddress`
unfoldable pub get_ip_address_by_address : {W : World} → String → Action W IpAddress
get_ip_address_by_address {W} address = do
  client ← ipam_service {W = W}
  let request =
      build_list_ip_addresses_request
        (new_list_ip_addresses_request (ip_addresses_with_address address ∷ []))
  res ←
      wrap_error ("unable to list IP addresses with address " <> address <> ": ")
        (ask {W = W} (W.list_ip_addresses client request))
  one_address address res.results

-- `GetIPAddressesForInterface`
unfoldable pub get_ip_addresses_for_interface : {W : World} → ℕ → Action W (List IpAddress)
get_ip_addresses_for_interface {W} interface_id = do
  client ← ipam_service {W = W}
  let request =
      build_list_ip_addresses_request
        (new_list_ip_addresses_request (ip_addresses_with_interface_id interface_id ∷ []))
  res ←
      wrap_error ("unable to list IP addresses for interface ID " <> itoa interface_id <> ": ")
        (ask {W = W} (W.list_ip_addresses client request))
  pure res.results

-- `GetIPAddressForInterface`
unfoldable pub get_ip_address_for_interface : {W : World} → ℕ → Action W IpAddress
get_ip_address_for_interface interface_id = do
  ifaces ← get_ip_addresses_for_interface interface_id
  guard (length ifaces == 1) (
      text (
        "unexpected number of IP addresses found for interface ID "
        <> itoa interface_id
        <> ": "
        <> itoa (length ifaces)))
  first ifaces

-- The prefixes of a search that must find some.
unfoldable pub some_prefixes : {W : World} → Error → List Prefix → Action W (List Prefix)
some_prefixes e [] = raise e
some_prefixes e (p ∷ ps) = pure (p ∷ ps)

-- `GetPrefixesContaining`
unfoldable pub get_prefixes_containing : {W : World} → String → Action W (List Prefix)
get_prefixes_containing {W} contains = do
  client ← ipam_service {W = W}
  let request =
      build_list_prefixes_request (new_list_prefixes_request (prefix_with_contains contains ∷ []))
  res ←
      wrap_error ("unable to list prefixes containing " <> contains <> ": ")
        (ask {W = W} (W.list_prefixes client request))
  some_prefixes (text ("prefixes containing " <> contains <> " not found")) res.results

-- `GetPrefixesByRegionRole`
unfoldable pub get_prefixes_by_region_role : {W : World} → String → String → Action W (List Prefix)
get_prefixes_by_region_role {W} region role = do
  client ← ipam_service {W = W}
  let request =
      build_list_prefixes_request
        (new_list_prefixes_request (prefix_with_region region ∷ prefix_with_role role ∷ []))
  res ←
      wrap_error ("unable to list prefixes in region " <> region <> " with role " <> role <> ": ")
        (ask {W = W} (W.list_prefixes client request))
  some_prefixes (text ("prefixes in region " <> region <> " with role " <> role <> " not found"))
      res.results

-- `GetPrefixesByPrefix`
unfoldable pub get_prefixes_by_prefix : {W : World} → String → Action W (List Prefix)
get_prefixes_by_prefix {W} prefix = do
  client ← ipam_service {W = W}
  let request =
      build_list_prefixes_request (new_list_prefixes_request (prefix_with_prefix prefix ∷ []))
  res ←
      wrap_error ("unable to list prefixes with prefix " <> prefix <> ": ")
        (ask {W = W} (W.list_prefixes client request))
  pure res.results

-- `DeleteIPAddress`
unfoldable pub delete_ip_address : {W : World} → ℕ → Action W (Unit {0})
delete_ip_address {W} id = do
  client ← ipam_service {W = W}
  wrap_error ("unable to delete IP address (" <> itoa id <> "): ")
      (send {W = W} (Call.delete_ip_address id) (W.delete_ip_address client id))

pub record CreateIpAddressParams : Type 0 where
  pub address : String
  pub tenant_id : ℕ
  pub interface_id : ℕ
  pub vrf_id : ℕ

-- The address that `CreateIPAddress` sends; it has no id yet.
unfoldable pub new_ip_address : CreateIpAddressParams → WriteableIpAddress
new_ip_address params = record {
  id = 0;
  address = params.address;
  vrf = params.vrf_id;
  tenant = params.tenant_id;
  assigned_object_type = "dcim.interface";
  assigned_object_id = params.interface_id;
}

-- `CreateIPAddress`
unfoldable pub create_ip_address : {W : World} → CreateIpAddressParams → Action W IpAddress
create_ip_address {W} params = do
  client ← ipam_service {W = W}
  let addr = new_ip_address params
  wrap_error "unable to create ip address: "
      (send {W = W} (Call.create_ip_address addr) (W.create_ip_address client addr))

-- `UpdateIPAddress`
unfoldable pub update_ip_address : {W : World} → WriteableIpAddress → Action W IpAddress
update_ip_address {W} addr = do
  client ← ipam_service {W = W}
  wrap_error "unable to update ip address: "
      (send {W = W} (Call.update_ip_address addr) (W.update_ip_address client addr))
