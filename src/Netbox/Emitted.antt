-- ===== src/Netbox/Emitted.antt =====
-- Which writing calls the operations on NetBox send: the reading ones none, and each of the others
-- the one that it is named after.
use argora.Base.{ℕ, String, Option, none, some, List, [], ◌∷◌}
use argora.Models.Netbox.{Device, WritableDevice, WritableInterface, IpAddress, Prefix, Listing}
use argora.Errors.{Error}
use argora.World.{World}
use argora.Effect.{
  Call, update_device, update_interface, delete_interface, create_ip_address, delete_ip_address,
  pure, crash,
}
use argora.Effect.Emits.{Emits, Emits-pure, Emits-raise, Emits-crash, emits_rules}
use argora.Netbox.Clients.{non_nil, virtualization_service, dcim_service, ipam_service}
use argora.Netbox.Virtualization
use argora.Netbox.Dcim
use argora.Netbox.Ipam

module _ {W : World} {P : Call → Type 0} where
  Emits-non_nil : (o : Option W.Client) → Emits {W = W} P (non_nil o)
  unfolding pure crash
  Emits-non_nil none = Emits-crash
  Emits-non_nil (some c) = Emits-pure c

  pub dcim_service-Emits : Emits {W = W} P dcim_service
  unfolding dcim_service
  dcim_service-Emits = search (emits_rules, Emits-non_nil)

  pub ipam_service-Emits : Emits {W = W} P ipam_service
  unfolding ipam_service
  ipam_service-Emits = search (emits_rules, Emits-non_nil)

  virtualization_service-Emits : Emits {W = W} P virtualization_service
  unfolding virtualization_service
  virtualization_service-Emits = search (emits_rules, Emits-non_nil)

  only_result-Emits :
      {A : Type 0} (e : Error) (res : Listing A) → Emits {W = W} P (Dcim.only_result e res)
  unfolding Dcim.only_result
  only_result-Emits e res = search emits_rules

  first_result-Emits :
      {A : Type 0} (e : Error) (xs : List A) → Emits {W = W} P (Dcim.first_result e xs)
  unfolding Dcim.first_result
  first_result-Emits e [] = Emits-raise e
  first_result-Emits e (x ∷ xs) = Emits-pure x

  one_address-Emits : (a : String) (xs : List IpAddress) → Emits {W = W} P (Ipam.one_address a xs)
  unfolding Ipam.one_address
  one_address-Emits a [] = Emits-raise _
  one_address-Emits a (x ∷ []) = Emits-pure x
  one_address-Emits a (x ∷ y ∷ r) = Emits-raise _

  some_prefixes-Emits : (e : Error) (ps : List Prefix) → Emits {W = W} P (Ipam.some_prefixes e ps)
  unfolding Ipam.some_prefixes
  some_prefixes-Emits e [] = Emits-raise e
  some_prefixes-Emits e (p ∷ ps) = Emits-pure (p ∷ ps)

  ruleset service_rules = (
    emits_rules, dcim_service-Emits, ipam_service-Emits, virtualization_service-Emits,
    only_result-Emits, first_result-Emits, one_address-Emits, some_prefixes-Emits,
  )

  pub get_clusters_by_name_region_type-Emits :
      (name region type_name : String)
      → Emits {W = W} P (Virtualization.get_clusters_by_name_region_type name region type_name)
  unfolding Virtualization.get_clusters_by_name_region_type
  get_clusters_by_name_region_type-Emits name region type_name = search service_rules depth 9

  pub get_device_by_name-Emits : (n : String) → Emits {W = W} P (Dcim.get_device_by_name n)
  unfolding Dcim.get_device_by_name
  get_device_by_name-Emits n = search service_rules depth 9

  pub get_devices_by_cluster_id-Emits :
      (id : ℕ) → Emits {W = W} P (Dcim.get_devices_by_cluster_id id)
  unfolding Dcim.get_devices_by_cluster_id
  get_devices_by_cluster_id-Emits id = search service_rules depth 9

  pub get_interfaces_for_device-Emits :
      (d : Device) → Emits {W = W} P (Dcim.get_interfaces_for_device d)
  unfolding Dcim.get_interfaces_for_device
  get_interfaces_for_device-Emits d = search service_rules depth 9

  pub get_interface_for_device-Emits :
      (d : Device) (n : String) → Emits {W = W} P (Dcim.get_interface_for_device d n)
  unfolding Dcim.get_interface_for_device
  get_interface_for_device-Emits d n = search service_rules depth 9

  pub get_platform_by_name-Emits : (n : String) → Emits {W = W} P (Dcim.get_platform_by_name n)
  unfolding Dcim.get_platform_by_name
  get_platform_by_name-Emits n = search service_rules depth 9

  pub get_ip_address_by_address-Emits :
      (a : String) → Emits {W = W} P (Ipam.get_ip_address_by_address a)
  unfolding Ipam.get_ip_address_by_address
  get_ip_address_by_address-Emits a = search service_rules depth 9

  pub get_ip_addresses_for_interface-Emits :
      (id : ℕ) → Emits {W = W} P (Ipam.get_ip_addresses_for_interface id)
  unfolding Ipam.get_ip_addresses_for_interface
  get_ip_addresses_for_interface-Emits id = search service_rules depth 9

  pub get_ip_address_for_interface-Emits :
      (id : ℕ) → Emits {W = W} P (Ipam.get_ip_address_for_interface id)
  unfolding Ipam.get_ip_address_for_interface
  get_ip_address_for_interface-Emits id =
      search (service_rules, get_ip_addresses_for_interface-Emits) depth 9

  pub get_prefixes_by_region_role-Emits :
      (region role : String) → Emits {W = W} P (Ipam.get_prefixes_by_region_role region role)
  unfolding Ipam.get_prefixes_by_region_role
  get_prefixes_by_region_role-Emits region role = search service_rules depth 9

  pub get_prefixes_by_prefix-Emits :
      (prefix : String) → Emits {W = W} P (Ipam.get_prefixes_by_prefix prefix)
  unfolding Ipam.get_prefixes_by_prefix
  get_prefixes_by_prefix-Emits prefix = search service_rules depth 9

  pub update_device-Emits :
      (d : WritableDevice) → P (update_device d) → Emits {W = W} P (Dcim.update_device d)
  unfolding Dcim.update_device
  update_device-Emits d h = search service_rules depth 9

  pub update_interface-Emits :
      (i : WritableInterface) (id : ℕ)
      → P (update_interface i id)
      → Emits {W = W} P (Dcim.update_interface i id)
  unfolding Dcim.update_interface
  update_interface-Emits i id h = search service_rules depth 9

  pub delete_interface-Emits :
      (id : ℕ) → P (delete_interface id) → Emits {W = W} P (Dcim.delete_interface id)
  unfolding Dcim.delete_interface
  delete_interface-Emits id h = search service_rules depth 9

  pub delete_ip_address-Emits :
      (id : ℕ) → P (delete_ip_address id) → Emits {W = W} P (Ipam.delete_ip_address id)
  unfolding Ipam.delete_ip_address
  delete_ip_address-Emits id h = search service_rules depth 9

  pub create_ip_address-Emits :
      (p : Ipam.CreateIpAddressParams)
      → P (create_ip_address (Ipam.new_ip_address p))
      → Emits {W = W} P (Ipam.create_ip_address p)
  unfolding Ipam.create_ip_address
  create_ip_address-Emits p h = search service_rules depth 9

  pub get_region_for_device-Emits : (d : Device) → Emits {W = W} P (Dcim.get_region_for_device d)
  unfolding Dcim.get_region_for_device
  get_region_for_device-Emits d = search service_rules depth 9

  pub get_interface_by_id-Emits : (id : ℕ) → Emits {W = W} P (Dcim.get_interface_by_id id)
  unfolding Dcim.get_interface_by_id
  get_interface_by_id-Emits id = search service_rules depth 9

  pub get_interfaces_by_lag_id-Emits : (id : ℕ) → Emits {W = W} P (Dcim.get_interfaces_by_lag_id id)
  unfolding Dcim.get_interfaces_by_lag_id
  get_interfaces_by_lag_id-Emits id = search service_rules depth 9

  pub get_prefixes_containing-Emits :
      (a : String) → Emits {W = W} P (Ipam.get_prefixes_containing a)
  unfolding Ipam.get_prefixes_containing
  get_prefixes_containing-Emits a = search service_rules depth 9
