-- ===== src/Netbox/Requests/Ipam.antt =====
-- internal/netbox/ipam/ipam_requests.go
use argora.Base.{ℕ, String, List, ◌==◌, str_eq, if◌then◌else◌}
use argora.Models.Netbox.{NameFilter, IpAddressFilter, PrefixFilter}
use argora.Netbox.Requests.{apply_options}

-- `ListVlanRequest`
pub record ListVlanRequest : Type 0 where
  pub name : String

abbrev no_vlan : ListVlanRequest
no_vlan = record { name = "" }

unfoldable pub new_list_vlan_request : List (ListVlanRequest → ListVlanRequest) → ListVlanRequest
unfolding apply_options
new_list_vlan_request opts = apply_options no_vlan opts

unfoldable pub vlan_with_name : String → ListVlanRequest → ListVlanRequest
vlan_with_name name r = record r { name = name }

abbrev empty_vlan_filter : NameFilter
empty_vlan_filter = record { name = "" }

unfoldable pub build_list_vlan_request : ListVlanRequest → NameFilter
build_list_vlan_request r =
    let filter : NameFilter = empty_vlan_filter in
    let filter : NameFilter =
      if str_eq r.name "" then filter else record filter { name = r.name } in
    filter

-- `ListIPAddressesRequest`
pub record ListIpAddressesRequest : Type 0 where
  pub interface_id : ℕ
  pub address : String

abbrev no_ip_addresses : ListIpAddressesRequest
no_ip_addresses = record { interface_id = 0; address = "" }

unfoldable pub new_list_ip_addresses_request :
    List (ListIpAddressesRequest → ListIpAddressesRequest) → ListIpAddressesRequest
unfolding apply_options
new_list_ip_addresses_request opts = apply_options no_ip_addresses opts

unfoldable pub ip_addresses_with_interface_id : ℕ → ListIpAddressesRequest → ListIpAddressesRequest
ip_addresses_with_interface_id interface_id r = record r { interface_id = interface_id }

unfoldable pub ip_addresses_with_address : String → ListIpAddressesRequest → ListIpAddressesRequest
ip_addresses_with_address address r = record r { address = address }

abbrev empty_ip_address_filter : IpAddressFilter
empty_ip_address_filter = record { interface_id = 0; address = "" }

unfoldable pub build_list_ip_addresses_request : ListIpAddressesRequest → IpAddressFilter
build_list_ip_addresses_request r =
    let filter : IpAddressFilter = empty_ip_address_filter in
    let filter : IpAddressFilter =
      if r.interface_id == 0 then filter else record filter { interface_id = r.interface_id } in
    let filter : IpAddressFilter =
      if str_eq r.address "" then filter else record filter { address = r.address } in
    filter

-- `ListPrefixesRequest`
pub record ListPrefixesRequest : Type 0 where
  pub contains : String
  pub region : String
  pub role : String
  pub prefix : String

abbrev no_prefixes : ListPrefixesRequest
no_prefixes = record { contains = ""; region = ""; role = ""; prefix = "" }

unfoldable pub new_list_prefixes_request :
    List (ListPrefixesRequest → ListPrefixesRequest) → ListPrefixesRequest
unfolding apply_options
new_list_prefixes_request opts = apply_options no_prefixes opts

unfoldable pub prefix_with_contains : String → ListPrefixesRequest → ListPrefixesRequest
prefix_with_contains contains r = record r { contains = contains }

unfoldable pub prefix_with_region : String → ListPrefixesRequest → ListPrefixesRequest
prefix_with_region region r = record r { region = region }

unfoldable pub prefix_with_role : String → ListPrefixesRequest → ListPrefixesRequest
prefix_with_role role r = record r { role = role }

unfoldable pub prefix_with_prefix : String → ListPrefixesRequest → ListPrefixesRequest
prefix_with_prefix prefix r = record r { prefix = prefix }

abbrev empty_prefix_filter : PrefixFilter
empty_prefix_filter = record { contains = ""; region = ""; role = ""; prefix = "" }

unfoldable pub build_list_prefixes_request : ListPrefixesRequest → PrefixFilter
build_list_prefixes_request r =
    let filter : PrefixFilter = empty_prefix_filter in
    let filter : PrefixFilter =
      if str_eq r.contains "" then filter else record filter { contains = r.contains } in
    let filter : PrefixFilter =
      if str_eq r.region "" then filter else record filter { region = r.region } in
    let filter : PrefixFilter =
      if str_eq r.role "" then filter else record filter { role = r.role } in
    let filter : PrefixFilter =
      if str_eq r.prefix "" then filter else record filter { prefix = r.prefix } in
    filter
