-- ===== src/Netbox/Requests/Dcim.antt =====
-- internal/netbox/dcim/dcim_requests.go
use argora.Base.{ℕ, String, List, ◌==◌, str_eq, if◌then◌else◌}
use argora.Models.Netbox.{DeviceFilter, NameFilter, InterfaceFilter}
use argora.Netbox.Requests.{apply_options}

-- `ListDevicesRequest`
pub record ListDevicesRequest : Type 0 where
  pub name : String
  pub id : ℕ
  pub cluster_id : ℕ

abbrev no_devices : ListDevicesRequest
no_devices = record { name = ""; id = 0; cluster_id = 0 }

unfoldable pub new_list_devices_request :
    List (ListDevicesRequest → ListDevicesRequest) → ListDevicesRequest
unfolding apply_options
new_list_devices_request opts = apply_options no_devices opts

unfoldable pub device_with_name : String → ListDevicesRequest → ListDevicesRequest
device_with_name name r = record r { name = name }

unfoldable pub device_with_id : ℕ → ListDevicesRequest → ListDevicesRequest
device_with_id id r = record r { id = id }

unfoldable pub device_with_cluster_id : ℕ → ListDevicesRequest → ListDevicesRequest
device_with_cluster_id cluster_id r = record r { cluster_id = cluster_id }

abbrev empty_device_filter : DeviceFilter
empty_device_filter = record { limit = 0; name = ""; id = 0; cluster_id = 0 }

unfoldable pub build_list_devices_request : ListDevicesRequest → DeviceFilter
build_list_devices_request r =
    let filter : DeviceFilter = empty_device_filter in
    let filter : DeviceFilter = record filter { limit = 1000 } in
    let filter : DeviceFilter =
      if str_eq r.name "" then filter else record filter { name = r.name } in
    let filter : DeviceFilter = if r.id == 0 then filter else record filter { id = r.id } in
    let filter : DeviceFilter =
      if r.cluster_id == 0 then filter else record filter { cluster_id = r.cluster_id } in
    filter

-- `ListDeviceRolesRequest`
pub record ListDeviceRolesRequest : Type 0 where
  pub name : String

abbrev no_device_roles : ListDeviceRolesRequest
no_device_roles = record { name = "" }

unfoldable pub new_list_device_roles_request :
    List (ListDeviceRolesRequest → ListDeviceRolesRequest) → ListDeviceRolesRequest
unfolding apply_options
new_list_device_roles_request opts = apply_options no_device_roles opts

unfoldable pub role_with_name : String → ListDeviceRolesRequest → ListDeviceRolesRequest
role_with_name name r = record r { name = name }

abbrev empty_role_filter : NameFilter
empty_role_filter = record { name = "" }

unfoldable pub build_list_device_roles_request : ListDeviceRolesRequest → NameFilter
build_list_device_roles_request r =
    let filter : NameFilter = empty_role_filter in
    let filter : NameFilter =
      if str_eq r.name "" then filter else record filter { name = r.name } in
    filter

-- `ListInterfacesRequest`
pub record ListInterfacesRequest : Type 0 where
  pub name : String
  pub id : ℕ
  pub device_id : ℕ
  pub lag_id : ℕ

abbrev no_interfaces : ListInterfacesRequest
no_interfaces = record { name = ""; id = 0; device_id = 0; lag_id = 0 }

unfoldable pub new_list_interfaces_request :
    List (ListInterfacesRequest → ListInterfacesRequest) → ListInterfacesRequest
unfolding apply_options
new_list_interfaces_request opts = apply_options no_interfaces opts

unfoldable pub interface_with_name : String → ListInterfacesRequest → ListInterfacesRequest
interface_with_name name r = record r { name = name }

unfoldable pub interface_with_id : ℕ → ListInterfacesRequest → ListInterfacesRequest
interface_with_id id r = record r { id = id }

unfoldable pub interface_with_device_id : ℕ → ListInterfacesRequest → ListInterfacesRequest
interface_with_device_id device_id r = record r { device_id = device_id }

unfoldable pub interface_with_lag_id : ℕ → ListInterfacesRequest → ListInterfacesRequest
interface_with_lag_id lag_id r = record r { lag_id = lag_id }

abbrev empty_interface_filter : InterfaceFilter
empty_interface_filter = record { name = ""; id = 0; device_id = 0; lag_id = 0 }

unfoldable pub build_list_interfaces_request : ListInterfacesRequest → InterfaceFilter
build_list_interfaces_request r =
    let filter : InterfaceFilter = empty_interface_filter in
    let filter : InterfaceFilter =
      if str_eq r.name "" then filter else record filter { name = r.name } in
    let filter : InterfaceFilter = if r.id == 0 then filter else record filter { id = r.id } in
    let filter : InterfaceFilter =
      if r.device_id == 0 then filter else record filter { device_id = r.device_id } in
    let filter : InterfaceFilter =
      if r.lag_id == 0 then filter else record filter { lag_id = r.lag_id } in
    filter

-- `ListPlatformsRequest`
pub record ListPlatformsRequest : Type 0 where
  pub name : String

abbrev no_platforms : ListPlatformsRequest
no_platforms = record { name = "" }

unfoldable pub new_list_platforms_request :
    List (ListPlatformsRequest → ListPlatformsRequest) → ListPlatformsRequest
unfolding apply_options
new_list_platforms_request opts = apply_options no_platforms opts

unfoldable pub platform_with_name : String → ListPlatformsRequest → ListPlatformsRequest
platform_with_name name r = record r { name = name }

abbrev empty_platform_filter : NameFilter
empty_platform_filter = record { name = "" }

unfoldable pub build_list_platforms_request : ListPlatformsRequest → NameFilter
build_list_platforms_request r =
    let filter : NameFilter = empty_platform_filter in
    let filter : NameFilter =
      if str_eq r.name "" then filter else record filter { name = r.name } in
    filter
