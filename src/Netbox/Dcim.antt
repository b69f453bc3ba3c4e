-- ===== src/Netbox/Dcim.antt =====
-- internal/netbox/dcim/dcim.go
use argora.Base.{ℕ, String, ◌<>◌, List, [], ◌∷◌, ◌==◌}
use argora.Go.Strconv.{itoa}
use argora.Errors.{Error, text}
use argora.Models.Netbox.{
  Device, WritableDevice, Interface, WritableInterface, Platform, DeviceRole, Listing,
}
use argora.World.{World}
use argora.Effect.{Call, Action, pure, raise, ask, send, guard, wrap_error, first, ◌>>=◌, ◌>>◌}
use argora.Netbox.Requests.Dcim.{
  new_list_devices_request, device_with_name, device_with_id, device_with_cluster_id,
  build_list_devices_request, new_list_device_roles_request, role_with_name,
  build_list_device_roles_request, new_list_interfaces_request, interface_with_name,
  interface_with_id, interface_with_device_id, interface_with_lag_id, build_list_interfaces_request,
  new_list_platforms_request, platform_with_name, build_list_platforms_request,
}
use argora.Netbox.Clients.{dcim_service}

-- The one result of a listing whose count must be 1.
unfoldable pub only_result : {W : World} {A : Type 0} → Error → Listing A → Action W A
only_result e res = do guard (res.count == 1) e; first res.results

-- The first result of a listing that must have one.
unfoldable pub first_result : {W : World} {A : Type 0} → Error → List A → Action W A
first_result e [] = raise e
first_result e (x ∷ xs) = pure x

-- `GetDeviceByName`
unfoldable pub get_device_by_name : {W : World} → String → Action W (Device)
unfolding only_result first_result
get_device_by_name {W} device_name = do
  client ← dcim_service {W = W}
  let request =
      build_list_devices_request (new_list_devices_request (device_with_name device_name ∷ []))
  res ←
      wrap_error ("unable to list devices by name " <> device_name <> ": ")
        (ask {W = W} (W.list_devices client request))
  only_result
      (text
        ("unexpected number of devices found by name " <> device_name <> ": " <> itoa res.count))
      res

-- `GetDeviceByID`
unfoldable pub get_device_by_id : {W : World} → ℕ → Action W (Device)
unfolding only_result first_result
get_device_by_id {W} id = do
  client ← dcim_service {W = W}
  let request = build_list_devices_request (new_list_devices_request (device_with_id id ∷ []))
  res ←
      wrap_error ("unable to list devices for ID " <> itoa id <> ": ")
        (ask {W = W} (W.list_devices client request))
  only_result
      (text ("unexpected number of devices found for ID " <> itoa id <> ": " <> itoa res.count)) res

-- `GetDevicesByClusterID`
unfoldable pub get_devices_by_cluster_id : {W : World} → ℕ → Action W (List Device)
unfolding only_result first_result
get_devices_by_cluster_id {W} cluster_id = do
  client ← dcim_service {W = W}
  let request =
      build_list_devices_request (new_list_devices_request (device_with_cluster_id cluster_id ∷ []))
  res ←
      wrap_error ("unable to liste devices by cluster ID " <> itoa cluster_id <> ": ")
        (ask {W = W} (W.list_devices client request))
  pure res.results

-- `GetRoleByName`
unfoldable pub get_role_by_name : {W : World} → String → Action W (DeviceRole)
unfolding only_result first_result
get_role_by_name {W} role_name = do
  client ← dcim_service {W = W}
  let request =
      build_list_device_roles_request
        (new_list_device_roles_request (role_with_name role_name ∷ []))
  res ←
      wrap_error ("unable to list roles by name " <> role_name <> ": ")
        (ask {W = W} (W.list_device_roles client request))
  only_result
      (text ("unexpected number of roles found by name " <> role_name <> ": " <> itoa res.count))
      res

-- `GetRegionForDevice`
unfoldable pub get_region_for_device : {W : World} → Device → Action W String
get_region_for_device {W} device = do
  client ← dcim_service {W = W}
  site ←
      wrap_error ("unable to get site for ID " <> itoa device.site.id <> ": ")
        (ask {W = W} (W.get_site client device.site.id))
  region ←
      wrap_error ("unable to get region for ID " <> itoa site.region.id <> ": ")
        (ask {W = W} (W.get_region client site.region.id))
  pure region.slug

-- `GetInterfaceByID`
unfoldable pub get_interface_by_id : {W : World} → ℕ → Action W (Interface)
unfolding only_result first_result
get_interface_by_id {W} id = do
  client ← dcim_service {W = W}
  let request =
      build_list_interfaces_request (new_list_interfaces_request (interface_with_id id ∷ []))
  res ←
      wrap_error ("unable to list interface for ID " <> itoa id <> ": ")
        (ask {W = W} (W.list_interfaces client request))
  first_result (text ("interface with ID " <> itoa id <> " not found")) res.results

-- `GetInterfacesForDevice`
unfoldable pub get_interfaces_for_device : {W : World} → Device → Action W (List Interface)
unfolding only_result first_result
get_interfaces_for_device {W} device = do
  client ← dcim_service {W = W}
  let request =
      build_list_interfaces_request
        (new_list_interfaces_request (interface_with_device_id device.id ∷ []))
  res ←
      wrap_error ("unable to list interfaces for device: " <> device.name <> ": ")
        (ask {W = W} (W.list_interfaces client request))
  pure res.results

-- `GetInterfaceForDevice`
unfoldable pub get_interface_for_device : {W : World} → Device → String → Action W (Interface)
unfolding only_result first_result
get_interface_for_device {W} device iface_name = do
  client ← dcim_service {W = W}
  let request = build_list_interfaces_request (
      new_list_interfaces_request
        (interface_with_name iface_name ∷ interface_with_device_id device.id ∷ []))
  res ←
      wrap_error
        ("unable to list interfaces by name "
          <> iface_name
          <> " (device ID: "
          <> itoa device.id
          <> "): ")
        (ask {W = W} (W.list_interfaces client request))
  first_result (text (iface_name <> " interface not found")) res.results

-- `GetInterfacesByLagID`
unfoldable pub get_interfaces_by_lag_id : {W : World} → ℕ → Action W (List Interface)
unfolding only_result first_result
get_interfaces_by_lag_id {W} lag_id = do
  client ← dcim_service {W = W}
  let request =
      build_list_interfaces_request
        (new_list_interfaces_request (interface_with_lag_id lag_id ∷ []))
  res ←
      wrap_error ("unable to list interfaces for LAG ID " <> itoa lag_id <> ": ")
        (ask {W = W} (W.list_interfaces client request))
  pure res.results

-- `GetPlatformByName`
unfoldable pub get_platform_by_name : {W : World} → String → Action W (Platform)
unfolding only_result first_result
get_platform_by_name {W} platform_name = do
  client ← dcim_service {W = W}
  let request =
      build_list_platforms_request
        (new_list_platforms_request (platform_with_name platform_name ∷ []))
  res ←
      wrap_error ("unable to list platforms by name " <> platform_name <> ": ")
        (ask {W = W} (W.list_platforms client request))
  only_result
      (text (
        "unexpected number of platforms found by name " <> platform_name <> ": " <> itoa res.count))
      res

-- `UpdateDevice`
unfoldable pub update_device : {W : World} → WritableDevice → Action W Device
update_device {W} device = do
  client ← dcim_service {W = W}
  wrap_error "unable to update device: "
      (send {W = W} (Call.update_device device) (W.update_device client device))

-- `UpdateInterface`
unfoldable pub update_interface : {W : World} → WritableInterface → ℕ → Action W Interface
update_interface {W} iface id = do
  client ← dcim_service {W = W}
  wrap_error "unable to update interface: "
      (send {W = W} (Call.update_interface iface id) (W.update_interface client iface id))

-- `DeleteInterface`
unfoldable pub delete_interface : {W : World} → ℕ → Action W (Unit {0})
delete_interface {W} id = do
  client ← dcim_service {W = W}
  wrap_error ("unable to delete interface (" <> itoa id <> "): ")
      (send {W = W} (Call.delete_interface id) (W.delete_interface client id))
