-- ===== src/Controller/Update.antt =====
-- internal/controller/update_controller.go: `UpdateReconciler`, which corrects NetBox data of the
-- devices that an `Update` resource selects.
pub mod Order
pub mod Completed
pub mod Devices
pub mod Finished
pub mod Whole
use argora.Base.{
  ℕ, String, ◌<>◌, Bool, not, ◌||◌, Option, none, some, List, [], ◌∷◌, ◌==◌, str_eq, contains,
  if◌then◌else◌, false,
}
use argora.Go.Strings.{has_prefix}
use argora.Go.Strconv.{itoa}
use argora.Errors.{Error, wrapped, is_not_found}
use argora.Models.Netbox.{Device, Interface, IpAddress, Cluster}
use argora.Models.Kubernetes.{ObjectKey, Bmc}
use argora.Api.{ClusterSelector, Update}
use argora.Api.Conditions.{update_succeeded, update_failed}
use argora.World.{World}
use argora.Effect.{
  patch_bmc, Action, pure, raise, ask, send, gets, on_result, wrap_error, for_each, ◌>>=◌, ◌>>◌,
}
use argora.Netbox.Clients
use argora.Netbox.Virtualization
use argora.Netbox.Dcim
use argora.Netbox.Ipam
use argora.Credentials
use argora.Status.{update_kind, fail_with, succeed}
use argora.Controller.Constants.{
  device_status_active, device_status_staged, remoteboard_interface_name,
}
use argora.Controller.Hostname.{get_remoteboard_hostname}

abbrev pub interfaces_to_rename : List String
interfaces_to_rename = "iLO" ∷ "iDRAC" ∷ "imm" ∷ "XClarity" ∷ "cimc" ∷ []

-- The body of the loop of `renameRemoteboardInterface`
unfoldable pub rename_interface : {W : World} → Device → Interface → Action W (Unit {0})
rename_interface device iface =
    if contains interfaces_to_rename iface.name
    then (wrap_error ("unable to rename " <> iface.name <> " interface: ") (
          Dcim.update_interface
            (record {
              name = remoteboard_interface_name;
              device = device.id;
              type_value = iface.type_value;
            })
            iface.id)
        >> pure tt)
    else pure tt

-- `renameRemoteboardInterface`
unfoldable pub rename_remoteboard_interface : {W : World} → Device → Action W (Unit {0})
rename_remoteboard_interface device = do
  ifaces ← Dcim.get_interfaces_for_device device
  for_each (rename_interface device) ifaces

-- `updateDeviceData`
unfoldable pub update_device_data : {W : World} → Device → Action W (Unit {0})
update_device_data {W} device = do
  iface ← Dcim.get_interface_for_device device remoteboard_interface_name
  ip_address ← Ipam.get_ip_address_for_interface iface.id
  platform ← Dcim.get_platform_by_name "GardenLinux"
  if not (device.platform.id == platform.id) || not (device.oob_ip.id == ip_address.id)
      then (Dcim.update_device
            (record (W.writeable device) { platform = platform.id; oob_ip = ip_address.id })
          >> pure tt)
      else pure tt

-- The inner loop of `removeVMKInterfacesAndIPs`
unfoldable pub delete_ip : {W : World} → IpAddress → Action W (Unit {0})
delete_ip ip =
    wrap_error ("unable to delete IP address (" <> ip.address <> "): ")
      (Ipam.delete_ip_address ip.id)

-- The outer loop of `removeVMKInterfacesAndIPs`
unfoldable pub remove_vmk_interface : {W : World} → Interface → Action W (Unit {0})
remove_vmk_interface iface =
    if has_prefix iface.name "vmk"
    then (do
      ip_addresses ← Ipam.get_ip_addresses_for_interface iface.id
      for_each delete_ip ip_addresses
      wrap_error ("unable to delete " <> iface.name <> " interface: ")
          (Dcim.delete_interface iface.id))
    else pure tt

-- `removeVMKInterfacesAndIPs`
unfoldable pub remove_vmk_interfaces_and_ips : {W : World} → Device → Action W (Unit {0})
remove_vmk_interfaces_and_ips device = do
  ifaces ← Dcim.get_interfaces_for_device device
  for_each remove_vmk_interface ifaces

-- `bmc.Spec.Hostname != nil && *bmc.Spec.Hostname == hostname`
abbrev pub has_hostname : Option String → String → Bool
has_hostname none hostname = false
has_hostname (some h) hostname = str_eq h hostname

-- The end of `updateBMCHostname`, from the check of the resource that was found
unfoldable pub patch_bmc_hostname : {W : World} → String → Bmc → Action W (Unit {0})
patch_bmc_hostname {W} hostname bmc =
    if has_hostname bmc.hostname hostname
    then pure tt
    else (let patched = record bmc { hostname = some hostname } in
        wrap_error "unable to patch BMC hostname: "
          (send {W = W} (patch_bmc bmc patched) (W.bmcs.patch bmc patched))
        >> pure tt)

-- `updateBMCHostname`: without a hostname or a BMC resource there is nothing to do.
unfoldable pub update_bmc_hostname : {W : World} → Device → Action W (Unit {0})
update_bmc_hostname {W} device =
    on_result (get_remoteboard_hostname device)
      (λ hostname.
        on_result (ask {W = W} (W.bmcs.get (record { namespace = ""; name = device.name })))
          (patch_bmc_hostname hostname)
          (λ e.
            if is_not_found e then pure tt else raise (wrapped "unable to get BMC resource: " e)))
      (λ e. pure tt)

-- `reconcileDevice`
unfoldable pub reconcile_device : {W : World} → Device → Action W (Unit {0})
reconcile_device device =
    if contains (device_status_active ∷ device_status_staged ∷ []) device.status_value
    then (do
      wrap_error ("unable to rename remoteboard interface for device " <> device.name <> ": ")
          (rename_remoteboard_interface device)
      wrap_error ("unable to update device " <> device.name <> " data: ")
          (update_device_data device)
      wrap_error ("unable to remove vmk interfaces and IPs for device " <> device.name <> ": ")
          (remove_vmk_interfaces_and_ips device)
      wrap_error ("unable to update BMC hostname for device " <> device.name <> ": ")
          (update_bmc_hostname device))
    else pure tt

abbrev pub on_cluster : Cluster → String
on_cluster cluster = cluster.name <> " (" <> itoa cluster.id <> ")"

abbrev pub device_on_cluster : Device → Cluster → String
device_on_cluster device cluster =
    device.name <> " (" <> itoa device.id <> ") on cluster " <> on_cluster cluster

-- The loops of `reconcileClusterSelection`
unfoldable pub reconcile_cluster : {W : World} → Update → Cluster → Action W (Unit {0})
reconcile_cluster {W} cr cluster =
    on_result (Dcim.get_devices_by_cluster_id cluster.id)
      (for_each (λ device. on_result (reconcile_device device) pure (λ e.
        fail_with (update_kind W) cr update_failed
          (wrapped ("unable to reconcile device " <> device_on_cluster device cluster <> ": ") e)
          e)))
      (λ e.
        fail_with (update_kind W) cr update_failed
          (wrapped ("unable to reconcile devices on cluster " <> on_cluster cluster <> ": ") e) e)

-- `reconcileClusterSelection`
unfoldable pub reconcile_cluster_selection :
    {W : World} → Update → ClusterSelector → Action W (Unit {0})
reconcile_cluster_selection {W} cr selector =
    on_result
      (Virtualization.get_clusters_by_name_region_type selector.name selector.region
        selector.cluster_type)
      (for_each (reconcile_cluster cr))
      (λ e.
        fail_with (update_kind W) cr update_failed (wrapped "unable to reconcile cluster: " e) e)

-- `Reconcile` returns the time after which it is to run again.
unfoldable pub reconcile : {W : World} → ℕ → ObjectKey → Action W ℕ
reconcile {W} interval request = do
  cr ← ask {W = W} (W.updates.get request)
  on_result Credentials.reload pure (λ e. fail_with (update_kind W) cr update_failed e e)
  credentials ← gets (λ s. s.credentials)
  on_result (Clients.reload credentials.netbox_token) pure
      (λ e. fail_with (update_kind W) cr update_failed e e)
  for_each (reconcile_cluster_selection cr) cr.clusters
  succeed (update_kind W) cr update_succeeded
  pure interval
