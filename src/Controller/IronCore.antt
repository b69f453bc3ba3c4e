-- ===== src/Controller/IronCore.antt =====
-- internal/controller/ironcore_controller.go: `IronCoreReconciler`, which makes a `BMC` and a
-- `BMCSecret` for each active device of the clusters that a `ClusterImport` resource selects.
pub mod Order
pub mod Completed
pub mod Secrets
pub mod Bmcs
pub mod Resolved
pub mod Calls
pub mod Finished
pub mod Labels
pub mod Progress
pub mod Naming
use argora.Base.{
  ℕ, String, ◌<>◌, Bool, Option, none, some, List, [], ◌∷◌, str_eq, if◌then◌else◌, Dict,
}
use argora.Go.Strings.{split_dash}
use argora.Errors.{text, wrapped}
use argora.Models.Netbox.{Device, Cluster}
use argora.Models.Kubernetes.{ObjectKey, Bmc, BmcSecret, object_meta, key_of}
use argora.Api.{ClusterSelector, ClusterImport}
use argora.Api.Conditions.{cluster_import_succeeded, cluster_import_failed}
use argora.World.{World}
use argora.Effect.{
  Action, pure, lift, ask, gets, require, on_result, wrap_error, for_each, ◌>>=◌, ◌>>◌,
}
use Secrets.{reconcile_bmc_secret}
use Bmcs.{get_oob_ip, create_bmc_resource, patch_owner_reference, patch_bmc_labels}
use argora.Netbox.Clients
use argora.Netbox.Virtualization
use argora.Netbox.Dcim
use argora.Credentials
use argora.Status.{cluster_import_kind, fail_with, succeed}
use argora.Controller.Constants.{device_status_active}
use argora.Controller.Hostname.{get_remoteboard_hostname}
use argora.Controller.Update.{on_cluster, device_on_cluster}

-- The name of a device is the name of the node, a dash, and the building block.
pub record NodeName : Type 0 where
  pub nodename : String
  pub bb : String

-- Exactly two parts
abbrev pub two_parts : List String → Option NodeName
two_parts (n ∷ b ∷ []) = some (record { nodename = n; bb = b })
two_parts _ = none

-- `commonLabels`
unfoldable pub common_labels : String → NodeName → Cluster → Device → Dict String
common_labels region n cluster device =
    ("topology.kubernetes.io/region", region)
    ∷ ("topology.kubernetes.io/zone", device.site.slug)
    ∷ ("kubernetes.metal.cloud.sap/cluster", cluster.name)
    ∷ ("kubernetes.metal.cloud.sap/cluster-type", cluster.type_slug)
    ∷ ("kubernetes.metal.cloud.sap/name", device.name)
    ∷ ("kubernetes.metal.cloud.sap/nodename", n.nodename)
    ∷ ("kubernetes.metal.cloud.sap/bb", n.bb)
    ∷ ("kubernetes.metal.cloud.sap/type", device.device_type.slug)
    ∷ ("kubernetes.metal.cloud.sap/role", device.device_role.slug)
    ∷ ("kubernetes.metal.cloud.sap/platform", device.platform.slug)
    ∷ []

-- The end of `reconcileDevice`, where no `BMC` was found: a hostname that cannot be had is left out.
unfoldable pub create_missing_bmc :
    {W : World} → Device → String → Dict String → BmcSecret × Bool → Action W (Unit {0})
create_missing_bmc device oob_ip labels secret = do
  hostname ← on_result (get_remoteboard_hostname device) pure (λ e. pure "")
  bmc ←
      wrap_error "unable to create bmc: "
        (create_bmc_resource device oob_ip hostname secret.0 labels)
  if secret.1 then pure tt else patch_owner_reference bmc secret.0

-- `reconcileDevice` from the secret on
unfoldable pub reconcile_resources :
    {W : World}
    → ClusterImport
    → ClusterSelector
    → Device
    → String
    → Dict String
    → Action W (Unit {0})
reconcile_resources {W} cr selector device oob_ip labels = do
  secret ←
      wrap_error "unable to reconcile bmc secret: " (reconcile_bmc_secret cr selector device labels)
  on_result (ask {W = W} (W.bmcs.get (key_of (object_meta "" device.name))))
      (λ bmc. wrap_error "unable to patch BMC labels: " (patch_bmc_labels bmc labels))
      (λ e. create_missing_bmc device oob_ip labels secret)

-- `reconcileDevice`
unfoldable pub reconcile_device :
    {W : World} → ClusterImport → ClusterSelector → Cluster → Device → Action W (Unit {0})
reconcile_device {W} cr selector cluster device =
    if str_eq device.status_value device_status_active
    then (do
      name ←
          require (two_parts (split_dash device.name))
            (text ("unable to split in two device name: " <> device.name))
      region ← wrap_error "unable to get region for device: " (Dcim.get_region_for_device device)
      oob_ip ← wrap_error "unable to get OOB IP: " (lift (get_oob_ip W device))
      reconcile_resources cr selector device oob_ip (common_labels region name cluster device))
    else pure tt

-- The loops of `reconcileClusterSelection`
unfoldable pub reconcile_cluster :
    {W : World} → ClusterImport → ClusterSelector → Cluster → Action W (Unit {0})
reconcile_cluster {W} cr selector cluster =
    on_result (Dcim.get_devices_by_cluster_id cluster.id)
      (for_each (λ device. on_result (reconcile_device cr selector cluster device) pure (λ e.
        fail_with (cluster_import_kind W) cr cluster_import_failed
          (wrapped ("unable to reconcile device " <> device_on_cluster device cluster <> ": ") e)
          e)))
      (λ e.
        fail_with (cluster_import_kind W) cr cluster_import_failed
          (wrapped ("unable to reconcile devices on cluster " <> on_cluster cluster <> ": ") e) e)

-- `reconcileClusterSelection`
unfoldable pub reconcile_cluster_selection :
    {W : World} → ClusterImport → ClusterSelector → Action W (Unit {0})
reconcile_cluster_selection {W} cr selector =
    on_result
      (Virtualization.get_clusters_by_name_region_type selector.name selector.region
        selector.cluster_type)
      (for_each (reconcile_cluster cr selector))
      (λ e.
        fail_with (cluster_import_kind W) cr cluster_import_failed
          (wrapped "unable to reconcile cluster: " e) e)

-- `Reconcile` returns the time after which it is to run again.
unfoldable pub reconcile : {W : World} → ℕ → ObjectKey → Action W ℕ
reconcile {W} interval request = do
  cr ← ask {W = W} (W.cluster_imports.get request)
  on_result Credentials.reload pure
      (λ e. fail_with (cluster_import_kind W) cr cluster_import_failed e e)
  credentials ← gets (λ s. s.credentials)
  on_result (Clients.reload credentials.netbox_token) pure
      (λ e. fail_with (cluster_import_kind W) cr cluster_import_failed e e)
  for_each (reconcile_cluster_selection cr) cr.clusters
  succeed (cluster_import_kind W) cr cluster_import_succeeded
  pure interval
