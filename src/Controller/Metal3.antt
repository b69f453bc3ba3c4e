-- ===== src/Controller/Metal3.antt =====
-- internal/controller/metal3_controller.go: `Metal3Reconciler`, which makes a `BareMetalHost` and its
-- secrets for each active device of the NetBox cluster that a Cluster API cluster is named after.
pub mod Order
pub mod Completed
pub mod Calls
pub mod Hints
pub mod Mac
pub mod Roles
pub mod Progress
pub mod Network
use argora.Base.{
  ℕ, String, ◌<>◌, Bool, true, false, ◌||◌, Option, none, some, List, [], ◌∷◌, length, ltb, str_eq,
  if◌then◌else◌, Dict,
}
use argora.Go.Strings.{split_dash}
use argora.Errors.{text, Result, err}
use argora.Models.Netbox.{Device, Cluster}
use argora.Models.Kubernetes.{ObjectKey, Secret, CapiCluster, BareMetalHost, object_meta, key_of}
use argora.World.{World}
use argora.Effect
use argora.Effect.{
  put_secret, create_bare_metal_host, Action, pure, raise, lift, ask, send, gets, require, guard,
  on_result, wrap_error, for_each, ◌>>=◌, ◌>>◌,
}
use Hints.{create_root_hint, get_role_from_tags, create_redfish_url}
use Mac.{get_mac_for_ip}
use Network.{create_network_data_secret}
use argora.Netbox.Clients
use argora.Netbox.Virtualization
use argora.Netbox.Dcim
use argora.Credentials
use argora.Controller.Constants.{device_status_active}
use argora.Controller.IronCore.{NodeName, two_parts}
use argora.Controller.IronCore.Secrets.{is_ignored, value_at}

-- `ClusterRoleLabel`
abbrev pub cluster_role_label : String
cluster_role_label = "discovery.inf.sap.cloud/clusterRole"

-- The data of the secret
abbrev pub secret_values : String → String → Dict String
secret_values user password = ("username", user) ∷ ("password", password) ∷ []

-- The function that `CreateOrUpdate` is given
abbrev pub set_secret : Dict String → Secret → Secret
set_secret values o = record o { values = some values }

abbrev pub empty_secret : CapiCluster → Device → Secret
empty_secret cluster device = record {
  meta = object_meta cluster.meta.namespace ("bmc-secret-" <> device.name);
  values = none;
  string_values = none;
}

-- `CreateOrUpdate` of the secret, from the object that the variable holds
unfoldable pub put_bmc_credentials : {W : World} → Dict String → Secret → Action W (Secret × Bool)
put_bmc_credentials {W} values o =
    send {W = W} (put_secret (key_of o.meta) values)
      (W.create_or_update_secret (set_secret values) o)
    >>= λ stored. pure (stored, false)

-- `reconcileBmcSecret` from `Get` on. The flag says that the secret is skipped. After a `Get` that
-- fails the variable is as it was.
unfoldable pub reconcile_found_secret :
    {W : World} → CapiCluster → Device → Effect.Credentials → Action W (Secret × Bool)
reconcile_found_secret {W} cluster device c =
    let values = secret_values c.bmc_user c.bmc_password in
    let o = empty_secret cluster device in
    on_result (ask {W = W} (W.secrets.get (key_of o.meta)))
      (λ found.
        if is_ignored found.meta then pure (found, true) else put_bmc_credentials values found)
      (λ e. put_bmc_credentials values o)

-- `reconcileBmcSecret`
unfoldable pub reconcile_bmc_secret : {W : World} → CapiCluster → Device → Action W (Secret × Bool)
reconcile_bmc_secret cluster device = do
  c ← gets (λ s. s.credentials)
  if str_eq c.bmc_user "" || str_eq c.bmc_password ""
      then raise (text "bmc user or password not set")
      else reconcile_found_secret cluster device c

-- The host that `reconcileDevice` creates
unfoldable pub new_host :
    CapiCluster
    → Device
    → Secret
    → String
    → NodeName
    → String
    → String
    → String
    → String
    → BareMetalHost
new_host cluster device secret redfish_url name root_hint mac region role = record {
  meta = record (object_meta cluster.meta.namespace device.name) {
    labels = some (
        ("kubernetes.metal.cloud.sap/cluster", cluster.meta.name)
        ∷ ("kubernetes.metal.cloud.sap/name", device.name)
        ∷ ("kubernetes.metal.cloud.sap/bb", name.bb)
        ∷ ("kubernetes.metal.cloud.sap/role", role)
        ∷ ("topology.kubernetes.io/region", region)
        ∷ ("topology.kubernetes.io/zone", device.site.slug)
        ∷ []);
  };
  architecture = "x86_64";
  automated_cleaning_mode = "disabled";
  online = true;
  bmc_address = redfish_url;
  bmc_credentials_name = secret.meta.name;
  bmc_disable_certificate_verification = true;
  boot_mac_address = mac;
  network_data = record {
    namespace = cluster.meta.namespace;
    name = "networkdata-" <> device.name;
  };
  root_device_model = root_hint;
}

-- `reconcileDevice` where no host was found: a MAC address that cannot be had is left empty.
unfoldable pub create_host : {W : World} → CapiCluster → Device → Secret → Action W (Unit {0})
create_host {W} cluster device secret = do
  redfish_url ←
      on_result (lift (create_redfish_url W device)) pure
        (λ e. raise (text "unable to create redfish url"))
  name ←
      require (two_parts (split_dash device.name))
        (text ("unable to split in two device name: " <> device.name))
  root_hint ← wrap_error "unable to create root hint: " (lift (create_root_hint device))
  mac ← on_result (get_mac_for_ip device.primary_ip4.address) pure (λ e. pure "")
  region ← wrap_error "unable to get region for device: " (Dcim.get_region_for_device device)
  role ← wrap_error "unable to get role from tags: " (lift (get_role_from_tags device))
  let host = new_host cluster device secret redfish_url name root_hint mac region role
  created ←
      wrap_error "unable to create baremetal host: "
        (send {W = W} (create_bare_metal_host host) (W.bare_metal_hosts.create host))
  wrap_error "unable to create network data: "
      (create_network_data_secret created cluster device role ("networkdata-" <> device.name))

-- `reconcileDevice`
unfoldable pub reconcile_device : {W : World} → CapiCluster → Device → Action W (Unit {0})
reconcile_device {W} cluster device =
    if str_eq device.status_value device_status_active
    then (do
      secret ← wrap_error "unable to reconcile bmc secret: " (reconcile_bmc_secret cluster device)
      on_result
          (ask {W = W} (
            W.bare_metal_hosts.get
              (record { namespace = cluster.meta.namespace; name = device.name })))
          (λ host. pure tt) (λ e. create_host cluster device secret.0))
    else pure tt

-- The body of the loop over the clusters, of which there is one at most
unfoldable pub reconcile_cluster : {W : World} → CapiCluster → Cluster → Action W (Unit {0})
reconcile_cluster capi_cluster cluster = do
  devices ← Dcim.get_devices_by_cluster_id cluster.id
  for_each (reconcile_device capi_cluster) devices

-- `Reconcile` returns the time after which it is to run again.
unfoldable pub reconcile : {W : World} → ℕ → ObjectKey → Action W ℕ
reconcile {W} interval request = do
  Credentials.reload
  credentials ← gets (λ s. s.credentials)
  Clients.reload credentials.netbox_token
  capi_cluster ← ask {W = W} (W.capi_clusters.get request)
  let cluster_type = value_at cluster_role_label capi_cluster.meta.labels
  clusters ← Virtualization.get_clusters_by_name_region_type capi_cluster.meta.name "" cluster_type
  if ltb 1 (length clusters)
      then raise (text "multiple clusters found")
      else (for_each (reconcile_cluster capi_cluster) clusters >> pure interval)
