-- ===== src/Controller/Metal3/Progress.antt =====
-- When `reconcileDevice` of internal/controller/metal3_controller.go creates a host.
use argora.Base.{String, Bool, ◌<>◌, ◌≡◌, refl, some, str_eq_iff}
use argora.Go.Strings.{split_dash}
use argora.Errors.{Error, text, ok, err}
use argora.Models.Netbox.{Device}
use argora.Models.Kubernetes.{Secret, CapiCluster, BareMetalHost}
use argora.World.{World}
use argora.Effect.{create_bare_metal_host, Sys, pure, raise, on_result, wrap_error, ◌>>=◌, lift}
use argora.Effect.Emits.{Emits-wrap_error}
use argora.Effect.Sends.{
  Sends, Sends-send, Sends-wrap_error, Sends-bind, Sends-first, Sends-on_result-err, run-wrap_error,
  run-lift, run-require,
}
use argora.Netbox.Dcim
use argora.Controller.Constants.{device_status_active}
use argora.Controller.IronCore.{NodeName, two_parts}
use argora.Controller.Metal3.{new_host, create_host, reconcile_bmc_secret, reconcile_device}
use argora.Controller.Metal3.Hints.{create_root_hint, get_role_from_tags, create_redfish_url}
use argora.Controller.Metal3.Mac.{get_mac_for_ip}
use argora.Controller.Metal3.Network.{create_network_data_secret}
use argora.Controller.Metal3.Calls.{ask_host, send_host}
use argora.Controller.Metal3.Calls.Sent.{create_network_data_secret-Any}

-- The replies of a run that reaches the creation of the host: each step succeeds, the host is not
-- there, and the steps run from the state `start` through those that are named.
pub record ReachesHost (W : World) (cluster : CapiCluster) (device : Device) (start : Sys W)
    (host : BareMetalHost) : Type 0 where
  pub secret : Secret × Bool
  pub redfish_url : String
  pub name : NodeName
  pub root_hint : String
  pub mac : String
  pub region : String
  pub role : String
  pub missing : Error
  pub after_secret : Sys W
  pub after_get : Sys W
  pub after_mac : Sys W
  pub after_region : Sys W
  pub is_active : device.status_value ≡ device_status_active
  pub secret_runs : reconcile_bmc_secret cluster device start ≡ (ok secret, after_secret)
  pub get_runs : ask_host W cluster device after_secret ≡ (err missing, after_get)
  pub is_url : create_redfish_url W device ≡ ok redfish_url
  pub splits : two_parts (split_dash device.name) ≡ some name
  pub is_hint : create_root_hint device ≡ ok root_hint
  pub mac_runs :
      on_result (get_mac_for_ip device.primary_ip4.address) pure (λ e. pure "") after_get
      ≡ (ok mac, after_mac)
  pub region_runs : Dcim.get_region_for_device device after_mac ≡ (ok region, after_region)
  pub is_role : get_role_from_tags device ≡ ok role
  pub is_host : host ≡ new_host cluster device secret.0 redfish_url name root_hint mac region role

module _ {W : World} (cluster : CapiCluster) (device : Device) (start : Sys W)
    (host : BareMetalHost) (R : ReachesHost W cluster device start host) where
  send_host-Sends :
      Sends
        (create_bare_metal_host host)
        (wrap_error "unable to create baremetal host: " (send_host W host) >>= λ created.
          wrap_error "unable to create network data: " (
            create_network_data_secret created cluster device R.role
              ("networkdata-" <> device.name)))
        R.after_region
  send_host-Sends = Sends-first _ _ _ _ (Sends-wrap_error _ _ _ _ (Sends-send _ _ _)) (λ created.
      Emits-wrap_error _ _ (create_network_data_secret-Any created cluster device R.role _))

  url_runs :
      on_result
        (lift (create_redfish_url W device))
        pure
        (λ e. raise (text "unable to create redfish url"))
        R.after_get
      ≡ (ok R.redfish_url, R.after_get)
  unfolding on_result lift pure
  url_runs = rw (R.is_url) refl

  create_host-Sends :
      Sends (create_bare_metal_host host) (create_host cluster device R.secret.0) R.after_get
  unfolding create_host
  create_host-Sends = Sends-bind _ _ _ _ _ R.redfish_url url_runs (
      Sends-bind _ _ _ _ _ R.name (run-require _ _ _ _ R.splits) (
        Sends-bind _ _ _ _ _ R.root_hint (run-wrap_error _ _ _ _ _ (run-lift _ _ _ R.is_hint)) (
          Sends-bind _ _ _ _ _ R.mac R.mac_runs (
            Sends-bind _ _ _ _ _ R.region (run-wrap_error _ _ _ _ _ R.region_runs) (
              Sends-bind _ _ _ _ _ R.role (run-wrap_error _ _ _ _ _ (run-lift _ _ _ R.is_role))
                (rw⁻¹ (R.is_host) send_host-Sends))))))

  -- An active device whose host the cluster does not have gets one: if the secret is there, and the
  -- name, the tables and NetBox give what a host needs, the run of `reconcileDevice` creates the host,
  -- whatever becomes of the secret with its network data.
  pub reconcile_device-Sends :
      Sends (create_bare_metal_host host) (reconcile_device cluster device) start
  unfolding reconcile_device
  reconcile_device-Sends =
      rw ((str_eq_iff device.status_value device_status_active).1 R.is_active) (
        Sends-bind _ _ _ _ _ R.secret (run-wrap_error _ _ _ _ _ R.secret_runs)
          (Sends-on_result-err _ _ _ _ _ R.after_get R.missing R.get_runs create_host-Sends))
