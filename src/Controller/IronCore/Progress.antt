-- ===== src/Controller/IronCore/Progress.antt =====
-- When `reconcileDevice` of internal/controller/ironcore_controller.go creates a BMC.
use argora.Base.{String, Bool, ◌≡◌, some}
use argora.Go.Strings.{split_dash}
use argora.Errors.{Error, ok, err}
use argora.Api.{ClusterSelector, ClusterImport}
use argora.Models.Netbox.{Device, Cluster}
use argora.Models.Kubernetes.{Bmc, BmcSecret}
use argora.World.{World}
use argora.Effect.{Sys, pure, on_result}
use argora.Effect.Emits.{Emits}
use argora.Effect.Sends.{Sends}
use argora.Netbox.Dcim
use argora.Controller.Constants.{device_status_active}
use argora.Controller.Hostname.{get_remoteboard_hostname}
use argora.Controller.IronCore.{NodeName, two_parts, common_labels}
use argora.Controller.IronCore.Secrets.{reconcile_bmc_secret}
use argora.Controller.IronCore.Bmcs.{get_oob_ip, new_bmc}
use argora.Controller.IronCore.Calls.{ask_bmc}

module _ (W : World) (cr : ClusterImport) (selector : ClusterSelector) (cluster : Cluster)
    (device : Device) where
  -- The replies of a run that reaches the creation of the BMC: each step succeeds, the BMC is not
  -- there, and the steps run from the state `start` through those that are named.
  pub record ReachesBmc (start : Sys W) (bmc : Bmc) : Type 0 where
    pub name : NodeName
    pub region : String
    pub oob_ip : String
    pub ip : String
    pub secret : BmcSecret × Bool
    pub hostname : String
    pub missing : Error
    pub after_region : Sys W
    pub after_secret : Sys W
    pub after_get : Sys W
    pub after_hostname : Sys W
    pub is_active : device.status_value ≡ device_status_active
    pub splits : two_parts (split_dash device.name) ≡ some name
    pub region_runs : Dcim.get_region_for_device device start ≡ (ok region, after_region)
    pub is_oob : get_oob_ip W device ≡ ok oob_ip
    pub secret_runs :
        reconcile_bmc_secret cr selector device
          (common_labels region name cluster device)
          after_region
        ≡ (ok secret, after_secret)
    pub get_runs : ask_bmc W device after_secret ≡ (err missing, after_get)
    pub hostname_runs :
        on_result (get_remoteboard_hostname device) pure (λ e. pure "") after_get
        ≡ (ok hostname, after_hostname)
    pub is_ip : W.parse_ip oob_ip ≡ ok ip
    pub is_bmc :
        bmc ≡ new_bmc device ip hostname secret.0 (common_labels region name cluster device)
