-- ===== src/Controller/IronCore/Calls.antt =====
-- Which calls `reconcileDevice` of internal/controller/ironcore_controller.go may send.
pub mod Sent
pub mod Whole
pub mod Existing
use argora.Base.{String, Bool, ◌≡◌, true, false, none, some, ◌⊎◌, Dict}
use argora.Go.Strings.{split_dash}
use argora.Errors.{Error, ok}
use argora.Models.Netbox.{Device, Cluster}
use argora.Models.Kubernetes.{Bmc, BmcSecret, key_of, object_meta}
use argora.Api.{ClusterSelector, ClusterImport}
use argora.World.{World}
use argora.Effect.{Call, put_bmc_secret, patch_bmc, patch_bmc_secret, create_bmc, Action, ask}
use argora.Effect.Returns.{ReturnedBy, FailedBy}
use argora.Netbox.Dcim
use argora.Controller.Hostname.{get_remoteboard_hostname}
use argora.Controller.Constants.{device_status_active}
use argora.Controller.IronCore.{NodeName, two_parts, common_labels}
use argora.Controller.IronCore.Secrets.{
  BmcCredentials, is_ignored, bmc_secret_values, empty_bmc_secret, reconcile_bmc_secret,
}
use argora.Controller.IronCore.Bmcs.{get_oob_ip, new_bmc, labelled}
use argora.Controller.IronCore.Resolved.{IsResolved}

-- The secret that is put: a new one, or one that the cluster has returned and that is not to be ignored
abbrev pub IsPut : (W : World) → Device → BmcSecret → Type 0
IsPut W device o =
    (o ≡ empty_bmc_secret device.name)
    ⊎ (ReturnedBy (ask {W = W} (W.bmc_secrets.get (key_of (object_meta "" device.name)))) o
        × (is_ignored o.meta ≡ false))

-- The labels of a device: its name has two parts, and NetBox has returned its region.
pub record IsLabelling (W : World) (cluster : Cluster) (device : Device) (labels : Dict String)
    : Type 0 where
  pub name : NodeName
  pub region : String
  pub splits : two_parts (split_dash device.name) ≡ some name
  pub is_region : ReturnedBy {W = W} (Dcim.get_region_for_device device) region
  pub is_labels : labels ≡ common_labels region name cluster device

-- `Get` of the BMC of a device
abbrev pub ask_bmc : (W : World) → Device → Action W Bmc
ask_bmc W device = ask {W = W} (W.bmcs.get (key_of (object_meta "" device.name)))

module _ (W : World) (cr : ClusterImport) (selector : ClusterSelector) (device : Device)
    (labels : Dict String) where
  -- The calls for one device, with labels
  pub data Imports : Call → Type 0 where
    puts_secret :
        (o : BmcSecret) (c : BmcCredentials)
        → IsPut W device o
        → IsResolved W cr selector c
        → Imports (put_bmc_secret (key_of o.meta) labels (bmc_secret_values W c))
    relabels :
        (bmc : Bmc)
        → ReturnedBy (ask_bmc W device) bmc
        → Imports (patch_bmc bmc (labelled bmc labels))
    creates :
        (e : Error) (oob_ip ip hostname : String) (secret : BmcSecret × Bool)
        → FailedBy (ask_bmc W device) e
        → (hostname ≡ "") ⊎ ReturnedBy {W = W} (get_remoteboard_hostname device) hostname
        → get_oob_ip W device ≡ ok oob_ip
        → W.parse_ip oob_ip ≡ ok ip
        → ReturnedBy {W = W} (reconcile_bmc_secret cr selector device labels) secret
        → Imports (create_bmc (new_bmc device ip hostname secret.0 labels))
    owns :
        (e : Error) (bmc : Bmc) (secret owned : BmcSecret)
        → FailedBy (ask_bmc W device) e
        → ReturnedBy {W = W} (reconcile_bmc_secret cr selector device labels) (secret, false)
        → W.set_owner_of_bmc_secret bmc secret ≡ ok owned
        → Imports (patch_bmc_secret secret owned)

-- The call is for an active device, and with its labels.
pub record ImportsActive (W : World) (cr : ClusterImport) (selector : ClusterSelector)
    (cluster : Cluster) (device : Device) (c : Call) : Type 0 where
  pub labels : Dict String
  pub is_active : device.status_value ≡ device_status_active
  pub is_labelling : IsLabelling W cluster device labels
  pub imports : Imports W cr selector device labels c
