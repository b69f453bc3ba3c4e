-- ===== src/Controller/IronCore/Calls/Existing.antt =====
-- What `reconcileDevice` of internal/controller/ironcore_controller.go does for a BMC that is there.
use argora.Base.{String, ◌≡◌, refl, Dict, str_eq}
use argora.Errors.{ok}
use argora.Api.{ClusterSelector, ClusterImport}
use argora.Models.Netbox.{Device, Cluster}
use argora.Models.Kubernetes.{Bmc, BmcSecret, key_of}
use argora.World.{World}
use argora.Effect.{Call, put_bmc_secret, patch_bmc, Sys}
use argora.Effect.Emits.{
  weaken, Emits, Emits-if, Emits-pure, Emits-bind, Emits-ask, Emits-require, Emits-lift,
  Emits-wrap_error,
}
use argora.Effect.Returns.{
  ReturnedBy, Returns-self, Returns-require, Returns-wrap_error, Emits-bind-Returns,
  Emits-on_result-answered,
}
use argora.Netbox.Emitted.{get_region_for_device-Emits}
use argora.Controller.Constants.{device_status_active}
use argora.Controller.IronCore.{common_labels, reconcile_resources, reconcile_device}
use argora.Controller.IronCore.Secrets.{BmcCredentials, bmc_secret_values}
use argora.Controller.IronCore.Bmcs.{labelled}
use argora.Controller.IronCore.Resolved.{IsResolved}
use argora.Controller.IronCore.Calls.{IsPut, IsLabelling, ask_bmc}
use argora.Controller.IronCore.Calls.Sent.{reconcile_bmc_secret-Emits, patch_bmc_labels-Emits}

-- The resolved credentials and the labels are put into the secret of the device, which is a new one or
-- one that the cluster has returned and that is not to be ignored; or the labels are added to a BMC
-- that the cluster has returned for the device.
pub data Refreshes (W : World) (cr : ClusterImport) (selector : ClusterSelector) (device : Device)
    (labels : Dict String) : Call → Type 0 where
  puts :
      (o : BmcSecret) (c : BmcCredentials)
      → IsPut W device o
      → IsResolved W cr selector c
      → Refreshes W cr selector device labels
          (put_bmc_secret (key_of o.meta) labels (bmc_secret_values W c))
  relabels :
      (bmc : Bmc)
      → ReturnedBy (ask_bmc W device) bmc
      → Refreshes W cr selector device labels (patch_bmc bmc (labelled bmc labels))

-- With the labels of the device
pub record IsRefresh (W : World) (cr : ClusterImport) (selector : ClusterSelector)
    (cluster : Cluster) (device : Device) (c : Call) : Type 0 where
  pub labels : Dict String
  pub is_labelling : IsLabelling W cluster device labels
  pub refreshes : Refreshes W cr selector device labels c

-- A BMC with that name is in the cluster whenever it is asked for.
abbrev pub HasBmc : (W : World) → Device → Type 0
HasBmc W device = (s : Sys W) → (bmc : Bmc) × ((ask_bmc W device s).0 ≡ ok bmc)

module _ {W : World} (cr : ClusterImport) (selector : ClusterSelector) (device : Device) where
  reconcile_resources-Refreshes :
      (oob_ip : String) (labels : Dict String)
      → HasBmc W device
      → Emits {W = W}
          (Refreshes W cr selector device labels)
          (reconcile_resources cr selector device oob_ip labels)
  unfolding reconcile_resources
  reconcile_resources-Refreshes oob_ip labels has =
      Emits-bind _ _
        (Emits-wrap_error _ _ (reconcile_bmc_secret-Emits cr selector device labels puts))
        (λ secret. Emits-on_result-answered _ _ _ (Emits-ask _) has (λ bmc from.
          Emits-wrap_error _ _ (patch_bmc_labels-Emits device labels relabels bmc from)))

module _ {W : World} where
  -- While the cluster has a BMC of the name, `reconcileDevice` sends no call but the one that puts the
  -- resolved credentials and the labels of the device into its secret, which is a new one or one that
  -- the cluster has returned without the annotation by which it is ignored, and the one that adds these
  -- labels to a BMC that the cluster has returned for the device: the secret is not made owned by the
  -- BMC, also where an earlier run has created the BMC and failed before that.
  pub reconcile_device-IsRefresh :
      (cr : ClusterImport) (selector : ClusterSelector) (cluster : Cluster) (device : Device)
      → HasBmc W device
      → Emits {W = W}
          (IsRefresh W cr selector cluster device)
          (reconcile_device cr selector cluster device)
  unfolding reconcile_device
  reconcile_device-IsRefresh cr selector cluster device has =
      Emits-if (str_eq device.status_value device_status_active) _ _
        (λ _. Emits-bind-Returns _ _ (Emits-require _ _) (Returns-require _ _) (λ name splits.
          Emits-bind-Returns _ _ (Emits-wrap_error _ _ (get_region_for_device-Emits device))
            (Returns-wrap_error _ _ (Returns-self _))
            (λ region is_region. Emits-bind _ _ (Emits-wrap_error _ _ (Emits-lift _)) (λ oob_ip.
              weaken _
                (λ c refreshes. record {
                  labels = common_labels region name cluster device;
                  is_labelling = record {
                    name = name;
                    region = region;
                    splits = splits;
                    is_region = is_region;
                    is_labels = refl;
                  };
                  refreshes = refreshes;
                })
                (reconcile_resources-Refreshes cr selector device oob_ip
                  (common_labels region name cluster device) has)))))
        (λ _. Emits-pure tt)
