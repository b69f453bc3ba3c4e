-- ===== src/Controller/IronCore/Order/Whole.antt =====
-- The order of the calls of `reconcileDevice`.
use argora.Base.{String, ◌≡◌, refl, true, All, Dict, str_eq}
use argora.Models.Netbox.{Device, Cluster}
use argora.Api.{ClusterSelector, ClusterImport}
use argora.World.{World}
use argora.Effect.Emits.{Emits-lift, Emits-ask, Emits-require, Emits-wrap_error}
use argora.Effect.Returns.{Returns-any, Returns-wrap_error}
use argora.Effect.Traces.{Traces, Traces-pure, Traces-if, Traces-weaken, Traces-bind}
use argora.Effect.Traces.Calls.{Traces-Emits}
use argora.Effect.Traces.Replies.{Traces-after_reply, Traces-on_reply, Traces-wrap_error}
use argora.Netbox.Emitted.{get_region_for_device-Emits}
use argora.Controller.Constants.{device_status_active}
use argora.Controller.IronCore.{common_labels, reconcile_resources, reconcile_device}
use argora.Controller.IronCore.Calls.{ImportsActive}
use argora.Controller.IronCore.Calls.Sent.{reconcile_device-ImportsActive}
use argora.Controller.IronCore.Order.{
  nothing_sent, Finishes, not_active, imported, Interrupts, before_secret, at_secret, after_secret,
}
use argora.Controller.IronCore.Order.Parts.{
  reconcile_bmc_secret-PutsSecret, patch_bmc_labels-ProvidesBmc, create_missing_bmc-ProvidesBmc,
}
use argora.Effect.Returns.{Returns-require, Returns-self}
use argora.Controller.IronCore.Calls.{IsLabelling}

module _ {W : World} (cr : ClusterImport) (selector : ClusterSelector) (cluster : Cluster)
    (device : Device) where
  reconcile_resources-Finishes :
      (oob_ip : String) (labels : Dict String)
      → str_eq device.status_value device_status_active ≡ true
      → IsLabelling W cluster device labels
      → Traces {W = W}
          (λ u. Finishes W cluster device)
          (Interrupts W cluster device)
          (reconcile_resources cr selector device oob_ip labels)
  unfolding reconcile_resources
  reconcile_resources-Finishes oob_ip labels active is_labelling =
      Traces-bind _ _
        (Traces-wrap_error _ _ (reconcile_bmc_secret-PutsSecret device labels cr selector))
        (λ cs. at_secret labels active is_labelling)
        (λ secret cs puts.
          Traces-weaken _ (λ u ds. imported secret labels active is_labelling puts)
            (λ ds. after_secret secret labels active is_labelling puts)
            (Traces-on_reply _ _ _ (Emits-ask _) nothing_sent
              (λ bmc from.
                Traces-wrap_error _ _ (patch_bmc_labels-ProvidesBmc device labels secret bmc from))
              (λ e missing. create_missing_bmc-ProvidesBmc device labels e missing oob_ip secret)))

  pub reconcile_device-Interrupts :
      Traces {W = W}
        (λ u. Finishes W cluster device)
        (Interrupts W cluster device)
        (reconcile_device cr selector cluster device)
  unfolding reconcile_device
  reconcile_device-Interrupts =
      Traces-if (str_eq device.status_value device_status_active) _ _
        (λ active.
          Traces-after_reply _ _ (Emits-require _ _) (Returns-require _ _) (before_secret active)
            (λ name splits.
              Traces-after_reply _ _ (Emits-wrap_error _ _ (get_region_for_device-Emits device))
                (Returns-wrap_error _ _ (Returns-self _)) (before_secret active)
                (λ region is_region.
                  Traces-after_reply _ _ (Emits-wrap_error _ _ (Emits-lift _)) (Returns-any _)
                    (before_secret active)
                    (λ oob_ip _.
                      reconcile_resources-Finishes oob_ip (common_labels region name cluster device)
                        active
                        (record {
                          name = name;
                          region = region;
                          splits = splits;
                          is_region = is_region;
                          is_labels = refl;
                        })))))
        (λ inactive. Traces-pure tt (not_active inactive))

  -- `reconcileDevice` that returns `nil` has sent nothing for a device that is not active. For one
  -- that is, it has first put the secret of the device, unless it left that alone. Then it has added
  -- the labels to the BMC that the cluster has returned; or, where it has returned none, it has created
  -- the BMC and after it, if the secret was put, the very secret that was stored has become owned
  -- by what was created. If it fails or panics, the BMC was created or changed only after
  -- the secret had been put or left alone, and the secret changed only after the creation. In both
  -- cases every call is one that it may send for the device.
  pub reconcile_device-ProvidesBmc :
      Traces {W = W}
        (λ u cs. Finishes W cluster device cs × All (ImportsActive W cr selector cluster device) cs)
        (λ cs. Interrupts W cluster device cs × All (ImportsActive W cr selector cluster device) cs)
        (reconcile_device cr selector cluster device)
  reconcile_device-ProvidesBmc =
      Traces-Emits _ (reconcile_device-ImportsActive cr selector cluster device)
        reconcile_device-Interrupts
