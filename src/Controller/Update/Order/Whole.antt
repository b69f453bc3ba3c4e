-- ===== src/Controller/Update/Order/Whole.antt =====
-- The order of the calls of `reconcileDevice`.
use argora.Base.{[], ◌∷◌, contains}
use argora.Models.Netbox.{Device}
use argora.World.{World}
use argora.Effect.Traces.{Traces, Traces-pure, Traces-if, Traces-weaken}
use argora.Effect.Traces.Replies.{Traces-wrap_error}
use argora.Effect.Traces.Sequences.{Traces-then}
use argora.Controller.Constants.{device_status_active, device_status_staged}
use argora.Controller.Update.{reconcile_device}
use argora.Controller.Update.Order.{Finishes, not_in_use, corrected, Interrupts, interrupted}
use argora.Controller.Update.Order.Parts.{
  rename_remoteboard_interface-RenamesAll, update_device_data-SetsData,
  remove_vmk_interfaces_and_ips-RemovesAll, update_bmc_hostname-SetsHostname,
}

-- `reconcileDevice` that returns `nil` has sent nothing for a device that is neither active nor
-- staged. For one that is, it has sent, in this order: the renaming of every interface of the device
-- that has one of the listed names; the change of the platform and the address of the remote board,
-- if they differ; for every interface with the prefix `vmk` the deletions of all addresses that NetBox
-- has returned for it and then its own; and the patch of the hostname, if the BMC has another one. If it
-- fails or panics, a part was sent only after the parts before it had succeeded, and a `vmk`
-- interface was to be deleted only after all its addresses had been.
pub reconcile_device-Finishes :
    {W : World} (device : Device)
    → Traces {W = W} (λ u. Finishes W device) (Interrupts W device) (reconcile_device device)
unfolding reconcile_device
reconcile_device-Finishes device =
    Traces-if (contains (device_status_active ∷ device_status_staged ∷ []) device.status_value) _ _
      (λ in_use.
        Traces-weaken _ (λ u cs. corrected in_use) (λ cs. interrupted in_use)
          (Traces-then _ _ (Traces-wrap_error _ _ (rename_remoteboard_interface-RenamesAll device))
            (Traces-then _ _ (Traces-wrap_error _ _ (update_device_data-SetsData device)) (
              Traces-then _ _
                (Traces-wrap_error _ _ (remove_vmk_interfaces_and_ips-RemovesAll device))
                (Traces-wrap_error _ _ (update_bmc_hostname-SetsHostname device))))))
      (λ not_used. Traces-pure tt (not_in_use not_used))
