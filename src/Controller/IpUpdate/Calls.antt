-- ===== src/Controller/IpUpdate/Calls.antt =====
-- Which calls `Reconcile` may send for an address, and what must be true of the address then.
pub mod Sent
use argora.Base.{ℕ, ◌≡◌, true, false, some, List}
use argora.Go.Netip.{NetPrefix, prefix_string}
use argora.Errors.{Error, NetboxConflictError, as_netbox_conflict, ok}
use argora.Models.Netbox.{Interface}
use argora.Models.Kubernetes.{ObjectMeta, IpAddress}
use argora.World.{World}
use argora.Effect.{Sys, Call, update_device, create_ip_address, patch_ip_address}
use argora.Netbox.Dcim
use argora.Netbox.Ipam
use argora.Controller.IpUpdate.Selection.{
  NetboxTarget, find_target_interface, conflict_annotated, metadata_annotated,
}
use argora.Controller.IpUpdate.Address.{get_prefix}
use argora.Controller.IpUpdate.Deletion.Safety.{DeletesOwned}
use argora.Controller.IpUpdate.{ip_address_finalizer, is_deleted}

-- The interface that takes the address is the one that `findTargetInterface` chooses of those that
-- NetBox has returned, in some state, for the device.
abbrev pub IsChosen : (W : World) → NetboxTarget → Type 0
IsChosen W target =
    (ifaces : List Interface) × (s : Sys W) × ((Dcim.get_interfaces_for_device target.device s).0
      ≡ ok ifaces)
    × (find_target_interface ifaces ≡ ok target.iface)

module _ (W : World) (ip : IpAddress) where
  -- The calls for an address that is not being deleted and has its finalizer
  pub data Assigns : Call → Type 0 where
    creates :
        (target : NetboxTarget) (p : NetPrefix) (vrf : ℕ)
        → IsChosen W target
        → get_prefix W ip ≡ some p
        → Assigns (
            create_ip_address (
              Ipam.new_ip_address (record {
                address = prefix_string W.print_ipv6 p;
                tenant_id = target.device.tenant.id;
                interface_id = target.iface.id;
                vrf_id = vrf;
              })))
    sets_primary :
        (target : NetboxTarget) (address_id : ℕ)
        → IsChosen W target
        → Assigns (update_device (record (W.writeable target.device) { primary_ip4 = address_id }))
    records :
        (target : NetboxTarget)
        → IsChosen W target
        → Assigns (patch_ip_address ip (metadata_annotated ip target))
    shows_conflict :
        (e : Error) (c : NetboxConflictError)
        → as_netbox_conflict e ≡ some c
        → Assigns (patch_ip_address ip (conflict_annotated ip c))

  -- All calls, each with the state of the address in which it is sent
  pub data Maintains : Call → Type 0 where
    deletes : {c : Call} → is_deleted ip ≡ true → DeletesOwned W ip c → Maintains c
    gives_up :
        (meta : ObjectMeta)
        → is_deleted ip ≡ true
        → W.remove_finalizer ip.meta ip_address_finalizer ≡ (meta, true)
        → Maintains (patch_ip_address ip (record ip { meta = meta }))
    claims :
        (meta : ObjectMeta)
        → is_deleted ip ≡ false
        → W.add_finalizer ip.meta ip_address_finalizer ≡ (meta, true)
        → Maintains (patch_ip_address ip (record ip { meta = meta }))
    assigns :
        {c : Call}
        → is_deleted ip ≡ false
        → (W.add_finalizer ip.meta ip_address_finalizer).1 ≡ false
        → Assigns c
        → Maintains c
