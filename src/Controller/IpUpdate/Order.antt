-- ===== src/Controller/IpUpdate/Order.antt =====
-- In which order `Reconcile` of internal/controller/ipupdate_controller.go sends its calls: what a run
-- that returns `nil` has sent, and where a run that does not may have stopped.
pub mod Assignment
pub mod Deleting
pub mod Whole
use argora.Base.{ℕ, ◌≡◌, true, false, some, pos, ℤ, eq_ℤ, List, [], ◌∷◌, ◌++◌}
use argora.Go.Netip.{NetPrefix, masked, prefix_string}
use argora.Errors.{Error, NetboxConflictError, as_netbox_conflict, is_no_objects_found, ok, err}
use argora.Models.Netbox
use argora.Models.Kubernetes.{ObjectMeta, IpAddress}
use argora.World.{World}
use argora.Effect.{Call, update_device, create_ip_address, delete_ip_address, patch_ip_address}
use argora.Effect.Returns.{ReturnedBy, FailedBy}
use argora.Netbox.Ipam
use argora.Controller.IpUpdate.Selection.{
  NetboxTarget, conflict_annotated, metadata_annotated, ids_from_annotations,
}
use argora.Controller.IpUpdate.Address.{get_prefix, vrf_of, reconcile_netbox}
use argora.Controller.IpUpdate.Deletion.Safety.{IsFound}
use argora.Controller.IpUpdate.Calls.{IsChosen}
use argora.Controller.IpUpdate.{ip_address_finalizer, is_deleted}

-- The call that makes an address the primary one of the target's device
abbrev pub sets_primary : World → NetboxTarget → Netbox.IpAddress → Call
sets_primary W target a = update_device (record (W.writeable target.device) { primary_ip4 = a.id })

module _ (W : World) (ip : IpAddress) where
  -- The address that `createIPAddress` asks for
  pub record IsRequested (target : NetboxTarget) (params : Ipam.CreateIpAddressParams)
      : Type 0 where
    pub prefix : NetPrefix
    pub parses : get_prefix W ip ≡ some prefix
    pub address : params.address ≡ prefix_string W.print_ipv6 prefix
    pub tenant_id : params.tenant_id ≡ target.device.tenant.id
    pub interface_id : params.interface_id ≡ target.iface.id
    pub prefixes : List Netbox.Prefix
    pub is_prefixes :
        ReturnedBy {W = W}
          (Ipam.get_prefixes_by_prefix (prefix_string W.print_ipv6 (masked prefix)))
          prefixes
    pub vrf_id : params.vrf_id ≡ vrf_of prefixes

  -- The calls with which NetBox's address of the resource is got: it is there, at the interface and
  -- the device of the target, or it is created.
  pub data Gets (target : NetboxTarget) : Netbox.IpAddress → List Call → Type 0 where
    found :
        (a : Netbox.IpAddress)
        → IsFound W ip a
        → a.assigned_interface.id ≡ target.iface.id
        → target.device.id ≡ a.assigned_interface.device_id
        → Gets target a []
    created :
        (a : Netbox.IpAddress) (params : Ipam.CreateIpAddressParams)
        → IsRequested target params
        → ReturnedBy {W = W} (Ipam.create_ip_address params) a
        → Gets target a (create_ip_address (Ipam.new_ip_address params) ∷ [])

  -- The calls after which an address is the primary one of the target's device.
  pub data MakesPrimary (target : NetboxTarget) (a : Netbox.IpAddress) : List Call → Type 0 where
    is_primary : target.device.primary_ip.id ≡ a.id → MakesPrimary target a []
    updated : MakesPrimary target a (sets_primary W target a ∷ [])

  -- The calls of `reconcileNetbox` that succeeds
  pub data Established (target : NetboxTarget) : List Call → Type 0 where
    established :
        {cs ds : List Call} (a : Netbox.IpAddress)
        → Gets target a cs
        → MakesPrimary target a ds
        → Established target (cs ++ ds)

  -- The calls of `reconcileNetbox` up to where it may fail.
  pub data Assigning (target : NetboxTarget) : List Call → Type 0 where
    nothing_sent : Assigning target []
    creating :
        (params : Ipam.CreateIpAddressParams)
        → IsRequested target params
        → Assigning target (create_ip_address (Ipam.new_ip_address params) ∷ [])
    making_primary :
        {cs : List Call} (a : Netbox.IpAddress)
        → Gets target a cs
        → Assigning target (cs ++ sets_primary W target a ∷ [])

  -- The calls of `reconcileDelete`
  pub data Removed : List Call → Type 0 where
    is_missing :
        (p : NetPrefix) (e : Error)
        → get_prefix W ip ≡ some p
        → FailedBy {W = W} (Ipam.get_ip_address_by_address (prefix_string W.print_ipv6 p)) e
        → is_no_objects_found e ≡ true
        → Removed []
    not_annotated :
        (a : Netbox.IpAddress) (e : Error)
        → IsFound W ip a
        → ids_from_annotations ip ≡ err e
        → Removed []
    other_interface :
        (a : Netbox.IpAddress) (device_id interface_id : ℤ)
        → IsFound W ip a
        → ids_from_annotations ip ≡ ok (device_id, interface_id)
        → eq_ℤ (pos a.assigned_object_id) interface_id ≡ false
        → Removed []
    removed :
        (a : Netbox.IpAddress) (device_id : ℤ)
        → IsFound W ip a
        → ids_from_annotations ip ≡ ok (device_id, pos a.assigned_object_id)
        → Removed (delete_ip_address a.id ∷ [])

  -- The calls of `reconcileDelete` up to where it may fail
  pub data Removing : List Call → Type 0 where
    not_sent : Removing []
    sent_deletion : {cs : List Call} → Removed cs → Removing cs

  -- The calls for an address that is not being deleted and has its finalizer, of a run that returns
  -- `nil`.
  pub data Assigned : List Call → Type 0 where
    recorded :
        {cs : List Call} (target : NetboxTarget)
        → IsChosen W target
        → Established target cs
        → Assigned (cs ++ patch_ip_address ip (metadata_annotated ip target) ∷ [])
    conflicted :
        {cs : List Call} (target : NetboxTarget) (e : Error) (c : NetboxConflictError)
        → IsChosen W target
        → FailedBy {W = W} (reconcile_netbox target.iface target.device ip) e
        → as_netbox_conflict e ≡ some c
        → Assigning target cs
        → Assigned (cs ++ patch_ip_address ip (conflict_annotated ip c) ∷ [])

  -- All calls of a run that returns `nil`, the first one first
  pub data Finishes : List Call → Type 0 where
    gave_up :
        {cs : List Call} (meta : ObjectMeta)
        → is_deleted ip ≡ true
        → W.remove_finalizer ip.meta ip_address_finalizer ≡ (meta, true)
        → Removed cs
        → Finishes (cs ++ patch_ip_address ip (record ip { meta = meta }) ∷ [])
    was_given_up :
        {cs : List Call}
        → is_deleted ip ≡ true
        → (W.remove_finalizer ip.meta ip_address_finalizer).1 ≡ false
        → Removed cs
        → Finishes cs
    claimed :
        (meta : ObjectMeta)
        → is_deleted ip ≡ false
        → W.add_finalizer ip.meta ip_address_finalizer ≡ (meta, true)
        → Finishes (patch_ip_address ip (record ip { meta = meta }) ∷ [])
    assigned :
        {cs : List Call}
        → is_deleted ip ≡ false
        → (W.add_finalizer ip.meta ip_address_finalizer).1 ≡ false
        → Assigned cs
        → Finishes cs

  -- The calls of a run that fails or panics: none, those of a part of the run, or all, if the last call
  -- has failed.
  pub data Interrupts : List Call → Type 0 where
    nothing : Interrupts []
    at_deletion : {cs : List Call} → is_deleted ip ≡ true → Removing cs → Interrupts cs
    at_assignment :
        {cs : List Call} (target : NetboxTarget)
        → is_deleted ip ≡ false
        → (W.add_finalizer ip.meta ip_address_finalizer).1 ≡ false
        → IsChosen W target
        → Assigning target cs
        → Interrupts cs
    at_the_end : {cs : List Call} → Finishes cs → Interrupts cs
