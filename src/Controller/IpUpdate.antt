-- ===== src/Controller/IpUpdate.antt =====
-- internal/controller/ipupdate_controller.go: `IPUpdateReconciler`, which carries an `IPAddress` of
-- the cluster over to NetBox, and takes it out of NetBox when it is deleted.
pub mod Selection
pub mod Target
pub mod Address
pub mod Deletion
pub mod Calls
pub mod Order
pub mod Whole
use argora.Base.{String, ◌<>◌, Bool, true, false, Option, none, some, if◌then◌else◌}
use argora.Errors.{Error, text, NetboxConflictError, as_netbox_conflict, is_not_found}
use argora.Models.Netbox.{Device, Interface}
use argora.Models.Kubernetes.{ObjectKey, IpAddress}
use argora.World.{World}
use argora.Effect.{
  patch_ip_address, Action, pure, raise, ask, send, gets, on_result, require, ◌>>=◌, ◌>>◌,
}
use Selection.{NetboxTarget}
use Target.{find_netbox_target}
use Address.{get_prefix, reconcile_netbox}
use Deletion.{reconcile_delete}
use Selection.{conflict_annotated, metadata_annotated}
use argora.Netbox.Clients
use argora.Credentials

abbrev pub ip_address_finalizer : String
ip_address_finalizer = "ipupdate.argora.cloud.sap.com/finalizer"

-- `r.k8sClient.Patch(ctx, ipAddress, client.MergeFrom(base))`
unfoldable pub patch_address : {W : World} → IpAddress → IpAddress → Action W (Unit {0})
patch_address {W} base patched =
    send {W = W} (patch_ip_address base patched) (W.ip_addresses.patch base patched) >> pure tt

-- `setConflictAnnotation`, for an error that is a conflict; any other error is returned.
unfoldable pub on_conflict :
    {W : World} → IpAddress → Error → Option NetboxConflictError → Action W (Unit {0})
on_conflict ip e none = raise e
on_conflict ip e (some c) = patch_address ip (conflict_annotated ip c)

-- `updateIPAddressMetadata`
unfoldable pub update_ip_address_metadata :
    {W : World} → IpAddress → NetboxTarget → Action W (Unit {0})
update_ip_address_metadata ip target = patch_address ip (metadata_annotated ip target)

-- `Reconcile` of an address that is being deleted
unfoldable pub reconcile_deleted : {W : World} → IpAddress → Action W (Unit {0})
reconcile_deleted {W} ip = do
  reconcile_delete ip
  let (meta, removed) = W.remove_finalizer ip.meta ip_address_finalizer
  if removed then patch_address ip (record ip { meta = meta }) else pure tt

-- `Reconcile` of an address that has its finalizer
unfoldable pub reconcile_target : {W : World} → String → IpAddress → Action W (Unit {0})
reconcile_target namespace ip = do
  target ← find_netbox_target namespace ip
  on_result (reconcile_netbox target.iface target.device ip)
      (λ _. update_ip_address_metadata ip target) (λ e. on_conflict ip e (as_netbox_conflict e))

-- `Reconcile` of an address that is not being deleted: the finalizer comes first.
unfoldable pub reconcile_live : {W : World} → String → IpAddress → Action W (Unit {0})
reconcile_live {W} namespace ip =
    let (meta, added) = W.add_finalizer ip.meta ip_address_finalizer in
    if added then patch_address ip (record ip { meta = meta }) else reconcile_target namespace ip

-- `!ipAddress.DeletionTimestamp.IsZero()`
abbrev pub is_deleted : IpAddress → Bool
is_deleted ip = elim (ip.meta.deletion_timestamp) [ none ↦ false | some _ ↦ true ]

-- `Reconcile` of an address that was found
unfoldable pub reconcile_found : {W : World} → String → IpAddress → Action W (Unit {0})
reconcile_found {W} namespace ip = do
  require (get_prefix W ip) (text "netip.ParseAddr")
  Credentials.reload
  credentials ← gets (λ s. s.credentials)
  Clients.reload credentials.netbox_token
  if is_deleted ip then reconcile_deleted ip else reconcile_live namespace ip

-- `Reconcile`
unfoldable pub reconcile : {W : World} → ObjectKey → Action W (Unit {0})
reconcile {W} request =
    on_result (ask {W = W} (W.ip_addresses.get request)) (reconcile_found request.namespace)
      (λ e. if is_not_found e then pure tt else raise e)
