-- ===== src/Tests.antt =====
-- The theorems at work in the small world of Tests/Sample.
pub mod Sample
pub mod IpPools
pub mod Reloading
pub mod Conditions
pub mod IronCore
pub mod IronCoreProgress
pub mod Metal3
pub mod Statuses
pub mod Manager
pub mod Program
use argora.Base.{
  ◌↔◌, All, String, ◌≡◌, ◌≢◌, refl, some, none, true, false, List, [], ◌∷◌, pos, arith, str_eq_iff,
  ℕ, Option, ◌==◌, if◌then◌else◌, str_eq,
}
use argora.Go.Netip.{v4, v6, prefix_from, prefix_string, masked}
use argora.Go.Strconv.{itoa}
use argora.Errors.{ok, err, panic, netbox_conflict}
use argora.World.{World}
use argora.Api
use argora.Models.Kubernetes.{ObjectKey}
use argora.Effect.{require}
use argora.World.Documented.{RetriesOnConflict, SetsStatusCondition}
use argora.Effect.{
  ◌>>=◌, ask, gets, lift, pure, wrap_error, guard, for_each, first, on_result, send, raise,
}
use argora.Effect.Emits.{Emits}
use argora.Tests.Sample.{
  device, lag1, address, prefix, ip_address, update, pool_selector, world, start, retries,
}
use argora.Controller.IpUpdate.Calls.{Maintains}
use argora.Controller.IpUpdate.{reconcile_found}
use argora.Controller.IpUpdate.Calls.Sent.{reconcile_found-Maintains}
use argora.Controller.IpUpdate.Selection.{
  get_owner_by_kind, find_target_interface, conflict_annotated, metadata_annotated,
  ids_from_annotations,
}
use argora.Controller.IpUpdate.Selection.Best.{Chosen, find_target_interface-Chosen}
use argora.Controller.IpUpdate.Selection.Annotations.{
  annotation, ids_from_annotations-metadata_annotated, annotation-metadata_annotated,
}
use argora.Controller.IpUpdate.Address.{reconcile_netbox_address_ip}
use argora.Controller.IpUpdate.Address.Assignment.{reconcile_netbox_address_ip-found}
use argora.Controller.IpUpdate.Deletion.{reconcile_delete}
use argora.Controller.IpUpdate.Deletion.Safety.{DeletesOwned, reconcile_delete-DeletesOwned}
use argora.Controller.IpUpdate.Deletion.Order.{after_delete, reconcile_deleted-after_delete}
use argora.Controller.IpUpdate.{reconcile_deleted}
use argora.Controller.IpUpdate.Target.{find_device_name}
use argora.Controller.IpUpdate.Target.Owner.{GetsReturn, LacksBmc, find_device_name-LacksBmc}
use argora.Controller.Update.{reconcile_device}
use argora.Controller.Update.Completed.{Completes, reconcile-Completes}
use argora.Effect.Traces.{Traces}
use argora.Controller.Update.Order.{Finishes, Interrupts}
use argora.Controller.Update.Order.Whole.{reconcile_device-Finishes}
use argora.Controller.Update.Devices.{CorrectsInUse, reconcile_device-CorrectsInUse}
use argora.Controller.IpPool.{reconcile_ip_pool}
use argora.Controller.IpPool.Pools.{CreatesPool, reconcile_ip_pool-CreatesPool}
use argora.Status.{update_kind}
use argora.Status
use argora.Status.Updating.{Updated, update-Updated}
use argora.Controller.Update
use argora.Credentials
use argora.Credentials.Reloading.{IsComplete, reload-IsComplete, reload_stale_token}
use argora.Netbox.Clients
use argora.Netbox.Ipam
use argora.Netbox.Dcim
use argora.Netbox.Virtualization
use argora.Base.{contains}
use argora.Go.Strings.{contains_text, has_prefix}
use argora.Controller.Hostname.{get_remoteboard_hostname}
use argora.World.Documented.{attempts}
use argora.Netbox.Clients.Renewal.{Outcome, reload-Outcome}
use argora.Go.Netip.{Addr, NetPrefix, as4, parse_addr}
use argora.Base.{length, ◌≤◌}
use argora.Controller.IpPool.Addresses.{rounds, last_number, last_addr_in_prefix, get_last_n_ips}
use argora.Controller.IpPool.Addresses.Greatest.{IsGreatest, last_addr_in_prefix-IsGreatest}
use argora.Controller.IpUpdate.Address.{get_prefix}
use argora.Api.Conditions.{ReasonWithMessage, condition_from_reason}
use argora.World.Documented.{find_condition}
use argora.Status.{set_condition}
use argora.Status.Succeeding.{FinishedReady}
use argora.Status.Succeeding.{FinishedReady}
use argora.Controller.Update.Whole.{RunsUpdate, reconcile-RunsUpdate}
use argora.Controller.Update.Finished.{reconcile-FinishedReady}
use argora.Controller.IpPool.Finished.{reconcile-FinishesImport}
use argora.Controller.IpPool
use argora.Controller.IpPool.Naming.{generate_ip_pool_name}
use argora.Status.Failing.{Reports, error_status, fail_with-Reports}
use argora.Status.{ip_pool_import_kind, fail_with, update_to_error}
use argora.Errors.{text}
use argora.Go.Netip.{parse_prefix, next, prev, contains_addr, addr_string}
use argora.Api.Conditions.{new_reason_with_message}

reconcile_found-Maintains_example :
    Emits {W = world} (Maintains world ip_address) (reconcile_found "default" ip_address)
reconcile_found-Maintains_example = reconcile_found-Maintains ip_address "default"

find_target_interface-Chosen_example :
    Chosen Sample.interfaces (find_target_interface Sample.interfaces)
find_target_interface-Chosen_example = find_target_interface-Chosen Sample.interfaces

reconcile_delete-DeletesOwned_example :
    Emits {W = world} (DeletesOwned world ip_address) (reconcile_delete ip_address)
reconcile_delete-DeletesOwned_example = reconcile_delete-DeletesOwned ip_address

reconcile_device-CorrectsInUse_example :
    Emits {W = world} (CorrectsInUse world device) (reconcile_device device)
reconcile_device-CorrectsInUse_example = reconcile_device-CorrectsInUse device

ids_from_annotations-metadata_annotated_example :
    ids_from_annotations (metadata_annotated ip_address (record { device = device; iface = lag1 }))
    ≡ ok (pos 7, pos 21)
ids_from_annotations-metadata_annotated_example =
    ids_from_annotations-metadata_annotated ip_address (record { device = device; iface = lag1 })
      (omega arith) (omega arith)

claim_is_owned : get_owner_by_kind Sample.ip_address.meta.owner_references "ServerClaim" ≢ ""
unfolding get_owner_by_kind str_eq
claim_is_owned = ground (arith, str_eq_iff "claim" "")

reconcile_succeeds :
    (Update.reconcile 30 (record { namespace = "default"; name = "update" }) start).0 ≡ ok 30
unfolding Update.reconcile ◌>>=◌ ask gets lift pure wrap_error guard for_each first on_result send
    raise Credentials.reload Credentials.read_json_and_unmarshal Credentials.validate
    Credentials.assign_fields str_eq Clients.reload Clients.virtualization_service
    Clients.dcim_service Clients.ipam_service Update.reconcile_cluster_selection
    Update.reconcile_cluster Update.reconcile_device Update.rename_remoteboard_interface
    Update.rename_interface Update.update_device_data Update.remove_vmk_interfaces_and_ips
    Update.remove_vmk_interface Update.update_bmc_hostname Update.patch_bmc_hostname
    Virtualization.get_clusters_by_name_region_type Dcim.get_devices_by_cluster_id
    Dcim.get_interfaces_for_device Dcim.get_interface_for_device Dcim.get_platform_by_name
    Dcim.update_device Dcim.update_interface Dcim.only_result Dcim.first_result
    Ipam.get_ip_address_for_interface Ipam.get_ip_addresses_for_interface has_prefix
    get_remoteboard_hostname Status.succeed Status.update_to_ready Status.update Status.write_status
    Status.update_kind Status.set_condition attempts
reconcile_succeeds = refl

abbrev lacks_bmc : LacksBmc world "default" ip_address start
lacks_bmc = record {
  claim = _;
  server_claim = _;
  server_name = _;
  server = _;
  w = _;
  w' = _;
  w'' = _;
  got = refl;
  owned = claim_is_owned;
  claimed = refl;
  bound = refl;
  served = refl;
  missing = refl;
}

gets_return : GetsReturn world
gets_return = record {
  claims = λ key w h. cc;
  server_claims = λ key w h. cc;
  servers = λ key w h. cc;
}

find_device_name-LacksBmc_example :
    ((find_device_name "default" ip_address start).0 ≡ panic)
    ↔ LacksBmc world "default" ip_address start
find_device_name-LacksBmc_example = find_device_name-LacksBmc "default" ip_address start gets_return

-- The address of the sample is such a one.
find_device_name_test : (find_device_name "default" ip_address start).0 ≡ panic
find_device_name_test =
    (find_device_name-LacksBmc "default" ip_address start gets_return).1 lacks_bmc

reconcile-FinishedReady_example :
    FinishedReady
      (update_kind world)
      30
      30
      (Update.reconcile 30 (record { namespace = "default"; name = "update" }) start).1
reconcile-FinishedReady_example =
    reconcile-FinishedReady retries 30 (record { namespace = "default"; name = "update" }) start 30
      reconcile_succeeds

reconcile_device-Finishes_example :
    Traces {W = world}
      (λ u. Finishes world device)
      (Interrupts world device)
      (reconcile_device device)
reconcile_device-Finishes_example = reconcile_device-Finishes device

abbrev update_key : ObjectKey
update_key = record { namespace = "default"; name = "update" }

reconcile-Completes_example :
    Traces {W = world}
      (λ n cs. Completes world update_key cs × All (RunsUpdate world update_key) cs)
      (All (RunsUpdate world update_key))
      (Update.reconcile 5 update_key)
reconcile-Completes_example = reconcile-Completes retries update_key 5
