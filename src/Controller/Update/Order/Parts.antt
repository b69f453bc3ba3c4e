-- ===== src/Controller/Update/Order/Parts.antt =====
-- The order of the calls of each part of `reconcileDevice`.
use argora.Base.{refl, not, ◌==◌, ◌||◌, List, [], ◌∷◌, contains, String, ℕ}
use argora.Go.Strings.{has_prefix}
use argora.Errors.{is_not_found}
use argora.Models.Netbox.{Device, Interface, IpAddress}
use argora.Models.Kubernetes.{Bmc}
use argora.World.{World}
use argora.Effect.{Call, Action, delete_ip_address, ask, for_each, ◌>>=◌}
use argora.Effect.Emits.{Emits-ask}
use argora.Effect.Returns.{Returns-self, ReturnedBy}
use argora.Effect.Traces.{
  Traces, AtMost, unsent, once, Traces-pure, Traces-raise, Traces-if, Traces-weaken, Traces-bind,
}
use argora.Effect.Traces.Replies.{
  Traces-after_reply, Traces-on_reply, Traces-send, Traces-wrap_error,
}
use argora.Effect.Traces.Sequences.{Each, UpTo, Traces-then, Traces-for_each}
use argora.Netbox.Emitted.{
  get_interfaces_for_device-Emits, get_interface_for_device-Emits, get_platform_by_name-Emits,
  get_ip_address_for_interface-Emits, get_ip_addresses_for_interface-Emits,
}
use argora.Netbox.Traced.{
  update_device-Traces, update_interface-Traces, delete_interface-Traces, delete_ip_address-Traces,
}
use argora.Netbox.Dcim
use argora.Controller.Hostname.Silent.{get_remoteboard_hostname-Emits}
use argora.Controller.Hostname.{get_remoteboard_hostname}
use argora.Controller.Update.{
  interfaces_to_rename, rename_interface, rename_remoteboard_interface, update_device_data,
  delete_ip, remove_vmk_interface, remove_vmk_interfaces_and_ips, has_hostname, patch_bmc_hostname,
  update_bmc_hostname,
}
use argora.Controller.Update.Order.{
  Deletes, renaming, Renames, renamed, other_name, ForInterfaces, FailsForInterfaces, not_returned,
  in_loop, IsData, SetsData, has_data, sets_data, setting_data, FailsToSetData, data_not_sent,
  data_sent, Removes, other_interface, emptied, FailsToRemove, addresses_not_returned, at_deletion,
  SetsHostname, no_hostname, no_bmc, bmc_has_hostname, sets_hostname, FailsToSetHostname,
  hostname_not_sent, hostname_sent, RenamesAll, FailsToRename, RemovesAll, FailsToRemoveAll,
}

module _ {W : World} (device : Device) where
  rename_interface-Renames :
      (iface : Interface)
      → Traces {W = W}
          (λ u. Renames W device iface)
          (AtMost (renaming W device iface))
          (rename_interface device iface)
  unfolding rename_interface
  rename_interface-Renames iface =
      Traces-if (contains interfaces_to_rename iface.name) _ _
        (λ listed.
          Traces-bind _ _ (Traces-wrap_error _ _ (update_interface-Traces _ _)) (λ cs h. h)
            (λ i cs only. rw only (Traces-pure tt (renamed listed))))
        (λ other. Traces-pure tt (other_name other))

  for_interfaces :
      {Q F : Interface → List Call → Type 0} (f : Interface → Action W (Unit {0}))
      → ((i : Interface) → Traces (λ u. Q i) (F i) (f i))
      → Traces
          (λ u. ForInterfaces W device (Each Q))
          (FailsForInterfaces W device (UpTo Q F))
          (Dcim.get_interfaces_for_device device >>= for_each f)
  for_interfaces f h =
      Traces-after_reply _ _ (get_interfaces_for_device-Emits device) (Returns-self _) not_returned
        (λ is is_returned.
          Traces-weaken _
            (λ u cs all. record { interfaces = is; is_returned = is_returned; calls = all })
            (λ cs some_of.
              in_loop (record { interfaces = is; is_returned = is_returned; calls = some_of }))
            (Traces-for_each f is h))

  pub rename_remoteboard_interface-RenamesAll :
      Traces {W = W}
        (λ u. RenamesAll W device)
        (FailsToRename W device)
        (rename_remoteboard_interface device)
  unfolding rename_remoteboard_interface
  rename_remoteboard_interface-RenamesAll = for_interfaces _ rename_interface-Renames

  pub update_device_data-SetsData :
      Traces {W = W} (λ u. SetsData W device) (FailsToSetData W device) (update_device_data device)
  unfolding update_device_data
  update_device_data-SetsData =
      Traces-after_reply _ _ (get_interface_for_device-Emits device _) (Returns-self _)
        data_not_sent
        (λ board is_board.
          Traces-after_reply _ _ (get_ip_address_for_interface-Emits board.id) (Returns-self _)
            data_not_sent
            (λ address is_address.
              Traces-after_reply _ _ (get_platform_by_name-Emits _) (Returns-self _) data_not_sent
                (λ platform is_platform.
                  let is_data : IsData W device platform.id address.id = record {
                    board = board;
                    address = address;
                    garden_linux = platform;
                    is_board = is_board;
                    is_address = is_address;
                    is_platform = is_platform;
                    platform_id = refl;
                    address_id = refl;
                  } in
                  Traces-if
                    (not (device.platform.id == platform.id)
                      || not (device.oob_ip.id == address.id))
                    _ _
                    (λ differs.
                      Traces-bind _ _ (update_device-Traces _) (λ cs. sent is_data)
                        (λ d cs only. rw only (Traces-pure tt (sets_data _ _ is_data differs))))
                    (λ same. Traces-pure tt (has_data _ _ is_data same)))))
    where
      sent :
          {platform oob_ip : ℕ} {cs : List Call}
          → IsData W device platform oob_ip
          → AtMost (setting_data W device platform oob_ip) cs
          → FailsToSetData W device cs
      sent is_data unsent = data_not_sent
      sent is_data once = data_sent _ _ is_data

  delete_ip-Deletes :
      (a : IpAddress)
      → Traces {W = W} (λ u. Deletes a) (AtMost (delete_ip_address a.id)) (delete_ip a)
  unfolding delete_ip
  delete_ip-Deletes a = Traces-wrap_error _ _ (delete_ip_address-Traces a.id)

  remove_vmk_interface-Removes :
      (iface : Interface)
      → Traces {W = W}
          (λ u. Removes W device iface)
          (FailsToRemove W device iface)
          (remove_vmk_interface iface)
  unfolding remove_vmk_interface
  remove_vmk_interface-Removes iface =
      Traces-if (has_prefix iface.name "vmk") _ _
        (λ vmk.
          Traces-after_reply _ _ (get_ip_addresses_for_interface-Emits iface.id) (Returns-self _)
            addresses_not_returned
            (λ addresses is_returned.
              Traces-weaken _ (λ u cs. emptied addresses vmk is_returned)
                (λ cs. at_deletion addresses vmk is_returned)
                (Traces-then _ _ (Traces-for_each delete_ip addresses delete_ip-Deletes)
                  (Traces-wrap_error _ _ (delete_interface-Traces iface.id)))))
        (λ other. Traces-pure tt (other_interface other))

  pub remove_vmk_interfaces_and_ips-RemovesAll :
      Traces {W = W}
        (λ u. RemovesAll W device)
        (FailsToRemoveAll W device)
        (remove_vmk_interfaces_and_ips device)
  unfolding remove_vmk_interfaces_and_ips
  remove_vmk_interfaces_and_ips-RemovesAll = for_interfaces _ remove_vmk_interface-Removes

  patch_bmc_hostname-SetsHostname :
      (hostname : String) (bmc : Bmc)
      → ReturnedBy {W = W} (get_remoteboard_hostname device) hostname
      → ReturnedBy (ask {W = W} (W.bmcs.get (record { namespace = ""; name = device.name }))) bmc
      → Traces {W = W}
          (λ u. SetsHostname W device)
          (FailsToSetHostname W device)
          (patch_bmc_hostname hostname bmc)
  unfolding patch_bmc_hostname
  patch_bmc_hostname-SetsHostname hostname bmc is_hostname is_bmc =
      Traces-if (has_hostname bmc.hostname hostname) _ _
        (λ same. Traces-pure tt (bmc_has_hostname bmc hostname is_hostname is_bmc same))
        (λ differs.
          let sets = sets_hostname bmc hostname is_hostname is_bmc differs in
          Traces-bind _ _ (Traces-wrap_error _ _ (Traces-send _ _)) (λ cs. sent sets)
            (λ d cs only. rw only (Traces-pure tt sets)))
    where
      sent :
          {c : Call} {cs : List Call}
          → SetsHostname W device (c ∷ [])
          → AtMost c cs
          → FailsToSetHostname W device cs
      sent sets unsent = hostname_not_sent
      sent sets once = hostname_sent sets

  pub update_bmc_hostname-SetsHostname :
      Traces {W = W}
        (λ u. SetsHostname W device)
        (FailsToSetHostname W device)
        (update_bmc_hostname device)
  unfolding update_bmc_hostname
  update_bmc_hostname-SetsHostname =
      Traces-on_reply _ _ _ (get_remoteboard_hostname-Emits device) hostname_not_sent
        (λ hostname is_hostname.
          Traces-on_reply _ _ _ (Emits-ask _) hostname_not_sent
            (λ bmc is_bmc. patch_bmc_hostname-SetsHostname hostname bmc is_hostname is_bmc)
            (λ e failed.
              Traces-if (is_not_found e) _ _ (λ missing. Traces-pure tt (no_bmc e failed missing))
                (λ _. Traces-raise _ hostname_not_sent)))
        (λ e failed. Traces-pure tt (no_hostname e failed))
