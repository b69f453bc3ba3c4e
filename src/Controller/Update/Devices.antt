-- ===== src/Controller/Update/Devices.antt =====
-- Which calls `reconcileDevice` sends.
use argora.Base.{Among, All-Among, List, ℕ, String, ◌≡◌, true, false, some, [], ◌∷◌, contains}
use argora.Go.Strings.{has_prefix}
use argora.Models.Netbox.{Device, Interface, IpAddress}
use argora.Models.Kubernetes.{Bmc}
use argora.World.{World}
use argora.Effect.{
  Call, update_device, update_interface, delete_interface, delete_ip_address, patch_bmc, Action,
}
use argora.Errors.{ok}
use argora.Effect.{Sys}
use argora.Netbox.Dcim
use argora.Netbox.Ipam
use argora.Effect.Returns.{Returns-self, Emits-bind-Returns}
use argora.Effect.Emits.{
  Emits-wrap_error, Emits-bind, Emits-for_each, Extends-weaken, Emits, Emits-if, Emits-pure,
  emits_rules,
}
use argora.Netbox.Emitted.{
  get_interfaces_for_device-Emits, get_interface_for_device-Emits, get_platform_by_name-Emits,
  get_ip_address_for_interface-Emits, get_ip_addresses_for_interface-Emits, update_device-Emits,
  update_interface-Emits, delete_interface-Emits, delete_ip_address-Emits,
}
use argora.Controller.Constants.{
  device_status_active, device_status_staged, remoteboard_interface_name,
}
use argora.Controller.Hostname.Silent.{get_remoteboard_hostname-Emits}
use argora.Controller.Update.{
  interfaces_to_rename, rename_interface, rename_remoteboard_interface, update_device_data,
  delete_ip, remove_vmk_interface, remove_vmk_interfaces_and_ips, has_hostname, patch_bmc_hostname,
  update_bmc_hostname, reconcile_device,
}

module _ (W : World) (device : Device) where
  -- NetBox has returned the interface, in some state, as one of the device.
  abbrev pub IsOfDevice : Interface → Type 0
  IsOfDevice iface =
      (ifaces : List Interface) × (s : Sys W) × ((Dcim.get_interfaces_for_device device s).0
        ≡ ok ifaces)
      × Among iface ifaces

  -- NetBox has returned the address, in some state, as one of the interface.
  abbrev pub IsOfInterface : Interface → IpAddress → Type 0
  IsOfInterface iface address =
      (addresses : List IpAddress) × (s : Sys W) × ((Ipam.get_ip_addresses_for_interface iface.id
          s).0
        ≡ ok addresses)
      × Among address addresses

  -- The corrections that a device may need.
  pub data Corrects : Call → Type 0 where
    renames :
        (iface : Interface)
        → IsOfDevice iface
        → contains interfaces_to_rename iface.name ≡ true
        → Corrects (
            update_interface
              (record {
                name = remoteboard_interface_name;
                device = device.id;
                type_value = iface.type_value;
              })
              iface.id)
    sets_data :
        (platform oob_ip : ℕ)
        → Corrects
            (update_device (record (W.writeable device) { platform = platform; oob_ip = oob_ip }))
    deletes_address :
        (iface : Interface) (address : IpAddress)
        → IsOfDevice iface
        → has_prefix iface.name "vmk" ≡ true
        → IsOfInterface iface address
        → Corrects (delete_ip_address address.id)
    deletes_vmk :
        (iface : Interface)
        → IsOfDevice iface
        → has_prefix iface.name "vmk" ≡ true
        → Corrects (delete_interface iface.id)
    sets_hostname :
        (bmc : Bmc) (hostname : String)
        → has_hostname bmc.hostname hostname ≡ false
        → Corrects (patch_bmc bmc (record bmc { hostname = some hostname }))

  -- The call corrects the device, and the device is active or staged.
  abbrev pub CorrectsInUse : Call → Type 0
  CorrectsInUse c =
      Corrects c
      × (contains (device_status_active ∷ device_status_staged ∷ []) device.status_value ≡ true)

module _ {W : World} (device : Device) where
  rename_interface-Corrects :
      (iface : Interface)
      → IsOfDevice W device iface
      → Emits {W = W} (Corrects W device) (rename_interface device iface)
  unfolding rename_interface
  rename_interface-Corrects iface of_device =
      search (emits_rules, update_interface-Emits, renames) depth 12

  update_device_data-Corrects : Emits {W = W} (Corrects W device) (update_device_data device)
  unfolding update_device_data
  update_device_data-Corrects =
      search
        (
          emits_rules, get_interface_for_device-Emits, get_ip_address_for_interface-Emits,
          get_platform_by_name-Emits, update_device-Emits, sets_data,
        )
        depth 12

  delete_ip-Corrects :
      (iface : Interface) (address : IpAddress)
      → IsOfDevice W device iface
      → has_prefix iface.name "vmk" ≡ true
      → IsOfInterface W device iface address
      → Emits {W = W} (Corrects W device) (delete_ip address)
  unfolding delete_ip
  delete_ip-Corrects iface address of_device vmk of_interface = Emits-wrap_error _ _ (
      delete_ip_address-Emits address.id (deletes_address iface address of_device vmk of_interface))

  remove_vmk_interface-Corrects :
      (iface : Interface)
      → IsOfDevice W device iface
      → Emits {W = W} (Corrects W device) (remove_vmk_interface iface)
  unfolding remove_vmk_interface
  remove_vmk_interface-Corrects iface of_device =
      Emits-if _ _ _
        (λ vmk.
          Emits-bind-Returns _ _ (get_ip_addresses_for_interface-Emits iface.id) (Returns-self _)
            (λ addresses from.
              Emits-bind _ _
                (Emits-for_each delete_ip addresses (
                  All-Among addresses (λ address among.
                    delete_ip-Corrects iface address of_device vmk
                      (addresses, from.0, from.1, among))))
                (λ _.
                  Emits-wrap_error _ _
                    (delete_interface-Emits iface.id (deletes_vmk iface of_device vmk)))))
        (λ _. Emits-pure tt)

  patch_bmc_hostname-Corrects :
      (hostname : String) (bmc : Bmc)
      → Emits {W = W} (Corrects W device) (patch_bmc_hostname hostname bmc)
  unfolding patch_bmc_hostname
  patch_bmc_hostname-Corrects hostname bmc = search (emits_rules, sets_hostname) depth 12

  update_bmc_hostname-Corrects : Emits {W = W} (Corrects W device) (update_bmc_hostname device)
  unfolding update_bmc_hostname
  update_bmc_hostname-Corrects =
      search (emits_rules, get_remoteboard_hostname-Emits, patch_bmc_hostname-Corrects) depth 12

  rename_remoteboard_interface-Corrects :
      Emits {W = W} (Corrects W device) (rename_remoteboard_interface device)
  unfolding rename_remoteboard_interface
  rename_remoteboard_interface-Corrects =
      Emits-bind-Returns _ _ (get_interfaces_for_device-Emits device) (Returns-self _)
        (λ ifaces from. Emits-for_each _ ifaces (
          All-Among ifaces
            (λ iface among. rename_interface-Corrects iface (ifaces, from.0, from.1, among))))

  remove_vmk_interfaces_and_ips-Corrects :
      Emits {W = W} (Corrects W device) (remove_vmk_interfaces_and_ips device)
  unfolding remove_vmk_interfaces_and_ips
  remove_vmk_interfaces_and_ips-Corrects =
      Emits-bind-Returns _ _ (get_interfaces_for_device-Emits device) (Returns-self _)
        (λ ifaces from. Emits-for_each _ ifaces (
          All-Among ifaces
            (λ iface among. remove_vmk_interface-Corrects iface (ifaces, from.0, from.1, among))))

  weaken-Corrects :
      {A : Type 0} (m : Action W A)
      → contains (device_status_active ∷ device_status_staged ∷ []) device.status_value ≡ true
      → Emits (Corrects W device) m
      → Emits (CorrectsInUse W device) m
  weaken-Corrects m in_use e = record {
    at = λ s. Extends-weaken (λ c corrects. (corrects, in_use)) (e.at s);
  }

  -- Every call that `reconcileDevice` sends is for an active or staged device. It renames a listed
  -- remoteboard interface that NetBox has returned for the device, keeping its type; or sets the
  -- platform and the out-of-band address, and no other field; or deletes an interface that NetBox has
  -- returned for the device and that starts with `vmk`, or an address that NetBox has returned for
  -- such an interface; or changes the hostname of a BMC, and nothing else of it, to a different one.
  pub reconcile_device-CorrectsInUse :
      Emits {W = W} (CorrectsInUse W device) (reconcile_device device)
  unfolding reconcile_device
  reconcile_device-CorrectsInUse =
      Emits-if _ _ _
        (λ in_use. weaken-Corrects _ in_use (
          search
            (
              emits_rules, rename_remoteboard_interface-Corrects, update_device_data-Corrects,
              remove_vmk_interfaces_and_ips-Corrects, update_bmc_hostname-Corrects,
            )
            depth 12))
        (λ _. Emits-pure tt)
