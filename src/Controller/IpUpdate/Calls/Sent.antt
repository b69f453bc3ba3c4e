-- ===== src/Controller/IpUpdate/Calls/Sent.antt =====
-- The calls that `Reconcile` sends for an address are among the ones that it may send.
use argora.Base.{String, ◌≡◌, refl, Bool, true, false, Option, none, some}
use argora.Go.Netip.{NetPrefix}
use argora.Errors.{Error, NetboxConflictError, as_netbox_conflict}
use argora.Models.Netbox.{Device, Interface}
use argora.Models.Netbox
use argora.Models.Kubernetes.{IpAddress}
use argora.World.{World}
use argora.Effect.{Call, patch_ip_address}
use argora.Effect.Emits.{
  Emits, Emits-crash, weaken, Emits-if, Emits-pure, Emits-raise, Emits-bind, Emits-on_result,
  Emits-require, Emits-gets, emits_rules,
}
use argora.Effect.Returns.{
  Returns, Returns-any, Returns-self, Returns-pure, Returns-lift, Returns-require, Returns-bind,
  Returns-wrap_error, Emits-bind-Returns,
}
use argora.Netbox.Clients.Renewal.{clients_reload-Emits}
use argora.Credentials.Reloading.{credentials_reload-Emits}
use argora.Netbox.Emitted.{
  get_device_by_name-Emits, get_interfaces_for_device-Emits, get_ip_address_by_address-Emits,
  get_prefixes_by_prefix-Emits, update_device-Emits, create_ip_address-Emits,
}
use argora.Controller.IpUpdate.Selection.{NetboxTarget}
use argora.Controller.IpUpdate.Target.{deref, find_device_name, find_netbox_target}
use argora.Controller.IpUpdate.Address.{
  get_prefix, create_ip_address, check_assignment, reconcile_netbox_address_ip,
  reconcile_device_primary_ip, reconcile_netbox,
}
use argora.Controller.IpUpdate.Deletion.Safety.{reconcile_delete-DeletesOwned}
use argora.Controller.IpUpdate.{
  patch_address, on_conflict, update_ip_address_metadata, reconcile_deleted, reconcile_target,
  reconcile_live, is_deleted, reconcile_found,
}
use argora.Controller.IpUpdate.Calls.{
  IsChosen, Assigns, creates, sets_primary, records, shows_conflict, Maintains, deletes, gives_up,
  claims, assigns,
}

pub added_pair : {A : Type 0} (p : A × Bool) (b : Bool) → p.1 ≡ b → p ≡ (p.0, b)
added_pair p b h = cc

module _ {W : World} {P : Call → Type 0} where
  deref-Emits : (o : Option String) → Emits {W = W} P (deref o)
  unfolding deref
  deref-Emits none = Emits-crash
  deref-Emits (some name) = Emits-pure name

module _ {W : World} (ip : IpAddress) where
  patch_address-Emits :
      {P : Call → Type 0} (base patched : IpAddress)
      → P (patch_ip_address base patched)
      → Emits {W = W} P (patch_address base patched)
  unfolding patch_address
  patch_address-Emits base patched h = search emits_rules depth 9

  check_assignment-Emits :
      {P : Call → Type 0} (iface : Interface) (device : Device) (a : Netbox.IpAddress)
      → Emits {W = W} P (check_assignment iface device a)
  unfolding check_assignment
  check_assignment-Emits iface device a = search emits_rules depth 9

  create_ip_address-Assigns :
      (target : NetboxTarget) (p : NetPrefix)
      → IsChosen W target
      → get_prefix W ip ≡ some p
      → Emits {W = W} (Assigns W ip) (create_ip_address p target.iface.id target.device.tenant.id)
  unfolding create_ip_address
  create_ip_address-Assigns target p chosen parsed =
      Emits-bind _ _ (get_prefixes_by_prefix-Emits _)
        (λ ps. create_ip_address-Emits _ (creates target p _ chosen parsed))

  reconcile_netbox_address_ip-Assigns :
      (target : NetboxTarget)
      → IsChosen W target
      → Emits {W = W} (Assigns W ip) (reconcile_netbox_address_ip target.iface ip target.device)
  unfolding reconcile_netbox_address_ip
  reconcile_netbox_address_ip-Assigns target chosen =
      Emits-bind-Returns _ _ (Emits-require _ _) (Returns-require _ _) (λ p parsed.
        Emits-on_result _ _ _ (get_ip_address_by_address-Emits _)
          (check_assignment-Emits target.iface target.device)
          (λ e. search (emits_rules, create_ip_address-Assigns) depth 9))

  reconcile_device_primary_ip-Assigns :
      (target : NetboxTarget)
      → IsChosen W target
      → (a : Netbox.IpAddress)
      → Emits {W = W} (Assigns W ip) (reconcile_device_primary_ip a target.device)
  unfolding reconcile_device_primary_ip
  reconcile_device_primary_ip-Assigns target chosen a =
      search (emits_rules, update_device-Emits, sets_primary target a.id chosen) depth 9

  reconcile_netbox-Assigns :
      (target : NetboxTarget)
      → IsChosen W target
      → Emits {W = W} (Assigns W ip) (reconcile_netbox target.iface target.device ip)
  unfolding reconcile_netbox
  reconcile_netbox-Assigns target chosen =
      Emits-bind _ _ (reconcile_netbox_address_ip-Assigns target chosen)
        (reconcile_device_primary_ip-Assigns target chosen)

  find_device_name-Emits :
      {P : Call → Type 0} (namespace : String) → Emits {W = W} P (find_device_name namespace ip)
  unfolding find_device_name
  find_device_name-Emits namespace = search (emits_rules, deref-Emits) depth 16

  pub find_netbox_target-Emits :
      {P : Call → Type 0} (namespace : String) → Emits {W = W} P (find_netbox_target namespace ip)
  unfolding find_netbox_target
  find_netbox_target-Emits namespace =
      search
        (
          emits_rules, find_device_name-Emits, get_device_by_name-Emits,
          get_interfaces_for_device-Emits,
        )
        depth 12

  pub find_netbox_target-IsChosen :
      (namespace : String) → Returns {W = W} (IsChosen W) (find_netbox_target namespace ip)
  unfolding find_netbox_target
  find_netbox_target-IsChosen namespace = Returns-bind _ _ (Returns-any _) (λ name _.
      Returns-bind _ _ (Returns-any _) (λ device _.
        Returns-bind _ _ (Returns-wrap_error _ _ (Returns-self _)) (λ ifaces from.
          Returns-bind _ _ (Returns-wrap_error _ _ (Returns-lift _))
            (λ target found. Returns-pure _ (ifaces, from.0, from.1, found)))))

  on_conflict-Assigns :
      (e : Error) (o : Option NetboxConflictError)
      → as_netbox_conflict e ≡ o
      → Emits {W = W} (Assigns W ip) (on_conflict ip e o)
  unfolding on_conflict
  on_conflict-Assigns e none h = Emits-raise e
  on_conflict-Assigns e (some c) h = patch_address-Emits ip _ (shows_conflict e c h)

  reconcile_target-Assigns :
      (namespace : String) → Emits {W = W} (Assigns W ip) (reconcile_target namespace ip)
  unfolding reconcile_target update_ip_address_metadata
  reconcile_target-Assigns namespace =
      Emits-bind-Returns _ _ (find_netbox_target-Emits namespace)
        (find_netbox_target-IsChosen namespace)
        (λ target chosen.
          Emits-on_result _ _ _ (reconcile_netbox-Assigns target chosen)
            (λ _. patch_address-Emits ip _ (records target chosen))
            (λ e. on_conflict-Assigns e _ refl))

  reconcile_live-Maintains :
      (namespace : String)
      → is_deleted ip ≡ false
      → Emits {W = W} (Maintains W ip) (reconcile_live namespace ip)
  unfolding reconcile_live
  reconcile_live-Maintains namespace live =
      Emits-if _ _ _ (λ added. patch_address-Emits ip _ (claims _ live (added_pair _ _ added)))
        (λ present. weaken _ (λ c h. assigns live present h) (reconcile_target-Assigns namespace))

  reconcile_deleted-Maintains :
      is_deleted ip ≡ true → Emits {W = W} (Maintains W ip) (reconcile_deleted ip)
  unfolding reconcile_deleted
  reconcile_deleted-Maintains deleted =
      Emits-bind _ _ (weaken _ (λ c h. deletes deleted h) (reconcile_delete-DeletesOwned ip)) (λ _.
        Emits-if _ _ _
          (λ removed. patch_address-Emits ip _ (gives_up _ deleted (added_pair _ _ removed)))
          (λ _. Emits-pure tt))

  -- `Reconcile` sends for an address only: while it is being deleted, deletions in NetBox of an
  -- address that is assigned to the interface of the annotations, and the patch that takes the
  -- finalizer off; and while it is not, the patch that adds the finalizer, or, with the finalizer in
  -- place, the creation of its address in NetBox on the interface that was chosen, with the tenant of
  -- the device, the change of the device's primary address, and the patch that records the chosen
  -- interface or a conflict in the annotations.
  pub reconcile_found-Maintains :
      (namespace : String) → Emits {W = W} (Maintains W ip) (reconcile_found namespace ip)
  unfolding reconcile_found
  reconcile_found-Maintains namespace = Emits-bind _ _ (Emits-require _ _) (λ _.
      Emits-bind _ _ credentials_reload-Emits (λ _. Emits-bind _ _ (Emits-gets _) (λ credentials.
        Emits-bind _ _ (clients_reload-Emits credentials.netbox_token)
          (λ _. Emits-if _ _ _ reconcile_deleted-Maintains (reconcile_live-Maintains namespace)))))
