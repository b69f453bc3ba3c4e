-- ===== src/Controller/IpUpdate/Order/Assignment.antt =====
-- The order of the calls of `reconcileNetbox`.
use mathlib.Core.List.{append-nil}
use argora.Base.{◌≡◌, refl, arith, ◌==◌, some, List, ◌++◌}
use argora.Go.Netip.{NetPrefix}
use argora.Errors.{is_no_objects_found}
use argora.Models.Netbox
use argora.Models.Kubernetes.{IpAddress}
use argora.World.{World}
use argora.Effect.{Call}
use argora.Effect.Returns.{Returns-self, Returns-require}
use argora.Effect.Emits.{Emits-require}
use argora.Effect.Traces.{
  Traces, AtMost, unsent, once, Traces-pure, Traces-raise, Traces-if, Traces-returned,
  Traces-weaken, Traces-bind,
}
use argora.Effect.Traces.Replies.{Traces-after_reply, Traces-on_reply, Traces-wrap_error}
use argora.Netbox.Ipam
use argora.Netbox.Emitted.{get_ip_address_by_address-Emits, get_prefixes_by_prefix-Emits}
use argora.Netbox.Traced.{update_device-Traces, create_ip_address-Traces}
use argora.Controller.IpUpdate.Selection.{NetboxTarget}
use argora.Controller.IpUpdate.Address.{
  get_prefix, create_ip_address, check_assignment, reconcile_netbox_address_ip,
  reconcile_device_primary_ip, reconcile_netbox,
}
use argora.Controller.IpUpdate.Deletion.Safety.{IsFound}
use argora.Controller.IpUpdate.Order.{
  sets_primary, IsRequested, Gets, found, created, MakesPrimary, is_primary, updated, Established,
  established, Assigning, nothing_sent, creating, making_primary,
}

module _ {W : World} (ip : IpAddress) (target : NetboxTarget) where
  attempted :
      (params : Ipam.CreateIpAddressParams) {cs : List Call}
      → IsRequested W ip target params
      → AtMost (Call.create_ip_address (Ipam.new_ip_address params)) cs
      → Assigning W ip target cs
  attempted params requested unsent = nothing_sent
  attempted params requested once = creating params requested

  create_ip_address-Gets :
      (p : NetPrefix)
      → get_prefix W ip ≡ some p
      → Traces {W = W}
          (Gets W ip target)
          (Assigning W ip target)
          (create_ip_address p target.iface.id target.device.tenant.id)
  unfolding create_ip_address
  create_ip_address-Gets p parses =
      Traces-after_reply _ _ (get_prefixes_by_prefix-Emits _) (Returns-self _) nothing_sent
        (λ ps is_prefixes.
          let requested : IsRequested W ip target _ = record {
            prefix = p;
            parses = parses;
            address = refl;
            tenant_id = refl;
            interface_id = refl;
            prefixes = ps;
            is_prefixes = is_prefixes;
            vrf_id = refl;
          } in
          Traces-weaken _ (λ a cs (returned, only). rw only (created a _ requested returned))
            (λ cs. attempted _ requested) (Traces-returned _ (create_ip_address-Traces _)))

  check_assignment-Gets :
      (a : Netbox.IpAddress)
      → IsFound W ip a
      → Traces {W = W}
          (Gets W ip target)
          (Assigning W ip target)
          (check_assignment target.iface target.device a)
  unfolding check_assignment
  check_assignment-Gets a is_found =
      Traces-if (a.assigned_interface.id == target.iface.id) _ _
        (λ same_interface.
          Traces-if (target.device.id == a.assigned_interface.device_id) _ _
            (λ same_device. Traces-pure a (found a is_found (ground arith) (ground arith)))
            (λ _. Traces-raise _ nothing_sent))
        (λ _. Traces-raise _ nothing_sent)

  reconcile_netbox_address_ip-Gets :
      Traces {W = W}
        (Gets W ip target)
        (Assigning W ip target)
        (reconcile_netbox_address_ip target.iface ip target.device)
  unfolding reconcile_netbox_address_ip
  reconcile_netbox_address_ip-Gets =
      Traces-after_reply _ _ (Emits-require _ _) (Returns-require _ _) nothing_sent (λ p parses.
        Traces-on_reply _ _ _ (get_ip_address_by_address-Emits _) nothing_sent
          (λ a (s, returned). check_assignment-Gets a (p, s, parses, returned))
          (λ e _.
            Traces-if (is_no_objects_found e) _ _
              (λ _. Traces-wrap_error _ _ (create_ip_address-Gets p parses))
              (λ _. Traces-raise e nothing_sent)))

  reconcile_device_primary_ip-MakesPrimary :
      (a : Netbox.IpAddress)
      → Traces {W = W}
          (λ u. MakesPrimary W ip target a)
          (AtMost (sets_primary W target a))
          (reconcile_device_primary_ip a target.device)
  unfolding reconcile_device_primary_ip
  reconcile_device_primary_ip-MakesPrimary a =
      Traces-if (target.device.primary_ip.id == a.id) _ _
        (λ same. Traces-pure tt (is_primary (ground arith)))
        (λ _.
          Traces-bind _ _ (update_device-Traces _) (λ cs h. h)
            (λ d cs only. rw only (Traces-pure tt updated)))

  Gets-Assigning :
      {a : Netbox.IpAddress} {cs : List Call} → Gets W ip target a cs → Assigning W ip target cs
  Gets-Assigning (found a is_found i d) = nothing_sent
  Gets-Assigning (created a params requested returned) = creating params requested

  stopped :
      (a : Netbox.IpAddress) {cs ds : List Call}
      → Gets W ip target a cs
      → AtMost (sets_primary W target a) ds
      → Assigning W ip target (cs ++ ds)
  stopped a {cs} gets unsent = rw (append-nil cs) (Gets-Assigning gets)
  stopped a gets once = making_primary a gets

  -- `reconcileNetbox` that succeeds has got the address before it is made the primary one.
  pub reconcile_netbox-Established :
      Traces {W = W}
        (λ u. Established W ip target)
        (Assigning W ip target)
        (reconcile_netbox target.iface target.device ip)
  unfolding reconcile_netbox
  reconcile_netbox-Established =
      Traces-bind _ _ reconcile_netbox_address_ip-Gets (λ cs h. h)
        (λ a cs gets.
          Traces-weaken _ (λ u ds makes. established a gets makes) (λ ds. stopped a gets)
            (reconcile_device_primary_ip-MakesPrimary a))

  pub Established-Assigning :
      {cs : List Call} → Established W ip target cs → Assigning W ip target cs
  Established-Assigning (established {cs} a gets (is_primary same)) =
      rw (append-nil cs) (Gets-Assigning gets)
  Established-Assigning (established a gets updated) = making_primary a gets
