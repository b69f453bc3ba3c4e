-- ===== src/Controller/IpUpdate/Deletion/Safety.antt =====
-- Which address `reconcileDelete` deletes in NetBox.
use argora.Base.{◌≡◌, refl, true, ℤ, pos, eq_ℤ, arith}
use argora.Errors.{ok}
use argora.Models.Netbox
use argora.Models.Kubernetes.{IpAddress}
use argora.World.{World}
use argora.Effect.{Call, delete_ip_address}
use argora.Base.{some}
use argora.Go.Netip.{NetPrefix, prefix_string}
use argora.Effect.{Sys}
use argora.Netbox.Ipam
use argora.Controller.IpUpdate.Address.{get_prefix}
use argora.Effect.Returns.{
  Returns-self, Returns-require, Returns-wrap_error, Emits-bind-Returns, Emits-on_result-Returns,
}
use argora.Effect.Emits.{
  Emits-require, Emits, Emits-pure, Emits-if, Emits-on_result-lift, Emits-wrap_error, emits_rules,
}
use argora.Netbox.Emitted.{get_ip_address_by_address-Emits, delete_ip_address-Emits}
use argora.Controller.IpUpdate.Selection.{ids_from_annotations}
use argora.Controller.IpUpdate.Deletion.{delete_if_owned, reconcile_delete}

-- NetBox has returned the address, in some state, for the text of the resource's address.
abbrev pub IsFound : (W : World) → IpAddress → Netbox.IpAddress → Type 0
IsFound W ip nb_ip =
    (p : NetPrefix) × (s : Sys W) × (get_prefix W ip ≡ some p)
    × ((Ipam.get_ip_address_by_address (prefix_string W.print_ipv6 p) s).0 ≡ ok nb_ip)

-- The call deletes an address that NetBox has returned for the resource, and that is assigned to the
-- interface that the annotations name.
abbrev pub DeletesOwned : World → IpAddress → Call → Type 0
DeletesOwned W ip c =
    (nb_ip : Netbox.IpAddress) × (device_id : ℤ) × (c ≡ delete_ip_address nb_ip.id)
    × IsFound W ip nb_ip
    × (ids_from_annotations ip ≡ ok (device_id, pos nb_ip.assigned_object_id))

pub eq_ℤ-eq : (a b : ℤ) → eq_ℤ a b ≡ true → a ≡ b
eq_ℤ-eq a b h = ground arith

module _ {W : World} (ip : IpAddress) where
  delete_if_owned-DeletesOwned :
      (nb_ip : Netbox.IpAddress)
      → IsFound W ip nb_ip
      → Emits {W = W} (DeletesOwned W ip) (delete_if_owned ip nb_ip)
  unfolding delete_if_owned
  delete_if_owned-DeletesOwned nb_ip is_found =
      Emits-on_result-lift (ids_from_annotations ip) _ _
        (λ ids found.
          Emits-if _ _ _
            (λ same_id. Emits-wrap_error _ _ (
              delete_ip_address-Emits nb_ip.id (
                nb_ip,
                ids.0,
                refl,
                is_found,
                rw (eq_ℤ-eq (pos nb_ip.assigned_object_id) ids.1 same_id) found,
              )))
            (λ _. Emits-pure tt))
        (λ e _. Emits-pure tt)

  -- `reconcileDelete` sends no call but deletions of an address that NetBox has returned for the
  -- address of the resource, and that is assigned to the interface in the annotations; an address
  -- without readable annotations stays in NetBox.
  pub reconcile_delete-DeletesOwned : Emits {W = W} (DeletesOwned W ip) (reconcile_delete ip)
  unfolding reconcile_delete
  reconcile_delete-DeletesOwned =
      Emits-bind-Returns _ _ (Emits-wrap_error _ _ (Emits-require _ _))
        (Returns-wrap_error _ _ (Returns-require _ _))
        (λ p parsed.
          Emits-on_result-Returns _ _ _ (get_ip_address_by_address-Emits _) (Returns-self _)
            (λ nb_ip from. delete_if_owned-DeletesOwned nb_ip (p, from.0, parsed, from.1))
            (λ e. search emits_rules depth 9))
