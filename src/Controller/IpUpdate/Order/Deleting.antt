-- ===== src/Controller/IpUpdate/Order/Deleting.antt =====
-- The order of the calls of `reconcileDelete`.
use argora.Base.{pos, eq_ℤ, List, [], ◌∷◌}
use argora.Errors.{is_no_objects_found}
use argora.Models.Netbox
use argora.Models.Kubernetes.{IpAddress}
use argora.World.{World}
use argora.Effect.{delete_ip_address, lift}
use argora.Effect.Returns.{Returns-require, Returns-wrap_error}
use argora.Effect.Emits.{Emits-require, Emits-lift, Emits-wrap_error}
use argora.Effect.Traces.{
  Traces, AtMost, unsent, once, Traces-pure, Traces-raise, Traces-if, Traces-weaken,
}
use argora.Effect.Traces.Replies.{Traces-after_reply, Traces-on_reply, Traces-wrap_error}
use argora.Netbox.Emitted.{get_ip_address_by_address-Emits}
use argora.Netbox.Traced.{delete_ip_address-Traces}
use argora.Controller.IpUpdate.Deletion.{delete_if_owned, reconcile_delete}
use argora.Controller.IpUpdate.Deletion.Safety.{IsFound, eq_ℤ-eq}
use argora.Controller.IpUpdate.Order.{
  Removed, is_missing, not_annotated, other_interface, removed, Removing, not_sent, sent_deletion,
}

module _ {W : World} (ip : IpAddress) where
  attempted :
      (a : Netbox.IpAddress) {cs : List _}
      → Removed W ip (delete_ip_address a.id ∷ [])
      → AtMost (delete_ip_address a.id) cs
      → Removing W ip cs
  attempted a r unsent = not_sent
  attempted a r once = sent_deletion r

  delete_if_owned-Removed :
      (a : Netbox.IpAddress)
      → IsFound W ip a
      → Traces {W = W} (λ u. Removed W ip) (Removing W ip) (delete_if_owned ip a)
  unfolding delete_if_owned lift
  delete_if_owned-Removed a is_found =
      Traces-on_reply _ _ _ (Emits-lift _) not_sent
        (λ ids from.
          Traces-if (eq_ℤ (pos a.assigned_object_id) ids.1) _ _
            (λ same_id.
              let r =
                removed a ids.0 is_found
                  (rw (eq_ℤ-eq (pos a.assigned_object_id) ids.1 same_id) from.1) in
              Traces-wrap_error _ _ (
                Traces-weaken _ (λ u cs only. rw only r) (λ cs. attempted a r)
                  (delete_ip_address-Traces a.id)))
            (λ other. Traces-pure tt (other_interface a ids.0 ids.1 is_found from.1 other)))
        (λ e (s, failed). Traces-pure tt (not_annotated a e is_found failed))

  pub reconcile_delete-Removed :
      Traces {W = W} (λ u. Removed W ip) (Removing W ip) (reconcile_delete ip)
  unfolding reconcile_delete
  reconcile_delete-Removed =
      Traces-after_reply _ _ (Emits-wrap_error _ _ (Emits-require _ _))
        (Returns-wrap_error _ _ (Returns-require _ _)) not_sent
        (λ p parses.
          Traces-on_reply _ _ _ (get_ip_address_by_address-Emits _) not_sent
            (λ a (s, returned). delete_if_owned-Removed a (p, s, parses, returned))
            (λ e failed.
              Traces-if (is_no_objects_found e) _ _
                (λ none_there. Traces-pure tt (is_missing p e parses failed none_there))
                (λ _. Traces-raise _ not_sent)))
