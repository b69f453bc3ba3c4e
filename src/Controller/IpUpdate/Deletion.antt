-- ===== src/Controller/IpUpdate/Deletion.antt =====
-- `reconcileDelete` of internal/controller/ipupdate_controller.go: the address goes out of NetBox
-- only if it is still assigned to the interface that the annotations name.
pub mod Safety
pub mod Order
use argora.Base.{ℕ, Bool, pos, ℤ, eq_ℤ, if◌then◌else◌}
use argora.Go.Netip.{prefix_string}
use argora.Errors.{Error, text, wrapped, is_no_objects_found, Result, ok, err, panic}
use argora.Models.Netbox
use argora.Models.Kubernetes.{IpAddress}
use argora.World.{World}
use argora.Effect.{Action, pure, raise, lift, on_result, require, wrap_error, ◌>>=◌, ◌>>◌}
use argora.Netbox.Ipam
use argora.Controller.IpUpdate.Selection.{ids_from_annotations}
use argora.Controller.IpUpdate.Address.{get_prefix}

-- The end of `reconcileDelete`, for an address that NetBox has
unfoldable pub delete_if_owned : {W : World} → IpAddress → Netbox.IpAddress → Action W (Unit {0})
delete_if_owned ip nb_ip =
    on_result (lift (ids_from_annotations ip))
      (λ ids.
        if eq_ℤ (pos nb_ip.assigned_object_id) ids.1
        then wrap_error "delete ip from netbox: " (Ipam.delete_ip_address nb_ip.id)
        else pure tt)
      (λ e. pure tt)

-- `reconcileDelete`
unfoldable pub reconcile_delete : {W : World} → IpAddress → Action W (Unit {0})
reconcile_delete {W} ip = do
  prefix ←
      wrap_error "unable to get ip prefix: " (require (get_prefix W ip) (text "netip.ParseAddr"))
  on_result (Ipam.get_ip_address_by_address (prefix_string W.print_ipv6 prefix))
      (delete_if_owned ip)
      (λ e.
        if is_no_objects_found e
        then pure tt
        else raise (wrapped "unable to find IP in NetBox: " e))
