-- ===== src/Controller/IpUpdate/Address/Assignment.antt =====
-- What `reconcileNetbox` does with an address that NetBox has, and with one that it does not have.
use argora.Base.{◌≡◌, some, arith, ◌==◌, if◌then◌else◌}
use argora.Errors.{ok, err, netbox_conflict}
use argora.Go.Netip.{NetPrefix, prefix_string}
use argora.Models.Netbox.{Device, Interface, IpAddress}
use argora.Models.Kubernetes
use argora.World.{World}
use argora.Effect.{Sys, pure, raise, on_result, require, ◌>>=◌}
use argora.Netbox.Ipam
use argora.Controller.IpUpdate.Address.{get_prefix, check_assignment, reconcile_netbox_address_ip}

module _ {W : World} (iface : Interface) (device : Device) (ip : Kubernetes.IpAddress) (s : Sys W)
    {p : NetPrefix} {addr : IpAddress} {s' : Sys W} (parsed : get_prefix W ip ≡ some p)
    (found : Ipam.get_ip_address_by_address (prefix_string W.print_ipv6 p) s ≡ (ok addr, s')) where
  -- An address that NetBox has is never written: it is returned if it is assigned to the interface
  -- and the device that are needed, and if not the call ends in a conflict that names what differs.
  pub reconcile_netbox_address_ip-found : reconcile_netbox_address_ip iface ip device s ≡ (
      if addr.assigned_interface.id == iface.id
      then if device.id == addr.assigned_interface.device_id then (ok addr, s') else (
        err (
            netbox_conflict (record {
              ip_address_id = addr.id;
              conflict_obj = "device";
              assigned_netbox_id = addr.assigned_interface.device_id;
              needed_netbox_id = device.id;
            })),
        s',
      )
      else (
        err (
            netbox_conflict (record {
              ip_address_id = addr.id;
              conflict_obj = "interface";
              assigned_netbox_id = addr.assigned_interface.id;
              needed_netbox_id = iface.id;
            })),
        s',
      ))
  unfolding reconcile_netbox_address_ip check_assignment require pure raise on_result ◌>>=◌
  reconcile_netbox_address_ip-found = ground arith
