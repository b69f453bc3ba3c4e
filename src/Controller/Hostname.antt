-- ===== src/Controller/Hostname.antt =====
-- `getRemoteboardHostname` of internal/controller/ironcore_controller.go, which two reconcilers use.
pub mod Silent
use argora.Base.{String, not, str_eq}
use argora.Errors.{text}
use argora.Models.Netbox.{Device}
use argora.World.{World}
use argora.Effect.{Action, pure, guard, wrap_error, ◌>>=◌, ◌>>◌}
use argora.Netbox.Dcim
use argora.Netbox.Ipam
use argora.Controller.Constants.{remoteboard_interface_name}

unfoldable pub get_remoteboard_hostname : {W : World} → Device → Action W String
get_remoteboard_hostname device = do
  iface ←
      wrap_error "unable to get remoteboard interface: "
        (Dcim.get_interface_for_device device remoteboard_interface_name)
  ip_address ←
      wrap_error "unable to get IP address for remoteboard interface: "
        (Ipam.get_ip_address_for_interface iface.id)
  guard (not (str_eq ip_address.dns_name "")) (text "no DNS name found for remoteboard IP")
  pure ip_address.dns_name
