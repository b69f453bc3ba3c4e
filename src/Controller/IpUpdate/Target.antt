-- ===== src/Controller/IpUpdate/Target.antt =====
-- `findNetboxTarget` of internal/controller/ipupdate_controller.go: from the address over its claim,
-- the claim's server and the server's BMC to the device and the interface in NetBox.
pub mod Owner
use argora.Base.{String, ◌<>◌, not, Option, none, some, str_eq}
use argora.Errors.{text}
use argora.Models.Kubernetes.{IpAddress}
use argora.World.{World}
use argora.Effect.{Action, pure, crash, ask, lift, guard, require, wrap_error, ◌>>=◌, ◌>>◌}
use argora.Netbox.Dcim
use argora.Controller.IpUpdate.Selection.{NetboxTarget, get_owner_by_kind, find_target_interface}

-- `server.Spec.BMCRef.Name` reads through a pointer, which is `nil` if the field is left out.
unfoldable pub deref : {W : World} → Option String → Action W String
deref none = crash
deref (some name) = pure name

-- `findDeviceName`
unfoldable pub find_device_name : {W : World} → String → IpAddress → Action W String
find_device_name {W} namespace ip = do
  ip_claim ← wrap_error "failed to get IPAddressClaim for IPAddress: " (
      ask {W = W}
        (W.ip_address_claims.get (record { namespace = namespace; name = ip.claim_ref_name })))
  let server_claim_name = get_owner_by_kind ip_claim.meta.owner_references "ServerClaim"
  guard (not (str_eq server_claim_name ""))
      (text ("no ServerClaim owner found for IpAddressClaim " <> ip_claim.meta.name))
  server_claim ← wrap_error "failed to get ServerClaim: " (
      ask {W = W}
        (W.server_claims.get (record { namespace = namespace; name = server_claim_name })))
  server_name ←
      require server_claim.server_ref
        (text ("ServerClaim " <> server_claim_name <> " not yet bound to a server"))
  server ←
      wrap_error "failed to get Server: "
        (ask {W = W} (W.servers.get (record { namespace = namespace; name = server_name })))
  bmc_name ← deref server.bmc_ref
  guard (not (str_eq bmc_name "")) (text ("server " <> server.meta.name <> " has no bmcRef name"))
  pure bmc_name

-- `findNetboxTarget`
unfoldable pub find_netbox_target : {W : World} → String → IpAddress → Action W NetboxTarget
find_netbox_target namespace ip = do
  device_name ← wrap_error "unable to find device name: " (find_device_name namespace ip)
  device ← wrap_error "unable to find device by name: " (Dcim.get_device_by_name device_name)
  interfaces ←
      wrap_error "unable to find interfaces for device " (Dcim.get_interfaces_for_device device)
  target ← wrap_error "unable to find target interface: " (lift (find_target_interface interfaces))
  pure (record { device = device; iface = target })
