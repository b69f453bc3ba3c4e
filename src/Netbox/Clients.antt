-- ===== src/Netbox/Clients.antt =====
-- internal/netbox/netbox.go: `NetboxService`, whose clients are made anew by every `Reload`.
pub mod Renewal
use argora.Base.{String, false, Option, none, some}
use argora.Errors.{ok}
use argora.World.{World, virtualization, dcim, ipam, extras}
use argora.Effect.{Action, pure, lift, crash, gets, ◌>>=◌, NetboxService}

-- `NewNetbox`
unfoldable pub new_netbox : {W : World} → String → NetboxService W
new_netbox url = record {
  netbox_url = url;
  virtualization = none;
  dcim = none;
  ipam = none;
  extras = none;
}

set_netbox : {W : World} → NetboxService W → Action W (Unit {0})
set_netbox n s = (ok tt, record s { netbox = n })

-- `NetboxService.Reload`: the clients are replaced only if all four could be made.
unfoldable pub reload : {W : World} → String → Action W (Unit {0})
unfolding set_netbox
reload {W} token = do
  n ← gets (λ s. s.netbox)
  virt_client ← lift (W.new_client virtualization n.netbox_url token false)
  dcim_client ← lift (W.new_client dcim n.netbox_url token false)
  ipam_client ← lift (W.new_client ipam n.netbox_url token false)
  extras_client ← lift (W.new_client extras n.netbox_url token false)
  set_netbox (record n {
    virtualization = some virt_client;
    dcim = some dcim_client;
    ipam = some ipam_client;
    extras = some extras_client;
  })

-- A method call on a service that is `nil` panics.
abbrev pub non_nil : {W : World} → Option W.Client → Action W W.Client
non_nil none = crash
non_nil (some c) = pure c

-- `Virtualization()`, `DCIM()`, `IPAM()`, `Extras()`, and the call of a method of the result
unfoldable pub virtualization_service : {W : World} → Action W W.Client
virtualization_service = do n ← gets (λ s. s.netbox); non_nil n.virtualization

unfoldable pub dcim_service : {W : World} → Action W W.Client
dcim_service = do n ← gets (λ s. s.netbox); non_nil n.dcim

unfoldable pub ipam_service : {W : World} → Action W W.Client
ipam_service = do n ← gets (λ s. s.netbox); non_nil n.ipam

unfoldable pub extras_service : {W : World} → Action W W.Client
extras_service = do n ← gets (λ s. s.netbox); non_nil n.extras
