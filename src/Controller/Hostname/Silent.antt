-- ===== src/Controller/Hostname/Silent.antt =====
-- `getRemoteboardHostname` only reads.
use argora.Models.Netbox.{Device}
use argora.World.{World}
use argora.Effect.{Call}
use argora.Effect.Emits.{Emits, emits_rules}
use argora.Netbox.Emitted.{get_interface_for_device-Emits, get_ip_address_for_interface-Emits}
use argora.Controller.Hostname.{get_remoteboard_hostname}

pub get_remoteboard_hostname-Emits :
    {W : World} {P : Call → Type 0} (device : Device)
    → Emits {W = W} P (get_remoteboard_hostname device)
unfolding get_remoteboard_hostname
get_remoteboard_hostname-Emits device =
    search (emits_rules, get_interface_for_device-Emits, get_ip_address_for_interface-Emits) depth
      12
