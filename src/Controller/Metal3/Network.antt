-- ===== src/Controller/Metal3/Network.antt =====
-- `createNetworkDataSecret` of internal/controller/metal3_controller.go.
use argora.Base.{ℕ, String, ◌<>◌, none, some, List, [], ◌∷◌, ◌==◌, if◌then◌else◌}
use argora.Go.Strconv.{itoa}
use argora.Models.Netbox.{Device, Prefix}
use argora.Models.Kubernetes.{Secret, CapiCluster, BareMetalHost, object_meta}
use argora.NetworkData.{NetworkData, ipv4}
use argora.World.{World}
use argora.Effect.{create_secret, Action, pure, lift, send, wrap_error, ◌>>=◌, ◌>>◌}
use argora.Netbox.Dcim
use argora.Netbox.Ipam
use argora.Controller.Metal3.Hints.{create_link_hint}

-- The VLAN id of the first prefix that has one
unfoldable pub vlan_id_of : List Prefix → ℕ
vlan_id_of [] = 0
vlan_id_of (p ∷ ps) = let rest = vlan_id_of ps in if p.vlan.vid == 0 then rest else p.vlan.vid

-- The network data: one network with the address, and a default route by the gateway
unfoldable pub network_data_of :
    {Float64 : Type 0} → ℕ → String → String → String → String → NetworkData Float64
network_data_of vlan_id address link netmask gateway = record {
  links = [];
  networks =
      record {
        id = vlan_id;
        ip_address = some address;
        link = link;
        netmask = some netmask;
        network_id = "";
        routes =
            record { gateway = gateway; netmask = "0.0.0.0"; network = "0.0.0.0"; services = [] }
            ∷ [];
        network_type = ipv4;
      }
      ∷ [];
  services = [];
}

-- The secret that holds the text of the network data
unfoldable pub network_secret : CapiCluster → String → String → Secret
network_secret cluster secret_name yaml = record {
  meta = object_meta cluster.meta.namespace secret_name;
  values = none;
  string_values = some (("networkData", yaml) ∷ []);
}

-- `createNetworkDataSecret`
unfoldable pub create_network_data_secret :
    {W : World} → BareMetalHost → CapiCluster → Device → String → String → Action W (Unit {0})
create_network_data_secret {W} host cluster device role secret_name = do
  iface ←
      wrap_error ("unable to find interface LAG1 for device " <> device.name <> ": ")
        (Dcim.get_interface_for_device device "LAG1")
  ip ←
      wrap_error ("unable to get IP for interface ID " <> itoa iface.id <> ": ")
        (Ipam.get_ip_address_for_interface iface.id)
  prefixes ←
      wrap_error ("unable to get prefixes containing IP " <> ip.address <> ": ")
        (Ipam.get_prefixes_containing ip.address)
  netw ←
      wrap_error ("unable to parse IP address " <> ip.address <> ": ")
        (lift (W.parse_ipv4_net ip.address))
  link_hint ←
      wrap_error
        ("unable to create link hint for device " <> device.name <> " and role " <> role <> ": ")
        (lift (create_link_hint device role))
  gateway ← lift (netw.nth 1)
  yaml ← wrap_error "unable to marshal network data: " (
      lift (
        W.marshal_network_data
          (network_data_of (vlan_id_of prefixes) ip.address link_hint netw.netmask gateway)))
  secret ←
      wrap_error "failed to set owner reference on networkdata secret: "
        (lift (W.set_owner_of_secret host (network_secret cluster secret_name yaml)))
  send {W = W} (create_secret secret) (W.secrets.create secret)
  pure tt
