-- ===== src/Controller/Metal3/Calls.antt =====
-- Which calls `reconcileDevice` of internal/controller/metal3_controller.go may send.
pub mod Sent
pub mod Whole
pub mod Existing
use argora.Base.{String, Bool, ◌<>◌, ◌≡◌, ◌≢◌, false, none, some, List, [], ◌∷◌, ◌⊎◌}
use argora.Go.Strings.{split_dash}
use argora.Errors.{Error, ok}
use argora.Models.Netbox.{Device, Interface, IpAddress, Prefix}
use argora.Models.Kubernetes.{Secret, CapiCluster, BareMetalHost, key_of}
use argora.World.{World, Ipv4Net}
use argora.Effect.{Call, put_secret, create_bare_metal_host, create_secret, Sys, Action, ask, send}
use argora.Effect.Returns.{ReturnedBy, FailedBy}
use argora.Netbox.Dcim
use argora.Netbox.Ipam
use argora.Controller.Constants.{device_status_active}
use argora.Controller.IronCore.{NodeName, two_parts}
use argora.Controller.IronCore.Secrets.{is_ignored}
use argora.Controller.Metal3.{secret_values, empty_secret, reconcile_bmc_secret, new_host}
use argora.Controller.Metal3.Hints.{
  create_root_hint, create_link_hint, get_role_from_tags, create_redfish_url,
}
use argora.Controller.Metal3.Mac.{get_mac_for_ip}
use argora.Controller.Metal3.Network.{vlan_id_of, network_data_of, network_secret}

-- `Get` of the host of a device
abbrev pub ask_host : (W : World) → CapiCluster → Device → Action W BareMetalHost
ask_host W cluster device =
    ask {W = W}
      (W.bare_metal_hosts.get (record { namespace = cluster.meta.namespace; name = device.name }))

-- The secret that is put: a new one, or one that the cluster has returned and that is not to be ignored
abbrev pub IsPut : (W : World) → CapiCluster → Device → Secret → Type 0
IsPut W cluster device o =
    (o ≡ empty_secret cluster device)
    ⊎ (ReturnedBy (ask {W = W} (W.secrets.get (key_of (empty_secret cluster device).meta))) o
        × (is_ignored o.meta ≡ false))

-- Where the parts of a new host come from
pub record IsHost (W : World) (cluster : CapiCluster) (device : Device) (role : String)
    (host : BareMetalHost) : Type 0 where
  pub secret : Secret × Bool
  pub redfish_url : String
  pub name : NodeName
  pub root_hint : String
  pub mac : String
  pub region : String
  pub is_secret : ReturnedBy {W = W} (reconcile_bmc_secret cluster device) secret
  pub is_url : create_redfish_url W device ≡ ok redfish_url
  pub splits : two_parts (split_dash device.name) ≡ some name
  pub is_hint : create_root_hint device ≡ ok root_hint
  pub is_mac : (mac ≡ "") ⊎ ReturnedBy {W = W} (get_mac_for_ip device.primary_ip4.address) mac
  pub is_region : ReturnedBy {W = W} (Dcim.get_region_for_device device) region
  pub is_role : get_role_from_tags device ≡ ok role
  pub is_host : host ≡ new_host cluster device secret.0 redfish_url name root_hint mac region role

-- Where the text of the network data comes from: the address of the interface `LAG1`, the prefixes
-- that contain it, its network with the first address as the gateway, and the link of the role
pub record IsNetworkData (W : World) (device : Device) (role yaml : String) : Type 0 where
  pub iface : Interface
  pub ip : IpAddress
  pub prefixes : List Prefix
  pub netw : Ipv4Net
  pub link : String
  pub gateway : String
  pub is_iface : ReturnedBy {W = W} (Dcim.get_interface_for_device device "LAG1") iface
  pub is_ip : ReturnedBy {W = W} (Ipam.get_ip_address_for_interface iface.id) ip
  pub is_prefixes : ReturnedBy {W = W} (Ipam.get_prefixes_containing ip.address) prefixes
  pub is_network : W.parse_ipv4_net ip.address ≡ ok netw
  pub is_link : create_link_hint device role ≡ ok link
  pub is_gateway : netw.nth 1 ≡ ok gateway
  pub is_text :
      W.marshal_network_data
        (network_data_of (vlan_id_of prefixes) ip.address link netw.netmask gateway)
      ≡ ok yaml

-- `Create` of a host
abbrev pub send_host : (W : World) → BareMetalHost → Action W BareMetalHost
send_host W host = send {W = W} (create_bare_metal_host host) (W.bare_metal_hosts.create host)

module _ (W : World) (cluster : CapiCluster) (device : Device) where
  -- The calls for one device
  pub data Provisions : Call → Type 0 where
    puts_secret :
        (s : Sys W) (o : Secret)
        → IsPut W cluster device o
        → ◌≢◌ {A = String} s.credentials.bmc_user ""
        → ◌≢◌ {A = String} s.credentials.bmc_password ""
        → Provisions (
            put_secret
              (key_of o.meta)
              (secret_values s.credentials.bmc_user s.credentials.bmc_password))
    creates_host :
        (e : Error) (role : String) (host : BareMetalHost)
        → FailedBy (ask_host W cluster device) e
        → IsHost W cluster device role host
        → Provisions (create_bare_metal_host host)
    creates_network_data :
        (e : Error) (role yaml : String) (host created : BareMetalHost) (secret : Secret)
        → FailedBy (ask_host W cluster device) e
        → IsHost W cluster device role host
        → ReturnedBy (send_host W host) created
        → IsNetworkData W device role yaml
        → W.set_owner_of_secret created
            (network_secret cluster ("networkdata-" <> device.name) yaml)
          ≡ ok secret
        → Provisions (create_secret secret)

-- The call is for an active device.
pub record ProvisionsActive (W : World) (cluster : CapiCluster) (device : Device) (c : Call)
    : Type 0 where
  pub is_active : device.status_value ≡ device_status_active
  pub provisions : Provisions W cluster device c
