-- ===== src/NetworkData.antt =====
-- internal/networkdata/networkdata.go: the network data that a bare metal host is given. The text that
-- stands for it is made by the JSON and YAML libraries. A `*float64` is of the type `Float64` of the
-- caller, and an `int64` is a number.
use argora.Base.{ℕ, String, Option, List}

-- `PortBondingType`
pub data PortBondingType : Type 0 where
  active_backup balance_alb balance_rr balance_tlb balance_xor broadcast the8023_ad :
      PortBondingType

-- `InterfaceType`
pub data InterfaceType : Type 0 where
  bond bridge dvs hw_veb hyperv ovs phy tap vlan vhostuser vif : InterfaceType

-- `ServiceType`
pub data ServiceType : Type 0 where
  dns : ServiceType

-- `L3IPVNetworkType`
pub data L3IpvNetworkType : Type 0 where
  ipv4 ipv4_dhcp ipv6 ipv6_dhcp ipv6_slaac : L3IpvNetworkType

-- `NetworkService`, and `ServiceOnAIPVNetwork`, which has the same fields
pub record NetworkService : Type 0 where
  pub address : String
  pub service_type : ServiceType

-- `L3IPVRoutingConfigurationItem`
pub record L3IpvRoutingConfigurationItem : Type 0 where
  pub gateway : String
  pub netmask : String
  pub network : String
  pub services : List NetworkService

-- `L3`
pub record L3 : Type 0 where
  pub id : ℕ
  pub ip_address : Option String
  pub link : String
  pub netmask : Option String
  pub network_id : String
  pub routes : List L3IpvRoutingConfigurationItem
  pub network_type : L3IpvNetworkType

-- `L2`
pub record L2 (Float64 : Type 0) : Type 0 where
  pub ethernet_mac_address : Option String
  pub id : String
  pub mtu : Option Float64
  pub interface_type : InterfaceType
  pub vif_id : Option String
  pub bond_links : List String
  pub bond_mode : Option PortBondingType
  pub vlan_id : Option ℕ
  pub vlan_link : Option String
  pub vlan_mac_address : Option String

-- `NetworkData`
pub record NetworkData (Float64 : Type 0) : Type 0 where
  pub links : List (L2 Float64)
  pub networks : List L3
  pub services : List NetworkService

-- The text of a type, as the constants spell it.
unfoldable pub bonding_text : PortBondingType → String
bonding_text active_backup = "active-backup"
bonding_text balance_alb = "balance-alb"
bonding_text balance_rr = "balance-rr"
bonding_text balance_tlb = "balance-tlb"
bonding_text balance_xor = "balance-xor"
bonding_text broadcast = "broadcast"
bonding_text the8023_ad = "802.3ad"

unfoldable pub interface_text : InterfaceType → String
interface_text bond = "bond"
interface_text bridge = "bridge"
interface_text dvs = "dvs"
interface_text hw_veb = "hw_veb"
interface_text hyperv = "hyperv"
interface_text ovs = "ovs"
interface_text phy = "phy"
interface_text tap = "tap"
interface_text vlan = "vlan"
interface_text vhostuser = "vhostuser"
interface_text vif = "vif"

unfoldable pub service_text : ServiceType → String
service_text dns = "dns"

unfoldable pub network_text : L3IpvNetworkType → String
network_text ipv4 = "ipv4"
network_text ipv4_dhcp = "ipv4_dhcp"
network_text ipv6 = "ipv6"
network_text ipv6_dhcp = "ipv6_dhcp"
network_text ipv6_slaac = "ipv6_slaac"
