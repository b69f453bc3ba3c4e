-- ===== src/World.antt =====
-- What the program calls and does not implement: the NetBox clients of go-netbox-go, the Kubernetes
-- client of controller-runtime, and the few library functions on data that it uses. Each call of a
-- remote system takes the state of the outside world and gives the answer and the next state, which
-- may differ in any way: other writers act between two calls.
pub mod Documented
use argora.Base.{ℕ, String, Bool, Option, List}
use argora.Errors.{Result, Error}
use argora.Models.Netbox.{
  Device, WritableDevice, Interface, WritableInterface, IpAddress, WriteableIpAddress, Vlan, Prefix,
  Cluster, Platform, DeviceRole, Site, Region, Tag, Listing, DeviceFilter, NameFilter,
  InterfaceFilter, IpAddressFilter, PrefixFilter, ClusterFilter,
}
use argora.Models.Kubernetes
use argora.Models.Kubernetes.{
  ObjectKey, ObjectMeta, IpAddressClaim, ServerClaim, Server, Bmc, BmcSecret, Secret, CapiCluster,
  BareMetalHost, GlobalInClusterIpPool,
}
use argora.NetworkData.{NetworkData}
use argora.Api.{Condition, Update, ClusterImport, IpPoolImport}

-- `client.Client` at one kind of object. `patch base obj` is `Patch(obj, MergeFrom(base))`.
pub record Resource (S Obj : Type 0) : Type 0 where
  pub get : ObjectKey → S → Result Obj × S
  pub create : Obj → S → Result Obj × S
  pub patch : Obj → Obj → S → Result Obj × S
  pub update_status : Obj → S → Result Obj × S

-- The four API groups of go-netbox-go, each with a `NewClient`.
pub data Service : Type 0 where
  virtualization dcim ipam extras : Service

-- What `json.Unmarshal` assigns of the three fields, and its error. A field that the text does not
-- have is not assigned.
pub record CredentialsJson : Type 0 where
  pub bmc_user : Option String
  pub bmc_password : Option String
  pub netbox_token : Option String
  pub error : Option Error

-- What the program uses of an IPv4 network of netaddr-go: `Netmask().Extended()`, and the text of
-- `Nth(n)`, where a call may panic.
pub record Ipv4Net : Type 0 where
  pub netmask : String
  pub nth : ℕ → Result String

pub record World : Type 1 where
  pub State : Type 0
  pub Client : Type 0
  -- go-netbox-go
  pub new_client : Service → String → String → Bool → Result Client
  pub list_clusters : Client → ClusterFilter → State → Result (Listing Cluster) × State
  pub list_devices : Client → DeviceFilter → State → Result (Listing Device) × State
  pub list_device_roles : Client → NameFilter → State → Result (Listing DeviceRole) × State
  pub list_interfaces : Client → InterfaceFilter → State → Result (Listing Interface) × State
  pub list_platforms : Client → NameFilter → State → Result (Listing Platform) × State
  pub get_site : Client → ℕ → State → Result Site × State
  pub get_region : Client → ℕ → State → Result Region × State
  pub update_device : Client → WritableDevice → State → Result Device × State
  pub update_interface : Client → WritableInterface → ℕ → State → Result Interface × State
  pub delete_interface : Client → ℕ → State → Result (Unit {0}) × State
  pub list_vlans : Client → NameFilter → State → Result (Listing Vlan) × State
  pub list_ip_addresses : Client → IpAddressFilter → State → Result (Listing IpAddress) × State
  pub list_prefixes : Client → PrefixFilter → State → Result (Listing Prefix) × State
  pub create_ip_address : Client → WriteableIpAddress → State → Result IpAddress × State
  pub update_ip_address : Client → WriteableIpAddress → State → Result IpAddress × State
  pub delete_ip_address : Client → ℕ → State → Result (Unit {0}) × State
  pub list_tags : Client → NameFilter → State → Result (Listing Tag) × State
  -- `Device.Writeable`
  pub writeable : Device → WritableDevice
  -- the Kubernetes client
  pub updates : Resource State Update
  pub cluster_imports : Resource State ClusterImport
  pub ip_pool_imports : Resource State IpPoolImport
  pub ip_addresses : Resource State Kubernetes.IpAddress
  pub ip_address_claims : Resource State IpAddressClaim
  pub server_claims : Resource State ServerClaim
  pub servers : Resource State Server
  pub bmcs : Resource State Bmc
  pub ip_pools : Resource State GlobalInClusterIpPool
  pub bmc_secrets : Resource State BmcSecret
  pub secrets : Resource State Secret
  pub capi_clusters : Resource State CapiCluster
  pub bare_metal_hosts : Resource State BareMetalHost
  -- `controllerutil.CreateOrUpdate(ctx, client, obj, mutate)`
  pub create_or_update_bmc_secret :
      (BmcSecret → BmcSecret) → BmcSecret → State → Result BmcSecret × State
  pub create_or_update_secret : (Secret → Secret) → Secret → State → Result Secret × State
  -- `controllerutil.SetControllerReference(owner, obj, scheme)`
  pub set_owner_of_bmc_secret : Bmc → BmcSecret → Result BmcSecret
  pub set_owner_of_secret : BareMetalHost → Secret → Result Secret
  -- `BMCSecretUsernameKeyName` and `BMCSecretPasswordKeyName` of metal-operator
  pub bmc_secret_username_key : String
  pub bmc_secret_password_key : String
  -- `ParseIP` of metal-operator, `ParseIPv4Net` of netaddr-go, and `yaml.Marshal`
  pub parse_ip : String → Result String
  pub parse_ipv4_net : String → Result Ipv4Net
  pub Float64 : Type 0
  pub marshal_network_data : NetworkData Float64 → Result String
  -- `controllerutil.AddFinalizer` and `RemoveFinalizer`, and whether they changed the list
  pub add_finalizer : ObjectMeta → String → ObjectMeta × Bool
  pub remove_finalizer : ObjectMeta → String → ObjectMeta × Bool
  -- `retry.RetryOnConflict(retry.DefaultRetry, fn)`
  pub retry_on_conflict : (S : Type 0) → (S → Result (Unit {0}) × S) → S → Result (Unit {0}) × S
  -- `meta.SetStatusCondition`
  pub set_status_condition : List Condition → Condition → List Condition
  -- the mounted file, and `encoding/json`
  pub read_file : String → State → Result String × State
  pub unmarshal_credentials : String → CredentialsJson
  -- IPv6 texts of package `netip`: `ParseAddr` and `String`
  pub parse_ipv6 : String → Option ℕ
  pub print_ipv6 : ℕ → String
