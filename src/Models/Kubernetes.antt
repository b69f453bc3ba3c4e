-- ===== src/Models/Kubernetes.antt =====
-- Kubernetes objects. A `nil` map and a `nil` pointer are `none`.
use argora.Base.{none, [], ℕ, String, Bool, Option, List, Dict, ℤ}

pub record ObjectKey : Type 0 where
  pub namespace : String
  pub name : String

pub record OwnerReference : Type 0 where
  pub kind : String
  pub name : String

pub record ObjectMeta : Type 0 where
  pub name : String
  pub namespace : String
  pub resource_version : ℕ
  pub labels : Option (Dict String)
  pub annotations : Option (Dict String)
  pub finalizers : List String
  pub owner_references : List OwnerReference
  pub deletion_timestamp : Option ℕ

-- The metadata of an object that is made with a name only, and a namespace or the empty one
abbrev pub object_meta : String → String → ObjectMeta
object_meta namespace name = record {
  name = name;
  namespace = namespace;
  resource_version = 0;
  labels = none;
  annotations = none;
  finalizers = [];
  owner_references = [];
  deletion_timestamp = none;
}

-- `client.ObjectKeyFromObject`
abbrev pub key_of : ObjectMeta → ObjectKey
key_of m = record { namespace = m.namespace; name = m.name }

-- `ipam.cluster.x-k8s.io` `IPAddress`, `spec.prefix` of which may be missing
pub record IpAddress : Type 0 where
  pub meta : ObjectMeta
  pub address : String
  pub prefix : Option ℕ
  pub claim_ref_name : String

pub record IpAddressClaim : Type 0 where
  pub meta : ObjectMeta

pub record ServerClaim : Type 0 where
  pub meta : ObjectMeta
  pub server_ref : Option String

-- `spec.bmcRef` is an optional reference
pub record Server : Type 0 where
  pub meta : ObjectMeta
  pub bmc_ref : Option String

-- `metal.ironcore.dev` `BMC`: its endpoint, its protocol, its secret, and its optional hostname
pub record Bmc : Type 0 where
  pub meta : ObjectMeta
  pub endpoint_ip : Option String
  pub protocol_name : String
  pub protocol_port : ℕ
  pub secret_ref : String
  pub hostname : Option String

-- `metal.ironcore.dev` `BMCSecret`
pub record BmcSecret : Type 0 where
  pub meta : ObjectMeta
  pub values : Option (Dict String)

-- `Secret`: `data`, and `stringData`, which is written only
pub record Secret : Type 0 where
  pub meta : ObjectMeta
  pub values : Option (Dict String)
  pub string_values : Option (Dict String)

-- `cluster.x-k8s.io` `Cluster`
pub record CapiCluster : Type 0 where
  pub meta : ObjectMeta

-- `metal3.io` `BareMetalHost`
pub record BareMetalHost : Type 0 where
  pub meta : ObjectMeta
  pub architecture : String
  pub automated_cleaning_mode : String
  pub online : Bool
  pub bmc_address : String
  pub bmc_credentials_name : String
  pub bmc_disable_certificate_verification : Bool
  pub boot_mac_address : String
  pub network_data : ObjectKey
  pub root_device_model : String

pub record GlobalInClusterIpPool : Type 0 where
  pub meta : ObjectMeta
  pub addresses : List String
  pub excluded_addresses : List String
  pub gateway : String
  pub prefix : ℤ
