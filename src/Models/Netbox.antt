-- ===== src/Models/Netbox.antt =====
-- NetBox objects, the filters of list requests, and the writable forms.
use argora.Base.{ℕ, String, List}

pub record Nested : Type 0 where
  pub id : ℕ
  pub slug : String

pub record NestedIpAddress : Type 0 where
  pub id : ℕ
  pub address : String

pub record DeviceType : Type 0 where
  pub slug : String
  pub model : String
  pub manufacturer : Nested

pub record Device : Type 0 where
  pub id : ℕ
  pub name : String
  pub status_value : String
  pub platform : Nested
  pub site : Nested
  pub tenant : Nested
  pub device_role : Nested
  pub device_type : DeviceType
  pub oob_ip : NestedIpAddress
  pub primary_ip : NestedIpAddress
  pub primary_ip4 : NestedIpAddress
  pub tags : List String

-- `WritableDeviceWithConfigContext`: the fields that the program sets, and all the others as one.
pub record WritableDevice : Type 0 where
  pub id : ℕ
  pub platform : ℕ
  pub oob_ip : ℕ
  pub primary_ip4 : ℕ
  pub others : String

pub record Interface : Type 0 where
  pub id : ℕ
  pub name : String
  pub type_value : String
  pub mac_address : String

pub record WritableInterface : Type 0 where
  pub name : String
  pub device : ℕ
  pub type_value : String

pub record AssignedInterface : Type 0 where
  pub id : ℕ
  pub device_id : ℕ

pub record IpAddress : Type 0 where
  pub id : ℕ
  pub address : String
  pub dns_name : String
  pub assigned_object_id : ℕ
  pub assigned_interface : AssignedInterface

pub record WriteableIpAddress : Type 0 where
  pub id : ℕ
  pub address : String
  pub vrf : ℕ
  pub tenant : ℕ
  pub assigned_object_type : String
  pub assigned_object_id : ℕ

pub record Vlan : Type 0 where
  pub id : ℕ
  pub vid : ℕ
  pub name : String

pub record Prefix : Type 0 where
  pub id : ℕ
  pub prefix : String
  pub vrf : Nested
  pub vlan : Vlan
  pub site : Nested
  pub role : Nested

pub record Cluster : Type 0 where
  pub id : ℕ
  pub name : String
  pub type_slug : String

pub record Platform : Type 0 where
  pub id : ℕ
  pub name : String

pub record DeviceRole : Type 0 where
  pub id : ℕ
  pub name : String

pub record Site : Type 0 where
  pub id : ℕ
  pub region : Nested

pub record Region : Type 0 where
  pub id : ℕ
  pub slug : String

pub record Tag : Type 0 where
  pub id : ℕ
  pub name : String

-- A list response: the number of matches, and the page that came back.
pub record Listing (A : Type 0) : Type 0 where
  pub count : ℕ
  pub results : List A

-- The filters. A number 0 and an empty text are not sent.
pub record DeviceFilter : Type 0 where
  pub limit : ℕ
  pub name : String
  pub id : ℕ
  pub cluster_id : ℕ

pub record NameFilter : Type 0 where
  pub name : String

pub record InterfaceFilter : Type 0 where
  pub name : String
  pub id : ℕ
  pub device_id : ℕ
  pub lag_id : ℕ

pub record IpAddressFilter : Type 0 where
  pub interface_id : ℕ
  pub address : String

pub record PrefixFilter : Type 0 where
  pub contains : String
  pub region : String
  pub role : String
  pub prefix : String

pub record ClusterFilter : Type 0 where
  pub name : String
  pub region : String
  pub cluster_type : String
