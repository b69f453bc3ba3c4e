-- ===== src/Api.antt =====
-- The custom resources of api/v1alpha1: selectors, status, and the conditions of conditions.go.
pub mod Conditions
use argora.Base.{ℕ, String, Option, List, ℤ}
use argora.Models.Kubernetes.{ObjectMeta}

-- `State`; `unset` is the empty text of a resource with no status yet.
pub data State : Type 0 where
  unset ready error : State

-- `metav1.ConditionStatus`
pub data ConditionStatus : Type 0 where
  is_true is_false unknown : ConditionStatus

-- `metav1.Condition`, without its transition time
pub record Condition : Type 0 where
  pub type_name : String
  pub status : ConditionStatus
  pub reason : String
  pub message : String

-- `UpdateStatus`, `ClusterImportStatus` and `IPPoolImportStatus` have these same three fields.
pub record Status : Type 0 where
  pub state : State
  pub conditions : Option (List Condition)
  pub description : String

-- `AnnotationIgnore`
abbrev pub annotation_ignore : String
annotation_ignore = "argora.cloud.sap/ignore"

pub record ClusterSelector : Type 0 where
  pub name : String
  pub region : String
  pub cluster_type : String
  pub bmc_credentials_ref : Option String

pub record IpPoolSelector : Type 0 where
  pub name_prefix : String
  pub name_override : String
  pub region : String
  pub role : String
  pub exclude_mask : Option ℤ
  pub excluded_addresses : List String
  pub exclude_last_n_addresses : Option ℤ

pub record Update : Type 0 where
  pub meta : ObjectMeta
  pub clusters : List ClusterSelector
  pub status : Status

pub record ClusterImport : Type 0 where
  pub meta : ObjectMeta
  pub clusters : List ClusterSelector
  pub status : Status

pub record IpPoolImport : Type 0 where
  pub meta : ObjectMeta
  pub ip_pools : List IpPoolSelector
  pub status : Status
