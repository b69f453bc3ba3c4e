-- ===== src/Api/Conditions.antt =====
-- api/v1alpha1/conditions.go: the reasons, and the condition that a reason stands for.
use argora.Base.{String, Option, none, some, List, [], ◌∷◌, str_eq, if◌then◌else◌, Dict, lookup}
use argora.Api.{ConditionStatus, is_true, is_false, Condition}

abbrev pub condition_type_ready : String
condition_type_ready = "Ready"

abbrev pub update_succeeded : String
update_succeeded = "UpdateSucceeded"

abbrev pub update_failed : String
update_failed = "UpdateFailed"

abbrev pub cluster_import_succeeded : String
cluster_import_succeeded = "ClusterImportSucceeded"

abbrev pub cluster_import_failed : String
cluster_import_failed = "ClusterImportFailed"

abbrev pub ip_pool_import_succeeded : String
ip_pool_import_succeeded = "IPPoolImportSucceeded"

abbrev pub ip_pool_import_failed : String
ip_pool_import_failed = "IPPoolImportFailed"

-- `conditionMeta`
pub record ConditionMeta : Type 0 where
  pub type_name : String
  pub status : ConditionStatus
  pub message : String

abbrev ready_meta : ConditionStatus → String → ConditionMeta
ready_meta status message = record {
  type_name = condition_type_ready;
  status = status;
  message = message;
}

-- `conditionReasons`
unfoldable pub condition_reasons : Dict ConditionMeta
condition_reasons =
    (update_succeeded, ready_meta is_true "Update succeeded")
    ∷ (update_failed, ready_meta is_false "Update failed")
    ∷ (cluster_import_succeeded, ready_meta is_true "ClusterImport succeeded")
    ∷ (cluster_import_failed, ready_meta is_false "ClusterImport failed")
    ∷ (ip_pool_import_succeeded, ready_meta is_true "IPPoolImport succeeded")
    ∷ (ip_pool_import_failed, ready_meta is_false "IPPoolImport failed")
    ∷ []

pub record ReasonWithMessage : Type 0 where
  pub reason : String
  pub message : String

-- `NewReasonWithMessage`, of which the custom messages may be none
unfoldable pub new_reason_with_message : String → List String → ReasonWithMessage
new_reason_with_message reason [] = record { reason = reason; message = "" }
new_reason_with_message reason (m ∷ _) = record { reason = reason; message = m }

-- `ConditionFromReason`
unfoldable pub condition_from_reason : ReasonWithMessage → Option Condition
unfolding condition_reasons
condition_from_reason r = elim (lookup r.reason condition_reasons) [
  | none ↦ none
  | some meta ↦ some (record {
    type_name = meta.type_name;
    status = meta.status;
    reason = r.reason;
    message = if str_eq r.message "" then meta.message else r.message;
  })
]
