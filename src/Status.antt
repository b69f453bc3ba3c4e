-- ===== src/Status.antt =====
-- internal/status/status.go: the handlers that write the status of the three custom resources. They
-- differ only in the kind of the resource, so they are one definition over a kind.
pub mod Updating
pub mod Failing
pub mod Bounded
pub mod Sent
pub mod Store
pub mod Succeeding
pub mod Reported
use argora.Base.{String, Option, none, some, List, [], if◌then◌else◌}
use argora.Errors.{Error, error_text, Result, ok, err, panic}
use argora.Models.Kubernetes.{ObjectKey, key_of}
use argora.Api.{Condition, State, ready, error, Status, Update, ClusterImport, IpPoolImport}
use argora.Api.Conditions.{ReasonWithMessage, new_reason_with_message, condition_from_reason}
use argora.World.{World, Resource}
use argora.Effect.{
  Call, update_status_of_update, update_status_of_cluster_import, update_status_of_ip_pool_import,
  Sys, Action, raise, ask, send, ◌>>=◌, ◌>>◌,
}

-- What a handler uses of its kind of resource.
pub record Kind (W : World) (Obj : Type 0) : Type 0 where
  pub key : Obj → ObjectKey
  pub status : Obj → Status
  pub with_status : Status → Obj → Obj
  pub resource : Resource W.State Obj
  pub status_call : Obj → Call

-- `UpdateStatusHandler`
unfoldable pub update_kind : (W : World) → Kind W Update
update_kind W = record {
  key = λ o. key_of o.meta;
  status = λ o. o.status;
  with_status = λ st o. record o { status = st };
  resource = W.updates;
  status_call = update_status_of_update;
}

-- `ClusterImportStatusHandler`
unfoldable pub cluster_import_kind : (W : World) → Kind W ClusterImport
cluster_import_kind W = record {
  key = λ o. key_of o.meta;
  status = λ o. o.status;
  with_status = λ st o. record o { status = st };
  resource = W.cluster_imports;
  status_call = update_status_of_cluster_import;
}

-- `IPPoolImportStatusHandler`
unfoldable pub ip_pool_import_kind : (W : World) → Kind W IpPoolImport
ip_pool_import_kind W = record {
  key = λ o. key_of o.meta;
  status = λ o. o.status;
  with_status = λ st o. record o { status = st };
  resource = W.ip_pool_imports;
  status_call = update_status_of_ip_pool_import;
}

module _ {W : World} {Obj : Type 0} (k : Kind W Obj) where
  -- `Status().Update`: on success the caller's variable holds what was stored.
  settle : Obj → Result Obj × Sys W → Result (Unit {0}) × (Obj × Sys W)
  settle cr (ok stored, s) = (ok tt, (stored, s))
  settle cr (err e, s) = (err e, (cr, s))
  settle cr (panic, s) = (panic, (cr, s))

  -- From the reply to `Get` on: the object that was fetched gets the new status.
  write_fresh : Status → Obj → Result Obj × Sys W → Result (Unit {0}) × (Obj × Sys W)
  unfolding send
  write_fresh new_status cr (ok fresh, s) =
      let cr' = k.with_status new_status fresh in
      settle cr' (send {W = W} (k.status_call cr') (k.resource.update_status cr') s)
  write_fresh new_status cr (err e, s) = (err e, (cr, s))
  write_fresh new_status cr (panic, s) = (panic, (cr, s))

  -- The function that `update` retries: it fetches the object into the caller's variable, puts the
  -- new status there, and writes the status. The variable is part of its state.
  unfoldable pub write_status : Status → Obj × Sys W → Result (Unit {0}) × (Obj × Sys W)
  unfolding ask write_fresh settle
  write_status new_status (cr, s) =
      write_fresh new_status cr (ask {W = W} (k.resource.get (k.key cr)) s)

  -- `update`
  unfoldable pub update : Obj → Action W (Unit {0})
  update cr s =
      let (r, st) = W.retry_on_conflict (Obj × Sys W) (write_status (k.status cr)) (cr, s) in
      (r, st.1)

  -- `UpdateToReady`
  unfoldable pub update_to_ready : Obj → Action W (Unit {0})
  unfolding update
  update_to_ready cr =
      update (k.with_status (record (k.status cr) { state = ready; description = "" }) cr)

  -- `UpdateToError`
  unfoldable pub update_to_error : Obj → Error → Action W (Unit {0})
  unfolding update
  update_to_error cr e =
      update (k.with_status (record (k.status cr) { state = error; description = error_text e }) cr)

  -- `SetCondition`: a reason that has no condition changes nothing but a missing list.
  unfoldable pub set_condition : Obj → ReasonWithMessage → Obj
  set_condition cr reason =
      let conditions : List Condition = elim ((k.status cr).conditions) [
        | none ↦ []
        | some cs ↦ cs
      ] in
      let new : List Condition = elim (condition_from_reason reason) [
        | none ↦ conditions
        | some c ↦ W.set_status_condition conditions c
      ] in
      k.with_status (record (k.status cr) { conditions = some new }) cr

  -- What the reconcilers do with an error `e`, which the status shows as `shown`: an error of the
  -- status update is returned in its place.
  unfoldable pub fail_with : {A : Type 0} → Obj → String → Error → Error → Action W A
  unfolding update_to_error set_condition
  fail_with cr reason shown e = do
    update_to_error (set_condition cr (new_reason_with_message reason [])) shown
    raise e

  -- The end of a successful reconciliation.
  unfoldable pub succeed : Obj → String → Action W (Unit {0})
  unfolding update_to_ready set_condition
  succeed cr reason = update_to_ready (set_condition cr (new_reason_with_message reason []))
