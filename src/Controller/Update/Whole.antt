-- ===== src/Controller/Update/Whole.antt =====
-- Which calls the whole `Reconcile` of internal/controller/update_controller.go sends.
use argora.Base.{ℕ, String}
use argora.Errors.{Error}
use argora.Api.{ClusterSelector, Update}
use argora.Models.Netbox.{Device, Cluster}
use argora.Models.Kubernetes.{ObjectKey}
use argora.World.{World}
use argora.World.Documented.{RetriesOnConflict}
use argora.Effect.{Call, update_status_of_update, ask, for_each}
use argora.Effect.Emits.{
  weaken, Emits, Emits-pure, Emits-bind, Emits-on_result, Emits-ask, Emits-gets,
}
use argora.Effect.Returns.{ReturnedBy, Returns-self, Emits-bind-Returns}
use argora.Netbox.Clients.Renewal.{clients_reload-Emits}
use argora.Credentials.Reloading.{credentials_reload-Emits}
use argora.Status.{update_kind, fail_with}
use argora.Status.Sent.{fail_with-Emits, succeed-Emits}
use argora.Controller.Selected.{IsSelected, walk-Emits}
use argora.Controller.Update.{
  reconcile_device, reconcile_cluster, reconcile_cluster_selection, reconcile,
}
use argora.Controller.Update.Devices.{CorrectsInUse, reconcile_device-CorrectsInUse}

-- For a device that one of the selectors stands for
pub record CorrectsSelected (W : World) (cr : Update) (c : Call) : Type 0 where
  pub selector : ClusterSelector
  pub cluster : Cluster
  pub device : Device
  pub is_selected : IsSelected W cr.clusters selector cluster device
  pub corrects : CorrectsInUse W device c

-- The calls of a run for the update with that key
pub data RunsUpdate (W : World) (request : ObjectKey) : Call → Type 0 where
  writes_status : (o : Update) → RunsUpdate W request (update_status_of_update o)
  corrects_device :
      {c : Call} (cr : Update)
      → ReturnedBy (ask {W = W} (W.updates.get request)) cr
      → CorrectsSelected W cr c
      → RunsUpdate W request c

module _ {W : World} {request : ObjectKey} where
  written_status-RunsUpdate : (o : Update) → RunsUpdate W request ((update_kind W).status_call o)
  unfolding update_kind
  written_status-RunsUpdate o = writes_status o

module _ {W : World} (R : RetriesOnConflict W) (request : ObjectKey) where
  fail_with-RunsUpdate :
      {A : Type 0} (cr : Update) (reason : String) (shown e : Error)
      → Emits {A = A} (RunsUpdate W request) (fail_with (update_kind W) cr reason shown e)
  fail_with-RunsUpdate = fail_with-Emits R (update_kind W) written_status-RunsUpdate

  selection-RunsUpdate :
      (cr : Update)
      → ReturnedBy (ask {W = W} (W.updates.get request)) cr
      → Emits {W = W} (RunsUpdate W request) (for_each (reconcile_cluster_selection cr) cr.clusters)
  unfolding reconcile_cluster_selection reconcile_cluster
  selection-RunsUpdate cr is_cr =
      walk-Emits cr.clusters (λ selector cluster device. reconcile_device device) _ _ _
        (λ selector cluster device is_selected.
          weaken _
            (λ c corrects. corrects_device cr is_cr (record {
              selector = selector;
              cluster = cluster;
              device = device;
              is_selected = is_selected;
              corrects = corrects;
            }))
            (reconcile_device-CorrectsInUse device))
        (λ selector cluster device e. fail_with-RunsUpdate cr _ _ e)
        (λ cluster e. fail_with-RunsUpdate cr _ _ e) (λ e. fail_with-RunsUpdate cr _ _ e)

  -- Every call that `Reconcile` sends for an update writes the status of an update, or is
  -- one of those that `reconcileDevice` may send, for a device that NetBox has listed in a cluster
  -- that it has returned for one of the selectors of the update.
  pub reconcile-RunsUpdate :
      (interval : ℕ) → Emits {W = W} (RunsUpdate W request) (reconcile interval request)
  unfolding reconcile
  reconcile-RunsUpdate interval = Emits-bind-Returns _ _ (Emits-ask _) (Returns-self _) (λ cr is_cr.
      Emits-bind _ _
        (Emits-on_result _ _ _ credentials_reload-Emits Emits-pure
          (λ e. fail_with-RunsUpdate cr _ e e))
        (λ _. Emits-bind _ _ (Emits-gets _) (λ credentials.
          Emits-bind _ _
            (Emits-on_result _ _ _ (clients_reload-Emits credentials.netbox_token) Emits-pure
              (λ e. fail_with-RunsUpdate cr _ e e))
            (λ _. Emits-bind _ _ (selection-RunsUpdate cr is_cr) (λ _.
              Emits-bind _ _ (succeed-Emits R (update_kind W) written_status-RunsUpdate cr _)
                (λ _. Emits-pure interval))))))
