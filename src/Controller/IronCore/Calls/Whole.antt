-- ===== src/Controller/IronCore/Calls/Whole.antt =====
-- Which calls the whole `Reconcile` of internal/controller/ironcore_controller.go sends.
use argora.Base.{ℕ, String}
use argora.Errors.{Error}
use argora.Api.{ClusterSelector, ClusterImport}
use argora.Models.Netbox.{Device, Cluster}
use argora.Models.Kubernetes.{ObjectKey}
use argora.World.{World}
use argora.World.Documented.{RetriesOnConflict}
use argora.Effect.{Call, update_status_of_cluster_import, ask, for_each}
use argora.Effect.Emits.{
  weaken, Emits, Emits-pure, Emits-bind, Emits-on_result, Emits-ask, Emits-gets,
}
use argora.Effect.Returns.{ReturnedBy, Returns-self, Emits-bind-Returns}
use argora.Netbox.Clients.Renewal.{clients_reload-Emits}
use argora.Credentials.Reloading.{credentials_reload-Emits}
use argora.Status.{cluster_import_kind, fail_with}
use argora.Status.Sent.{fail_with-Emits, succeed-Emits}
use argora.Controller.Selected.{IsSelected, walk-Emits}
use argora.Controller.IronCore.{
  reconcile_device, reconcile_cluster, reconcile_cluster_selection, reconcile,
}
use argora.Controller.IronCore.Calls.{ImportsActive}
use argora.Controller.IronCore.Calls.Sent.{reconcile_device-ImportsActive}

-- For a device that one of the selectors stands for
pub record ImportsSelected (W : World) (cr : ClusterImport) (c : Call) : Type 0 where
  pub selector : ClusterSelector
  pub cluster : Cluster
  pub device : Device
  pub is_selected : IsSelected W cr.clusters selector cluster device
  pub imports : ImportsActive W cr selector cluster device c

-- The calls of a run for the import with that key
pub data RunsImport (W : World) (request : ObjectKey) : Call → Type 0 where
  writes_status : (o : ClusterImport) → RunsImport W request (update_status_of_cluster_import o)
  imports_device :
      {c : Call} (cr : ClusterImport)
      → ReturnedBy (ask {W = W} (W.cluster_imports.get request)) cr
      → ImportsSelected W cr c
      → RunsImport W request c

module _ {W : World} {request : ObjectKey} where
  import_status-RunsImport :
      (o : ClusterImport) → RunsImport W request ((cluster_import_kind W).status_call o)
  unfolding cluster_import_kind
  import_status-RunsImport o = writes_status o

module _ {W : World} (R : RetriesOnConflict W) (request : ObjectKey) where
  fail_with-RunsImport :
      {A : Type 0} (cr : ClusterImport) (reason : String) (shown e : Error)
      → Emits {A = A} (RunsImport W request) (fail_with (cluster_import_kind W) cr reason shown e)
  fail_with-RunsImport = fail_with-Emits R (cluster_import_kind W) import_status-RunsImport

  selection-RunsImport :
      (cr : ClusterImport)
      → ReturnedBy (ask {W = W} (W.cluster_imports.get request)) cr
      → Emits {W = W} (RunsImport W request) (for_each (reconcile_cluster_selection cr) cr.clusters)
  unfolding reconcile_cluster_selection reconcile_cluster
  selection-RunsImport cr is_cr =
      walk-Emits cr.clusters (reconcile_device cr) _ _ _
        (λ selector cluster device is_selected.
          weaken _
            (λ c imports. imports_device cr is_cr (record {
              selector = selector;
              cluster = cluster;
              device = device;
              is_selected = is_selected;
              imports = imports;
            }))
            (reconcile_device-ImportsActive cr selector cluster device))
        (λ selector cluster device e. fail_with-RunsImport cr _ _ e)
        (λ cluster e. fail_with-RunsImport cr _ _ e) (λ e. fail_with-RunsImport cr _ _ e)

  -- Every call that `Reconcile` sends for an import of clusters writes the status of an import, or is
  -- one of those that `reconcileDevice` may send, for a device that NetBox has listed in a cluster
  -- that it has returned for one of the selectors of the import.
  pub reconcile-RunsImport :
      (interval : ℕ) → Emits {W = W} (RunsImport W request) (reconcile interval request)
  unfolding reconcile
  reconcile-RunsImport interval = Emits-bind-Returns _ _ (Emits-ask _) (Returns-self _) (λ cr is_cr.
      Emits-bind _ _
        (Emits-on_result _ _ _ credentials_reload-Emits Emits-pure
          (λ e. fail_with-RunsImport cr _ e e))
        (λ _. Emits-bind _ _ (Emits-gets _) (λ credentials.
          Emits-bind _ _
            (Emits-on_result _ _ _ (clients_reload-Emits credentials.netbox_token) Emits-pure
              (λ e. fail_with-RunsImport cr _ e e))
            (λ _. Emits-bind _ _ (selection-RunsImport cr is_cr) (λ _.
              Emits-bind _ _ (succeed-Emits R (cluster_import_kind W) import_status-RunsImport cr _)
                (λ _. Emits-pure interval))))))
