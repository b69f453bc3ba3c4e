-- ===== src/Controller/Update/Completed.antt =====
-- What a run of `Reconcile` of internal/controller/update_controller.go that returns `nil` has done.
use mathlib.Core.List.{append-nil}
use argora.Base.{ℕ, ◌≡◌, refl, List, All}
use argora.Api.{ClusterSelector, Update}
use argora.Models.Netbox.{Device, Cluster}
use argora.Models.Kubernetes.{ObjectKey}
use argora.World.{World}
use argora.World.Documented.{RetriesOnConflict}
use argora.Effect.{Call, update_status_of_update, ask, for_each}
use argora.Effect.Emits.{Emits-ask, Emits-gets}
use argora.Effect.Returns.{ReturnedBy, Returns-self, Returns-any}
use argora.Effect.Traces.{Traces, Traces-pure, Traces-weaken, Traces-bind}
use argora.Effect.Traces.Calls.{Traces-All, Traces-Emits}
use argora.Effect.Traces.Replies.{Traces-after_reply}
use argora.Effect.Traces.Sequences.{Both, both, Anything}
use argora.Netbox.Clients.Renewal.{clients_reload-Emits}
use argora.Credentials.Reloading.{credentials_reload-Emits}
use argora.Status.{update_kind}
use argora.Status.Sent.{fail_with-Never, succeed-Emits}
use argora.Controller.Selected.Walked.{Walked, walk-Walked, read_or_fail}
use argora.Controller.Update.{
  reconcile_device, reconcile_cluster, reconcile_cluster_selection, reconcile,
}
use argora.Controller.Update.Order.{Finishes}
use argora.Controller.Update.Order.Whole.{reconcile_device-Finishes}
use argora.Controller.Update.Whole.{RunsUpdate, reconcile-RunsUpdate}

-- The call writes a status of that kind.
abbrev pub WritesStatus : Call → Type 0
WritesStatus c = (o : Update) × (c ≡ update_status_of_update o)

-- What is sent for a device
abbrev pub FinishesDevice : World → ClusterSelector → Cluster → Device → List Call → Type 0
FinishesDevice W selector cluster device = Finishes W device

-- For the resource that the cluster has returned: the devices of all its selectors, and then the
-- status
pub record Completes (W : World) (request : ObjectKey) (cs : List Call) : Type 0 where
  pub cr : Update
  pub is_cr : ReturnedBy (ask {W = W} (W.updates.get request)) cr
  pub calls : Both (Walked W (FinishesDevice W) cr.clusters) (All WritesStatus) cs

update_status-WritesStatus : (W : World) (o : Update) → WritesStatus ((update_kind W).status_call o)
unfolding update_kind
update_status-WritesStatus W o = (o, refl)

module _ {W : World} (R : RetriesOnConflict W) (request : ObjectKey) where
  selection-Walked :
      (cr : Update)
      → Traces {W = W}
          (λ u. Walked W (FinishesDevice W) cr.clusters)
          Anything
          (for_each (reconcile_cluster_selection cr) cr.clusters)
  unfolding reconcile_cluster_selection reconcile_cluster
  selection-Walked cr =
      walk-Walked cr.clusters (λ selector cluster device. reconcile_device device) _ _ _
        (λ selector cluster device. reconcile_device-Finishes device)
        (λ selector cluster device e. fail_with-Never R (update_kind W) cr _ _ e)
        (λ cluster e. fail_with-Never R (update_kind W) cr _ _ e)
        (λ e. fail_with-Never R (update_kind W) cr _ _ e)

  reconcile-Walked :
      (interval : ℕ)
      → Traces {W = W} (λ n. Completes W request) Anything (reconcile interval request)
  unfolding reconcile
  reconcile-Walked interval = Traces-after_reply _ _ (Emits-ask _) (Returns-self _) tt (λ cr is_cr.
      Traces-bind _ _
        (read_or_fail _ _ credentials_reload-Emits
          (λ e. fail_with-Never R (update_kind W) cr _ e e))
        (λ cs _. tt)
        (λ u cs none. rw none (
          Traces-after_reply _ _ (Emits-gets _) (Returns-any _) tt (λ credentials _.
            Traces-bind _ _
              (read_or_fail _ _ (clients_reload-Emits credentials.netbox_token)
                (λ e. fail_with-Never R (update_kind W) cr _ e e))
              (λ cs _. tt)
              (λ u cs none. rw none (
                Traces-bind _ _ (selection-Walked cr) (λ cs _. tt)
                  (λ u cs walked.
                    Traces-bind _ _
                      (Traces-All _
                        (succeed-Emits R (update_kind W) (update_status-WritesStatus W) cr _))
                      (λ cs _. tt)
                      (λ u ds written. Traces-pure interval (
                        rw (append-nil ds)
                          (record { cr = cr; is_cr = is_cr; calls = both walked written }))))))))))

  -- With `RetryOnConflict` as documented: a run of `Reconcile` for an update that returns `nil` has
  -- gone through the selectors of the update in their order, for each through the clusters that
  -- NetBox has returned, for each of these through the devices that NetBox has listed, and has sent
  -- for every device what `reconcileDevice` sends when it succeeds, before it has sent anything for
  -- the next one; after them all it has written nothing but the status. Every call of any run is
  -- one that `Reconcile` may send for the update.
  pub reconcile-Completes :
      (interval : ℕ)
      → Traces {W = W}
          (λ n cs. Completes W request cs × All (RunsUpdate W request) cs)
          (All (RunsUpdate W request))
          (reconcile interval request)
  reconcile-Completes interval =
      Traces-weaken _ (λ n cs h. h) (λ cs h. h.1)
        (Traces-Emits _ (reconcile-RunsUpdate R request interval) (reconcile-Walked interval))
