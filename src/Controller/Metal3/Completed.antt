-- ===== src/Controller/Metal3/Completed.antt =====
-- What a run of `Reconcile` of internal/controller/metal3_controller.go that returns `nil` has done.
use mathlib.Core.List.{append-nil}
use argora.Base.{ℕ, ◌≡◌, false, List, All, length, ltb}
use argora.Models.Netbox.{Device, Cluster}
use argora.Models.Kubernetes.{ObjectKey, CapiCluster}
use argora.World.{World}
use argora.Effect.{Call, ask}
use argora.Effect.Emits.{Emits-ask, Emits-gets}
use argora.Effect.Returns.{ReturnedBy, Returns-self, Returns-any}
use argora.Effect.Traces.{Traces, Traces-pure, Traces-raise, Traces-if, Traces-weaken, Traces-bind}
use argora.Effect.Traces.Calls.{Traces-Emits}
use argora.Effect.Traces.Replies.{Traces-after_reply}
use argora.Effect.Traces.Sequences.{Each, Traces-for_each, Anything}
use argora.Netbox.Clients.Renewal.{clients_reload-Emits}
use argora.Credentials.Reloading.{credentials_reload-Emits}
use argora.Netbox.Emitted.{get_clusters_by_name_region_type-Emits, get_devices_by_cluster_id-Emits}
use argora.Netbox.Dcim
use argora.Netbox.Virtualization
use argora.Controller.IronCore.Secrets.{value_at}
use argora.Controller.Metal3.{cluster_role_label, reconcile_cluster, reconcile}
use argora.Controller.Metal3.Calls.Whole.{ProvisionsCluster, reconcile-ProvisionsCluster}
use argora.Controller.Metal3.Order.{Finishes}
use argora.Controller.Metal3.Order.Whole.{reconcile_device-Interrupts}

-- For each device that NetBox has listed in the cluster, in that order, what is sent for it
pub record CompletesCluster (W : World) (capi_cluster : CapiCluster) (cluster : Cluster)
    (cs : List Call) : Type 0 where
  pub devices : List Device
  pub is_listed : ReturnedBy {W = W} (Dcim.get_devices_by_cluster_id cluster.id) devices
  pub each : Each (Finishes W capi_cluster) devices cs

-- For the Cluster API cluster that was returned: all of its clusters in NetBox, of which there is one at
-- most
pub record Completes (W : World) (request : ObjectKey) (cs : List Call) : Type 0 where
  pub capi_cluster : CapiCluster
  pub clusters : List Cluster
  pub is_requested : ReturnedBy (ask {W = W} (W.capi_clusters.get request)) capi_cluster
  pub is_returned :
      ReturnedBy {W = W}
        (Virtualization.get_clusters_by_name_region_type capi_cluster.meta.name ""
          (value_at cluster_role_label capi_cluster.meta.labels))
        clusters
  pub few : ltb 1 (length clusters) ≡ false
  pub each : Each (CompletesCluster W capi_cluster) clusters cs

module _ {W : World} where
  reconcile_cluster-CompletesCluster :
      (capi_cluster : CapiCluster) (cluster : Cluster)
      → Traces {W = W}
          (λ u. CompletesCluster W capi_cluster cluster)
          Anything
          (reconcile_cluster capi_cluster cluster)
  unfolding reconcile_cluster
  reconcile_cluster-CompletesCluster capi_cluster cluster =
      Traces-after_reply _ _ (get_devices_by_cluster_id-Emits cluster.id) (Returns-self _) tt
        (λ devices is_listed.
          Traces-weaken _
            (λ u cs each. record { devices = devices; is_listed = is_listed; each = each })
            (λ cs _. tt) (Traces-for_each _ devices (reconcile_device-Interrupts capi_cluster)))

  reconcile-Each :
      (interval : ℕ) (request : ObjectKey)
      → Traces {W = W} (λ n. Completes W request) Anything (reconcile interval request)
  unfolding reconcile
  reconcile-Each interval request =
      Traces-after_reply _ _ credentials_reload-Emits (Returns-any _) tt (λ _ _.
        Traces-after_reply _ _ (Emits-gets _) (Returns-any _) tt (λ credentials _.
          Traces-after_reply _ _ (clients_reload-Emits credentials.netbox_token) (Returns-any _) tt
            (λ _ _.
              Traces-after_reply _ _ (Emits-ask _) (Returns-self _) tt (λ capi_cluster is_requested.
                Traces-after_reply _ _ (get_clusters_by_name_region_type-Emits _ _ _)
                  (Returns-self _) tt
                  (λ clusters is_returned.
                    Traces-if (ltb 1 (length clusters)) _ _ (λ _. Traces-raise _ tt)
                      (λ few.
                        Traces-bind _ _
                          (Traces-for_each {F = λ cluster. Anything} _ clusters
                            (reconcile_cluster-CompletesCluster capi_cluster))
                          (λ cs _. tt)
                          (λ u cs each. Traces-pure interval (
                            rw (append-nil cs) (record {
                              capi_cluster = capi_cluster;
                              clusters = clusters;
                              is_requested = is_requested;
                              is_returned = is_returned;
                              few = few;
                              each = each;
                            })))))))))

  -- A run of `Reconcile` for a Cluster API cluster that returns `nil` has found at most one cluster in
  -- NetBox for its name and role, has gone through the devices that NetBox has listed there, and has
  -- sent for every device what `reconcileDevice` sends when it succeeds, before it has sent anything
  -- for the next one. Every call of any run is for a device that NetBox has listed in the only
  -- cluster that it has returned, and is one of those that `reconcileDevice` may send for it.
  pub reconcile-CompletesCluster :
      (interval : ℕ) (request : ObjectKey)
      → Traces {W = W}
          (λ n cs. Completes W request cs × All (ProvisionsCluster W request) cs)
          (All (ProvisionsCluster W request))
          (reconcile interval request)
  reconcile-CompletesCluster interval request =
      Traces-weaken _ (λ n cs h. h) (λ cs h. h.1)
        (Traces-Emits _ (reconcile-ProvisionsCluster interval request)
          (reconcile-Each interval request))
