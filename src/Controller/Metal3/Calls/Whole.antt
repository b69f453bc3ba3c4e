-- ===== src/Controller/Metal3/Calls/Whole.antt =====
-- Which calls the whole `Reconcile` of internal/controller/metal3_controller.go sends.
use argora.Base.{
  ℕ, ◌≡◌, refl, false, List, [], ◌∷◌, length, ltb, arith, Among, here, later, All-Among,
}
use argora.Models.Netbox.{Device, Cluster}
use argora.Models.Kubernetes.{ObjectKey, CapiCluster}
use argora.World.{World}
use argora.Effect.{Call, ask}
use argora.Effect.Emits.{
  weaken, Emits, Emits-if, Emits-pure, Emits-raise, Emits-bind, Emits-ask, Emits-gets,
  Emits-for_each,
}
use argora.Effect.Returns.{ReturnedBy, Returns-self, Emits-bind-Returns}
use argora.Netbox.Dcim
use argora.Netbox.Virtualization
use argora.Netbox.Emitted.{get_clusters_by_name_region_type-Emits, get_devices_by_cluster_id-Emits}
use argora.Netbox.Clients.Renewal.{clients_reload-Emits}
use argora.Credentials.Reloading.{credentials_reload-Emits}
use argora.Controller.IronCore.Secrets.{value_at}
use argora.Controller.Metal3.{cluster_role_label, reconcile_cluster, reconcile}
use argora.Controller.Metal3.Calls.{ProvisionsActive}
use argora.Controller.Metal3.Calls.Sent.{reconcile_device-ProvisionsActive}

-- The call is for a device of the one NetBox cluster that has the name and the role of the Cluster API
-- cluster.
pub record ProvisionsCluster (W : World) (request : ObjectKey) (c : Call) : Type 0 where
  pub capi_cluster : CapiCluster
  pub cluster : Cluster
  pub devices : List Device
  pub device : Device
  pub is_requested : ReturnedBy (ask {W = W} (W.capi_clusters.get request)) capi_cluster
  pub is_only :
      ReturnedBy {W = W}
        (Virtualization.get_clusters_by_name_region_type capi_cluster.meta.name ""
          (value_at cluster_role_label capi_cluster.meta.labels))
        (cluster ∷ [])
  pub is_listed : ReturnedBy {W = W} (Dcim.get_devices_by_cluster_id cluster.id) devices
  pub among : Among device devices
  pub provisions : ProvisionsActive W capi_cluster device c

only_one : {A : Type 0} {x : A} {xs : List A} → Among x xs → ltb 1 (length xs) ≡ false → xs ≡ x ∷ []
only_one (here {xs = []}) h = refl
only_one (here {xs = y ∷ ys}) h = ground (arith, h)
only_one (later {xs = []} m) h = elim m [ ]
only_one (later {xs = z ∷ zs} m) h = ground (arith, h)

module _ {W : World} (request : ObjectKey) (capi_cluster : CapiCluster)
    (is_requested : ReturnedBy (ask {W = W} (W.capi_clusters.get request)) capi_cluster)
    (cluster : Cluster)
    (is_only : ReturnedBy {W = W}
      (Virtualization.get_clusters_by_name_region_type capi_cluster.meta.name ""
        (value_at cluster_role_label capi_cluster.meta.labels))
      (cluster ∷ [])) where
  reconcile_cluster-ProvisionsCluster :
      Emits {W = W} (ProvisionsCluster W request) (reconcile_cluster capi_cluster cluster)
  unfolding reconcile_cluster
  reconcile_cluster-ProvisionsCluster =
      Emits-bind-Returns _ _ (get_devices_by_cluster_id-Emits cluster.id) (Returns-self _)
        (λ devices is_listed. Emits-for_each _ devices (
          All-Among devices (λ device among.
            weaken _
              (λ c provisions. record {
                capi_cluster = capi_cluster;
                cluster = cluster;
                devices = devices;
                device = device;
                is_requested = is_requested;
                is_only = is_only;
                is_listed = is_listed;
                among = among;
                provisions = provisions;
              })
              (reconcile_device-ProvisionsActive capi_cluster device))))

module _ {W : World} where
  -- Every call that `Reconcile` sends for a Cluster API cluster is for a device that NetBox has listed in
  -- a cluster, and that cluster is the only one that NetBox has returned for the name and the role of
  -- the Cluster API cluster: with several of them it sends nothing. The call is one of those that
  -- `reconcileDevice` may send for the device.
  pub reconcile-ProvisionsCluster :
      (interval : ℕ) (request : ObjectKey)
      → Emits {W = W} (ProvisionsCluster W request) (reconcile interval request)
  unfolding reconcile
  reconcile-ProvisionsCluster interval request = Emits-bind _ _ credentials_reload-Emits (λ _.
      Emits-bind _ _ (Emits-gets _) (λ credentials.
        Emits-bind _ _ (clients_reload-Emits credentials.netbox_token) (λ _.
          Emits-bind-Returns _ _ (Emits-ask _) (Returns-self _) (λ capi_cluster is_requested.
            Emits-bind-Returns _ _ (get_clusters_by_name_region_type-Emits _ _ _) (Returns-self _)
              (λ clusters is_returned.
                Emits-if (ltb 1 (length clusters)) _ _ (λ _. Emits-raise _)
                  (λ few.
                    Emits-bind _ _
                      (Emits-for_each _ clusters (
                        All-Among clusters (λ cluster among.
                          reconcile_cluster-ProvisionsCluster request capi_cluster is_requested
                            cluster (rw (only_one among few) at is_returned))))
                      (λ _. Emits-pure _)))))))
