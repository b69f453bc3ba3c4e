-- ===== src/Controller/Selected.antt =====
-- Which devices a list of selectors stands for: `reconcileClusterSelection` of
-- internal/controller/ironcore_controller.go and of internal/controller/update_controller.go looks them
-- up in the same way.
pub mod Walked
use argora.Base.{List, Among, All-Among}
use argora.Errors.{Error}
use argora.Api.{ClusterSelector}
use argora.Models.Netbox.{Device, Cluster}
use argora.World.{World}
use argora.Effect.{Call, Action, pure, on_result, for_each}
use argora.Effect.Emits.{Emits, Emits-pure, Emits-on_result, Emits-for_each}
use argora.Effect.Returns.{ReturnedBy, Emits-on_result-reply}
use argora.Netbox.Emitted.{get_clusters_by_name_region_type-Emits, get_devices_by_cluster_id-Emits}
use argora.Netbox.Dcim
use argora.Netbox.Virtualization

-- NetBox has returned the cluster for the selector.
pub record IsSelectedCluster (W : World) (selector : ClusterSelector) (cluster : Cluster)
    : Type 0 where
  pub clusters : List Cluster
  pub is_returned :
      ReturnedBy {W = W}
        (Virtualization.get_clusters_by_name_region_type selector.name selector.region
          selector.cluster_type)
        clusters
  pub among : Among cluster clusters

-- NetBox has listed the device in a cluster that it has returned for one of the selectors.
pub record IsSelected (W : World) (selectors : List ClusterSelector) (selector : ClusterSelector)
    (cluster : Cluster) (device : Device) : Type 0 where
  pub devices : List Device
  pub among_selectors : Among selector selectors
  pub is_cluster : IsSelectedCluster W selector cluster
  pub is_listed : ReturnedBy {W = W} (Dcim.get_devices_by_cluster_id cluster.id) devices
  pub among_devices : Among device devices

-- The walk over the devices that some selectors stand for, with what is done on an error: it sends only
-- what is sent for a selected device, or on an error.
module _ {W : World} {P : Call → Type 0} (selectors : List ClusterSelector)
    (visit : ClusterSelector → Cluster → Device → Action W (Unit {0}))
    (fail_device : ClusterSelector → Cluster → Device → Error → Action W (Unit {0}))
    (fail_devices : Cluster → Error → Action W (Unit {0}))
    (fail_clusters : Error → Action W (Unit {0}))
    (visits : (selector : ClusterSelector) (cluster : Cluster) (device : Device)
      → IsSelected W selectors selector cluster device
      → Emits P (visit selector cluster device))
    (fails_device : (selector : ClusterSelector) (cluster : Cluster) (device : Device) (e : Error)
      → Emits P (fail_device selector cluster device e))
    (fails_devices : (cluster : Cluster) (e : Error) → Emits P (fail_devices cluster e))
    (fails_clusters : (e : Error) → Emits P (fail_clusters e)) where
  walk_cluster-Emits :
      (selector : ClusterSelector) (cluster : Cluster)
      → Among selector selectors
      → IsSelectedCluster W selector cluster
      → Emits {W = W} P (
          on_result
            (Dcim.get_devices_by_cluster_id cluster.id)
            (for_each (λ device.
              on_result (visit selector cluster device) pure (fail_device selector cluster device)))
            (fail_devices cluster))
  walk_cluster-Emits selector cluster among_selectors is_cluster =
      Emits-on_result-reply _ _ _ (get_devices_by_cluster_id-Emits cluster.id)
        (λ devices is_listed. Emits-for_each _ devices (
          All-Among devices (λ device among_devices.
            Emits-on_result _ _ _
              (visits selector cluster device (record {
                devices = devices;
                among_selectors = among_selectors;
                is_cluster = is_cluster;
                is_listed = is_listed;
                among_devices = among_devices;
              }))
              Emits-pure (fails_device selector cluster device))))
        (λ e _. fails_devices cluster e)

  pub walk-Emits : Emits {W = W} P (
      for_each
        (λ selector.
          on_result
            (Virtualization.get_clusters_by_name_region_type selector.name selector.region
              selector.cluster_type)
            (for_each (λ cluster.
              on_result
                (Dcim.get_devices_by_cluster_id cluster.id)
                (for_each (λ device.
                  on_result
                    (visit selector cluster device)
                    pure
                    (fail_device selector cluster device)))
                (fail_devices cluster)))
            fail_clusters)
        selectors)
  walk-Emits = Emits-for_each _ selectors (
      All-Among selectors (λ selector among_selectors.
        Emits-on_result-reply _ _ _ (get_clusters_by_name_region_type-Emits _ _ _)
          (λ clusters is_returned. Emits-for_each _ clusters (
            All-Among clusters (λ cluster among.
              walk_cluster-Emits selector cluster among_selectors
                (record { clusters = clusters; is_returned = is_returned; among = among }))))
          (λ e _. fails_clusters e)))
