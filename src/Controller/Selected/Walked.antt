-- ===== src/Controller/Selected/Walked.antt =====
-- In which order the devices of the selected clusters are visited.
use mathlib.Core.List.{append-nil}
use argora.Base.{List, [], ◌≡◌}
use argora.Errors.{Error}
use argora.Api.{ClusterSelector}
use argora.Models.Netbox.{Device, Cluster}
use argora.World.{World}
use argora.Effect.{Call, Action, pure, on_result, for_each}
use argora.Effect.Returns.{ReturnedBy}
use argora.Effect.Emits.{Emits}
use argora.Effect.Traces.{Nothing, Traces, Traces-pure, Traces-weaken, Traces-on_result}
use argora.Effect.Traces.Replies.{Traces-on_reply, Traces-silent}
use argora.Effect.Traces.Sequences.{Each, Traces-for_each, Anything, Never}
use argora.Netbox.Emitted.{get_clusters_by_name_region_type-Emits, get_devices_by_cluster_id-Emits}
use argora.Netbox.Dcim
use argora.Netbox.Virtualization

module _ (W : World) (Q : ClusterSelector → Cluster → Device → List Call → Type 0) where
  -- For each device that NetBox has listed in the cluster, in that order, calls that satisfy `Q`
  pub record WalkedCluster (selector : ClusterSelector) (cluster : Cluster) (cs : List Call)
      : Type 0 where
    pub devices : List Device
    pub is_listed : ReturnedBy {W = W} (Dcim.get_devices_by_cluster_id cluster.id) devices
    pub each : Each (Q selector cluster) devices cs

  -- The same for each cluster that NetBox has returned for the selector
  pub record WalkedSelector (selector : ClusterSelector) (cs : List Call) : Type 0 where
    pub clusters : List Cluster
    pub is_returned :
        ReturnedBy {W = W}
          (Virtualization.get_clusters_by_name_region_type selector.name selector.region
            selector.cluster_type)
          clusters
    pub each : Each (WalkedCluster selector) clusters cs

  -- The same for each selector
  abbrev pub Walked : List ClusterSelector → List Call → Type 0
  Walked = Each WalkedSelector

module _ {W : World} where
  -- An action that may fail, with what is done then, which never succeeds
  pub or_fail :
      {P F : List Call → Type 0} (m : Action W (Unit {0})) (fail : Error → Action W (Unit {0}))
      → Traces (λ u. P) F m
      → ((e : Error) → Traces Never Anything (fail e))
      → Traces (λ u. P) Anything (on_result m pure fail)
  or_fail m fail k never =
      Traces-on_result m pure fail k (λ u cs p. Traces-pure tt (rw (append-nil cs) p))
        (λ e cs _ _. Traces-weaken _ (λ v ds b. absurd b) (λ ds _. tt) (never e)) (λ cs _. tt)

  -- The same for what only reads
  pub read_or_fail :
      (m : Action W (Unit {0})) (fail : Error → Action W (Unit {0}))
      → Emits Nothing m
      → ((e : Error) → Traces Never Anything (fail e))
      → Traces (λ u cs. cs ≡ []) Anything (on_result m pure fail)
  read_or_fail m fail silent never =
      or_fail {F = Anything} m fail
        (Traces-weaken _ (λ u cs h. h.1) (λ cs h. h) (Traces-silent m silent tt)) never

  pub for_each-Each :
      {A : Type 0} {P : A → List Call → Type 0} (f : A → Action W (Unit {0})) (xs : List A)
      → ((x : A) → Traces (λ u. P x) Anything (f x))
      → Traces (λ u. Each P xs) Anything (for_each f xs)
  for_each-Each f xs k =
      Traces-weaken _ (λ u cs all. all) (λ cs _. tt) (Traces-for_each {F = λ x. Anything} f xs k)

module _ {W : World} {Q F : ClusterSelector → Cluster → Device → List Call → Type 0}
    (selectors : List ClusterSelector)
    (visit : ClusterSelector → Cluster → Device → Action W (Unit {0}))
    (fail_device : ClusterSelector → Cluster → Device → Error → Action W (Unit {0}))
    (fail_devices : Cluster → Error → Action W (Unit {0}))
    (fail_clusters : Error → Action W (Unit {0}))
    (visits : (selector : ClusterSelector) (cluster : Cluster) (device : Device)
      → Traces
          (λ u. Q selector cluster device)
          (F selector cluster device)
          (visit selector cluster device))
    (fails_device : (selector : ClusterSelector) (cluster : Cluster) (device : Device) (e : Error)
      → Traces Never Anything (fail_device selector cluster device e))
    (fails_devices : (cluster : Cluster) (e : Error)
      → Traces Never Anything (fail_devices cluster e))
    (fails_clusters : (e : Error) → Traces Never Anything (fail_clusters e)) where
  walk_cluster-Walked :
      (selector : ClusterSelector) (cluster : Cluster)
      → Traces
          (λ u. WalkedCluster W Q selector cluster)
          Anything
          (on_result
            (Dcim.get_devices_by_cluster_id cluster.id)
            (for_each (λ device.
              on_result (visit selector cluster device) pure (fail_device selector cluster device)))
            (fail_devices cluster))
  walk_cluster-Walked selector cluster =
      Traces-on_reply _ _ _ (get_devices_by_cluster_id-Emits cluster.id) tt
        (λ devices is_listed.
          Traces-weaken _
            (λ u cs each. record { devices = devices; is_listed = is_listed; each = each })
            (λ cs _. tt)
            (for_each-Each _ devices (λ device.
              or_fail _ _ (visits selector cluster device) (fails_device selector cluster device))))
        (λ e _. Traces-weaken _ (λ u cs b. absurd b) (λ cs _. tt) (fails_devices cluster e))

  pub walk-Walked :
      Traces
        (λ u. Walked W Q selectors)
        Anything
        (for_each
          (λ selector.
            on_result
              (Virtualization.get_clusters_by_name_region_type selector.name selector.region
                selector.cluster_type)
              (for_each (λ cluster.
                on_result
                  (Dcim.get_devices_by_cluster_id cluster.id)
                  (for_each (λ device.
                    on_result
                      (visit selector cluster device)
                      pure
                      (fail_device selector cluster device)))
                  (fail_devices cluster)))
              fail_clusters)
          selectors)
  walk-Walked = for_each-Each _ selectors (λ selector.
      Traces-on_reply _ _ _ (get_clusters_by_name_region_type-Emits _ _ _) tt
        (λ clusters is_returned.
          Traces-weaken _
            (λ u cs each. record { clusters = clusters; is_returned = is_returned; each = each })
            (λ cs _. tt) (for_each-Each _ clusters (walk_cluster-Walked selector)))
        (λ e _. Traces-weaken _ (λ u cs b. absurd b) (λ cs _. tt) (fails_clusters e)))
