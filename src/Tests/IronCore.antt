-- ===== src/Tests/IronCore.antt =====
-- The theorems on `IronCoreReconciler` in the small world of Tests/Sample.
use argora.Base.{◌↔◌, All, String, ◌≡◌, refl, some, [], ◌∷◌, Dict, str_eq}
use argora.Go.Strings.{split_dash}
use argora.Models.Netbox.{Device, Cluster}
use argora.Models.Kubernetes.{ObjectKey}
use argora.Api.{ClusterImport}
use argora.Effect.{ask}
use argora.Effect.Emits.{Emits}
use argora.Effect.Returns.{Returns}
use argora.Controller.IronCore.{NodeName, two_parts, common_labels, reconcile, reconcile_device}
use argora.Controller.IronCore.Bmcs.{labelled}
use argora.Controller.IronCore.Calls.{ImportsActive}
use argora.Controller.IronCore.Calls.Sent.{reconcile_device-ImportsActive}
use argora.Controller.IronCore.Calls.Whole.{RunsImport}
use argora.Controller.IronCore.Calls.Existing.{IsRefresh, reconcile_device-IsRefresh}
use argora.Controller.IronCore.Completed.{Completes, reconcile-CompletesImport}
use argora.Effect.Traces.{Traces}
use argora.Controller.IronCore.Order.{Finishes, Interrupts}
use argora.Controller.IronCore.Order.Whole.{reconcile_device-ProvidesBmc}
use argora.Controller.IronCore.Labels.{IsRelabelled, labelled-IsRelabelled}
use argora.Controller.IronCore.Naming.{IsNodeName, two_parts-IsNodeName}
use argora.Tests.Sample.{meta, status, cluster_selector, device, bmc, world, retries}

abbrev import_key : ObjectKey
import_key = record { namespace = "default"; name = "import" }

abbrev import : ClusterImport
import = record { meta = meta "import"; clusters = cluster_selector ∷ []; status = status }

abbrev cluster : Cluster
cluster = record { id = 1; name = "cluster"; type_slug = "vmware" }

abbrev node : Device
node = record device { name = "node001-bb086" }

abbrev node_name : NodeName
node_name = record { nodename = "node001"; bb = "bb086" }

reconcile_device-ImportsActive_example :
    Emits {W = world}
      (ImportsActive world import cluster_selector cluster node)
      (reconcile_device import cluster_selector cluster node)
reconcile_device-ImportsActive_example =
    reconcile_device-ImportsActive import cluster_selector cluster node

two_parts-IsNodeName_example :
    (two_parts (split_dash "node001-bb086") ≡ some node_name) ↔ IsNodeName "node001-bb086" node_name
two_parts-IsNodeName_example = two_parts-IsNodeName "node001-bb086" node_name

abbrev some_labels : Dict String
some_labels = common_labels "qa-de-1" node_name cluster node

labelled-IsRelabelled_example : IsRelabelled bmc (labelled bmc some_labels) some_labels
unfolding common_labels str_eq
labelled-IsRelabelled_example =
    labelled-IsRelabelled bmc some_labels
      (refl, (refl, (refl, (refl, (refl, (refl, (refl, (refl, (refl, (refl, tt))))))))))

reconcile_device-IsRefresh_example :
    Emits {W = world}
      (IsRefresh world import cluster_selector cluster node)
      (reconcile_device import cluster_selector cluster node)
unfolding ask
reconcile_device-IsRefresh_example =
    reconcile_device-IsRefresh import cluster_selector cluster node (λ s. (bmc, refl))

reconcile_device-ProvidesBmc_example :
    Traces {W = world}
      (λ u cs.
        Finishes world cluster node cs
        × All (ImportsActive world import cluster_selector cluster node) cs)
      (λ cs.
        Interrupts world cluster node cs
        × All (ImportsActive world import cluster_selector cluster node) cs)
      (reconcile_device import cluster_selector cluster node)
reconcile_device-ProvidesBmc_example =
    reconcile_device-ProvidesBmc import cluster_selector cluster node

reconcile-CompletesImport_example :
    Traces {W = world}
      (λ n cs. Completes world import_key cs × All (RunsImport world import_key) cs)
      (All (RunsImport world import_key))
      (reconcile 300 import_key)
reconcile-CompletesImport_example = reconcile-CompletesImport retries import_key 300
