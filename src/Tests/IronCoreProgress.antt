-- ===== src/Tests/IronCoreProgress.antt =====
-- A run of `IronCoreReconciler` for a device whose BMC the cluster does not have.
use argora.Base.{ℕ, suc, String, some, [], ◌∷◌, Dict}
use argora.Errors.{text, err}
use argora.Models.Netbox.{Device, Cluster}
use argora.Models.Kubernetes.{Bmc, BmcSecret}
use argora.Api.{ClusterImport}
use argora.World.{World}
use argora.Effect.{Sys, put_bmc_secret}
use argora.Effect.Sends.{Sends}
use argora.Netbox.Clients
use argora.Netbox.Dcim
use argora.Netbox.Ipam
use argora.Controller.IronCore.{NodeName, common_labels}
use argora.Controller.IronCore.Bmcs.{new_bmc}
use argora.Tests.Sample.{meta, status, cluster_selector, device, bmc, answers, world, start}

-- The cluster has no BMC.
abbrev lacking : World
lacking = record world {
  bmcs = record (answers suc bmc) { get = λ key n. (err (text "not there"), suc n) };
}

abbrev import : ClusterImport
import = record { meta = meta "import"; clusters = cluster_selector ∷ []; status = status }

abbrev cluster : Cluster
cluster = record { id = 1; name = "cluster"; type_slug = "vmware" }

abbrev node : Device
node = record device {
  name = "node001-bb086";
  oob_ip = record { id = 31; address = "10.0.0.9/24" };
}

abbrev node_name : NodeName
node_name = record { nodename = "node001"; bb = "bb086" }

abbrev labels : Dict String
labels = common_labels "qa-de-1" node_name cluster node

abbrev values : Dict String
values = ("username", "old") ∷ ("password", "old") ∷ []

abbrev secret : BmcSecret
secret = record { meta = record (meta "node001") { labels = some labels }; values = some values }

abbrev begin : ℕ → Sys lacking
begin n = record {
  world = n;
  credentials = start.credentials;
  netbox = record {
    netbox_url = "netbox";
    virtualization = some 0;
    dcim = some 0;
    ipam = some 0;
    extras = some 0;
  };
  calls = [];
}

abbrev after_put : ℕ → Sys lacking
after_put n = record (begin n) {
  calls = put_bmc_secret (record { namespace = "default"; name = "node001" }) labels values ∷ [];
}

abbrev node_bmc : Bmc
node_bmc = new_bmc node "10.0.0.9" "node001r" secret labels
