-- ===== src/Tests/Metal3.antt =====
-- The theorems on `Metal3Reconciler` in the small world of Tests/Sample.
use argora.Base.{All, ℕ, ◌≡◌, refl, none, some, [], ◌∷◌, suc, str_eq, false}
use argora.Errors.{text}
use argora.Go.Strings.{split_dash}
use argora.Go.Net.{parse_cidr, ip_string}
use argora.Go.Sort.{sort_strings}
use argora.Models.Netbox.{Device}
use argora.Models.Kubernetes.{ObjectKey, Secret, CapiCluster, BareMetalHost}
use argora.World.{World}
use argora.Effect.{
  Sys, create_bare_metal_host, put_secret, ◌>>=◌, ask, gets, lift, pure, wrap_error, guard, first,
  on_result, send, raise, require,
}
use argora.Effect.Emits.{Emits}
use argora.Effect.Sends.{Sends}
use argora.Netbox.Clients
use argora.Netbox.Dcim
use argora.Netbox.Ipam
use argora.Controller.Metal3
use argora.Controller.Metal3.{new_host, reconcile_device, reconcile, reconcile_bmc_secret}
use argora.Controller.Metal3.Hints.{get_role_from_tags, create_redfish_url, create_root_hint}
use argora.Controller.Metal3.Mac.{first_mac, get_mac_for_ip, collect_macs}
use argora.Controller.Metal3.Mac.First.{FirstMac, first_mac-FirstMac}
use argora.Effect.Traces.{Traces}
use argora.Controller.Metal3.Completed.{Completes, reconcile-CompletesCluster}
use argora.Controller.Metal3.Order.{Finishes, Interrupts}
use argora.Controller.Metal3.Order.Whole.{reconcile_device-ProvidesHost}
use argora.Controller.Metal3.Roles.{roles_of, sole_role, get_role_from_tags-sole_role}
use argora.Controller.Metal3.Calls.{ProvisionsActive}
use argora.Controller.Metal3.Calls.Whole.{ProvisionsCluster}
use argora.Controller.Metal3.Progress.{reconcile_device-Sends}
use argora.Tests.Sample.{meta, device, host, interfaces, answers, world, start}

abbrev capi_cluster : CapiCluster
capi_cluster = record { meta = meta "cluster" }

abbrev capi_key : ObjectKey
capi_key = record { namespace = "default"; name = "cluster" }

abbrev node : Device
node = record device {
  name = "node001-bb086";
  device_type = record {
    slug = "poweredge-r660";
    model = "PowerEdge R660";
    manufacturer = record { id = 5; slug = "dell" };
  };
  oob_ip = record { id = 31; address = "10.0.0.9/24" };
  primary_ip4 = record { id = 30; address = "10.0.0.5/24" };
  tags = "KVM" ∷ "rack" ∷ [];
}

-- A cluster that has the host
abbrev hosting : World
hosting = record world { bare_metal_hosts = answers suc host }

get_role_from_tags-sole_role_example :
    get_role_from_tags node ≡ sole_role node.device_role.slug (roles_of node.tags)
get_role_from_tags-sole_role_example = get_role_from_tags-sole_role node

first_mac-FirstMac_example : FirstMac {W = world} start interfaces (first_mac interfaces start)
first_mac-FirstMac_example = first_mac-FirstMac interfaces start

abbrev bmc_secret : Secret
bmc_secret = record {
  meta = meta "secret";
  values = some (("username", "old") ∷ ("password", "old") ∷ []);
  string_values = none;
}

abbrev node_host : BareMetalHost
node_host =
    new_host capi_cluster node bmc_secret
      "idrac-redfish://10.0.0.9/redfish/v1/Systems/System.Embedded.1"
      (record { nodename = "node001"; bb = "bb086" }) "BOSS" "" "qa-de-1" "kvm"

abbrev after_secret : ℕ → Sys world
after_secret n = record start {
  world = n;
  calls =
      put_secret (record { namespace = "default"; name = "secret" })
        (("username", "old") ∷ ("password", "old") ∷ [])
      ∷ [];
}

reconcile_device-Sends_example :
    Sends {W = world} (create_bare_metal_host node_host) (reconcile_device capi_cluster node) start
unfolding ask gets lift pure send raise wrap_error on_result ◌>>=◌ guard first require
    reconcile_bmc_secret Metal3.reconcile_found_secret Metal3.put_bmc_credentials str_eq split_dash
    create_root_hint get_role_from_tags create_redfish_url get_mac_for_ip Dcim.get_region_for_device
    first_mac collect_macs Ipam.get_ip_address_by_address Dcim.get_interface_by_id
    Dcim.get_interfaces_by_lag_id Clients.dcim_service Clients.ipam_service parse_cidr ip_string
    Ipam.one_address sort_strings
reconcile_device-Sends_example = reconcile_device-Sends capi_cluster node start node_host (record {
  secret = (bmc_secret, false);
  redfish_url = "idrac-redfish://10.0.0.9/redfish/v1/Systems/System.Embedded.1";
  name = record { nodename = "node001"; bb = "bb086" };
  root_hint = "BOSS";
  mac = "";
  region = "qa-de-1";
  role = "kvm";
  missing = text "not there";
  after_secret = after_secret 2;
  after_get = after_secret 3;
  after_mac = after_secret 6;
  after_region = after_secret 8;
  is_active = refl;
  secret_runs = refl;
  get_runs = refl;
  is_url = refl;
  splits = refl;
  is_hint = refl;
  mac_runs = refl;
  region_runs = refl;
  is_role = refl;
  is_host = refl;
})

reconcile_device-ProvidesHost_example :
    Traces {W = world}
      (λ u cs.
        Finishes world capi_cluster node cs × All (ProvisionsActive world capi_cluster node) cs)
      (λ cs.
        Interrupts world capi_cluster node cs × All (ProvisionsActive world capi_cluster node) cs)
      (reconcile_device capi_cluster node)
reconcile_device-ProvidesHost_example = reconcile_device-ProvidesHost capi_cluster node

reconcile-CompletesCluster_example :
    Traces {W = world}
      (λ n cs. Completes world capi_key cs × All (ProvisionsCluster world capi_key) cs)
      (All (ProvisionsCluster world capi_key))
      (reconcile 300 capi_key)
reconcile-CompletesCluster_example = reconcile-CompletesCluster 300 capi_key
