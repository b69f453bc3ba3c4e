-- ===== src/Tests/IpPools.antt =====
-- The theorems on `IPPoolImportReconciler` in the small world of Tests/Sample.
use argora.Base.{All, ◌≡◌, refl, some, List, pos, arith, ℕ, str_eq}
use argora.Go.Netip.{v4, v6, masked}
use argora.Errors.{ok, panic}
use argora.Models.Kubernetes.{ObjectKey}
use argora.Effect.{require}
use argora.Effect.{
  ◌>>=◌, ask, gets, lift, pure, wrap_error, guard, for_each, first, on_result, send, raise,
}
use argora.Effect.Traces.{Traces}
use argora.Controller.IpPool.Completed.{Completes, reconcile-CompletesPools}
use argora.Controller.IpPool.Whole.{RunsIpPoolImport}
use argora.Tests.Sample.{retries, world, start}
use argora.Controller.IpPool.{reconcile_ip_pool}
use argora.Status.{update_kind}
use argora.Status
use argora.Credentials
use argora.Netbox.Clients
use argora.Netbox.Ipam
use argora.Go.Strings.{contains_text}
use argora.World.Documented.{attempts}
use argora.Go.Netip.{Addr, NetPrefix, as4}
use argora.Controller.IpPool.Addresses.{rounds, last_number, last_addr_in_prefix, get_last_n_ips}
use argora.Controller.IpPool.Addresses.Greatest.{IsGreatest, last_addr_in_prefix-IsGreatest}
use argora.Controller.IpPool.Addresses.Last.{
  LastAddrs, get_last_n_ips-LastAddrs, get_last_n_ips_panics,
}
use argora.Status.{set_condition}
use argora.Controller.IpPool
use argora.Controller.IpPool.Naming.{generate_ip_pool_name}
use argora.Status.{ip_pool_import_kind, fail_with, update_to_error}
use argora.Go.Netip.{parse_prefix, next, addr_string}

abbrev prefix24 : NetPrefix
prefix24 = record { addr = v4 167772160; bits = some 24 }

abbrev prefix64 : NetPrefix
prefix64 = record { addr = v6 42540766411282592856903984951653826560; bits = some 64 }

last_of_prefix24 : last_addr_in_prefix prefix24 ≡ ok (v4 167772415)
unfolding last_addr_in_prefix last_number masked as4
last_of_prefix24 = refl

get_last_n_ips-LastAddrs_example :
    (ips : List Addr) × (get_last_n_ips prefix24 (pos 2) ≡ ok ips)
    × LastAddrs prefix24 (v4 167772415) (rounds (pos 2)) ips
get_last_n_ips-LastAddrs_example =
    get_last_n_ips-LastAddrs prefix24 (pos 2) (v4 167772415) last_of_prefix24

get_last_n_ips_panics_example : get_last_n_ips prefix64 (pos 2) ≡ panic
get_last_n_ips_panics_example =
    get_last_n_ips_panics prefix64 (pos 2) 42540766411282592856903984951653826560 64 refl refl

abbrev import_request : ObjectKey
import_request = record { namespace = "default"; name = "import" }

import_succeeds : (IpPool.reconcile {W = world} 30 import_request start).0 ≡ ok 30
unfolding IpPool.reconcile IpPool.reconcile_ip_pool_selection IpPool.reconcile_ip_pool
    IpPool.new_ip_pool IpPool.generate_net_gateway_ip IpPool.excluded_by_mask IpPool.excluded_last
    generate_ip_pool_name get_last_n_ips last_addr_in_prefix last_number parse_prefix masked next
    as4 addr_string Ipam.get_prefixes_by_region_role Ipam.some_prefixes ◌>>=◌ ask gets lift pure
    wrap_error require guard for_each first on_result send raise Credentials.reload
    Credentials.read_json_and_unmarshal Credentials.validate Credentials.assign_fields str_eq
    Clients.reload Clients.ipam_service Status.succeed Status.update_to_ready Status.update
    Status.write_status ip_pool_import_kind Status.set_condition attempts contains_text
import_succeeds = refl

last_addr_in_prefix-IsGreatest_example :
    (last : ℕ) × (last_addr_in_prefix (record { addr = v4 167772165; bits = some 24 })
      ≡ ok (v4 last))
    × IsGreatest (record { addr = v4 167772165; bits = some 24 }) last
last_addr_in_prefix-IsGreatest_example =
    last_addr_in_prefix-IsGreatest 167772165 24 (omega arith) (omega arith)

reconcile-CompletesPools_example :
    Traces {W = world}
      (λ n cs. Completes world import_request cs × All (RunsIpPoolImport world import_request) cs)
      (All (RunsIpPoolImport world import_request))
      (IpPool.reconcile 30 import_request)
reconcile-CompletesPools_example = reconcile-CompletesPools retries import_request 30
