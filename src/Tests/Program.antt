-- ===== src/Tests/Program.antt =====
-- The theorems on the whole program, and on the order of the calls for an address, in the small world
-- of Tests/Sample: a start, and runs of two of the reconcilers.
use argora.Base.{length, ◌≡◌, refl, here, later, All, some}
use argora.Models.Kubernetes.{ObjectKey}
use argora.Effect.Traces.{Traces}
use argora.Manager.{FlagVariables, get_flag_variables}
use argora.Manager.SettingUp.{updates, ip_addresses}
use argora.Controller.IpUpdate.{reconcile_found}
use argora.Controller.System.{System, Reach, Step, run, started, start, runs, changes}
use argora.Controller.System
use argora.Controller.System.Permitted.{IsPermitted, Reach-IsPermitted}
use argora.Controller.System.Destroyed.{IsFree, Reach-IsFree}
use argora.Base.{str_eq}
use argora.Effect.{on_result, ask, ◌>>=◌, require, wrap_error, gets, lift, send, pure}
use argora.Go.Netip.{parse_addr}
use argora.Controller.IpUpdate.Address.{get_prefix}
use argora.Controller.IpUpdate.{patch_address}
use argora.Controller.IpUpdate
use argora.Credentials
use argora.Netbox.Clients
use argora.Netbox.Clients.{new_netbox}
use argora.Tests.Manager.{libraries}
use argora.World.{World}
use argora.World.Documented.{RetriesOnConflict}
use argora.Tests.Sample.{world, credentials_json}

abbrev flags : FlagVariables
flags = get_flag_variables libraries

abbrev key : ObjectKey
key = record { namespace = "default"; name = "update" }

-- The mounted file has a token.
abbrev opened : World
opened = record world {
  unmarshal_credentials = λ bytes. record credentials_json { netbox_token = some "token" };
}

abbrev opened_retries : RetriesOnConflict opened
opened_retries = record { retries = λ S fn s. refl }

abbrev after_update : System opened
after_update = run updates 5 key (started flags.netbox_url 0)

abbrev after_changes : System opened
after_changes = record after_update { world = 7 }

abbrev after_address : System opened
after_address = run ip_addresses 5 key after_changes

reached : Reach opened flags after_address
unfolding get_flag_variables
reached =
    System.later
      (System.later (System.later (start 0) (runs _ _ 5 key (later (later here)))) (changes 7))
      (runs _ _ 5 key (later (later (later (later here)))))

Reach-IsPermitted_example : All (IsPermitted opened flags) after_address.calls
Reach-IsPermitted_example = Reach-IsPermitted opened_retries flags reached

Reach-IsFree_example : All (IsFree opened) after_address.calls
Reach-IsFree_example = Reach-IsFree opened_retries flags reached

-- The run for an address without the finalizer patches it.
patched_test : length (run {W = opened} ip_addresses 5 key (started flags.netbox_url 0)).calls ≡ 1
unfolding run System.running started IpUpdate.reconcile on_result ask reconcile_found ◌>>=◌ require
    get_prefix parse_addr Credentials.reload wrap_error Credentials.read_json_and_unmarshal gets
    lift Credentials.validate str_eq Credentials.assign_fields Clients.reload new_netbox
    IpUpdate.reconcile_live patch_address send pure System.service_of System.with_service
patched_test = refl
