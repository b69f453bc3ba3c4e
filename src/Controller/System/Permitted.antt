-- ===== src/Controller/System/Permitted.antt =====
-- Which calls the program ever sends.
use argora.Base.{ℕ, Bool, true, false, ◌≡◌, refl, List, All, All-append, Among, Among-All}
use argora.Models.Kubernetes.{ObjectKey}
use argora.World.{World}
use argora.World.Documented.{RetriesOnConflict}
use argora.Effect.{Call, Action}
use argora.Effect.Emits.{Extends, same, more, Extends-weaken, Emits}
use argora.Manager.{FlagVariables, Reconciler, Request, sets_up}
use argora.Manager.SettingUp.{
  RateLimiter, Registration, Watched, cluster_imports, capi_clusters, updates, ip_pool_imports,
  ip_addresses,
}
use argora.Manager.Plan.{plan, hosts_plan}
use argora.Controller.IronCore.Calls.Whole.{RunsImport, reconcile-RunsImport}
use argora.Controller.Metal3.Calls.Whole.{ProvisionsCluster, reconcile-ProvisionsCluster}
use argora.Controller.Update.Whole.{RunsUpdate, reconcile-RunsUpdate}
use argora.Controller.IpPool.Whole.{RunsIpPoolImport, reconcile-RunsIpPoolImport}
use argora.Controller.IpUpdate.Whole.{RunsIpUpdate, reconcile-RunsIpUpdate}
use argora.Controller.System.{System, running, run, started, Step, runs, changes, Reach, start}
use argora.Controller.System

-- What each reconciler may send, and which of the two that make hosts is there
pub data IsPermitted (W : World) (f : FlagVariables) (c : Call) : Type 0 where
  imports_clusters :
      (request : ObjectKey) → f.enable_iron_core ≡ true → RunsImport W request c → IsPermitted W f c
  provisions_hosts :
      (request : ObjectKey)
      → f.enable_iron_core ≡ false
      → ProvisionsCluster W request c
      → IsPermitted W f c
  corrects_devices : (request : ObjectKey) → RunsUpdate W request c → IsPermitted W f c
  creates_pools : (request : ObjectKey) → RunsIpPoolImport W request c → IsPermitted W f c
  maintains_addresses : (request : ObjectKey) → RunsIpUpdate W request c → IsPermitted W f c

-- What `main` sets up to make hosts, with that flag
abbrev IsSetUp : Bool → Watched → Type 0
IsSetUp enabled cluster_imports = enabled ≡ true
IsSetUp enabled capi_clusters = enabled ≡ false
IsSetUp enabled _ = Unit

abbrev IsSetUpBy : Bool → Request → Type 0
IsSetUpBy enabled (sets_up r reg) = IsSetUp enabled reg.watched
IsSetUpBy enabled _ = Unit

hosts-IsSetUpBy :
    (enabled : Bool) (q : Reconciler) (limiter : RateLimiter)
    → All (IsSetUpBy enabled) (hosts_plan enabled q limiter)
hosts-IsSetUpBy true q limiter = (refl, tt)
hosts-IsSetUpBy false q limiter = (tt, (refl, tt))

plan-IsSetUp :
    (f : FlagVariables) (r : Reconciler) (reg : Registration)
    → Among (sets_up r reg) (plan f)
    → IsSetUp f.enable_iron_core reg.watched
plan-IsSetUp f r reg m = Among-All (IsSetUpBy f.enable_iron_core) m (
  tt,
  All-append _ (hosts_plan f.enable_iron_core _ _) _ (hosts-IsSetUpBy f.enable_iron_core _ _)
      (tt, (tt, (tt, (tt, (tt, (tt, tt)))))),
)

Extends-All : {P : Call → Type 0} {cs ds : List Call} → Extends P cs ds → All P cs → All P ds
Extends-All same h = h
Extends-All (more p e) h = (p, Extends-All e h)

module _ {W : World} (R : RetriesOnConflict W) (f : FlagVariables) where
  running-Extends :
      {A : Type 0} {P : Call → Type 0} (w : Watched) (m : Action W A) (s : System W)
      → ((c : Call) → P c → IsPermitted W f c)
      → Emits P m
      → Extends (IsPermitted W f) s.calls (running w m s).calls
  unfolding running
  running-Extends w m s permits e = Extends-weaken permits (e.at _)

  run-Extends :
      (w : Watched) (interval : ℕ) (request : ObjectKey) (s : System W)
      → IsSetUp f.enable_iron_core w
      → Extends (IsPermitted W f) s.calls (run w interval request s).calls
  unfolding run
  run-Extends cluster_imports interval request s set_up =
      running-Extends cluster_imports _ s (λ c. imports_clusters request set_up)
        (reconcile-RunsImport R request interval)
  run-Extends capi_clusters interval request s set_up =
      running-Extends capi_clusters _ s (λ c. provisions_hosts request set_up)
        (reconcile-ProvisionsCluster interval request)
  run-Extends updates interval request s set_up =
      running-Extends updates _ s (λ c. corrects_devices request)
        (reconcile-RunsUpdate R request interval)
  run-Extends ip_pool_imports interval request s set_up =
      running-Extends ip_pool_imports _ s (λ c. creates_pools request)
        (reconcile-RunsIpPoolImport R request interval)
  run-Extends ip_addresses interval request s set_up =
      running-Extends ip_addresses _ s (λ c. maintains_addresses request)
        (reconcile-RunsIpUpdate request)

  Step-Extends : {s t : System W} → Step W f s t → Extends (IsPermitted W f) s.calls t.calls
  Step-Extends {s} (runs r reg interval request among) =
      run-Extends reg.watched interval request s (plan-IsSetUp f r reg among)
  Step-Extends (changes w) = same

  -- With `RetryOnConflict` as documented: whatever runs of the reconcilers that `main` sets up for
  -- the flags follow one another, whatever else happens to the outside world between them, every
  -- call that the program has sent is one that the reconciler may send for some request; of the
  -- reconcilers for IronCore and for Metal3 only the one that the flag chooses has sent any.
  pub Reach-IsPermitted : {s : System W} → Reach W f s → All (IsPermitted W f) s.calls
  unfolding started
  Reach-IsPermitted (start w) = tt
  Reach-IsPermitted (System.later r step) = Extends-All (Step-Extends step) (Reach-IsPermitted r)
