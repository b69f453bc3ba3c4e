-- ===== src/Controller/System.antt =====
-- The program that cmd/manager/main.go starts: the reconcilers that it sets up, which share the
-- credentials and the outside world, each with a NetBox service of its own. A step is a whole run of
-- one reconciler, or a change of the outside world by anyone.
pub mod Permitted
pub mod Destroyed
use argora.Base.{ℕ, String, List, [], Among}
use argora.Models.Kubernetes.{ObjectKey}
use argora.World.{World}
use argora.Effect.{Call, Sys, Action, Credentials, NetboxService}
use argora.Credentials.{new_default_credentials}
use argora.Netbox.Clients.{new_netbox}
use argora.Manager.{FlagVariables, Reconciler, sets_up}
use argora.Manager.SettingUp.{
  Registration, Watched, cluster_imports, capi_clusters, updates, ip_pool_imports, ip_addresses,
}
use argora.Manager.Plan.{plan}
use argora.Controller.IronCore
use argora.Controller.Metal3
use argora.Controller.Update
use argora.Controller.IpPool
use argora.Controller.IpUpdate

-- The NetBox services that `main` makes, one for each reconciler
pub record Services (W : World) : Type 0 where
  pub iron_core : NetboxService W
  pub metal3 : NetboxService W
  pub update : NetboxService W
  pub ip_pool_import : NetboxService W
  pub ip_update : NetboxService W

pub record System (W : World) : Type 0 where
  pub world : W.State
  pub credentials : Credentials
  pub services : Services W
  pub calls : List Call

module _ {W : World} where
  -- The service of the reconciler of what is watched
  unfoldable pub service_of : Watched → Services W → NetboxService W
  service_of cluster_imports n = n.iron_core
  service_of capi_clusters n = n.metal3
  service_of updates n = n.update
  service_of ip_pool_imports n = n.ip_pool_import
  service_of ip_addresses n = n.ip_update

  unfoldable pub with_service : Watched → NetboxService W → Services W → Services W
  with_service cluster_imports s n = record n { iron_core = s }
  with_service capi_clusters s n = record n { metal3 = s }
  with_service updates s n = record n { update = s }
  with_service ip_pool_imports s n = record n { ip_pool_import = s }
  with_service ip_addresses s n = record n { ip_update = s }

  -- What a run of a reconciler sees of the program
  abbrev pub seen : Watched → System W → Sys W
  seen w s = record {
    world = s.world;
    credentials = s.credentials;
    netbox = service_of w s.services;
    calls = s.calls;
  }

  -- The program after a run, whether it returns, fails or panics: a panic ends the run only.
  abbrev pub left : Watched → System W → Sys W → System W
  left w s t = record {
    world = t.world;
    credentials = t.credentials;
    services = with_service w t.netbox s.services;
    calls = t.calls;
  }

  unfoldable pub running : {A : Type 0} → Watched → Action W A → System W → System W
  running w m s = left w s (m (seen w s)).1

  -- The run of a reconciler for a request
  unfoldable pub run : Watched → ℕ → ObjectKey → System W → System W
  run cluster_imports interval request =
      running cluster_imports (IronCore.reconcile interval request)
  run capi_clusters interval request = running capi_clusters (Metal3.reconcile interval request)
  run updates interval request = running updates (Update.reconcile interval request)
  run ip_pool_imports interval request = running ip_pool_imports (IpPool.reconcile interval request)
  run ip_addresses interval request = running ip_addresses (IpUpdate.reconcile request)

  -- `main`, before the manager runs
  unfoldable pub started : String → W.State → System W
  started url w = record {
    world = w;
    credentials = new_default_credentials;
    services = record {
      iron_core = new_netbox url;
      metal3 = new_netbox url;
      update = new_netbox url;
      ip_pool_import = new_netbox url;
      ip_update = new_netbox url;
    };
    calls = [];
  }

-- The reconcilers that run are those that `main` has set up for the flags.
pub data Step (W : World) (f : FlagVariables) (s : System W) : System W → Type 0 where
  runs :
      (r : Reconciler) (reg : Registration) (interval : ℕ) (request : ObjectKey)
      → Among (sets_up r reg) (plan f)
      → Step W f s (run reg.watched interval request s)
  changes : (w : W.State) → Step W f s (record s { world = w })

pub data Reach (W : World) (f : FlagVariables) : System W → Type 0 where
  start : (w : W.State) → Reach W f (started f.netbox_url w)
  later : {s t : System W} → Reach W f s → Step W f s t → Reach W f t
