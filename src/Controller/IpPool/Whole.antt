-- ===== src/Controller/IpPool/Whole.antt =====
-- Which calls the whole `Reconcile` of internal/controller/ippoolimport_controller.go sends.
use argora.Base.{ℕ, String, List, Among, All-Among}
use argora.Errors.{Error}
use argora.Api.{IpPoolSelector, IpPoolImport}
use argora.Models.Netbox.{Prefix}
use argora.Models.Kubernetes.{ObjectKey}
use argora.World.{World}
use argora.World.Documented.{RetriesOnConflict}
use argora.Effect.{Call, update_status_of_ip_pool_import, ask}
use argora.Effect.Emits.{
  weaken, Emits, Emits-pure, Emits-bind, Emits-on_result, Emits-ask, Emits-gets, Emits-for_each,
}
use argora.Effect.Returns.{ReturnedBy, Returns-self, Emits-bind-Returns, Emits-on_result-reply}
use argora.Netbox.Ipam
use argora.Netbox.Emitted.{get_prefixes_by_region_role-Emits}
use argora.Netbox.Clients.Renewal.{clients_reload-Emits}
use argora.Credentials.Reloading.{credentials_reload-Emits}
use argora.Status.{ip_pool_import_kind, fail_with}
use argora.Status.Sent.{fail_with-Emits, succeed-Emits}
use argora.Controller.IpPool.{reconcile_ip_pool_selection, reconcile}
use argora.Controller.IpPool.Pools.{CreatesPool, reconcile_ip_pool-CreatesPool}

-- For a prefix that NetBox has listed for one of the selectors
pub record CreatesSelected (W : World) (cr : IpPoolImport) (c : Call) : Type 0 where
  pub selector : IpPoolSelector
  pub among_selectors : Among selector cr.ip_pools
  pub prefixes : List Prefix
  pub is_listed :
      ReturnedBy {W = W} (Ipam.get_prefixes_by_region_role selector.region selector.role) prefixes
  pub prefix : Prefix
  pub among_prefixes : Among prefix prefixes
  pub creates : CreatesPool W selector prefix c

-- The calls of a run for the import with that key
pub data RunsIpPoolImport (W : World) (request : ObjectKey) : Call → Type 0 where
  writes_status :
      (o : IpPoolImport) → RunsIpPoolImport W request (update_status_of_ip_pool_import o)
  creates_pool :
      {c : Call} (cr : IpPoolImport)
      → ReturnedBy (ask {W = W} (W.ip_pool_imports.get request)) cr
      → CreatesSelected W cr c
      → RunsIpPoolImport W request c

module _ {W : World} {request : ObjectKey} where
  pool_status-RunsIpPoolImport :
      (o : IpPoolImport) → RunsIpPoolImport W request ((ip_pool_import_kind W).status_call o)
  unfolding ip_pool_import_kind
  pool_status-RunsIpPoolImport o = writes_status o

module _ {W : World} (R : RetriesOnConflict W) (request : ObjectKey) where
  fail_with-RunsIpPoolImport :
      {A : Type 0} (cr : IpPoolImport) (reason : String) (shown e : Error)
      → Emits {A = A}
          (RunsIpPoolImport W request)
          (fail_with (ip_pool_import_kind W) cr reason shown e)
  fail_with-RunsIpPoolImport =
      fail_with-Emits R (ip_pool_import_kind W) pool_status-RunsIpPoolImport

  selection-RunsIpPoolImport :
      (cr : IpPoolImport)
      → ReturnedBy (ask {W = W} (W.ip_pool_imports.get request)) cr
      → (selector : IpPoolSelector) → Among selector cr.ip_pools
      → Emits {W = W} (RunsIpPoolImport W request) (reconcile_ip_pool_selection cr selector)
  unfolding reconcile_ip_pool_selection
  selection-RunsIpPoolImport cr is_cr selector among_selectors =
      Emits-on_result-reply _ _ _ (get_prefixes_by_region_role-Emits _ _)
        (λ prefixes is_listed. Emits-for_each _ prefixes (
          All-Among prefixes (λ prefix among_prefixes.
            Emits-on_result _ _ _
              (weaken _
                (λ c creates. creates_pool cr is_cr (record {
                  selector = selector;
                  among_selectors = among_selectors;
                  prefixes = prefixes;
                  is_listed = is_listed;
                  prefix = prefix;
                  among_prefixes = among_prefixes;
                  creates = creates;
                }))
                (reconcile_ip_pool-CreatesPool selector prefix))
              Emits-pure (λ e. fail_with-RunsIpPoolImport cr _ _ e))))
        (λ e _. fail_with-RunsIpPoolImport cr _ _ e)

  -- Every call that `Reconcile` sends for an import of pools writes the status of such an import, or
  -- creates the pool that one of its selectors asks for, for a prefix that NetBox has listed for that
  -- selector's region and role.
  pub reconcile-RunsIpPoolImport :
      (interval : ℕ) → Emits {W = W} (RunsIpPoolImport W request) (reconcile interval request)
  unfolding reconcile
  reconcile-RunsIpPoolImport interval =
      Emits-bind-Returns _ _ (Emits-ask _) (Returns-self _) (λ cr is_cr.
        Emits-bind _ _
          (Emits-on_result _ _ _ credentials_reload-Emits Emits-pure
            (λ e. fail_with-RunsIpPoolImport cr _ e e))
          (λ _. Emits-bind _ _ (Emits-gets _) (λ credentials.
            Emits-bind _ _
              (Emits-on_result _ _ _ (clients_reload-Emits credentials.netbox_token) Emits-pure
                (λ e. fail_with-RunsIpPoolImport cr _ e e))
              (λ _.
                Emits-bind _ _
                  (Emits-for_each _ cr.ip_pools
                    (All-Among cr.ip_pools (selection-RunsIpPoolImport cr is_cr)))
                  (λ _.
                    Emits-bind _ _
                      (succeed-Emits R (ip_pool_import_kind W) pool_status-RunsIpPoolImport cr _)
                      (λ _. Emits-pure interval))))))
