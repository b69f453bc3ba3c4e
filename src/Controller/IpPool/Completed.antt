-- ===== src/Controller/IpPool/Completed.antt =====
-- What a run of `Reconcile` of internal/controller/ippoolimport_controller.go that returns `nil` has
-- done.
use mathlib.Core.List.{append-nil}
use argora.Base.{ℕ, String, ◌≡◌, refl, List, [], ◌∷◌, All}
use argora.Errors.{Error, ok}
use argora.Api.{IpPoolSelector, IpPoolImport}
use argora.Models.Netbox.{Prefix}
use argora.Models.Kubernetes.{ObjectKey, GlobalInClusterIpPool}
use argora.World.{World}
use argora.World.Documented.{RetriesOnConflict}
use argora.Effect.{Call, create_ip_pool, update_status_of_ip_pool_import, ask}
use argora.Effect.Emits.{Emits-ask, Emits-gets, Emits-lift, Emits-wrap_error}
use argora.Effect.Returns.{
  ReturnedBy, FailedBy, Returns-self, Returns-any, Returns-lift, Returns-wrap_error,
}
use argora.Effect.Traces.{Traces, Traces-pure, Traces-weaken, Traces-bind}
use argora.Effect.Traces.Calls.{Traces-All, Traces-Emits}
use argora.Effect.Traces.Replies.{Traces-after_reply, Traces-on_reply, Traces-send}
use argora.Effect.Traces.Sequences.{Each, Both, both, Anything}
use argora.Netbox.Ipam
use argora.Netbox.Emitted.{get_prefixes_by_region_role-Emits}
use argora.Netbox.Clients.Renewal.{clients_reload-Emits}
use argora.Credentials.Reloading.{credentials_reload-Emits}
use argora.Status.{ip_pool_import_kind}
use argora.Status.Sent.{fail_with-Never, succeed-Emits}
use argora.Controller.Selected.Walked.{or_fail, read_or_fail, for_each-Each}
use argora.Controller.IpPool.{reconcile_ip_pool, reconcile_ip_pool_selection, reconcile}
use argora.Controller.IpPool.Naming.{generate_ip_pool_name}
use argora.Controller.IpPool.Pools.{
  IsPoolOf, generate_net_gateway_ip-IsGatewayOf, new_ip_pool-IsPoolOf,
  generate_net_gateway_ip-Emits, new_ip_pool-Emits,
}
use argora.Controller.IpPool.Whole.{RunsIpPoolImport, reconcile-RunsIpPoolImport}

abbrev pub pool_key : String → ObjectKey
pool_key name = record { namespace = ""; name = name }

module _ (W : World) where
  -- The cluster has the pool of the prefix, or it is created.
  pub data ProvidesPool (selector : IpPoolSelector) (prefix : Prefix) : List Call → Type 0 where
    has_pool :
        (name : String) (pool : GlobalInClusterIpPool)
        → generate_ip_pool_name selector prefix ≡ ok name
        → ReturnedBy (ask {W = W} (W.ip_pools.get (pool_key name))) pool
        → ProvidesPool selector prefix []
    creates_pool :
        (name : String) (e : Error) (pool : GlobalInClusterIpPool)
        → generate_ip_pool_name selector prefix ≡ ok name
        → FailedBy (ask {W = W} (W.ip_pools.get (pool_key name))) e
        → IsPoolOf W selector prefix pool
        → ProvidesPool selector prefix (create_ip_pool pool ∷ [])

  -- For each prefix that NetBox has listed for the selector, in that order, its pool
  pub record ProvidesSelector (selector : IpPoolSelector) (cs : List Call) : Type 0 where
    pub prefixes : List Prefix
    pub is_listed :
        ReturnedBy {W = W} (Ipam.get_prefixes_by_region_role selector.region selector.role) prefixes
    pub each : Each (ProvidesPool selector) prefixes cs

-- The call writes a status of that kind.
abbrev pub WritesStatus : Call → Type 0
WritesStatus c = (o : IpPoolImport) × (c ≡ update_status_of_ip_pool_import o)

-- For the resource that the cluster has returned: the pools of all its selectors, and then the status
pub record Completes (W : World) (request : ObjectKey) (cs : List Call) : Type 0 where
  pub cr : IpPoolImport
  pub is_cr : ReturnedBy (ask {W = W} (W.ip_pool_imports.get request)) cr
  pub calls : Both (Each (ProvidesSelector W) cr.ip_pools) (All WritesStatus) cs

import_status-WritesStatus :
    (W : World) (o : IpPoolImport) → WritesStatus ((ip_pool_import_kind W).status_call o)
unfolding ip_pool_import_kind
import_status-WritesStatus W o = (o, refl)

module _ {W : World} where
  reconcile_ip_pool-ProvidesPool :
      (selector : IpPoolSelector) (prefix : Prefix)
      → Traces {W = W}
          (λ u. ProvidesPool W selector prefix)
          Anything
          (reconcile_ip_pool selector prefix)
  unfolding reconcile_ip_pool
  reconcile_ip_pool-ProvidesPool selector prefix =
      Traces-after_reply _ _ (Emits-wrap_error _ _ (Emits-lift _))
        (Returns-wrap_error _ _ (Returns-lift _)) tt
        (λ name named.
          Traces-after_reply _ _
            (Emits-wrap_error _ _ (generate_net_gateway_ip-Emits selector prefix))
            (Returns-wrap_error _ _ (generate_net_gateway_ip-IsGatewayOf selector prefix)) tt
            (λ g is_gateway.
              Traces-on_reply _ _ _ (Emits-ask _) tt
                (λ pool from. Traces-pure tt (has_pool name pool named from))
                (λ e missing.
                  Traces-after_reply _ _ (new_ip_pool-Emits selector prefix name g)
                    (new_ip_pool-IsPoolOf selector prefix name g named is_gateway) tt
                    (λ pool is_pool.
                      Traces-bind _ _ (Traces-send _ _) (λ cs _. tt)
                        (λ p cs only.
                          rw only
                            (Traces-pure tt (creates_pool name e pool named missing is_pool)))))))

module _ {W : World} (R : RetriesOnConflict W) (request : ObjectKey) where
  selection-ProvidesSelector :
      (cr : IpPoolImport) (selector : IpPoolSelector)
      → Traces {W = W}
          (λ u. ProvidesSelector W selector)
          Anything
          (reconcile_ip_pool_selection cr selector)
  unfolding reconcile_ip_pool_selection
  selection-ProvidesSelector cr selector =
      Traces-on_reply _ _ _ (get_prefixes_by_region_role-Emits _ _) tt
        (λ prefixes is_listed.
          Traces-weaken _
            (λ u cs each. record { prefixes = prefixes; is_listed = is_listed; each = each })
            (λ cs _. tt)
            (for_each-Each _ prefixes (λ prefix.
              or_fail _ _ (reconcile_ip_pool-ProvidesPool selector prefix)
                (λ e. fail_with-Never R (ip_pool_import_kind W) cr _ _ e))))
        (λ e _.
          Traces-weaken _ (λ u cs b. absurd b) (λ cs _. tt)
            (fail_with-Never R (ip_pool_import_kind W) cr _ _ e))

  reconcile-Each :
      (interval : ℕ)
      → Traces {W = W} (λ n. Completes W request) Anything (reconcile interval request)
  unfolding reconcile
  reconcile-Each interval = Traces-after_reply _ _ (Emits-ask _) (Returns-self _) tt (λ cr is_cr.
      Traces-bind _ _
        (read_or_fail _ _ credentials_reload-Emits
          (λ e. fail_with-Never R (ip_pool_import_kind W) cr _ e e))
        (λ cs _. tt)
        (λ u cs none. rw none (
          Traces-after_reply _ _ (Emits-gets _) (Returns-any _) tt (λ credentials _.
            Traces-bind _ _
              (read_or_fail _ _ (clients_reload-Emits credentials.netbox_token)
                (λ e. fail_with-Never R (ip_pool_import_kind W) cr _ e e))
              (λ cs _. tt)
              (λ u cs none. rw none (
                Traces-bind _ _ (for_each-Each _ cr.ip_pools (selection-ProvidesSelector cr))
                  (λ cs _. tt)
                  (λ u cs provided.
                    Traces-bind _ _
                      (Traces-All _ (
                        succeed-Emits R (ip_pool_import_kind W) (import_status-WritesStatus W) cr
                          _))
                      (λ cs _. tt)
                      (λ u ds written. Traces-pure interval (
                        rw (append-nil ds) (record {
                          cr = cr;
                          is_cr = is_cr;
                          calls = both provided written;
                        }))))))))))

  -- With `RetryOnConflict` as documented: a run of `Reconcile` for an import of pools that returns
  -- `nil` has gone through the selectors in their order, for each through the prefixes that NetBox
  -- has listed for its region and role, and has created for every prefix the pool that the selector
  -- asks for, with the network of `excludeMask`, the listed addresses and the last addresses that
  -- `excludeLastNAddresses` counts as the excluded ones, unless the cluster has returned a pool of
  -- that name; after them all it has written nothing but the status. Every call of any run is one that `Reconcile` may send for the import.
  pub reconcile-CompletesPools :
      (interval : ℕ)
      → Traces {W = W}
          (λ n cs. Completes W request cs × All (RunsIpPoolImport W request) cs)
          (All (RunsIpPoolImport W request))
          (reconcile interval request)
  reconcile-CompletesPools interval =
      Traces-weaken _ (λ n cs h. h) (λ cs h. h.1)
        (Traces-Emits _ (reconcile-RunsIpPoolImport R request interval) (reconcile-Each interval))
