-- ===== src/Controller/IpUpdate/Whole.antt =====
-- Which calls the whole `Reconcile` of internal/controller/ipupdate_controller.go sends.
use argora.Models.Kubernetes.{ObjectKey, IpAddress}
use argora.World.{World}
use argora.Effect.{Call, ask}
use argora.Effect.Emits.{Emits, Emits-ask, Emits-pure, Emits-raise, Emits-if, weaken}
use argora.Effect.Returns.{ReturnedBy, Returns-self, Emits-on_result-Returns}
use argora.Controller.IpUpdate.{reconcile}
use argora.Controller.IpUpdate.Calls.{Maintains}
use argora.Controller.IpUpdate.Calls.Sent.{reconcile_found-Maintains}

-- The calls of a run for the address with that key
pub data RunsIpUpdate (W : World) (request : ObjectKey) (c : Call) : Type 0 where
  maintains_address :
      (ip : IpAddress)
      → ReturnedBy (ask {W = W} (W.ip_addresses.get request)) ip
      → Maintains W ip c
      → RunsIpUpdate W request c

-- Every call that `Reconcile` sends for an address is one of those that it may send for the address
-- that the cluster has returned for the key.
pub reconcile-RunsIpUpdate :
    {W : World} (request : ObjectKey) → Emits {W = W} (RunsIpUpdate W request) (reconcile request)
unfolding reconcile
reconcile-RunsIpUpdate request =
    Emits-on_result-Returns _ _ _ (Emits-ask _) (Returns-self _)
      (λ ip is_ip.
        weaken _ (λ c maintains. maintains_address ip is_ip maintains)
          (reconcile_found-Maintains ip request.namespace))
      (λ e. Emits-if _ _ _ (λ _. Emits-pure tt) (λ _. Emits-raise e))
