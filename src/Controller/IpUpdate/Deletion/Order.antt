-- ===== src/Controller/IpUpdate/Deletion/Order.antt =====
-- The order of the deletion in NetBox and the removal of the finalizer.
use argora.Base.{◌≡◌, arith, if◌then◌else◌}
use argora.Errors.{Result, ok, err, panic}
use argora.Models.Kubernetes.{IpAddress}
use argora.World.{World}
use argora.Effect.{Sys, pure, raise, on_result, ◌>>=◌}
use argora.Controller.IpUpdate.Deletion.{reconcile_delete}
use argora.Controller.IpUpdate.{ip_address_finalizer, patch_address, reconcile_deleted}

module _ {W : World} (ip : IpAddress) (s : Sys W) where
  -- What follows a run of `reconcileDelete`
  abbrev pub after_delete : Result (Unit {0}) × Sys W → Result (Unit {0}) × Sys W
  after_delete (ok u, s') =
      let (meta, removed) = W.remove_finalizer ip.meta ip_address_finalizer in
      if removed then patch_address ip (record ip { meta = meta }) s' else (ok tt, s')
  after_delete (err e, s') = (err e, s')
  after_delete (panic, s') = (panic, s')

  -- An address that is being deleted keeps its finalizer, and nothing more is sent, unless
  -- `reconcileDelete` has succeeded; then the finalizer is taken off, if it was there.
  pub reconcile_deleted-after_delete : reconcile_deleted ip s ≡ after_delete (reconcile_delete ip s)
  unfolding reconcile_deleted ◌>>=◌ on_result pure raise
  reconcile_deleted-after_delete = ground arith
