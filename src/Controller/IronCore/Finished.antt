-- ===== src/Controller/IronCore/Finished.antt =====
-- What a successful run of `Reconcile` of `IronCoreReconciler` has done at its end.
use argora.Base.{ℕ, ◌≡◌, refl}
use argora.Errors.{ok}
use argora.Models.Kubernetes.{ObjectKey}
use argora.Api.Conditions.{cluster_import_succeeded}
use argora.World.{World}
use argora.World.Documented.{RetriesOnConflict}
use argora.Effect.{Sys}
use argora.Status.{cluster_import_kind}
use argora.Status.Succeeding.{Ends-bind, FinishedReady, succeed-FinishedReady}
use argora.Controller.IronCore.{reconcile}

module _ {W : World} (R : RetriesOnConflict W) (interval : ℕ) where
  -- If `Reconcile` of an import of clusters succeeds, it asks to be run again after the interval, and
  -- the last call that it sent writes the status `Ready` without a description.
  pub reconcile-FinishesClusters :
      (request : ObjectKey) (s : Sys W) (after : ℕ)
      → (reconcile interval request s).0 ≡ ok after
      → FinishedReady (cluster_import_kind W) interval after (reconcile interval request s).1
  unfolding reconcile cluster_import_kind
  reconcile-FinishesClusters request s after h =
      (Ends-bind _ _ (λ cr. Ends-bind _ _ (λ _. Ends-bind _ _ (λ c. Ends-bind _ _ (λ _.
          Ends-bind _ _ (λ _.
            succeed-FinishedReady R (cluster_import_kind W) (λ st o. refl) interval cr
              cluster_import_succeeded)))))).at
        s after h
