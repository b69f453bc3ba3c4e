-- ===== src/Controller/Update/Finished.antt =====
-- What a successful run of `Reconcile` of `UpdateReconciler` has done at its end.
use argora.Base.{ℕ, ◌≡◌, refl}
use argora.Errors.{ok}
use argora.Models.Kubernetes.{ObjectKey}
use argora.Api.Conditions.{update_succeeded}
use argora.World.{World}
use argora.World.Documented.{RetriesOnConflict}
use argora.Effect.{Sys}
use argora.Status.{update_kind}
use argora.Status.Succeeding.{Ends-bind, FinishedReady, succeed-FinishedReady}
use argora.Controller.Update.{reconcile}

module _ {W : World} (R : RetriesOnConflict W) (interval : ℕ) where
  -- If `Reconcile` of an update succeeds, it asks to be run again after the interval, and the
  -- last call that it sent writes the status `Ready` without a description.
  pub reconcile-FinishedReady :
      (request : ObjectKey) (s : Sys W) (after : ℕ)
      → (reconcile interval request s).0 ≡ ok after
      → FinishedReady (update_kind W) interval after (reconcile interval request s).1
  unfolding reconcile update_kind
  reconcile-FinishedReady request s after h =
      (Ends-bind _ _ (λ cr. Ends-bind _ _ (λ _. Ends-bind _ _ (λ c. Ends-bind _ _ (λ _.
          Ends-bind _ _ (λ _.
            succeed-FinishedReady R (update_kind W) (λ st o. refl) interval cr
              update_succeeded)))))).at
        s after h
