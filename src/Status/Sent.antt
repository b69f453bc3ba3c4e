-- ===== src/Status/Sent.antt =====
-- The calls of the status handlers, for proofs about what a whole run sends.
use argora.Base.{String}
use argora.Errors.{Error}
use argora.World.{World}
use argora.World.Documented.{RetriesOnConflict}
use argora.Effect.{Call}
use argora.Effect.Emits.{Extends-weaken, Emits, Emits-raise, Emits-bind}
use argora.Effect.Traces.{Traces, Traces-bind, Traces-raise}
use argora.Effect.Traces.Calls.{Traces-All}
use argora.Effect.Traces.Sequences.{Never, Anything}
use argora.Status.{Kind, update, update_to_error, update_to_ready, fail_with, succeed}
use argora.Status.Updating.{update-Written}

module _ {W : World} (R : RetriesOnConflict W) {Obj : Type 0} (k : Kind W Obj) {P : Call → Type 0}
    (writes : (o : Obj) → P (k.status_call o)) where
  pub update-Emits : (cr : Obj) → Emits {W = W} P (update k cr)
  update-Emits cr = record {
    at = λ s. Extends-weaken (λ c (o, h). rw h (writes _)) (update-Written R k cr s).writes;
  }

  pub fail_with-Emits :
      {A : Type 0} (cr : Obj) (reason : String) (shown e : Error)
      → Emits {A = A} P (fail_with k cr reason shown e)
  unfolding fail_with update_to_error
  fail_with-Emits cr reason shown e = Emits-bind _ _ (update-Emits _) (λ _. Emits-raise e)

  pub succeed-Emits : (cr : Obj) (reason : String) → Emits {W = W} P (succeed k cr reason)
  unfolding succeed update_to_ready
  succeed-Emits cr reason = update-Emits _

-- A handler of an error never returns a value.
pub fail_with-Never :
    {W : World} {Obj A : Type 0}
    → RetriesOnConflict W
    → (k : Kind W Obj) (cr : Obj) (reason : String) (shown e : Error)
    → Traces {A = A} Never Anything (fail_with k cr reason shown e)
unfolding fail_with update_to_error
fail_with-Never R k cr reason shown e =
    Traces-bind _ _ (Traces-All _ (update-Emits R k {P = λ c. Unit} (λ o. tt) _)) (λ cs _. tt)
      (λ u cs _. Traces-raise e tt)
