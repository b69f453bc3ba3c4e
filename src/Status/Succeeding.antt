-- ===== src/Status/Succeeding.antt =====
-- What a reconciler has written when it succeeds.
use argora.Base.{ℕ, String, ◌≡◌, refl, []}
use argora.Errors.{Result, ok, err, panic}
use argora.Api.{Status, ready}
use argora.Api.Conditions.{new_reason_with_message}
use argora.World.{World}
use argora.World.Documented.{RetriesOnConflict}
use argora.Effect.{Sys, Action, pure, raise, branch, on_result, ◌>>=◌}
use argora.Status.{Kind, set_condition, update, update_to_ready, succeed}
use argora.Status.Updating.{LastWrites, Written, update-Written}

-- What holds when an action returns a value, of the value and of the system then.
pub record Ends {W : World} {B : Type 0} (Q : B → Sys W → Type 0) (m : Action W B) : Type 0 where
  pub at : (s : Sys W) (b : B) → (m s).0 ≡ ok b → Q b (m s).1

module _ {W : World} {A B : Type 0} {Q : B → Sys W → Type 0} where
  branch-Ends :
      (f : A → Action W B)
      → ((a : A) → Ends Q (f a))
      → (x : Result A) (s : Sys W) (b : B) → (branch x f raise s).0 ≡ ok b
      → Q b (branch x f raise s).1
  unfolding raise
  branch-Ends f k (ok a) s b h = (k a).at s b h
  branch-Ends f k (err e) s b h = absurd cc
  branch-Ends f k panic s b h = absurd cc

  pub Ends-bind :
      (m : Action W A) (f : A → Action W B) → ((a : A) → Ends Q (f a)) → Ends Q (m >>= f)
  unfolding ◌>>=◌ on_result
  Ends-bind m f k = record { at = λ s b h. branch-Ends f k (m s).0 (m s).1 b h }

-- The last call writes a status that is ready and has no description, to an object of the kind.
abbrev pub FinishedReady : {W : World} {Obj : Type 0} → Kind W Obj → ℕ → ℕ → Sys W → Type 0
FinishedReady k interval after s =
    (after ≡ interval)
    × (st : Status) × (st.state ≡ ready)
    × (st.description ≡ "")
    × LastWrites k st s.calls

module _ {W : World} (R : RetriesOnConflict W) {Obj : Type 0} (k : Kind W Obj)
    (law : (st : Status) (o : Obj) → k.status (k.with_status st o) ≡ st) (interval : ℕ) where
  Written-status :
      (st st' : Status) (s : Sys W) (x : Result (Unit {0}) × Sys W)
      → st ≡ st'
      → Written k st s x
      → Written k st' s x
  Written-status st st' s x e h = rw (← e) h

  Written-FinishedReady :
      (st : Status) (s : Sys W) (x : Result (Unit {0}) × Sys W) (b : ℕ)
      → st.state ≡ ready
      → st.description ≡ ""
      → Written k st s x
      → (branch x.0 (λ _. pure interval) raise x.1).0 ≡ ok b
      → FinishedReady k interval b (branch x.0 (λ _. pure interval) raise x.1).1
  unfolding pure raise
  Written-FinishedReady st s (ok u, s') b h1 h2 w h = (cc, st, h1, h2, w.last refl)
  Written-FinishedReady st s (err e, s') b h1 h2 w h = absurd cc
  Written-FinishedReady st s (panic, s') b h1 h2 w h = absurd cc

  pub succeed-FinishedReady :
      (cr : Obj) (reason : String)
      → Ends {W = W} (FinishedReady k interval) (succeed k cr reason >>= λ _. pure interval)
  unfolding ◌>>=◌ on_result succeed update_to_ready
  succeed-FinishedReady cr reason = record {
    at = λ s b h.
        let done = set_condition k cr (new_reason_with_message reason []) in
        let st : Status = record (k.status done) { state = ready; description = "" } in
        let written : Obj = k.with_status st done in
        Written-FinishedReady st s (update k written s) b refl refl
          (Written-status (k.status written) st s (update k written s) (law st done)
            (update-Written R k written s))
          h;
  }
