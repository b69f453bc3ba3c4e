-- ===== src/World/Documented.antt =====
-- The documented behaviour of library functions, as named hypotheses of the theorems that use it.
use argora.Base.{
  ℕ, zero, suc, String, Bool, false, Option, none, some, List, [], ◌∷◌, ◌≡◌, str_eq, if◌then◌else◌,
}
use argora.Errors.{Result, err, is_conflict}
use argora.Api.{Condition}
use argora.World.{World}

abbrev pub is_conflict_result : Result (Unit {0}) → Bool
is_conflict_result (err e) = is_conflict e
is_conflict_result _ = false

-- `fn` at most `n + 1` times, until a run ends otherwise than in a conflict.
unfoldable pub attempts : {S : Type 0} → ℕ → (S → Result (Unit {0}) × S) → S → Result (Unit {0}) × S
attempts zero fn s = fn s
attempts (suc n) fn s =
    let (r, s') = fn s in if is_conflict_result r then attempts n fn s' else (r, s')

-- "RetryOnConflict … fn should … return the error from the update": the default retry has 5 steps,
-- and the last run decides.
pub record RetriesOnConflict (W : World) : Type 1 where
  pub retries :
      (S : Type 0) (fn : S → Result (Unit {0}) × S) (s : S)
      → W.retry_on_conflict S fn s ≡ attempts 4 fn s

abbrev pub find_condition : String → List Condition → Option Condition
find_condition t [] = none
find_condition t (c ∷ cs) = if str_eq c.type_name t then some c else find_condition t cs

-- "SetStatusCondition sets the corresponding condition in conditions to newCondition"
pub record SetsStatusCondition (W : World) : Type 0 where
  pub sets :
      (cs : List Condition) (c : Condition) (t : String)
      → find_condition t (W.set_status_condition cs c)
        ≡ (if str_eq c.type_name t then some c else find_condition t cs)
