-- ===== src/Status/Failing.antt =====
-- What a reconciler has written when it gives up with an error.
use argora.Base.{String, ◌≡◌, refl, []}
use argora.Errors.{Error, error_text, Result, ok, err, panic}
use argora.Api.{Status, Update, error}
use argora.Api.Conditions.{new_reason_with_message}
use argora.World.{World}
use argora.World.Documented.{RetriesOnConflict}
use argora.Effect.{Sys, raise, branch, on_result, ◌>>=◌}
use argora.Effect.Emits.{Extends}
use argora.Status.{update_kind, set_condition, update, update_to_error, fail_with}
use argora.Status.Updating.{Writes, LastWrites, Written, update-Written}

-- The run ends in an error or a panic; the calls it sends write `st`; and if the write went through,
-- it is the last call, and the error is `e`.
pub record Reports {W : World} {A : Type 0} (st : Status) (e : Error) (s : Sys W)
    (written : Result (Unit {0})) (x : Result A × Sys W) : Type 0 where
  pub not_ok : (a : A) → ¬ (x.0 ≡ ok a)
  pub writes : Extends (Writes (update_kind W) st) s.calls x.1.calls
  pub returns : written ≡ ok tt → (x.0 ≡ err e) × LastWrites (update_kind W) st x.1.calls

-- The status that shows an error.
abbrev pub error_status : Update → Error → Status
error_status cr shown = record (cr.status) { state = error; description = error_text shown }

raised-Reports :
    {W : World} {A : Type 0} (st : Status) (e : Error) (s : Sys W) (x : Result (Unit {0}) × Sys W)
    → Written (update_kind W) st s x
    → Reports {A = A} st e s x.0 (branch x.0 (λ _. raise e) raise x.1)
unfolding raise
raised-Reports st e s (ok u, s') w = record {
  not_ok = λ a h. cc;
  writes = w.writes;
  returns = λ h. (refl, w.last refl);
}
raised-Reports st e s (err e', s') w = record {
  not_ok = λ a h. cc;
  writes = w.writes;
  returns = λ h. absurd cc;
}
raised-Reports st e s (panic, s') w = record {
  not_ok = λ a h. cc;
  writes = w.writes;
  returns = λ h. absurd cc;
}

module _ {W : World} (R : RetriesOnConflict W) where
  -- A reconciler of updates that gives up with an error never succeeds. The calls that it sends on the
  -- way out write a status with the state `Error` and the text that is to be shown, and the condition
  -- of the reason; if the status could be written, that is the last call, and the error is returned.
  pub fail_with-Reports :
      {A : Type 0} (cr : Update) (reason : String) (shown e : Error) (s : Sys W)
      → Reports {A = A}
          (error_status
            (set_condition (update_kind W) cr (new_reason_with_message reason []))
            shown)
          e
          s
          (update_to_error
            (update_kind W)
            (set_condition (update_kind W) cr (new_reason_with_message reason []))
            shown
            s).0
          (fail_with (update_kind W) cr reason shown e s)
  unfolding fail_with update_to_error update_kind ◌>>=◌ on_result
  fail_with-Reports cr reason shown e s =
      let failed = set_condition (update_kind W) cr (new_reason_with_message reason []) in
      let written : Update = record failed { status = error_status failed shown } in
      raised-Reports (error_status failed shown) e s (update (update_kind W) written s)
        (update-Written R (update_kind W) written s)
