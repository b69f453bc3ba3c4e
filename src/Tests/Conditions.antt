-- ===== src/Tests/Conditions.antt =====
-- The theorems on the conditions and errors that the status handlers write, in the small world of
-- Tests/Sample.
use argora.Base.{refl, [], ℕ}
use argora.Api
use argora.World.Documented.{SetsStatusCondition}
use argora.Tests.Sample.{update, world, start, retries}
use argora.Status.{update_kind}
use argora.Status
use argora.Status.{set_condition}
use argora.Status.Failing.{Reports, error_status, fail_with-Reports}
use argora.Status.{ip_pool_import_kind, fail_with, update_to_error}
use argora.Errors.{text}
use argora.Api.Conditions.{new_reason_with_message}

abbrev sets : SetsStatusCondition world
sets = record { sets = λ cs c t. refl }

abbrev failed : Api.Update
failed = set_condition (update_kind world) update (new_reason_with_message "UpdateFailed" [])

fail_with-Reports_example :
    Reports {A = ℕ}
      (error_status failed (text "no clusters found"))
      (text "no clusters")
      start
      (update_to_error (update_kind world) failed (text "no clusters found") start).0
      (fail_with
        (update_kind world)
        update
        "UpdateFailed"
        (text "no clusters found")
        (text "no clusters")
        start)
fail_with-Reports_example =
    fail_with-Reports retries update "UpdateFailed" (text "no clusters found") (text "no clusters")
      start
