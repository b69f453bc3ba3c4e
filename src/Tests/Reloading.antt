-- ===== src/Tests/Reloading.antt =====
-- The theorems on the shared credentials and NetBox clients in the small world of Tests/Sample.
use argora.Base.{String, ◌≡◌, ◌≢◌, refl, arith, str_eq_iff, str_eq}
use argora.Errors.{ok}
use argora.Effect.{◌>>=◌, ask, gets, lift, wrap_error}
use argora.Tests.Sample.{start}
use argora.Credentials
use argora.Credentials.Reloading.{IsComplete, reload-IsComplete, reload_stale_token}
use argora.Netbox.Clients
use argora.Netbox.Clients.Renewal.{Outcome, reload-Outcome}

user_given : ◌≢◌ {A = String} "user" ""
unfolding str_eq
user_given = ground (arith, str_eq_iff "user" "")

password_given : ◌≢◌ {A = String} "password" ""
unfolding str_eq
password_given = ground (arith, str_eq_iff "password" "")

token_given : ◌≢◌ {A = String} "token" ""
unfolding str_eq
token_given = ground (arith, str_eq_iff "token" "")

reload_succeeds : (Credentials.reload start).0 ≡ ok tt
unfolding Credentials.reload Credentials.read_json_and_unmarshal Credentials.validate ◌>>=◌
    wrap_error ask gets lift str_eq Credentials.assign_fields
reload_succeeds = refl

reload-IsComplete_example : IsComplete (Credentials.reload start).1.credentials
reload-IsComplete_example = reload-IsComplete start reload_succeeds

reload_stale_token_example :
    ((Credentials.reload start).0 ≡ ok tt)
    × ((Credentials.reload start).1.credentials
        ≡ record { bmc_user = "user"; bmc_password = "password"; netbox_token = "token" })
reload_stale_token_example =
    reload_stale_token start refl refl user_given password_given token_given

reload-Outcome_example : Outcome "token" start (Clients.reload "token" start)
reload-Outcome_example = reload-Outcome "token" start
