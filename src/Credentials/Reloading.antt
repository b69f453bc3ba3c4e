-- ===== src/Credentials/Reloading.antt =====
-- What `Reload` leaves in the credentials that all reconcilers share.
use argora.Base.{Option, String, ◌≡◌, ◌≢◌, refl, none, some, str_eq_iff, arith}
use argora.Errors.{Error, Result, ok, err, panic, wrapped}
use argora.World.{World, CredentialsJson}
use argora.Effect.{Sys, Credentials, pure, raise, gets, ask, lift, on_result, wrap_error, ◌>>=◌}
use argora.Effect.{Call}
use argora.Effect.Emits.{same, Emits, Emits-pure, Emits-raise, emits_rules}
use argora.Credentials.{
  set_credentials, return_error, validate, assign_fields, read_json_and_unmarshal, reload,
}

-- The credentials that `Validate` accepts.
pub record IsComplete (c : Credentials) : Type 0 where
  pub bmc_user : c.bmc_user ≢ ""
  pub bmc_password : c.bmc_password ≢ ""
  pub netbox_token : c.netbox_token ≢ ""

validate-IsComplete : (c : Credentials) → validate c ≡ ok tt → IsComplete c
unfolding validate
validate-IsComplete c h =
    ground
      (arith, str_eq_iff c.bmc_user "", str_eq_iff c.bmc_password "", str_eq_iff c.netbox_token "")

-- What the fields become when the file could be read and `json.Unmarshal` was called on its text.
abbrev pub reloaded : (W : World) → String → Sys W → Credentials
reloaded W bytes s = assign_fields (W.unmarshal_credentials bytes) s.credentials

-- `Reload` by the reply of the file system.
module _ {W : World} (s : Sys W) where
  abbrev after_decoding : CredentialsJson → W.State → Result (Unit {0}) × Sys W
  after_decoding j w =
      let c = assign_fields j s.credentials in
      let s' : Sys W = record s { world = w; credentials = c } in
      elim (j.error) [
        | none ↦ (validate c, s')
        | some e ↦ (err (wrapped "unable to read credentials.json: " e), s')
      ]

  abbrev after_reading : Result String × W.State → Result (Unit {0}) × Sys W
  after_reading (ok bytes, w) = after_decoding (W.unmarshal_credentials bytes) w
  after_reading (err e, w) =
      (err (wrapped "unable to read credentials.json: " e), record s { world = w })
  after_reading (panic, w) = (panic, record s { world = w })

  reload-after_reading :
      reload s ≡ after_reading (W.read_file "/etc/credentials/credentials.json" s.world)
  unfolding reload read_json_and_unmarshal ◌>>=◌ wrap_error ask gets lift raise pure on_result
  reload-after_reading = ground arith

  after_reading-IsComplete :
      (x : Result String × W.State)
      → (after_reading x).0 ≡ ok tt
      → IsComplete (after_reading x).1.credentials
  after_reading-IsComplete (ok bytes, w) h =
      ground (arith, validate-IsComplete (reloaded W bytes s))
  after_reading-IsComplete (err e, w) h = cc
  after_reading-IsComplete (panic, w) h = cc

  -- If `Reload` succeeds, no field of the credentials is empty.
  pub reload-IsComplete : (reload s).0 ≡ ok tt → IsComplete (reload s).1.credentials
  reload-IsComplete h =
      rw reload-after_reading (after_reading-IsComplete _ (rw reload-after_reading at h))

  after_decoding_stale :
      {user password : String} (j : CredentialsJson) (w : W.State)
      → j ≡ record {
        bmc_user = some user;
        bmc_password = some password;
        netbox_token = none;
        error = none;
      }
      → user ≢ ""
      → password ≢ ""
      → s.credentials.netbox_token ≢ ""
      → ((after_decoding j w).0 ≡ ok tt)
        × ((after_decoding j w).1.credentials ≡ record {
          bmc_user = user;
          bmc_password = password;
          netbox_token = s.credentials.netbox_token;
        })
  unfolding validate assign_fields
  after_decoding_stale {user} {password} j w decoded hu hp ht = rw decoded (
    ground (
      arith,
      str_eq_iff user "",
      str_eq_iff password "",
      str_eq_iff s.credentials.netbox_token "",
    ),
    refl,
  )

  -- `Reload` takes a file with no NetBox token for a complete one, if a token was loaded before: it
  -- succeeds, and the old token stays in use.
  pub reload_stale_token :
      {bytes user password : String} {w : W.State}
      → W.read_file "/etc/credentials/credentials.json" s.world ≡ (ok bytes, w)
      → W.unmarshal_credentials bytes ≡ record {
        bmc_user = some user;
        bmc_password = some password;
        netbox_token = none;
        error = none;
      }
      → user ≢ ""
      → password ≢ ""
      → s.credentials.netbox_token ≢ ""
      → ((reload s).0 ≡ ok tt)
        × ((reload s).1.credentials ≡ record {
          bmc_user = user;
          bmc_password = password;
          netbox_token = s.credentials.netbox_token;
        })
  reload_stale_token {bytes} {user} {password} {w} read decoded hu hp ht =
      rw (reload-after_reading, read)
        (after_decoding_stale (W.unmarshal_credentials bytes) w decoded hu hp ht)

module _ {W : World} {P : Call → Type 0} where
  set_credentials-Emits : (c : Credentials) → Emits {W = W} P (set_credentials c)
  unfolding set_credentials
  set_credentials-Emits c = record { at = λ s. same }

  return_error-Emits : (o : Option Error) → Emits {W = W} P (return_error o)
  return_error-Emits none = Emits-pure tt
  return_error-Emits (some e) = Emits-raise e

  read_json-Emits : (f : String) → Emits {W = W} P (read_json_and_unmarshal f)
  unfolding read_json_and_unmarshal
  read_json-Emits f = search (emits_rules, set_credentials-Emits, return_error-Emits) depth 9

  pub credentials_reload-Emits : Emits {W = W} P reload
  unfolding reload
  credentials_reload-Emits = search (emits_rules, read_json-Emits) depth 9
