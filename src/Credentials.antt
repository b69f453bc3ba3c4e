-- ===== src/Credentials.antt =====
-- internal/credentials/credentials.go. The credentials are one object that all reconcilers share;
-- `Reload` overwrites its fields in place.
pub mod Reloading
use argora.Base.{String, ◌<>◌, Option, none, some, str_eq, if◌then◌else◌}
use argora.Errors.{Error, text, Result, ok, err}
use argora.World.{World, CredentialsJson}
use argora.Effect.{Action, Credentials, pure, raise, gets, ask, wrap_error, lift, ◌>>=◌, ◌>>◌}

-- `NewDefaultCredentials`
abbrev pub new_default_credentials : Credentials
new_default_credentials = record { bmc_user = ""; bmc_password = ""; netbox_token = "" }

-- `Credentials.String`
unfoldable pub print_credentials : Credentials → String
print_credentials c = "bmcUser: " <> c.bmc_user <> ", bmcPassword: ****, netboxToken: ****"

-- `Credentials.Validate`
unfoldable pub validate : Credentials → Result (Unit {0})
validate c =
    if str_eq c.bmc_user ""
    then err (text "bmc user is required")
    else if str_eq c.bmc_password ""
    then err (text "bmc password is required")
    else if str_eq c.netbox_token ""
    then err (text "netbox token is required")
    else ok tt

-- A field that the JSON text does not have keeps its value.
abbrev pub assigned : Option String → String → String
assigned none old = old
assigned (some new) old = new

-- `json.Unmarshal(byteValue, &c)`
unfoldable pub assign_fields : CredentialsJson → Credentials → Credentials
assign_fields j c = record {
  bmc_user = assigned j.bmc_user c.bmc_user;
  bmc_password = assigned j.bmc_password c.bmc_password;
  netbox_token = assigned j.netbox_token c.netbox_token;
}

set_credentials : {W : World} → Credentials → Action W (Unit {0})
set_credentials c s = (ok tt, record s { credentials = c })

abbrev return_error : {W : World} → Option Error → Action W (Unit {0})
return_error none = pure tt
return_error (some e) = raise e

-- `readJSONAndUnmarshal`
unfoldable pub read_json_and_unmarshal : {W : World} → String → Action W (Unit {0})
unfolding set_credentials
read_json_and_unmarshal {W} file_name = do
  bytes ← ask {W = W} (W.read_file file_name)
  let j = W.unmarshal_credentials bytes
  c ← gets (λ s. s.credentials)
  set_credentials (assign_fields j c)
  return_error j.error

-- `Credentials.Reload`
unfoldable pub reload : {W : World} → Action W (Unit {0})
reload = do
  wrap_error "unable to read credentials.json: "
      (read_json_and_unmarshal "/etc/credentials/credentials.json")
  c ← gets (λ s. s.credentials)
  lift (validate c)
