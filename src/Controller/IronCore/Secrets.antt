-- ===== src/Controller/IronCore/Secrets.antt =====
-- The credentials of a BMC and the `BMCSecret` that holds them: `resolveBMCCredentials` and
-- `reconcileBmcSecret` of internal/controller/ironcore_controller.go.
use argora.Base.{
  String, ◌<>◌, Bool, true, false, ◌||◌, Option, none, some, [], ◌∷◌, str_eq, if◌then◌else◌, Dict,
  lookup,
}
use argora.Errors.{text}
use argora.Models.Netbox.{Device}
use argora.Models.Kubernetes.{ObjectMeta, BmcSecret, key_of, object_meta}
use argora.Api.{ClusterSelector, ClusterImport, annotation_ignore}
use argora.World.{World}
use argora.Effect.{
  put_bmc_secret, Action, pure, raise, ask, send, gets, on_result, wrap_error, ◌>>=◌,
}
use argora.Controller.Constants.{annotation_value_true}

pub record BmcCredentials : Type 0 where
  pub user : String
  pub password : String

-- A key that the map does not have reads as the empty text, also where the map is `nil`.
abbrev pub value_or_empty : Option String → String
value_or_empty none = ""
value_or_empty (some v) = v

abbrev pub value_at : String → Option (Dict String) → String
value_at key none = ""
value_at key (some m) = value_or_empty (lookup key m)

-- `%q`, for a text with no character that it would escape, as the name of a resource
abbrev pub quoted : String → String
quoted t = "\"" <> t <> "\""

-- The check that ends both ways to the credentials
abbrev pub complete : {W : World} → String → String → String → Action W BmcCredentials
complete user password message =
    if str_eq user "" || str_eq password ""
    then raise (text message)
    else pure (record { user = user; password = password })

-- `resolveBMCCredentials` by the reference of the selector
unfoldable pub resolve_by_ref : {W : World} → String → Option String → Action W BmcCredentials
resolve_by_ref namespace none = do
  c ← gets (λ s. s.credentials)
  complete c.bmc_user c.bmc_password "bmc user or password not set"
resolve_by_ref {W} namespace (some name) = do
  secret ←
      wrap_error ("unable to get BMC credentials secret " <> quoted name <> ": ")
        (ask {W = W} (W.secrets.get (record { namespace = namespace; name = name })))
  complete (value_at "bmcUser" secret.values) (value_at "bmcPassword" secret.values) (
      "BMC credentials secret "
      <> quoted name
      <> " is missing required keys (bmcUser, bmcPassword)")

-- `resolveBMCCredentials`
unfoldable pub resolve_bmc_credentials :
    {W : World} → ClusterImport → ClusterSelector → Action W BmcCredentials
unfolding resolve_by_ref
resolve_bmc_credentials cr selector = resolve_by_ref cr.meta.namespace selector.bmc_credentials_ref

-- The annotation by which a secret is left alone
abbrev pub is_ignored : ObjectMeta → Bool
is_ignored meta = str_eq (value_at annotation_ignore meta.annotations) annotation_value_true

-- The data of a `BMCSecret`
abbrev pub bmc_secret_values : World → BmcCredentials → Dict String
bmc_secret_values W c =
    (W.bmc_secret_username_key, c.user) ∷ (W.bmc_secret_password_key, c.password) ∷ []

-- The function that `CreateOrUpdate` is given: it sets the labels and the data.
abbrev pub set_bmc_secret : Dict String → Dict String → BmcSecret → BmcSecret
set_bmc_secret labels values o = record o {
  meta = record (o.meta) { labels = some labels };
  values = some values;
}

abbrev pub empty_bmc_secret : String → BmcSecret
empty_bmc_secret name = record { meta = object_meta "" name; values = none }

-- `CreateOrUpdate` of the secret, from the object that the variable holds
unfoldable pub put_credentials :
    {W : World} → Dict String → BmcCredentials → BmcSecret → Action W (BmcSecret × Bool)
put_credentials {W} labels c o =
    send {W = W} (put_bmc_secret (key_of o.meta) labels (bmc_secret_values W c))
      (W.create_or_update_bmc_secret (set_bmc_secret labels (bmc_secret_values W c)) o)
    >>= λ stored. pure (stored, false)

-- `reconcileBmcSecret` from `Get` on. The flag says that the secret is skipped. After a `Get` that
-- fails the variable is as it was.
unfoldable pub reconcile_bmc_secret :
    {W : World}
    → ClusterImport
    → ClusterSelector
    → Device
    → Dict String
    → Action W (BmcSecret × Bool)
reconcile_bmc_secret {W} cr selector device labels = do
  c ← wrap_error "unable to resolve BMC credentials: " (resolve_bmc_credentials cr selector)
  let o = empty_bmc_secret device.name
  on_result (ask {W = W} (W.bmc_secrets.get (key_of o.meta)))
      (λ found.
        if is_ignored found.meta then pure (found, true) else put_credentials labels c found)
      (λ e. put_credentials labels c o)
