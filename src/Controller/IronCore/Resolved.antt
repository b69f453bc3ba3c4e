-- ===== src/Controller/IronCore/Resolved.antt =====
-- What `resolveBMCCredentials` of internal/controller/ironcore_controller.go returns.
use argora.Base.{ap, String, ◌≡◌, ◌≢◌, refl, ◌||◌, Option, none, some, str_eq, str_eq_iff, arith}
use argora.Models.Kubernetes.{Secret}
use argora.Api.{ClusterSelector, ClusterImport}
use argora.World.{World}
use argora.Effect.{Call, Sys, ask}
use argora.Effect.Emits.{Emits, emits_rules}
use argora.Effect.Returns.{
  Returns, ReturnedBy, Returns-self, Returns-pure, Returns-bind, Returns-wrap_error, Returns-if,
  Returns-raise, Returns-gets,
}
use argora.Controller.IronCore.Secrets.{
  BmcCredentials, value_at, complete, resolve_by_ref, resolve_bmc_credentials,
}

-- Neither of the two is empty.
pub record IsComplete (c : BmcCredentials) : Type 0 where
  pub user : ◌≢◌ {A = String} c.user ""
  pub password : ◌≢◌ {A = String} c.password ""

-- Where the credentials come from: the shared ones without a reference, and with one the two keys of
-- the secret with that name in the namespace of the import.
abbrev pub ComesFrom : (W : World) → String → Option String → BmcCredentials → Type 0
ComesFrom W namespace none c =
    (s : Sys W) × (c.user ≡ s.credentials.bmc_user) × (c.password ≡ s.credentials.bmc_password)
ComesFrom W namespace (some name) c =
    (secret : Secret) × ReturnedBy
      (ask {W = W} (W.secrets.get (record { namespace = namespace; name = name }))) secret
    × (c.user ≡ value_at "bmcUser" secret.values)
    × (c.password ≡ value_at "bmcPassword" secret.values)

pub record IsResolved (W : World) (cr : ClusterImport) (selector : ClusterSelector)
    (c : BmcCredentials) : Type 0 where
  pub is_complete : IsComplete c
  pub comes_from : ComesFrom W cr.meta.namespace selector.bmc_credentials_ref c

module _ {W : World} where
  complete-Returns :
      {Q : BmcCredentials → Type 0} (user password message : String)
      → (IsComplete (record { user = user; password = password })
          → Q (record { user = user; password = password }))
      → Returns {W = W} Q (complete user password message)
  complete-Returns user password message q =
      Returns-if (str_eq user "" || str_eq password "") _ _ (λ _. Returns-raise _)
        (λ h. Returns-pure _ (
          q (record {
            user = ground (arith, str_eq_iff user "");
            password = ground (arith, str_eq_iff user "", str_eq_iff password "");
          })))

  resolve_by_ref-Returns :
      (namespace : String) (ref : Option String)
      → Returns {W = W}
          (λ c. IsComplete c × ComesFrom W namespace ref c)
          (resolve_by_ref namespace ref)
  unfolding resolve_by_ref
  resolve_by_ref-Returns namespace none = Returns-bind _ _ (Returns-gets _) (λ c from.
      complete-Returns c.bmc_user c.bmc_password _
        (λ full. (full, (from.0, ap (λ d. d.bmc_user) from.1, ap (λ d. d.bmc_password) from.1))))
  resolve_by_ref-Returns namespace (some name) =
      Returns-bind _ _ (Returns-wrap_error _ _ (Returns-self _)) (λ secret from.
        complete-Returns (value_at "bmcUser" secret.values) (value_at "bmcPassword" secret.values) _
          (λ full. (full, (secret, from, refl, refl))))

  pub resolve_bmc_credentials-IsResolved :
      (cr : ClusterImport) (selector : ClusterSelector)
      → Returns {W = W} (IsResolved W cr selector) (resolve_bmc_credentials cr selector)
  unfolding resolve_bmc_credentials
  resolve_bmc_credentials-IsResolved cr selector = record {
    at = λ s c h.
        let known =
          (resolve_by_ref-Returns cr.meta.namespace selector.bmc_credentials_ref).at s c h in
        record { is_complete = known.0; comes_from = known.1 };
  }

module _ {W : World} {P : Call → Type 0} where
  complete-Emits :
      (user password message : String) → Emits {W = W} P (complete user password message)
  complete-Emits user password message = search emits_rules depth 9

  resolve_by_ref-Emits :
      (namespace : String) (ref : Option String) → Emits {W = W} P (resolve_by_ref namespace ref)
  unfolding resolve_by_ref
  resolve_by_ref-Emits namespace none = search (emits_rules, complete-Emits) depth 9
  resolve_by_ref-Emits namespace (some name) = search (emits_rules, complete-Emits) depth 9

  pub resolve_bmc_credentials-Emits :
      (cr : ClusterImport) (selector : ClusterSelector)
      → Emits {W = W} P (resolve_bmc_credentials cr selector)
  unfolding resolve_bmc_credentials
  resolve_bmc_credentials-Emits cr selector =
      resolve_by_ref-Emits cr.meta.namespace selector.bmc_credentials_ref
