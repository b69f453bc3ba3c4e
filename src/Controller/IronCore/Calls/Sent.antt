-- ===== src/Controller/IronCore/Calls/Sent.antt =====
-- The calls that `reconcileDevice` sends are among the ones that it may send.
use argora.Base.{String, Bool, ◌≡◌, refl, false, inl, inr, ◌⊎◌, Dict, str_eq, str_eq_iff}
use argora.Errors.{Error, ok}
use argora.Models.Netbox.{Device, Cluster}
use argora.Models.Kubernetes.{Bmc, BmcSecret, key_of}
use argora.Api.{ClusterSelector, ClusterImport}
use argora.World.{World}
use argora.Effect.{Call, put_bmc_secret, patch_bmc, pure, on_result}
use argora.Effect.Emits.{
  weaken, Emits, Emits-if, Emits-pure, Emits-bind, Emits-on_result, Emits-send, Emits-require,
  Emits-lift, Emits-ask, Emits-wrap_error, emits_rules,
}
use argora.Effect.Returns.{
  Returns, ReturnedBy, FailedBy, Returns-self, Returns-pure, Returns-lift, Returns-require,
  Returns-on_result, Returns-wrap_error, Emits-bind-Returns, Emits-on_result-reply,
}
use argora.Netbox.Emitted.{get_region_for_device-Emits}
use argora.Controller.Constants.{device_status_active}
use argora.Controller.Hostname.{get_remoteboard_hostname}
use argora.Controller.Hostname.Silent.{get_remoteboard_hostname-Emits}
use argora.Controller.IronCore.{
  common_labels, create_missing_bmc, reconcile_resources, reconcile_device,
}
use argora.Controller.IronCore.Secrets.{
  BmcCredentials, is_ignored, bmc_secret_values, empty_bmc_secret, put_credentials,
  reconcile_bmc_secret,
}
use argora.Controller.IronCore.Bmcs.{
  get_oob_ip, create_bmc_resource, patch_owner_reference, patch_bmc_labels, labelled,
}
use argora.Controller.IronCore.Resolved.{
  IsResolved, resolve_bmc_credentials-IsResolved, resolve_bmc_credentials-Emits,
}
use argora.Controller.IronCore.Calls.{
  IsPut, Imports, puts_secret, relabels, creates, owns, ask_bmc, ImportsActive,
}

-- Where a call that puts the resolved credentials and the labels into the secret is allowed
module _ {W : World} (cr : ClusterImport) (selector : ClusterSelector) (device : Device)
    (labels : Dict String) {P : Call → Type 0}
    (puts : (o : BmcSecret) (c : BmcCredentials)
      → IsPut W device o
      → IsResolved W cr selector c
      → P (put_bmc_secret (key_of o.meta) labels (bmc_secret_values W c))) where
  put_credentials-Emits :
      (c : BmcCredentials) (o : BmcSecret)
      → IsResolved W cr selector c
      → IsPut W device o
      → Emits {W = W} P (put_credentials labels c o)
  unfolding put_credentials
  put_credentials-Emits c o resolved is_put =
      Emits-bind _ _ (Emits-send _ _ (puts o c is_put resolved)) (λ stored. Emits-pure _)

  pub reconcile_bmc_secret-Emits : Emits {W = W} P (reconcile_bmc_secret cr selector device labels)
  unfolding reconcile_bmc_secret
  reconcile_bmc_secret-Emits =
      Emits-bind-Returns _ _ (Emits-wrap_error _ _ (resolve_bmc_credentials-Emits cr selector))
        (Returns-wrap_error _ _ (resolve_bmc_credentials-IsResolved cr selector))
        (λ c resolved.
          Emits-on_result-reply _ _ _ (Emits-ask _)
            (λ found from.
              Emits-if (is_ignored found.meta) _ _ (λ _. Emits-pure _)
                (λ watched. put_credentials-Emits c found resolved (inr (from, watched))))
            (λ e _. put_credentials-Emits c (empty_bmc_secret device.name) resolved (inl refl)))

-- Where a call that adds the labels to a BMC that was returned for the device is allowed
pub patch_bmc_labels-Emits :
    {W : World} (device : Device) (labels : Dict String) {P : Call → Type 0}
    → ((bmc : Bmc) → ReturnedBy (ask_bmc W device) bmc → P (patch_bmc bmc (labelled bmc labels)))
    → (bmc : Bmc) → ReturnedBy (ask_bmc W device) bmc
    → Emits {W = W} P (patch_bmc_labels bmc labels)
unfolding patch_bmc_labels
patch_bmc_labels-Emits device labels adds bmc from =
    Emits-bind _ _ (Emits-send _ _ (adds bmc from)) (λ _. Emits-pure tt)

module _ {W : World} (cr : ClusterImport) (selector : ClusterSelector) (device : Device)
    (labels : Dict String) where
  module _ (e : Error) (missing : FailedBy (ask_bmc W device) e) where
    create_bmc_resource-Imports :
        (oob_ip hostname : String) (secret : BmcSecret × Bool)
        → (hostname ≡ "") ⊎ ReturnedBy {W = W} (get_remoteboard_hostname device) hostname
        → get_oob_ip W device ≡ ok oob_ip
        → ReturnedBy {W = W} (reconcile_bmc_secret cr selector device labels) secret
        → Emits {W = W}
            (Imports W cr selector device labels)
            (create_bmc_resource device oob_ip hostname secret.0 labels)
    unfolding create_bmc_resource
    create_bmc_resource-Imports oob_ip hostname secret is_hostname is_oob made =
        Emits-bind-Returns _ _ (Emits-wrap_error _ _ (Emits-lift _))
          (Returns-wrap_error _ _ (Returns-lift _))
          (λ ip parsed.
            Emits-on_result _ _ _
              (Emits-send _ _
                (creates e oob_ip ip hostname secret missing is_hostname is_oob parsed made))
              Emits-pure (λ e'. search emits_rules depth 9))

    patch_owner_reference-Imports :
        (bmc : Bmc) (secret : BmcSecret)
        → ReturnedBy {W = W} (reconcile_bmc_secret cr selector device labels) (secret, false)
        → Emits {W = W} (Imports W cr selector device labels) (patch_owner_reference bmc secret)
    unfolding patch_owner_reference
    patch_owner_reference-Imports bmc secret made =
        Emits-bind-Returns _ _ (Emits-wrap_error _ _ (Emits-lift _))
          (Returns-wrap_error _ _ (Returns-lift _))
          (λ owned is_owned.
            Emits-bind _ _
              (Emits-wrap_error _ _
                (Emits-send _ _ (owns e bmc secret owned missing made is_owned)))
              (λ _. Emits-pure tt))

    hostname-Returns :
        Returns {W = W}
          (λ hostname.
            (hostname ≡ "") ⊎ ReturnedBy {W = W} (get_remoteboard_hostname device) hostname)
          (on_result (get_remoteboard_hostname device) pure (λ e'. pure ""))
    hostname-Returns =
        Returns-on_result _ _ _ (λ h from. Returns-pure h (inr from))
          (λ e' _. Returns-pure "" (inl refl))

    create_missing_bmc-Imports :
        (oob_ip : String) (secret : BmcSecret × Bool)
        → get_oob_ip W device ≡ ok oob_ip
        → ReturnedBy {W = W} (reconcile_bmc_secret cr selector device labels) secret
        → Emits {W = W}
            (Imports W cr selector device labels)
            (create_missing_bmc device oob_ip labels secret)
    unfolding create_missing_bmc
    create_missing_bmc-Imports oob_ip (secret, skipped) is_oob made =
        Emits-bind-Returns _ _
          (Emits-on_result _ _ _ (get_remoteboard_hostname-Emits device) Emits-pure
            (λ e'. Emits-pure ""))
          hostname-Returns
          (λ hostname is_hostname.
            Emits-bind _ _
              (Emits-wrap_error _ _ (
                create_bmc_resource-Imports oob_ip hostname (secret, skipped) is_hostname is_oob
                  made))
              (λ bmc.
                Emits-if skipped _ _ (λ _. Emits-pure tt)
                  (λ watched. patch_owner_reference-Imports bmc secret (rw watched at made))))

  reconcile_resources-Imports :
      (oob_ip : String)
      → get_oob_ip W device ≡ ok oob_ip
      → Emits {W = W}
          (Imports W cr selector device labels)
          (reconcile_resources cr selector device oob_ip labels)
  unfolding reconcile_resources
  reconcile_resources-Imports oob_ip is_oob =
      Emits-bind-Returns _ _
        (Emits-wrap_error _ _ (reconcile_bmc_secret-Emits cr selector device labels puts_secret))
        (Returns-wrap_error _ _ (Returns-self _))
        (λ secret made.
          Emits-on_result-reply _ _ _ (Emits-ask _)
            (λ bmc from.
              Emits-wrap_error _ _ (patch_bmc_labels-Emits device labels relabels bmc from))
            (λ e missing. create_missing_bmc-Imports e missing oob_ip secret is_oob made))

module _ {W : World} (cr : ClusterImport) (selector : ClusterSelector) (cluster : Cluster)
    (device : Device) where
  -- Every call that `reconcileDevice` sends is for an active device whose name has two parts. It puts
  -- the complete, resolved credentials and the labels of the device into its secret, unless the
  -- cluster has returned that secret with the annotation by which it is ignored; or adds the labels
  -- to a BMC that the cluster has returned for the device; or, where the cluster has returned none,
  -- creates a BMC with the address of the device and the secret, or makes a secret that is not
  -- ignored owned.
  pub reconcile_device-ImportsActive :
      Emits {W = W}
        (ImportsActive W cr selector cluster device)
        (reconcile_device cr selector cluster device)
  unfolding reconcile_device
  reconcile_device-ImportsActive =
      Emits-if (str_eq device.status_value device_status_active) _ _
        (λ active. Emits-bind-Returns _ _ (Emits-require _ _) (Returns-require _ _) (λ name splits.
          Emits-bind-Returns _ _ (Emits-wrap_error _ _ (get_region_for_device-Emits device))
            (Returns-wrap_error _ _ (Returns-self _))
            (λ region is_region.
              Emits-bind-Returns _ _ (Emits-wrap_error _ _ (Emits-lift _))
                (Returns-wrap_error _ _ (Returns-lift _))
                (λ oob_ip is_oob.
                  weaken _
                    (λ c imports. record {
                      labels = common_labels region name cluster device;
                      is_active = (str_eq_iff device.status_value device_status_active).0 active;
                      is_labelling = record {
                        name = name;
                        region = region;
                        splits = splits;
                        is_region = is_region;
                        is_labels = refl;
                      };
                      imports = imports;
                    })
                    (reconcile_resources-Imports cr selector device
                      (common_labels region name cluster device) oob_ip is_oob)))))
        (λ _. Emits-pure tt)
