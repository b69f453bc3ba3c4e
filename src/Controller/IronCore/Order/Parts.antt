-- ===== src/Controller/IronCore/Order/Parts.antt =====
-- The order of the calls of the parts of `reconcileDevice`.
use argora.Base.{String, ◌≡◌, refl, Bool, true, false, List, [], ◌∷◌, ◌++◌, Dict, if◌then◌else◌}
use argora.Errors.{Error, is_already_exists}
use argora.Models.Netbox.{Device}
use argora.Models.Kubernetes.{Bmc, BmcSecret}
use argora.Api.{ClusterSelector, ClusterImport}
use argora.World.{World}
use argora.Effect.{Call, pure}
use argora.Effect.Emits.{Emits-lift, Emits-ask, Emits-wrap_error, Emits-on_result, Emits-pure}
use argora.Effect.Returns.{FailedBy, ReturnedBy, Returns-any, Returns-lift, Returns-wrap_error}
use argora.Effect.Traces.{
  Traces, AtMost, unsent, once, Traces-pure, Traces-raise, Traces-if, Traces-weaken, Traces-bind,
  Traces-on_result,
}
use argora.Effect.Traces.Replies.{
  Traces-after_reply, Traces-on_reply, Traces-send, Traces-sent, Traces-wrap_error,
  Traces-wrap_returned,
}
use argora.Controller.Hostname.Silent.{get_remoteboard_hostname-Emits}
use argora.Controller.IronCore.{create_missing_bmc}
use argora.Controller.IronCore.Secrets.{
  BmcCredentials, is_ignored, empty_bmc_secret, put_credentials, reconcile_bmc_secret,
}
use argora.Controller.IronCore.Bmcs.{
  create_bmc_resource, patch_owner_reference, patch_bmc_labels, labelled,
}
use argora.Controller.IronCore.Resolved.{resolve_bmc_credentials-Emits}
use argora.Controller.IronCore.Calls.{ask_bmc}
use argora.Controller.IronCore.Order.{
  PutsSecret, left_alone, puts, FailsToPut, not_put, put, IsNew, MakesOwned, not_owned, owned,
  FailsToOwn, not_sent, patch_sent, ProvidesBmc, has_bmc, provides, FailsToProvide, nothing_sent,
  labels_sent, bmc_sent,
}
use argora.Effect.Traces.{Traces-returned}
use argora.Controller.IronCore.Secrets.{bmc_secret_values}
use argora.Models.Kubernetes.{key_of}

module _ (W : World) (device : Device) (labels : Dict String) (oob_ip hostname : String)
    (secret : BmcSecret) where
  -- One BMC is sent; that one has come into being meanwhile is no failure.
  data SendsBmc : List Call → Type 0 where
    sends_bmc :
        (new : Bmc)
        → IsNew W device labels secret oob_ip hostname new
        → SendsBmc (Call.create_bmc new ∷ [])

  data FailsToSendBmc : List Call → Type 0 where
    no_bmc_sent : FailsToSendBmc []
    sent_bmc :
        (new : Bmc)
        → IsNew W device labels secret oob_ip hostname new
        → FailsToSendBmc (Call.create_bmc new ∷ [])

module _ {W : World} (device : Device) (labels : Dict String) where
  flag_down :
      (c : BmcCredentials) (o : BmcSecret) (secret : BmcSecret × Bool) {cs : List Call}
      → ReturnedBy {W = W} (put_credentials labels c o) secret
      → secret.1 ≡ false
      → cs ≡ Call.put_bmc_secret (key_of o.meta) labels (bmc_secret_values W c) ∷ []
      → PutsSecret W device labels secret cs
  flag_down c o (stored, true) from down only = absurd cc
  flag_down c o (stored, false) from down only = rw only (puts stored o c from)

  put_once :
      (c : BmcCredentials) (o : BmcSecret) {cs : List Call}
      → AtMost (Call.put_bmc_secret (key_of o.meta) labels (bmc_secret_values W c)) cs
      → FailsToPut W device labels cs
  put_once c o unsent = not_put
  put_once c o once = put o c

  put_credentials-Once :
      (c : BmcCredentials) (o : BmcSecret)
      → Traces {W = W}
          (λ secret cs.
            (secret.1 ≡ false)
            × (cs ≡ Call.put_bmc_secret (key_of o.meta) labels (bmc_secret_values W c) ∷ []))
          (AtMost (Call.put_bmc_secret (key_of o.meta) labels (bmc_secret_values W c)))
          (put_credentials labels c o)
  unfolding put_credentials
  put_credentials-Once c o =
      Traces-bind _ _ (Traces-send _ _) (λ cs h. h)
        (λ stored cs only. rw only (Traces-pure _ (refl, refl)))

  put_credentials-PutsSecret :
      (c : BmcCredentials) (o : BmcSecret)
      → Traces {W = W}
          (PutsSecret W device labels)
          (FailsToPut W device labels)
          (put_credentials labels c o)
  put_credentials-PutsSecret c o =
      Traces-weaken _ (λ secret cs (from, (down, only)). flag_down c o secret from down only)
        (λ cs. put_once c o) (Traces-returned _ (put_credentials-Once c o))

  pub reconcile_bmc_secret-PutsSecret :
      (cr : ClusterImport) (selector : ClusterSelector)
      → Traces {W = W}
          (PutsSecret W device labels)
          (FailsToPut W device labels)
          (reconcile_bmc_secret cr selector device labels)
  unfolding reconcile_bmc_secret
  reconcile_bmc_secret-PutsSecret cr selector =
      Traces-after_reply _ _ (Emits-wrap_error _ _ (resolve_bmc_credentials-Emits cr selector))
        (Returns-any _) not_put
        (λ c _.
          Traces-on_reply _ _ _ (Emits-ask _) not_put
            (λ found from.
              Traces-if (is_ignored found.meta) _ _
                (λ ignored. Traces-pure _ (left_alone found from ignored))
                (λ _. put_credentials-PutsSecret c found))
            (λ e _. put_credentials-PutsSecret c (empty_bmc_secret device.name)))

  labelling :
      {secret : BmcSecret × Bool} (bmc : Bmc) {cs : List Call}
      → ReturnedBy (ask_bmc W device) bmc
      → AtMost (Call.patch_bmc bmc (labelled bmc labels)) cs
      → FailsToProvide W device labels secret cs
  labelling bmc from unsent = nothing_sent
  labelling bmc from once = labels_sent bmc from

  pub patch_bmc_labels-ProvidesBmc :
      (secret : BmcSecret × Bool) (bmc : Bmc)
      → ReturnedBy (ask_bmc W device) bmc
      → Traces {W = W}
          (λ u. ProvidesBmc W device labels secret)
          (FailsToProvide W device labels secret)
          (patch_bmc_labels bmc labels)
  unfolding patch_bmc_labels
  patch_bmc_labels-ProvidesBmc secret bmc from =
      Traces-bind _ _ (Traces-send _ _) (λ cs. labelling bmc from)
        (λ b cs only. rw only (Traces-pure tt (has_bmc bmc from)))

  owning :
      (secret after : BmcSecret) {cs : List Call}
      → AtMost (Call.patch_bmc_secret secret after) cs
      → FailsToOwn W device labels secret cs
  owning secret after unsent = not_sent
  owning secret after once = patch_sent after

  patch_owner_reference-MakesOwned :
      (bmc : Bmc) (secret : BmcSecret)
      → Traces {W = W}
          (λ u. MakesOwned W device labels bmc (secret, false))
          (FailsToOwn W device labels secret)
          (patch_owner_reference bmc secret)
  unfolding patch_owner_reference
  patch_owner_reference-MakesOwned bmc secret =
      Traces-after_reply _ _ (Emits-wrap_error _ _ (Emits-lift _))
        (Returns-wrap_error _ _ (Returns-lift _)) not_sent
        (λ after is_owned.
          Traces-bind _ _ (Traces-wrap_error _ _ (Traces-send _ _)) (λ cs. owning secret after)
            (λ s cs only. rw only (Traces-pure tt (owned secret after is_owned))))

  create_bmc_resource-SendsBmc :
      (oob_ip hostname : String) (secret : BmcSecret)
      → Traces {W = W}
          (λ b. SendsBmc W device labels oob_ip hostname secret)
          (FailsToSendBmc W device labels oob_ip hostname secret)
          (create_bmc_resource device oob_ip hostname secret labels)
  unfolding create_bmc_resource
  create_bmc_resource-SendsBmc oob_ip hostname secret =
      Traces-after_reply _ _ (Emits-wrap_error _ _ (Emits-lift _))
        (Returns-wrap_error _ _ (Returns-lift _)) no_bmc_sent
        (λ ip parses.
          let is_new : IsNew W device labels secret oob_ip hostname _ = record {
            ip = ip;
            parses = parses;
            is_new = refl;
          } in
          Traces-on_result _ _ _ (Traces-sent _ _)
            (λ b cs only. rw only (Traces-pure b (sends_bmc _ is_new)))
            (λ e cs _ only. rw only (
              Traces-if (is_already_exists e) _ _ (λ _. Traces-pure _ (sends_bmc _ is_new))
                (λ _. Traces-raise _ (sent_bmc _ is_new))))
            (λ cs only. rw only (sent_bmc _ is_new)))

  module _ (e : Error) (missing : FailedBy (ask_bmc W device) e) (oob_ip hostname : String) where
    own_created :
        (skipped : Bool) (secret : BmcSecret) (created : Bmc) {cs : List Call}
        → ReturnedBy {W = W} (create_bmc_resource device oob_ip hostname secret labels) created
        → SendsBmc W device labels oob_ip hostname secret cs
        → Traces {W = W}
            (λ u ds. ProvidesBmc W device labels (secret, skipped) (cs ++ ds))
            (λ ds. FailsToProvide W device labels (secret, skipped) (cs ++ ds))
            (if skipped then pure tt else patch_owner_reference created secret)
    own_created true secret created from (sends_bmc new is_new) =
        Traces-pure tt
          (provides e new created oob_ip hostname missing is_new from (not_owned secret))
    own_created false secret created from (sends_bmc new is_new) =
        Traces-weaken _ (λ u ds. provides e new created oob_ip hostname missing is_new from)
          (λ ds. bmc_sent e new oob_ip hostname missing is_new)
          (patch_owner_reference-MakesOwned created secret)

    not_created :
        (secret : BmcSecret × Bool) {cs : List Call}
        → FailsToSendBmc W device labels oob_ip hostname secret.0 cs
        → FailsToProvide W device labels secret cs
    not_created secret no_bmc_sent = nothing_sent
    not_created secret (sent_bmc new is_new) =
        bmc_sent e new oob_ip hostname missing is_new not_sent

  pub create_missing_bmc-ProvidesBmc :
      (e : Error)
      → FailedBy (ask_bmc W device) e
      → (oob_ip : String) (secret : BmcSecret × Bool)
      → Traces {W = W}
          (λ u. ProvidesBmc W device labels secret)
          (FailsToProvide W device labels secret)
          (create_missing_bmc device oob_ip labels secret)
  unfolding create_missing_bmc
  create_missing_bmc-ProvidesBmc e missing oob_ip (secret, skipped) =
      Traces-after_reply _ _
        (Emits-on_result _ _ _ (get_remoteboard_hostname-Emits device) Emits-pure
          (λ e'. Emits-pure ""))
        (Returns-any _) nothing_sent
        (λ hostname _.
          Traces-bind _ _
            (Traces-wrap_returned _ _ (create_bmc_resource-SendsBmc oob_ip hostname secret))
            (λ cs. not_created e missing oob_ip hostname (secret, skipped))
            (λ created cs (from, sends).
              own_created e missing oob_ip hostname skipped secret created from sends))
