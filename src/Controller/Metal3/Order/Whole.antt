-- ===== src/Controller/Metal3/Order/Whole.antt =====
-- The order of the calls of `reconcileDevice`.
use argora.Base.{String, ◌<>◌, ◌||◌, ◌≡◌, Bool, List, [], ◌∷◌, All, str_eq}
use argora.Errors.{Error, Result, ok}
use argora.Models.Netbox.{Device}
use argora.Models.Kubernetes.{Secret, CapiCluster, BareMetalHost}
use argora.World.{World}
use argora.Effect
use argora.Effect.{Call, Action, lift, ask, wrap_error, ◌>>=◌}
use argora.Effect.Emits.{
  Emits-gets, Emits-lift, Emits-ask, Emits-require, Emits-wrap_error, Emits-on_result, Emits-pure,
  Emits-raise,
}
use argora.Effect.Returns.{FailedBy, Returns-any, Returns-lift, Returns-wrap_error}
use argora.Effect.Traces.{
  Traces, AtMost, unsent, once, Traces-pure, Traces-raise, Traces-if, Traces-weaken, Traces-bind,
  Traces-returned,
}
use argora.Effect.Traces.Calls.{Traces-Emits}
use argora.Effect.Traces.Replies.{
  Traces-after_reply, Traces-on_reply, Traces-send, Traces-wrap_error,
}
use argora.Effect.Traces.Sequences.{both, in_first, in_second}
use argora.Netbox.Emitted.{
  get_region_for_device-Emits, get_prefixes_containing-Emits, get_interface_for_device-Emits,
  get_ip_address_for_interface-Emits,
}
use argora.Controller.Constants.{device_status_active}
use argora.Controller.IronCore.Secrets.{is_ignored}
use argora.Controller.Metal3.{
  put_bmc_credentials, reconcile_found_secret, reconcile_bmc_secret, create_host, reconcile_device,
}
use argora.Controller.Metal3.Network.{create_network_data_secret}
use argora.Controller.Metal3.Calls.{ask_host, send_host, ProvisionsActive}
use argora.Controller.Metal3.Calls.Sent.{get_mac_for_ip-Emits, reconcile_device-ProvisionsActive}
use argora.Controller.Metal3.Order.{
  PutsSecret, left_alone, puts, FailsToPut, not_put, put, SendsNetwork, sends_network,
  FailsToSendNetwork, network_not_sent, network_sent, ProvidesHost, has_host, provides,
  FailsToProvide, host_not_sent, host_sent, host_created, Finishes, not_active, provisioned,
  Interrupts, interrupted,
}

-- A computed value that the rest of a method knows
lifted :
    {W : World} {A B : Type 0} {Q : B → List Call → Type 0} {F : List Call → Type 0} (t : String)
    (r : Result A) (f : A → Action W B)
    → F []
    → ((a : A) → r ≡ ok a → Traces Q F (f a))
    → Traces Q F (wrap_error t (lift r) >>= f)
lifted t r f none k =
    Traces-after_reply _ f (Emits-wrap_error t _ (Emits-lift r))
      (Returns-wrap_error t _ (Returns-lift r)) none k

module _ {W : World} (cluster : CapiCluster) (device : Device) where
  put_bmc_credentials-PutsSecret :
      (values : _) (o : Secret)
      → Traces {W = W}
          (λ u. PutsSecret W cluster device)
          (FailsToPut W cluster device)
          (put_bmc_credentials values o)
  unfolding put_bmc_credentials
  put_bmc_credentials-PutsSecret values o =
      Traces-bind _ _ (Traces-send _ _) (λ cs. sent)
        (λ d cs only. rw only (Traces-pure _ (puts _ _)))
    where
      sent :
          {key : _} {values : _} {cs : List Call}
          → AtMost (Call.put_secret key values) cs
          → FailsToPut W cluster device cs
      sent unsent = not_put
      sent once = put (puts _ _)

  reconcile_bmc_secret-PutsSecret :
      Traces {W = W}
        (λ u. PutsSecret W cluster device)
        (FailsToPut W cluster device)
        (reconcile_bmc_secret cluster device)
  unfolding reconcile_bmc_secret reconcile_found_secret
  reconcile_bmc_secret-PutsSecret =
      Traces-after_reply _ _ (Emits-gets _) (Returns-any _) not_put (λ c _.
        Traces-if (str_eq c.bmc_user "" || str_eq c.bmc_password "") _ _
          (λ _. Traces-raise _ not_put)
          (λ _.
            Traces-on_reply _ _ _ (Emits-ask _) not_put
              (λ found from.
                Traces-if (is_ignored found.meta) _ _
                  (λ ignored. Traces-pure _ (left_alone found from ignored))
                  (λ _. put_bmc_credentials-PutsSecret _ found))
              (λ e _. put_bmc_credentials-PutsSecret _ _)))

  create_network_data_secret-SendsNetwork :
      (created : BareMetalHost) (role : String)
      → Traces {W = W}
          (λ u. SendsNetwork W cluster device created)
          (FailsToSendNetwork W cluster device created)
          (create_network_data_secret created cluster device role ("networkdata-" <> device.name))
  unfolding create_network_data_secret
  create_network_data_secret-SendsNetwork created role =
      Traces-after_reply _ _ (Emits-wrap_error _ _ (get_interface_for_device-Emits device "LAG1"))
        (Returns-any _) network_not_sent
        (λ iface _.
          Traces-after_reply _ _
            (Emits-wrap_error _ _ (get_ip_address_for_interface-Emits iface.id)) (Returns-any _)
            network_not_sent
            (λ ip _.
              Traces-after_reply _ _
                (Emits-wrap_error _ _ (get_prefixes_containing-Emits ip.address)) (Returns-any _)
                network_not_sent
                (λ prefixes _. lifted _ _ _ network_not_sent (λ netw _.
                  lifted _ _ _ network_not_sent (λ link _.
                    Traces-after_reply _ _ (Emits-lift _) (Returns-any _) network_not_sent
                      (λ gateway _. lifted _ _ _ network_not_sent (λ yaml _.
                        lifted _ _ _ network_not_sent (λ secret owned.
                          let sends = sends_network yaml secret owned in
                          Traces-bind _ _ (Traces-send _ _) (λ cs. sent sends)
                            (λ d cs only. rw only (Traces-pure tt sends))))))))))
    where
      sent :
          {secret : Secret} {cs : List Call}
          → SendsNetwork W cluster device created (Call.create_secret secret ∷ [])
          → AtMost (Call.create_secret secret) cs
          → FailsToSendNetwork W cluster device created cs
      sent sends unsent = network_not_sent
      sent sends once = network_sent sends

  module _ (e : Error) (missing : FailedBy (ask_host W cluster device) e) where
    send_host-ProvidesHost :
        (role : String) (host : BareMetalHost)
        → Traces {W = W}
            (λ u. ProvidesHost W cluster device)
            (FailsToProvide W cluster device)
            (wrap_error "unable to create baremetal host: " (send_host W host) >>= λ created.
              wrap_error "unable to create network data: " (
                create_network_data_secret created cluster device role
                  ("networkdata-" <> device.name)))
    send_host-ProvidesHost role host =
        Traces-bind _ _ (Traces-wrap_error _ _ (Traces-returned _ (Traces-send _ _))) (λ cs. sent)
          (λ created cs (from, only). rw only (
            Traces-weaken _ (λ u ds. provides e host created missing from)
              (λ ds. host_created e host created missing from)
              (Traces-wrap_error _ _ (create_network_data_secret-SendsNetwork created role))))
      where
        sent :
            {cs : List Call}
            → AtMost (Call.create_bare_metal_host host) cs
            → FailsToProvide W cluster device cs
        sent unsent = host_not_sent
        sent once = host_sent e host missing

    create_host-ProvidesHost :
        (secret : Secret)
        → Traces {W = W}
            (λ u. ProvidesHost W cluster device)
            (FailsToProvide W cluster device)
            (create_host cluster device secret)
    unfolding create_host
    create_host-ProvidesHost secret =
        Traces-after_reply _ _
          (Emits-on_result _ _ _ (Emits-lift _) Emits-pure (λ e'. Emits-raise _)) (Returns-any _)
          host_not_sent
          (λ url _.
            Traces-after_reply _ _ (Emits-require _ _) (Returns-any _) host_not_sent (λ name _.
              lifted _ _ _ host_not_sent (λ hint _.
                Traces-after_reply _ _
                  (Emits-on_result _ _ _ (get_mac_for_ip-Emits _) Emits-pure (λ e'. Emits-pure ""))
                  (Returns-any _) host_not_sent
                  (λ mac _.
                    Traces-after_reply _ _
                      (Emits-wrap_error _ _ (get_region_for_device-Emits device)) (Returns-any _)
                      host_not_sent
                      (λ region _.
                        lifted _ _ _ host_not_sent (λ role _. send_host-ProvidesHost role _))))))

  reconcile_active-Finishes :
      str_eq device.status_value device_status_active ≡ Bool.true
      → Traces {W = W}
          (λ u. Finishes W cluster device)
          (Interrupts W cluster device)
          (wrap_error "unable to reconcile bmc secret: " (reconcile_bmc_secret cluster device)
            >>= λ secret.
                Effect.on_result
                  (ask_host W cluster device)
                  (λ host. Effect.pure tt)
                  (λ e. create_host cluster device secret.0))
  reconcile_active-Finishes active =
      Traces-bind _ _ (Traces-wrap_error _ _ reconcile_bmc_secret-PutsSecret)
        (λ cs h. interrupted active (in_first h))
        (λ secret cs puts.
          Traces-weaken _ (λ u ds p. provisioned active (both puts p))
            (λ ds f. interrupted active (in_second puts f))
            (Traces-on_reply _ _ _ (Emits-ask _) host_not_sent
              (λ host from. Traces-pure tt (has_host host from))
              (λ e missing. create_host-ProvidesHost e missing secret.0)))

  pub reconcile_device-Interrupts :
      Traces {W = W}
        (λ u. Finishes W cluster device)
        (Interrupts W cluster device)
        (reconcile_device cluster device)
  unfolding reconcile_device
  reconcile_device-Interrupts =
      Traces-if (str_eq device.status_value device_status_active) _ _ reconcile_active-Finishes
        (λ inactive. Traces-pure tt (not_active inactive))

  -- `reconcileDevice` that returns `nil` has sent nothing for a device that is not active. For one
  -- that is, it has first put the secret of the device, unless it left that alone, and then, if the
  -- cluster has returned no host, created the host and after it the secret with the network data
  -- of the very host that was created. If it fails or panics, the host was created only after the
  -- secret had been put or left alone, and the secret with the network data only after the
  -- host had been. In both cases every call is one that it may send for the device.
  pub reconcile_device-ProvidesHost :
      Traces {W = W}
        (λ u cs. Finishes W cluster device cs × All (ProvisionsActive W cluster device) cs)
        (λ cs. Interrupts W cluster device cs × All (ProvisionsActive W cluster device) cs)
        (reconcile_device cluster device)
  reconcile_device-ProvidesHost =
      Traces-Emits _ (reconcile_device-ProvisionsActive cluster device) reconcile_device-Interrupts
