-- ===== src/Controller/Metal3/Calls/Sent.antt =====
-- The calls that `reconcileDevice` of `Metal3Reconciler` sends are among the ones that it may send.
use argora.Base.{
  String, Bool, ◌<>◌, ◌||◌, ◌≡◌, ◌≢◌, refl, false, inl, inr, ◌⊎◌, str_eq, str_eq_iff, arith, List,
  [], ◌∷◌,
}
use argora.Errors.{Error, ok, Result}
use argora.Models.Netbox.{Device, Interface}
use argora.Models.Kubernetes.{Secret, CapiCluster, BareMetalHost, key_of}
use argora.World.{World}
use argora.Effect.{Call, put_secret, Sys, Action, pure, raise, lift, on_result, wrap_error, ◌>>=◌}
use argora.Effect.Emits.{
  weaken, Emits, Emits-if, Emits-pure, Emits-raise, Emits-bind, Emits-on_result, Emits-send,
  Emits-require, Emits-lift, Emits-ask, Emits-gets, Emits-wrap_error, Emits-first, emits_rules,
}
use argora.Effect.Returns.{
  Returns, ReturnedBy, FailedBy, Returns-self, Returns-pure, Returns-lift, Returns-require,
  Returns-gets, Returns-raise, Returns-on_result, Returns-wrap_error, Emits-bind-Returns,
  Emits-on_result-reply,
}
use argora.Netbox.Emitted.{
  get_region_for_device-Emits, get_interface_by_id-Emits, get_interfaces_by_lag_id-Emits,
  get_prefixes_containing-Emits, get_interface_for_device-Emits, get_ip_address_by_address-Emits,
  get_ip_address_for_interface-Emits,
}
use argora.Controller.Constants.{device_status_active}
use argora.Controller.IronCore.Secrets.{is_ignored}
use argora.Controller.Metal3.{
  secret_values, empty_secret, put_bmc_credentials, reconcile_found_secret, reconcile_bmc_secret,
  create_host, new_host, reconcile_device,
}
use argora.Controller.Metal3.Mac.{first_mac, get_mac_for_ip}
use argora.Controller.Metal3.Network.{create_network_data_secret}
use argora.Controller.Metal3.Calls.{
  ask_host, IsPut, IsHost, send_host, Provisions, puts_secret, creates_host, creates_network_data,
  ProvisionsActive,
}

module _ {W : World} {P : Call → Type 0} where
  first_mac-Emits : (ifaces : List Interface) → Emits {W = W} P (first_mac ifaces)
  unfolding first_mac
  first_mac-Emits [] = Emits-raise _
  first_mac-Emits (i ∷ is) = Emits-bind _ _ (Emits-first _) (λ n. Emits-pure _)

  pub get_mac_for_ip-Emits : (a : String) → Emits {W = W} P (get_mac_for_ip a)
  unfolding get_mac_for_ip
  get_mac_for_ip-Emits a = Emits-bind _ _ (get_ip_address_by_address-Emits a) (λ ip.
      Emits-bind _ _ (get_interface_by_id-Emits ip.assigned_interface.id)
        (λ i. Emits-bind _ _ (get_interfaces_by_lag_id-Emits i.id) first_mac-Emits))

module _ {W : World} where
  -- The MAC address or, if it cannot be had, nothing
  mac_or_empty-Returns :
      (device : Device)
      → Returns {W = W}
          (λ mac. (mac ≡ "") ⊎ ReturnedBy {W = W} (get_mac_for_ip device.primary_ip4.address) mac)
          (on_result (get_mac_for_ip device.primary_ip4.address) pure (λ e. pure ""))
  mac_or_empty-Returns device =
      Returns-on_result _ _ _ (λ m from. Returns-pure m (inr from))
        (λ e _. Returns-pure "" (inl refl))

  lifted-Returns :
      (r : Result String) (e : Error)
      → Returns {W = W} (λ a. r ≡ ok a) (on_result (lift r) pure (λ e'. raise e))
  unfolding lift
  lifted-Returns r e =
      Returns-on_result _ _ _ (λ a from. Returns-pure a from.1) (λ e' _. Returns-raise _)

-- A computed value that the rest of a method knows
lifted :
    {W : World} {P : Call → Type 0} {A B : Type 0} (t : String) (r : Result A) {f : A → Action W B}
    → ((a : A) → r ≡ ok a → Emits P (f a))
    → Emits P (wrap_error t (lift r) >>= f)
lifted t r k =
    Emits-bind-Returns _ _ (Emits-wrap_error t _ (Emits-lift r))
      (Returns-wrap_error t _ (Returns-lift r)) k

-- Where a call that puts the shared credentials, neither of them empty, into the secret is allowed
module _ {W : World} (cluster : CapiCluster) (device : Device) {P : Call → Type 0}
    (puts : (s : Sys W) (o : Secret)
      → IsPut W cluster device o
      → s.credentials.bmc_user ≢ ""
      → s.credentials.bmc_password ≢ ""
      → P (
          put_secret
            (key_of o.meta)
            (secret_values s.credentials.bmc_user s.credentials.bmc_password))) where
  put_bmc_credentials-Emits :
      (s : Sys W) (o : Secret)
      → IsPut W cluster device o
      → (str_eq s.credentials.bmc_user "" || str_eq s.credentials.bmc_password "") ≡ false
      → Emits {W = W} P
          (put_bmc_credentials (secret_values s.credentials.bmc_user s.credentials.bmc_password) o)
  unfolding put_bmc_credentials
  put_bmc_credentials-Emits s o is_put set =
      Emits-bind _ _
        (Emits-send _ _ (
          puts s o is_put (ground (arith, str_eq_iff s.credentials.bmc_user "")) (
            ground (
              arith,
              str_eq_iff s.credentials.bmc_user "",
              str_eq_iff s.credentials.bmc_password "",
            ))))
        (λ stored. Emits-pure _)

  reconcile_found_secret-Emits :
      (s : Sys W)
      → (str_eq s.credentials.bmc_user "" || str_eq s.credentials.bmc_password "") ≡ false
      → Emits {W = W} P (reconcile_found_secret cluster device s.credentials)
  unfolding reconcile_found_secret
  reconcile_found_secret-Emits s set =
      Emits-on_result-reply _ _ _ (Emits-ask _)
        (λ found from.
          Emits-if (is_ignored found.meta) _ _ (λ _. Emits-pure _)
            (λ watched. put_bmc_credentials-Emits s found (inr (from, watched)) set))
        (λ e _. put_bmc_credentials-Emits s (empty_secret cluster device) (inl refl) set)

  pub reconcile_bmc_secret-Emits : Emits {W = W} P (reconcile_bmc_secret cluster device)
  unfolding reconcile_bmc_secret
  reconcile_bmc_secret-Emits = Emits-bind-Returns _ _ (Emits-gets _) (Returns-gets _) (λ c from.
      Emits-if (str_eq c.bmc_user "" || str_eq c.bmc_password "") _ _ (λ _. Emits-raise _)
        (λ set. rw from.1 (reconcile_found_secret-Emits from.0 (rw from.1 at set))))

module _ {W : World} (cluster : CapiCluster) (device : Device) where
  module _ (e : Error) (missing : FailedBy (ask_host W cluster device) e) where
    create_network_data_secret-Provisions :
        (role : String) (host created : BareMetalHost)
        → IsHost W cluster device role host
        → ReturnedBy (send_host W host) created
        → Emits {W = W}
            (Provisions W cluster device)
            (create_network_data_secret created cluster device role ("networkdata-" <> device.name))
    unfolding create_network_data_secret
    create_network_data_secret-Provisions role host created is_host from =
        Emits-bind-Returns _ _ (Emits-wrap_error _ _ (get_interface_for_device-Emits device "LAG1"))
          (Returns-wrap_error _ _ (Returns-self _))
          (λ iface is_iface.
            Emits-bind-Returns _ _
              (Emits-wrap_error _ _ (get_ip_address_for_interface-Emits iface.id))
              (Returns-wrap_error _ _ (Returns-self _))
              (λ ip is_ip.
                Emits-bind-Returns _ _
                  (Emits-wrap_error _ _ (get_prefixes_containing-Emits ip.address))
                  (Returns-wrap_error _ _ (Returns-self _))
                  (λ prefixes is_prefixes. lifted _ _ (λ netw is_network.
                    lifted _ _ (λ link is_link.
                      Emits-bind-Returns _ _ (Emits-lift _) (Returns-lift _) (λ gateway is_gateway.
                        lifted _ _ (λ yaml is_text. lifted _ _ (λ secret is_owned.
                          Emits-bind _ _
                            (Emits-send _ _ (
                              creates_network_data e role yaml host created secret missing is_host
                                from
                                (record {
                                  iface = iface;
                                  ip = ip;
                                  prefixes = prefixes;
                                  netw = netw;
                                  link = link;
                                  gateway = gateway;
                                  is_iface = is_iface;
                                  is_ip = is_ip;
                                  is_prefixes = is_prefixes;
                                  is_network = is_network;
                                  is_link = is_link;
                                  is_gateway = is_gateway;
                                  is_text = is_text;
                                })
                                is_owned))
                            (λ _. Emits-pure tt)))))))))

    send_host-Provisions :
        (role : String) (host : BareMetalHost)
        → IsHost W cluster device role host
        → Emits {W = W} (Provisions W cluster device) (
            wrap_error "unable to create baremetal host: " (send_host W host) >>= λ created.
            wrap_error "unable to create network data: " (
              create_network_data_secret created cluster device role
                ("networkdata-" <> device.name)))
    send_host-Provisions role host is_host =
        Emits-bind-Returns _ _
          (Emits-wrap_error _ _ (Emits-send _ _ (creates_host e role host missing is_host)))
          (Returns-wrap_error _ _ (Returns-self _))
          (λ created from.
            Emits-wrap_error _ _
              (create_network_data_secret-Provisions role host created is_host from))

    create_host-Provisions :
        (secret : Secret × Bool)
        → ReturnedBy {W = W} (reconcile_bmc_secret cluster device) secret
        → Emits {W = W} (Provisions W cluster device) (create_host cluster device secret.0)
    unfolding create_host
    create_host-Provisions secret is_secret =
        Emits-bind-Returns _ _
          (Emits-on_result _ _ _ (Emits-lift _) Emits-pure (λ e'. Emits-raise _))
          (lifted-Returns _ _)
          (λ url is_url.
            Emits-bind-Returns _ _ (Emits-require _ _) (Returns-require _ _) (λ name splits.
              lifted _ _ (λ hint is_hint.
                Emits-bind-Returns _ _
                  (Emits-on_result _ _ _ (get_mac_for_ip-Emits _) Emits-pure (λ e'. Emits-pure ""))
                  (mac_or_empty-Returns device)
                  (λ mac is_mac.
                    Emits-bind-Returns _ _
                      (Emits-wrap_error _ _ (get_region_for_device-Emits device))
                      (Returns-wrap_error _ _ (Returns-self _))
                      (λ region is_region. lifted _ _ (λ role is_role.
                        send_host-Provisions role
                          (new_host cluster device secret.0 url name hint mac region role)
                          (record {
                            secret = secret;
                            redfish_url = url;
                            name = name;
                            root_hint = hint;
                            mac = mac;
                            region = region;
                            is_secret = is_secret;
                            is_url = is_url;
                            splits = splits;
                            is_hint = is_hint;
                            is_mac = is_mac;
                            is_region = is_region;
                            is_role = is_role;
                            is_host = refl;
                          })))))))

  pub reconcile_device-ProvisionsActive :
      Emits {W = W} (ProvisionsActive W cluster device) (reconcile_device cluster device)
  unfolding reconcile_device
  reconcile_device-ProvisionsActive =
      Emits-if (str_eq device.status_value device_status_active) _ _
        (λ active.
          weaken _
            (λ c provisions. record {
              is_active = (str_eq_iff device.status_value device_status_active).0 active;
              provisions = provisions;
            })
            (Emits-bind-Returns _ _
              (Emits-wrap_error _ _ (reconcile_bmc_secret-Emits cluster device puts_secret))
              (Returns-wrap_error _ _ (Returns-self _))
              (λ secret is_secret.
                Emits-on_result-reply _ _ _ (Emits-ask _) (λ host _. Emits-pure tt)
                  (λ e missing. create_host-Provisions e missing secret is_secret))))
        (λ _. Emits-pure tt)

pub create_network_data_secret-Any :
    {W : World} (host : BareMetalHost) (cluster : CapiCluster) (device : Device)
    (role secret_name : String)
    → Emits {W = W}
        (λ _. Unit {0})
        (create_network_data_secret host cluster device role secret_name)
unfolding create_network_data_secret
create_network_data_secret-Any host cluster device role secret_name =
    search
      (
        emits_rules, get_interface_for_device-Emits, get_ip_address_for_interface-Emits,
        get_prefixes_containing-Emits,
      )
      depth 40
