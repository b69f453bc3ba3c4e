-- ===== src/Netbox/Clients/Renewal.antt =====
-- What `NetboxService.Reload` leaves.
use argora.Base.{String, ◌≡◌, refl, false, some}
use argora.Errors.{Error, Result, ok, err, panic}
use argora.World.{World, Service, virtualization, dcim, ipam, extras}
use argora.Effect.{Sys, Action, raise, gets, lift, on_result, ◌>>=◌}
use argora.Effect.{Call, NetboxService}
use argora.Effect.Emits.{same, Emits, emits_rules}
use argora.Netbox.Clients.{set_netbox, reload}

-- All four clients are new, made with the token.
pub record IsRenewed {W : World} (token : String) (s : Sys W) (s' : Sys W) : Type 0 where
  pub client_virtualization : W.Client
  pub client_dcim : W.Client
  pub client_ipam : W.Client
  pub client_extras : W.Client
  pub made_virtualization :
      W.new_client virtualization s.netbox.netbox_url token false ≡ ok client_virtualization
  pub made_dcim : W.new_client dcim s.netbox.netbox_url token false ≡ ok client_dcim
  pub made_ipam : W.new_client ipam s.netbox.netbox_url token false ≡ ok client_ipam
  pub made_extras : W.new_client extras s.netbox.netbox_url token false ≡ ok client_extras
  pub renewed : s' ≡ record s {
    netbox = record {
      netbox_url = s.netbox.netbox_url;
      virtualization = some client_virtualization;
      dcim = some client_dcim;
      ipam = some client_ipam;
      extras = some client_extras;
    };
  }

module _ {W : World} {A B : Type 0} (s : Sys W) (f : A → Action W B)
    (Q : Result B × Sys W → Type 0) where
  after_lift :
      (r : Result A)
      → ((a : A) → r ≡ ok a → Q (f a s))
      → ((e : Error) → Q (err e, s))
      → Q (panic, s)
      → Q ((lift r >>= f) s)
  unfolding ◌>>=◌ on_result lift raise
  after_lift (ok a) k h p = k a refl
  after_lift (err e) k h p = h e
  after_lift panic k h p = p

module _ {W : World} (token : String) (s : Sys W) where
  abbrev pub Outcome : Result (Unit {0}) × Sys W → Type 0
  Outcome (ok _, s') = IsRenewed token s s'
  Outcome (err e, s') = s' ≡ s
  Outcome (panic, s') = s' ≡ s

  client_result : Service → Result W.Client
  client_result service = W.new_client service s.netbox.netbox_url token false

  -- `Reload` replaces all four clients by clients for the token, or it fails and changes nothing.
  pub reload-Outcome : Outcome (reload token s)
  unfolding reload set_netbox client_result ◌>>=◌ on_result gets lift
  reload-Outcome =
      after_lift s _ Outcome (client_result virtualization)
        (λ v made_v.
          after_lift s _ Outcome (client_result dcim)
            (λ d made_d.
              after_lift s _ Outcome (client_result ipam)
                (λ i made_i.
                  after_lift s _ Outcome (client_result extras)
                    (λ x made_x. record {
                      client_virtualization = v;
                      client_dcim = d;
                      client_ipam = i;
                      client_extras = x;
                      made_virtualization = made_v;
                      made_dcim = made_d;
                      made_ipam = made_i;
                      made_extras = made_x;
                      renewed = refl;
                    })
                    (λ e. refl) refl)
                (λ e. refl) refl)
            (λ e. refl) refl)
        (λ e. refl) refl

module _ {W : World} {P : Call → Type 0} where
  set_netbox-Emits : (n : NetboxService W) → Emits {W = W} P (set_netbox n)
  unfolding set_netbox
  set_netbox-Emits n = record { at = λ s. same }

  pub clients_reload-Emits : (token : String) → Emits {W = W} P (reload token)
  unfolding reload
  clients_reload-Emits token = search (emits_rules, set_netbox-Emits) depth 16
