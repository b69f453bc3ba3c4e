-- ===== src/Controller/Metal3/Order.antt =====
-- In which order `reconcileDevice` of internal/controller/metal3_controller.go sends its calls.
pub mod Whole
use argora.Base.{String, ◌<>◌, ◌≡◌, true, false, List, [], ◌∷◌, Dict, str_eq, Bool}
use argora.Errors.{Error, ok}
use argora.Models.Netbox.{Device}
use argora.Models.Kubernetes.{ObjectKey, Secret, CapiCluster, BareMetalHost, key_of}
use argora.World.{World}
use argora.Effect.{Call, put_secret, create_bare_metal_host, create_secret, ask}
use argora.Effect.Returns.{ReturnedBy, FailedBy}
use argora.Effect.Traces.Sequences.{Both, Until}
use argora.Controller.Constants.{device_status_active}
use argora.Controller.IronCore.Secrets.{is_ignored}
use argora.Controller.Metal3.{empty_secret}
use argora.Controller.Metal3.Network.{network_secret}
use argora.Controller.Metal3.Calls.{ask_host, send_host}

module _ (W : World) (cluster : CapiCluster) (device : Device) where
  -- The secret is put, or left alone.
  pub data PutsSecret : List Call → Type 0 where
    left_alone :
        (found : Secret)
        → ReturnedBy (ask {W = W} (W.secrets.get (key_of (empty_secret cluster device).meta))) found
        → is_ignored found.meta ≡ true
        → PutsSecret []
    puts : (key : ObjectKey) (values : Dict String) → PutsSecret (put_secret key values ∷ [])

  pub data FailsToPut : List Call → Type 0 where
    not_put : FailsToPut []
    put : {cs : List Call} → PutsSecret cs → FailsToPut cs

  -- The secret with the network data is that of the host that was created.
  pub data SendsNetwork (created : BareMetalHost) : List Call → Type 0 where
    sends_network :
        (yaml : String) (secret : Secret)
        → W.set_owner_of_secret created
            (network_secret cluster ("networkdata-" <> device.name) yaml)
          ≡ ok secret
        → SendsNetwork created (create_secret secret ∷ [])

  pub data FailsToSendNetwork (created : BareMetalHost) : List Call → Type 0 where
    network_not_sent : FailsToSendNetwork created []
    network_sent : {cs : List Call} → SendsNetwork created cs → FailsToSendNetwork created cs

  -- Where the cluster has no host, it is created, and after it the secret with its network data.
  pub data ProvidesHost : List Call → Type 0 where
    has_host :
        (host : BareMetalHost) → ReturnedBy (ask_host W cluster device) host → ProvidesHost []
    provides :
        {cs : List Call} (e : Error) (host created : BareMetalHost)
        → FailedBy (ask_host W cluster device) e
        → ReturnedBy (send_host W host) created
        → SendsNetwork created cs
        → ProvidesHost (create_bare_metal_host host ∷ cs)

  pub data FailsToProvide : List Call → Type 0 where
    host_not_sent : FailsToProvide []
    host_sent :
        (e : Error) (host : BareMetalHost)
        → FailedBy (ask_host W cluster device) e
        → FailsToProvide (create_bare_metal_host host ∷ [])
    host_created :
        {cs : List Call} (e : Error) (host created : BareMetalHost)
        → FailedBy (ask_host W cluster device) e
        → ReturnedBy (send_host W host) created
        → FailsToSendNetwork created cs
        → FailsToProvide (create_bare_metal_host host ∷ cs)

  abbrev pub IsActive : Bool → Type 0
  IsActive b = str_eq device.status_value device_status_active ≡ b

  -- The calls of a run for the device that returns `nil`
  pub data Finishes : List Call → Type 0 where
    not_active : IsActive false → Finishes []
    provisioned : {cs : List Call} → IsActive true → Both PutsSecret ProvidesHost cs → Finishes cs

  -- The calls of a run that fails or panics
  pub data Interrupts : List Call → Type 0 where
    interrupted :
        {cs : List Call}
        → IsActive true
        → Until PutsSecret FailsToPut FailsToProvide cs
        → Interrupts cs
