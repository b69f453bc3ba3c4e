-- ===== src/Controller/IronCore/Order.antt =====
-- In which order `reconcileDevice` of internal/controller/ironcore_controller.go sends its calls.
pub mod Parts
pub mod Whole
use argora.Base.{String, ◌≡◌, true, false, List, [], ◌∷◌, ◌++◌, Dict, str_eq, Bool}
use argora.Errors.{Error, ok}
use argora.Models.Netbox.{Device, Cluster}
use argora.Models.Kubernetes.{ObjectKey, Bmc, BmcSecret, key_of, object_meta}
use argora.World.{World}
use argora.Effect.{Call, put_bmc_secret, patch_bmc, patch_bmc_secret, create_bmc, ask}
use argora.Effect.Returns.{ReturnedBy, FailedBy}
use argora.Controller.Constants.{device_status_active}
use argora.Controller.IronCore.Secrets.{
  BmcCredentials, is_ignored, bmc_secret_values, put_credentials,
}
use argora.Controller.IronCore.Bmcs.{new_bmc, labelled, create_bmc_resource}
use argora.Controller.IronCore.Calls.{ask_bmc, IsLabelling}

module _ (W : World) (device : Device) (labels : Dict String) where
  -- The secret is put, and what was stored is returned, or it is left alone, which the flag says.
  pub data PutsSecret : BmcSecret × Bool → List Call → Type 0 where
    left_alone :
        (found : BmcSecret)
        → ReturnedBy (ask {W = W} (W.bmc_secrets.get (key_of (object_meta "" device.name)))) found
        → is_ignored found.meta ≡ true
        → PutsSecret (found, true) []
    puts :
        (stored o : BmcSecret) (c : BmcCredentials)
        → ReturnedBy {W = W} (put_credentials labels c o) (stored, false)
        → PutsSecret
            (stored, false)
            (put_bmc_secret (key_of o.meta) labels (bmc_secret_values W c) ∷ [])

  pub data FailsToPut : List Call → Type 0 where
    not_put : FailsToPut []
    put :
        (o : BmcSecret) (c : BmcCredentials)
        → FailsToPut (put_bmc_secret (key_of o.meta) labels (bmc_secret_values W c) ∷ [])

  -- A secret that was put becomes owned by the BMC.
  pub data MakesOwned (bmc : Bmc) : BmcSecret × Bool → List Call → Type 0 where
    not_owned : (secret : BmcSecret) → MakesOwned bmc (secret, true) []
    owned :
        (secret after : BmcSecret)
        → W.set_owner_of_bmc_secret bmc secret ≡ ok after
        → MakesOwned bmc (secret, false) (patch_bmc_secret secret after ∷ [])

  pub data FailsToOwn (secret : BmcSecret) : List Call → Type 0 where
    not_sent : FailsToOwn secret []
    patch_sent : (after : BmcSecret) → FailsToOwn secret (patch_bmc_secret secret after ∷ [])

  -- The BMC that `createBmc` asks for
  pub record IsNew (secret : BmcSecret) (oob_ip hostname : String) (new : Bmc) : Type 0 where
    pub ip : String
    pub parses : W.parse_ip oob_ip ≡ ok ip
    pub is_new : new ≡ new_bmc device ip hostname secret labels

  -- A BMC that the cluster has gets the labels; where it has none, one is created, and then the secret
  -- becomes owned by what was created.
  pub data ProvidesBmc (secret : BmcSecret × Bool) : List Call → Type 0 where
    has_bmc :
        (bmc : Bmc)
        → ReturnedBy (ask_bmc W device) bmc
        → ProvidesBmc secret (patch_bmc bmc (labelled bmc labels) ∷ [])
    provides :
        {cs : List Call} (e : Error) (new created : Bmc) (oob_ip hostname : String)
        → FailedBy (ask_bmc W device) e
        → IsNew secret.0 oob_ip hostname new
        → ReturnedBy {W = W} (create_bmc_resource device oob_ip hostname secret.0 labels) created
        → MakesOwned created secret cs
        → ProvidesBmc secret (create_bmc new ∷ cs)

  pub data FailsToProvide (secret : BmcSecret × Bool) : List Call → Type 0 where
    nothing_sent : FailsToProvide secret []
    labels_sent :
        (bmc : Bmc)
        → ReturnedBy (ask_bmc W device) bmc
        → FailsToProvide secret (patch_bmc bmc (labelled bmc labels) ∷ [])
    bmc_sent :
        {cs : List Call} (e : Error) (new : Bmc) (oob_ip hostname : String)
        → FailedBy (ask_bmc W device) e
        → IsNew secret.0 oob_ip hostname new
        → FailsToOwn secret.0 cs
        → FailsToProvide secret (create_bmc new ∷ cs)

module _ (W : World) (cluster : Cluster) (device : Device) where
  abbrev pub IsActive : Bool → Type 0
  IsActive b = str_eq device.status_value device_status_active ≡ b

  -- The calls of a run for the device that returns `nil`
  pub data Finishes : List Call → Type 0 where
    not_active : IsActive false → Finishes []
    imported :
        {cs ds : List Call} (secret : BmcSecret × Bool) (labels : Dict String)
        → IsActive true
        → IsLabelling W cluster device labels
        → PutsSecret W device labels secret cs
        → ProvidesBmc W device labels secret ds
        → Finishes (cs ++ ds)

  -- The calls of a run that fails or panics
  pub data Interrupts : List Call → Type 0 where
    before_secret : IsActive true → Interrupts []
    at_secret :
        {cs : List Call} (labels : Dict String)
        → IsActive true
        → IsLabelling W cluster device labels
        → FailsToPut W device labels cs
        → Interrupts cs
    after_secret :
        {cs ds : List Call} (secret : BmcSecret × Bool) (labels : Dict String)
        → IsActive true
        → IsLabelling W cluster device labels
        → PutsSecret W device labels secret cs
        → FailsToProvide W device labels secret ds
        → Interrupts (cs ++ ds)
