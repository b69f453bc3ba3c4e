-- ===== src/Controller/Metal3/Calls/Existing.antt =====
-- What `reconcileDevice` of internal/controller/metal3_controller.go does for a host that is there.
use argora.Base.{◌≡◌, ◌≢◌}
use argora.Errors.{ok}
use argora.Models.Netbox.{Device}
use argora.Models.Kubernetes.{Secret, CapiCluster, BareMetalHost, key_of}
use argora.World.{World}
use argora.Effect.{Call, put_secret, Sys}
use argora.Effect.Emits.{Emits}
use argora.Controller.Metal3.{secret_values}
use argora.Controller.Metal3.Calls.{ask_host, IsPut}

-- The shared credentials, neither of them empty, are put into the secret of the device: a new one, or
-- one that the cluster has returned and that is not to be ignored.
pub data IsPutSecret (W : World) (cluster : CapiCluster) (device : Device) : Call → Type 0 where
  puts :
      (s : Sys W) (o : Secret)
      → IsPut W cluster device o
      → s.credentials.bmc_user ≢ ""
      → s.credentials.bmc_password ≢ ""
      → IsPutSecret W cluster device (
          put_secret
            (key_of o.meta)
            (secret_values s.credentials.bmc_user s.credentials.bmc_password))

-- A host with that name is in the cluster whenever it is asked for.
abbrev pub HasHost : (W : World) → CapiCluster → Device → Type 0
HasHost W cluster device =
    (s : Sys W) → (host : BareMetalHost) × ((ask_host W cluster device s).0 ≡ ok host)
