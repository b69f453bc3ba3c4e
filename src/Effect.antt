-- ===== src/Effect.antt =====
-- A call of a method: it acts on the outside world and on two objects that are mutated (the credentials,
-- which all reconcilers share, and the reconciler's NetBox clients), and it returns a value or an error,
-- or panics.
-- The writing calls that were sent are kept, the last one first.
pub mod Emits
pub mod Returns
pub mod Sends
pub mod Traces
use argora.Base.{ℕ, String, Bool, Option, none, some, List, ◌∷◌, if◌then◌else◌, Dict}
use argora.Errors.{Error, wrapped, Result, ok, err, panic}
use argora.Models.Netbox.{WritableDevice, WritableInterface, WriteableIpAddress}
use argora.Models.Kubernetes
use argora.Models.Kubernetes.{
  ObjectKey, Bmc, BmcSecret, Secret, BareMetalHost, GlobalInClusterIpPool,
}
use argora.Api.{Update, ClusterImport, IpPoolImport}
use argora.World.{World}

-- A writing call, with what it sends.
pub data Call : Type 0 where
  update_device : WritableDevice → Call
  update_interface : WritableInterface → ℕ → Call
  delete_interface : ℕ → Call
  create_ip_address : WriteableIpAddress → Call
  update_ip_address : WriteableIpAddress → Call
  delete_ip_address : ℕ → Call
  update_status_of_update : Update → Call
  update_status_of_cluster_import : ClusterImport → Call
  update_status_of_ip_pool_import : IpPoolImport → Call
  patch_ip_address : Kubernetes.IpAddress → Kubernetes.IpAddress → Call
  patch_bmc : Bmc → Bmc → Call
  create_ip_pool : GlobalInClusterIpPool → Call
  -- `CreateOrUpdate` of the object with the key: the labels and the data that are set
  put_bmc_secret : ObjectKey → Dict String → Dict String → Call
  put_secret : ObjectKey → Dict String → Call
  patch_bmc_secret : BmcSecret → BmcSecret → Call
  create_bmc : Bmc → Call
  create_bare_metal_host : BareMetalHost → Call
  create_secret : Secret → Call

-- `Credentials`, without its reader
pub record Credentials : Type 0 where
  pub bmc_user : String
  pub bmc_password : String
  pub netbox_token : String

-- `NetboxService`; a client that was never made is `nil`.
pub record NetboxService (W : World) : Type 0 where
  pub netbox_url : String
  pub virtualization : Option W.Client
  pub dcim : Option W.Client
  pub ipam : Option W.Client
  pub extras : Option W.Client

pub record Sys (W : World) : Type 0 where
  pub world : W.State
  pub credentials : Credentials
  pub netbox : NetboxService W
  pub calls : List Call

abbrev pub Action : World → Type 0 → Type 0
Action W A = Sys W → Result A × Sys W

module _ {W : World} {A : Type 0} where
  unfoldable pub pure : A → Action W A
  pure a s = (ok a, s)

  unfoldable pub raise : Error → Action W A
  raise e s = (err e, s)

  unfoldable pub crash : Action W A
  crash s = (panic, s)

  unfoldable pub gets : (Sys W → A) → Action W A
  gets f s = (ok (f s), s)

  unfoldable pub lift : Result A → Action W A
  lift r s = (r, s)

  -- A reading call.
  unfoldable pub ask : (W.State → Result A × W.State) → Action W A
  ask call s = let (r, w) = call s.world in (r, record s { world = w })

  -- A writing call.
  unfoldable pub send : Call → (W.State → Result A × W.State) → Action W A
  send c call s = let (r, w) = call s.world in (r, record s { world = w; calls = c ∷ s.calls })

module _ {W : World} {A B : Type 0} where
  abbrev pub branch : Result A → (A → Action W B) → (Error → Action W B) → Action W B
  branch (ok a) f h s = f a s
  branch (err e) f h s = h e s
  branch panic f h s = (panic, s)

  -- `a, err := m; if err != nil { h }; f`
  unfoldable pub on_result : Action W A → (A → Action W B) → (Error → Action W B) → Action W B
  on_result m f h s = let (r, s') = m s in branch r f h s'

  infixl 5 ◌>>=◌ ◌>>◌
  -- `a, err := m; if err != nil { return err }; f`
  unfoldable pub ◌>>=◌ : Action W A → (A → Action W B) → Action W B
  unfolding on_result raise
  m >>= f = on_result m f raise

  abbrev pub ◌>>◌ : Action W A → Action W B → Action W B
  m >> k = m >>= λ _. k

-- `if err := m; err != nil { return fmt.Errorf("…%w", err) }`
unfoldable pub wrap_error : {W : World} {A : Type 0} → String → Action W A → Action W A
unfolding on_result pure raise
wrap_error t m = on_result m pure (λ e. raise (wrapped t e))

unfoldable pub require : {W : World} {A : Type 0} → Option A → Error → Action W A
unfolding pure raise
require none e = raise e
require (some a) e = pure a

unfoldable pub guard : {W : World} → Bool → Error → Action W (Unit {0})
unfolding pure raise
guard b e = if b then pure tt else raise e

-- `xs[0]`, which panics on an empty slice
unfoldable pub first : {W : World} {A : Type 0} → List A → Action W A
unfolding pure crash
first List.[] = crash
first (x ∷ xs) = pure x

-- A loop over a slice that ends at the first error.
unfoldable pub for_each :
    {W : World} {A : Type 0} → (A → Action W (Unit {0})) → List A → Action W (Unit {0})
unfolding pure ◌>>=◌
for_each f List.[] = pure tt
for_each f (x ∷ xs) = let rest = for_each f xs in f x >> rest
