-- ===== src/Controller/System/Destroyed.antt =====
-- What the program may delete in NetBox, whichever reconciler does it.
use argora.Base.{
  ℕ, ◌≡◌, refl, true, ◌⊎◌, inl, inr, [], ◌∷◌, All, All-weaken, contains, ℤ, pos, String, Dict,
}
use argora.Go.Strings.{has_prefix}
use argora.Errors.{ok}
use argora.Api.{ClusterSelector, ClusterImport, Update}
use argora.Models.Netbox
use argora.Models.Netbox.{Device, Interface, Cluster}
use argora.Models.Kubernetes.{ObjectKey, IpAddress, CapiCluster}
use argora.World.{World}
use argora.World.Documented.{RetriesOnConflict}
use argora.Effect.{Call, delete_ip_address, delete_interface, ask}
use argora.Effect.Returns.{ReturnedBy}
use argora.Manager.{FlagVariables}
use argora.Controller.Constants.{device_status_active, device_status_staged}
use argora.Controller.Selected.{IsSelected}
use argora.Controller.IronCore.Calls.{Imports, relabels, owns}
use argora.Controller.IronCore.Calls.Whole.{RunsImport, imports_device}
use argora.Controller.Metal3.Calls.{Provisions, creates_host, creates_network_data}
use argora.Controller.Update.Devices.{
  IsOfDevice, IsOfInterface, Corrects, renames, sets_data, deletes_address, deletes_vmk,
  sets_hostname,
}
use argora.Controller.Update.Whole.{RunsUpdate, corrects_device}
use argora.Controller.IpPool.Whole.{RunsIpPoolImport, creates_pool}
use argora.Controller.IpUpdate.{is_deleted}
use argora.Controller.IpUpdate.Selection.{ids_from_annotations}
use argora.Controller.IpUpdate.Deletion.Safety.{IsFound}
use argora.Controller.IpUpdate.Calls.{
  Assigns, sets_primary, records, shows_conflict, Maintains, deletes, gives_up, claims, assigns,
}
use argora.Controller.IpUpdate.Whole.{maintains_address}
use argora.Controller.System.{System, Reach}
use argora.Controller.System.Permitted.{
  IsPermitted, imports_clusters, provisions_hosts, corrects_devices, creates_pools,
  maintains_addresses, Reach-IsPermitted,
}

-- The cluster has returned a resource that is being deleted and whose annotations name the interface
-- that the address is assigned to, in what NetBox has returned for the resource's address.
pub record IsGivenBack (W : World) (address_id : ℕ) : Type 0 where
  pub request : ObjectKey
  pub ip : IpAddress
  pub is_ip : ReturnedBy (ask {W = W} (W.ip_addresses.get request)) ip
  pub deleted : is_deleted ip ≡ true
  pub address : Netbox.IpAddress
  pub is_found : IsFound W ip address
  pub is_address : address_id ≡ address.id
  pub device_id : ℤ
  pub is_annotated : ids_from_annotations ip ≡ ok (device_id, pos address.assigned_object_id)

-- An interface with the prefix `vmk`, of an active or staged device that a resource of the cluster
-- selects
pub record IsVmk (W : World) (device : Device) (iface : Interface) : Type 0 where
  pub request : ObjectKey
  pub cr : Update
  pub selector : ClusterSelector
  pub cluster : Cluster
  pub is_cr : ReturnedBy (ask {W = W} (W.updates.get request)) cr
  pub is_selected : IsSelected W cr.clusters selector cluster device
  pub in_use :
      contains (device_status_active ∷ device_status_staged ∷ []) device.status_value ≡ true
  pub of_device : IsOfDevice W device iface
  pub has_vmk : has_prefix iface.name "vmk" ≡ true

abbrev pub IsOnVmk : World → ℕ → Type 0
IsOnVmk W address_id =
    (device : Device) × (iface : Interface) × IsVmk W device iface
    × (address : Netbox.IpAddress) × IsOfInterface W device iface address
    × (address_id ≡ address.id)

-- What must be so if the call is a deletion in NetBox
abbrev pub IsFree : World → Call → Type 0
IsFree W (delete_ip_address id) = IsGivenBack W id ⊎ IsOnVmk W id
IsFree W (delete_interface id) =
    (device : Device) × (iface : Interface) × IsVmk W device iface × (id ≡ iface.id)
IsFree W _ = Unit

module _ {W : World} where
  Imports-IsFree :
      (cr : ClusterImport) (selector : ClusterSelector) (device : Device) (labels : Dict String)
      (c : Call)
      → Imports W cr selector device labels c
      → IsFree W c
  Imports-IsFree cr selector device labels c (Imports.puts_secret o r p q) = tt
  Imports-IsFree cr selector device labels c (relabels bmc r) = tt
  Imports-IsFree cr selector device labels c (Imports.creates e oob_ip ip h s p q r t u) = tt
  Imports-IsFree cr selector device labels c (owns e bmc s o p q r) = tt

  Provisions-IsFree :
      (cluster : CapiCluster) (device : Device) (c : Call)
      → Provisions W cluster device c
      → IsFree W c
  Provisions-IsFree cluster device c (Provisions.puts_secret s o p q r) = tt
  Provisions-IsFree cluster device c (creates_host e role host p q) = tt
  Provisions-IsFree cluster device c (creates_network_data e role yaml h d s p q r t u) = tt

  Corrects-IsFree :
      (device : Device)
      → ((iface : Interface)
          → IsOfDevice W device iface
          → has_prefix iface.name "vmk" ≡ true
          → IsVmk W device iface)
      → (c : Call) → Corrects W device c
      → IsFree W c
  Corrects-IsFree device vmk c (renames iface p q) = tt
  Corrects-IsFree device vmk c (sets_data platform oob_ip) = tt
  Corrects-IsFree device vmk c (deletes_address iface address p q r) =
      inr (device, iface, vmk iface p q, address, r, refl)
  Corrects-IsFree device vmk c (deletes_vmk iface p q) = (device, iface, vmk iface p q, refl)
  Corrects-IsFree device vmk c (sets_hostname bmc hostname p) = tt

  RunsUpdate-IsFree : (request : ObjectKey) (c : Call) → RunsUpdate W request c → IsFree W c
  RunsUpdate-IsFree request c (RunsUpdate.writes_status o) = tt
  RunsUpdate-IsFree request c (corrects_device cr is_cr selected) =
      Corrects-IsFree selected.device
        (λ iface of_device has_vmk. record {
          request = request;
          cr = cr;
          selector = selected.selector;
          cluster = selected.cluster;
          is_cr = is_cr;
          is_selected = selected.is_selected;
          in_use = selected.corrects.1;
          of_device = of_device;
          has_vmk = has_vmk;
        })
        c selected.corrects.0

  Assigns-IsFree : (ip : IpAddress) (c : Call) → Assigns W ip c → IsFree W c
  Assigns-IsFree ip c (Assigns.creates target p vrf q r) = tt
  Assigns-IsFree ip c (sets_primary target id q) = tt
  Assigns-IsFree ip c (records target q) = tt
  Assigns-IsFree ip c (shows_conflict e n q) = tt

  Maintains-IsFree :
      (request : ObjectKey) (ip : IpAddress)
      → ReturnedBy (ask {W = W} (W.ip_addresses.get request)) ip
      → (c : Call) → Maintains W ip c
      → IsFree W c
  Maintains-IsFree request ip is_ip c (deletes deleted (a, device_id, is_call, is_found, named)) =
      rw is_call (
        inl (record {
          request = request;
          ip = ip;
          is_ip = is_ip;
          deleted = deleted;
          address = a;
          is_found = is_found;
          is_address = refl;
          device_id = device_id;
          is_annotated = named;
        }))
  Maintains-IsFree request ip is_ip c (gives_up meta p q) = tt
  Maintains-IsFree request ip is_ip c (claims meta p q) = tt
  Maintains-IsFree request ip is_ip c (assigns p q h) = Assigns-IsFree ip c h

  IsPermitted-IsFree : {f : FlagVariables} (c : Call) → IsPermitted W f c → IsFree W c
  IsPermitted-IsFree c (imports_clusters request set_up (RunsImport.writes_status o)) = tt
  IsPermitted-IsFree c (imports_clusters request set_up (imports_device cr is_cr selected)) =
      Imports-IsFree cr _ _ _ c selected.imports.imports
  IsPermitted-IsFree c (provisions_hosts request set_up h) =
      Provisions-IsFree _ _ c h.provisions.provisions
  IsPermitted-IsFree c (corrects_devices request h) = RunsUpdate-IsFree request c h
  IsPermitted-IsFree c (creates_pools request (RunsIpPoolImport.writes_status o)) = tt
  IsPermitted-IsFree c (creates_pools request (creates_pool cr is_cr selected)) =
      rw selected.creates.1 tt
  IsPermitted-IsFree c (maintains_addresses request (maintains_address ip is_ip h)) =
      Maintains-IsFree request ip is_ip c h

module _ {W : World} (R : RetriesOnConflict W) (f : FlagVariables) where
  -- With `RetryOnConflict` as documented: in every state that the program reaches, every address
  -- that it has deleted in NetBox was either one that NetBox had returned for a resource that the
  -- cluster had returned as one to be deleted, at the interface of the resource's annotations, or
  -- one of an interface with the prefix `vmk`, of an active or staged device that an update of the
  -- cluster selects; and every interface that it has deleted there was such an interface.
  pub Reach-IsFree : {s : System W} → Reach W f s → All (IsFree W) s.calls
  Reach-IsFree {s} r = All-weaken s.calls IsPermitted-IsFree (Reach-IsPermitted R f r)
