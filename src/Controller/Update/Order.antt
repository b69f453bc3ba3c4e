-- ===== src/Controller/Update/Order.antt =====
-- In which order `reconcileDevice` of internal/controller/update_controller.go sends its calls.
pub mod Parts
pub mod Whole
use argora.Base.{ℕ, String, Bool, true, false, not, ◌==◌, ◌||◌, ◌≡◌, some, List, [], ◌∷◌, contains}
use argora.Go.Strings.{has_prefix}
use argora.Errors.{Error, is_not_found}
use argora.Models.Netbox.{Device, Interface, IpAddress, Platform}
use argora.Models.Kubernetes.{Bmc}
use argora.World.{World}
use argora.Effect.{
  Call, update_device, update_interface, delete_interface, delete_ip_address, patch_bmc, ask,
}
use argora.Effect.Returns.{ReturnedBy, FailedBy}
use argora.Effect.Traces.{AtMost}
use argora.Effect.Traces.Sequences.{Both, Until, Each, UpTo}
use argora.Netbox.Dcim
use argora.Netbox.Ipam
use argora.Controller.Constants.{
  device_status_active, device_status_staged, remoteboard_interface_name,
}
use argora.Controller.Hostname.{get_remoteboard_hostname}
use argora.Controller.Update.{interfaces_to_rename, has_hostname}

-- The deletion of an address, and nothing else
abbrev pub Deletes : IpAddress → List Call → Type 0
Deletes a cs = cs ≡ delete_ip_address a.id ∷ []

module _ (W : World) (device : Device) where
  abbrev pub renaming : Interface → Call
  renaming iface =
      update_interface
        (record {
          name = remoteboard_interface_name;
          device = device.id;
          type_value = iface.type_value;
        })
        iface.id

  -- An interface with one of the names is renamed.
  pub data Renames (iface : Interface) : List Call → Type 0 where
    renamed : contains interfaces_to_rename iface.name ≡ true → Renames iface (renaming iface ∷ [])
    other_name : contains interfaces_to_rename iface.name ≡ false → Renames iface []

  -- What is sent for the interfaces that NetBox returns for the device
  pub record ForInterfaces (P : List Interface → List Call → Type 0) (cs : List Call) : Type 0 where
    pub interfaces : List Interface
    pub is_returned : ReturnedBy {W = W} (Dcim.get_interfaces_for_device device) interfaces
    pub calls : P interfaces cs

  -- Either they were not returned, or the loop over them has failed.
  pub data FailsForInterfaces (P : List Interface → List Call → Type 0) : List Call → Type 0 where
    not_returned : FailsForInterfaces P []
    in_loop : {cs : List Call} → ForInterfaces P cs → FailsForInterfaces P cs

  abbrev pub setting_data : ℕ → ℕ → Call
  setting_data platform oob_ip =
      update_device (record (W.writeable device) { platform = platform; oob_ip = oob_ip })

  -- What the data of the device should be: the platform and the address of the remote board
  pub record IsData (platform oob_ip : ℕ) : Type 0 where
    pub board : Interface
    pub address : IpAddress
    pub garden_linux : Platform
    pub is_board :
        ReturnedBy {W = W} (Dcim.get_interface_for_device device remoteboard_interface_name) board
    pub is_address : ReturnedBy {W = W} (Ipam.get_ip_address_for_interface board.id) address
    pub is_platform : ReturnedBy {W = W} (Dcim.get_platform_by_name "GardenLinux") garden_linux
    pub platform_id : platform ≡ garden_linux.id
    pub address_id : oob_ip ≡ address.id

  pub data SetsData : List Call → Type 0 where
    has_data :
        (platform oob_ip : ℕ)
        → IsData platform oob_ip
        → (not (device.platform.id == platform) || not (device.oob_ip.id == oob_ip)) ≡ false
        → SetsData []
    sets_data :
        (platform oob_ip : ℕ)
        → IsData platform oob_ip
        → (not (device.platform.id == platform) || not (device.oob_ip.id == oob_ip)) ≡ true
        → SetsData (setting_data platform oob_ip ∷ [])

  pub data FailsToSetData : List Call → Type 0 where
    data_not_sent : FailsToSetData []
    data_sent :
        (platform oob_ip : ℕ)
        → IsData platform oob_ip
        → FailsToSetData (setting_data platform oob_ip ∷ [])

  -- A `vmk` interface is deleted after all addresses that NetBox returns for it.
  pub data Removes (iface : Interface) : List Call → Type 0 where
    other_interface : has_prefix iface.name "vmk" ≡ false → Removes iface []
    emptied :
        {cs : List Call} (addresses : List IpAddress)
        → has_prefix iface.name "vmk" ≡ true
        → ReturnedBy {W = W} (Ipam.get_ip_addresses_for_interface iface.id) addresses
        → Both (Each Deletes addresses) (λ ds. ds ≡ delete_interface iface.id ∷ []) cs
        → Removes iface cs

  pub data FailsToRemove (iface : Interface) : List Call → Type 0 where
    addresses_not_returned : FailsToRemove iface []
    at_deletion :
        {cs : List Call} (addresses : List IpAddress)
        → has_prefix iface.name "vmk" ≡ true
        → ReturnedBy {W = W} (Ipam.get_ip_addresses_for_interface iface.id) addresses
        → Until
            (Each Deletes addresses)
            (UpTo Deletes (λ a. AtMost (delete_ip_address a.id)) addresses)
            (AtMost (delete_interface iface.id))
            cs
        → FailsToRemove iface cs

  -- The hostname of the remote board goes to the `BMC` of the device, if there are both.
  pub data SetsHostname : List Call → Type 0 where
    no_hostname :
        (e : Error) → FailedBy {W = W} (get_remoteboard_hostname device) e → SetsHostname []
    no_bmc :
        (e : Error)
        → FailedBy (ask {W = W} (W.bmcs.get (record { namespace = ""; name = device.name }))) e
        → is_not_found e ≡ true
        → SetsHostname []
    bmc_has_hostname :
        (bmc : Bmc) (hostname : String)
        → ReturnedBy {W = W} (get_remoteboard_hostname device) hostname
        → ReturnedBy (ask {W = W} (W.bmcs.get (record { namespace = ""; name = device.name }))) bmc
        → has_hostname bmc.hostname hostname ≡ true
        → SetsHostname []
    sets_hostname :
        (bmc : Bmc) (hostname : String)
        → ReturnedBy {W = W} (get_remoteboard_hostname device) hostname
        → ReturnedBy (ask {W = W} (W.bmcs.get (record { namespace = ""; name = device.name }))) bmc
        → has_hostname bmc.hostname hostname ≡ false
        → SetsHostname (patch_bmc bmc (record bmc { hostname = some hostname }) ∷ [])

  pub data FailsToSetHostname : List Call → Type 0 where
    hostname_not_sent : FailsToSetHostname []
    hostname_sent : {cs : List Call} → SetsHostname cs → FailsToSetHostname cs

  abbrev pub RenamesAll : List Call → Type 0
  RenamesAll = ForInterfaces (Each Renames)

  abbrev pub FailsToRename : List Call → Type 0
  FailsToRename = FailsForInterfaces (UpTo Renames (λ i. AtMost (renaming i)))

  abbrev pub RemovesAll : List Call → Type 0
  RemovesAll = ForInterfaces (Each Removes)

  abbrev pub FailsToRemoveAll : List Call → Type 0
  FailsToRemoveAll = FailsForInterfaces (UpTo Removes FailsToRemove)

  abbrev pub IsInUse : Bool → Type 0
  IsInUse b = contains (device_status_active ∷ device_status_staged ∷ []) device.status_value ≡ b

  -- The calls of a run for the device that returns `nil`
  pub data Finishes : List Call → Type 0 where
    not_in_use : IsInUse false → Finishes []
    corrected :
        {cs : List Call}
        → IsInUse true
        → Both RenamesAll (Both SetsData (Both RemovesAll SetsHostname)) cs
        → Finishes cs

  -- The calls of a run that fails or panics
  pub data Interrupts : List Call → Type 0 where
    interrupted :
        {cs : List Call}
        → IsInUse true
        → Until RenamesAll FailsToRename
            (Until SetsData FailsToSetData (Until RemovesAll FailsToRemoveAll FailsToSetHostname))
            cs
        → Interrupts cs
