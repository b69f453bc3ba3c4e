-- ===== src/Controller/IronCore/Bmcs.antt =====
-- The `BMC` resource of a device: `getOobIP`, `createBmc`, `patchOwnerReference` and `patchBMCLabels`
-- of internal/controller/ironcore_controller.go.
use argora.Base.{ℕ, String, Option, none, some, [], ◌∷◌, str_eq, if◌then◌else◌, Dict, insert}
use argora.Go.Net.{parse_cidr, ip_string}
use argora.Errors.{Error, text, wrapped, is_already_exists, Result, ok, err}
use argora.Models.Netbox.{Device}
use argora.Models.Kubernetes.{Bmc, BmcSecret, object_meta}
use argora.World.{World}
use argora.Effect.{
  create_bmc, patch_bmc, patch_bmc_secret, Action, pure, raise, lift, send, on_result, wrap_error,
  ◌>>=◌, ◌>>◌,
}

abbrev pub bmc_protocol_redfish : String
bmc_protocol_redfish = "Redfish"

abbrev pub bmc_port : ℕ
bmc_port = 443

abbrev pub cidr_error : Error
cidr_error = text "net.ParseCIDR"

-- `getOobIP`
unfoldable pub get_oob_ip : World → Device → Result String
get_oob_ip W device = elim (parse_cidr W.parse_ipv6 device.oob_ip.address) [
  | none ↦ err (wrapped "uncable to parse device OOB IP: " cidr_error)
  | some a ↦ ok (ip_string W.print_ipv6 a)
]

-- A hostname that is empty is left out.
abbrev pub hostname_or_none : String → Option String
hostname_or_none hostname = if str_eq hostname "" then none else some hostname

-- The resource that `createBmc` sends
unfoldable pub new_bmc : Device → String → String → BmcSecret → Dict String → Bmc
new_bmc device ip hostname secret labels = record {
  meta = record (object_meta "" device.name) { labels = some labels };
  endpoint_ip = some ip;
  protocol_name = bmc_protocol_redfish;
  protocol_port = bmc_port;
  secret_ref = secret.meta.name;
  hostname = hostname_or_none hostname;
}

-- `createBmc`: a resource that has come into being meanwhile is no error.
unfoldable pub create_bmc_resource :
    {W : World} → Device → String → String → BmcSecret → Dict String → Action W Bmc
create_bmc_resource {W} device oob_ip hostname secret labels = do
  ip ← wrap_error "unable to parse OOB IP: " (lift (W.parse_ip oob_ip))
  let bmc = new_bmc device ip hostname secret labels
  on_result (send {W = W} (create_bmc bmc) (W.bmcs.create bmc)) pure
      (λ e. if is_already_exists e then pure bmc else raise (wrapped "unable to create BMC: " e))

-- `patchOwnerReference`
unfoldable pub patch_owner_reference : {W : World} → Bmc → BmcSecret → Action W (Unit {0})
patch_owner_reference {W} bmc secret = do
  owned ← wrap_error "unable to set owner reference: " (lift (W.set_owner_of_bmc_secret bmc secret))
  wrap_error "unable to patch object: "
      (send {W = W} (patch_bmc_secret secret owned) (W.bmc_secrets.patch secret owned))
  pure tt

-- `maps.Copy`
abbrev pub copy_into : Dict String → Dict String → Dict String
copy_into m [] = m
copy_into m ((k, v) ∷ labels) = copy_into (insert k v m) labels

abbrev pub labels_of : Option (Dict String) → Dict String
labels_of none = []
labels_of (some m) = m

-- What `patchBMCLabels` patches
unfoldable pub labelled : Bmc → Dict String → Bmc
labelled bmc labels = record bmc {
  meta = record (bmc.meta) { labels = some (copy_into (labels_of bmc.meta.labels) labels) };
}

-- `patchBMCLabels`
unfoldable pub patch_bmc_labels : {W : World} → Bmc → Dict String → Action W (Unit {0})
patch_bmc_labels {W} bmc labels =
    send {W = W} (patch_bmc bmc (labelled bmc labels)) (W.bmcs.patch bmc (labelled bmc labels))
    >> pure tt
