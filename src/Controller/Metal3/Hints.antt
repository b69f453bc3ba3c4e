-- ===== src/Controller/Metal3/Hints.antt =====
-- The tables of internal/controller/metal3_controller.go and what is read off a device: the root hint,
-- the link hint, the role, and the URL of its Redfish service.
use argora.Base.{
  ℕ, ◌+◌, String, ◌<>◌, Option, none, some, List, [], ◌∷◌, str_eq, ltb, if◌then◌else◌, Dict, lookup,
}
use argora.Go.Net.{parse_cidr, ip_string}
use argora.Errors.{text, Result, ok, err}
use argora.Models.Netbox.{Device}
use argora.World.{World}
use argora.Controller.Constants.{root_hint_boss}

-- `rootHintMap`
abbrev pub root_hint_map : Dict String
root_hint_map =
    ("poweredge-r660", root_hint_boss)
    ∷ ("poweredge-r640", root_hint_boss)
    ∷ ("poweredge-r840", root_hint_boss)
    ∷ ("poweredge-r7615", root_hint_boss)
    ∷ ("dell-poweredge-r7715", root_hint_boss)
    ∷ ("thinksystem-sr650", "ThinkSystem M.2 VD")
    ∷ ("thinksystem-sr655-v3", "NVMe 2-Bay")
    ∷ ("thinksystem-sr650-v3", "NVMe 2-Bay")
    ∷ ("proliant-dl320-gen11", "HPE NS204i-u Gen11 Boot Controller")
    ∷ ("hpe-proliant-dl345-gen11v2", "HPE NS204i-u Gen11 Boot Controller")
    ∷ []

-- `linkHintMapCeph`
abbrev pub link_hint_map_ceph : Dict String
link_hint_map_ceph =
    ("ThinkSystem SR650", "en*f*np*")
    ∷ ("ThinkSystem SR650 v3", "en*1f*np*")
    ∷ ("ThinkSystem SR655 v3", "en*f*np*")
    ∷ ("PowerEdge R640", "en*f1np*")
    ∷ ("PowerEdge R660", "en*f1np*")
    ∷ ("PowerEdge R7615", "en*f*np*")
    ∷ ("PowerEdge R7715", "eno*np*")
    ∷ ("Proliant DL320 Gen11", "en*f1np*")
    ∷ ("ProLiant DL345 Gen11v2", "en*f*np*")
    ∷ []

-- `linkHintMapKvm`
abbrev pub link_hint_map_kvm : Dict String
link_hint_map_kvm = ("PowerEdge R640", "en*f0np*") ∷ ("PowerEdge R840", "en*f0np*") ∷ []

abbrev pub hint_or_error : Option String → String → Result String
hint_or_error none message = err (text message)
hint_or_error (some hint) message = ok hint

-- `createRootHint`, of which the result is the model of the disk
unfoldable pub create_root_hint : Device → Result String
create_root_hint device =
    hint_or_error (lookup device.device_type.slug root_hint_map)
      ("unknown device model for root hint: " <> device.device_type.model)

-- `createLinkHint`
unfoldable pub create_link_hint : Device → String → Result String
create_link_hint device role =
    hint_or_error
      (if str_eq role "kvm"
        then lookup device.device_type.model link_hint_map_kvm
        else lookup device.device_type.model link_hint_map_ceph)
      ("unknown device model for link hint: " <> device.device_type.model)

-- The `switch` of `getRoleFromTags`
abbrev pub role_of_tag : String → Option String
role_of_tag tag =
    if str_eq tag "ceph-HDD"
    then some "ceph-osd"
    else if str_eq tag "ceph-NVME"
    then some "ceph-osd"
    else if str_eq tag "ceph-mon"
    then some "ceph-mon"
    else if str_eq tag "KVM"
    then some "kvm"
    else none

-- The loop of `getRoleFromTags`, over `deviceRole` and `tagsCount`
abbrev pub count_tag : Option String → String × ℕ → String × ℕ
count_tag none (role, n) = (role, n)
count_tag (some new) (role, n) = (new, n + 1)

unfoldable pub count_tags : List String → String × ℕ → String × ℕ
count_tags [] state = state
count_tags (tag ∷ tags) state = count_tags tags (count_tag (role_of_tag tag) state)

-- `getRoleFromTags`
unfoldable pub get_role_from_tags : Device → Result String
unfolding count_tags
get_role_from_tags device =
    let (role, n) = count_tags device.tags (device.device_role.slug, 0) in
    if ltb 1 n then err (text "device has multiple tags") else ok role

-- `createRedFishURL`
unfoldable pub create_redfish_url : World → Device → Result String
create_redfish_url W device = elim (parse_cidr W.parse_ipv6 device.oob_ip.address) [
  | none ↦ err (text "net.ParseCIDR")
  | some a ↦
      let ip = ip_string W.print_ipv6 a in
      if str_eq device.device_type.manufacturer.slug "dell"
      then ok ("idrac-redfish://" <> ip <> "/redfish/v1/Systems/System.Embedded.1")
      else ok ("redfish://" <> ip <> "/redfish/v1/Systems/1")
]
