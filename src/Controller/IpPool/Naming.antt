-- ===== src/Controller/IpPool/Naming.antt =====
-- The name of a pool: `generateIPPoolName` of internal/controller/ippoolimport_controller.go.
use argora.Base.{
  ℕ, zero, suc, String, ◌<>◌, Option, none, some, List, str_eq, if◌then◌else◌, ℤ, pos, negsuc,
}
use argora.Go.Strings.{codes, contains_text, trim_prefix, to_lower}
use argora.Go.Strconv.{itoa_int, atoi_codes}
use argora.Go.Regexp.{find_compute}
use argora.Errors.{text, Result, ok, err}
use argora.Models.Netbox.{Prefix}
use argora.Api.{IpPoolSelector}

abbrev pub compute_transit_prefix_role_name : String
compute_transit_prefix_role_name = "kubernetes-compute-transit"

-- `computeNum - 1`
abbrev pub minus_one : ℤ → ℤ
minus_one (pos zero) = negsuc 0
minus_one (pos (suc n)) = pos n
minus_one (negsuc n) = negsuc (suc n)

-- The name that ends `generateIPPoolName`
abbrev pub site_name : IpPoolSelector → Prefix → String
site_name selector prefix = selector.name_prefix <> "-" <> prefix.site.slug

-- The name for a VLAN with a compute number, from the digits of the match
unfoldable pub compute_name : IpPoolSelector → Prefix → Option (List ℕ) → Result String
compute_name selector prefix none = ok (site_name selector prefix)
compute_name selector prefix (some ds) = elim (atoi_codes ds) [
  | none ↦ err (text "value out of range")
  | some n ↦ ok (
      selector.name_prefix
      <> "-"
      <> trim_prefix prefix.site.slug (to_lower selector.region)
      <> itoa_int (minus_one n)
      <> "-"
      <> to_lower selector.region)
]

-- `generateIPPoolName`
unfoldable pub generate_ip_pool_name : IpPoolSelector → Prefix → Result String
unfolding compute_name
generate_ip_pool_name selector prefix =
    if str_eq selector.name_override ""
    then if contains_text prefix.role.slug compute_transit_prefix_role_name
      then compute_name selector prefix (find_compute (codes prefix.vlan.name))
      else ok (site_name selector prefix)
    else ok selector.name_override
