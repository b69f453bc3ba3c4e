-- ===== src/Netbox/Requests/Others.antt =====
-- internal/netbox/virtualization/virtualization_requests.go and
-- internal/netbox/extras/extras_requests.go
use argora.Base.{String, List, str_eq, if◌then◌else◌}
use argora.Models.Netbox.{NameFilter, ClusterFilter}
use argora.Netbox.Requests.{apply_options}

-- `ListClusterRequest`
pub record ListClusterRequest : Type 0 where
  pub cluster_type : String
  pub region : String
  pub name : String

abbrev no_cluster : ListClusterRequest
no_cluster = record { cluster_type = ""; region = ""; name = "" }

unfoldable pub new_list_cluster_request :
    List (ListClusterRequest → ListClusterRequest) → ListClusterRequest
unfolding apply_options
new_list_cluster_request opts = apply_options no_cluster opts

unfoldable pub with_name : String → ListClusterRequest → ListClusterRequest
with_name name r = record r { name = name }

unfoldable pub with_type : String → ListClusterRequest → ListClusterRequest
with_type cluster_type r = record r { cluster_type = cluster_type }

unfoldable pub with_region : String → ListClusterRequest → ListClusterRequest
with_region region r = record r { region = region }

abbrev empty_cluster_filter : ClusterFilter
empty_cluster_filter = record { cluster_type = ""; region = ""; name = "" }

unfoldable pub build_list_cluster_request : ListClusterRequest → ClusterFilter
build_list_cluster_request r =
    let filter : ClusterFilter = empty_cluster_filter in
    let filter : ClusterFilter =
      if str_eq r.name "" then filter else record filter { name = r.name } in
    let filter : ClusterFilter =
      if str_eq r.region "" then filter else record filter { region = r.region } in
    let filter : ClusterFilter =
      if str_eq r.cluster_type ""
      then filter
      else record filter { cluster_type = r.cluster_type } in
    filter

-- `ListTagsRequest`
pub record ListTagsRequest : Type 0 where
  pub name : String

abbrev no_tags : ListTagsRequest
no_tags = record { name = "" }

unfoldable pub new_list_tags_request : List (ListTagsRequest → ListTagsRequest) → ListTagsRequest
unfolding apply_options
new_list_tags_request opts = apply_options no_tags opts

unfoldable pub tag_with_name : String → ListTagsRequest → ListTagsRequest
tag_with_name name r = record r { name = name }

abbrev empty_tag_filter : NameFilter
empty_tag_filter = record { name = "" }

unfoldable pub build_list_tags_request : ListTagsRequest → NameFilter
build_list_tags_request r =
    let filter : NameFilter = empty_tag_filter in
    let filter : NameFilter =
      if str_eq r.name "" then filter else record filter { name = r.name } in
    filter
