-- ===== src/Netbox/Virtualization.antt =====
-- internal/netbox/virtualization/virtualization.go
use argora.Base.{String, List, [], ◌∷◌, ◌==◌, not}
use argora.Errors.{text}
use argora.Models.Netbox.{Cluster}
use argora.World.{World}
use argora.Effect.{Action, pure, ask, guard, ◌>>=◌, ◌>>◌}
use argora.Netbox.Requests.Others.{
  new_list_cluster_request, with_name, with_region, with_type, build_list_cluster_request,
}
use argora.Netbox.Clients.{virtualization_service}

-- `GetClustersByNameRegionType`
unfoldable pub get_clusters_by_name_region_type :
    {W : World} → String → String → String → Action W (List Cluster)
get_clusters_by_name_region_type {W} name region cluster_type = do
  client ← virtualization_service {W = W}
  let request =
      build_list_cluster_request (
        new_list_cluster_request
          (with_name name ∷ with_region region ∷ with_type cluster_type ∷ []))
  res ← ask {W = W} (W.list_clusters client request)
  guard (not (res.count == 0)) (text "no clusters found")
  pure res.results
