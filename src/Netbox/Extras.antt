-- ===== src/Netbox/Extras.antt =====
-- internal/netbox/extras/extras.go
use argora.Base.{String, ◌<>◌, [], ◌∷◌, ◌==◌}
use argora.Go.Strconv.{itoa}
use argora.Errors.{text}
use argora.Models.Netbox.{Tag}
use argora.World.{World}
use argora.Effect.{Action, ask, guard, wrap_error, first, ◌>>=◌, ◌>>◌}
use argora.Netbox.Requests.Others.{new_list_tags_request, tag_with_name, build_list_tags_request}
use argora.Netbox.Clients.{extras_service}

-- `GetTagByName`
unfoldable pub get_tag_by_name : {W : World} → String → Action W Tag
get_tag_by_name {W} name = do
  client ← extras_service {W = W}
  let request = build_list_tags_request (new_list_tags_request (tag_with_name name ∷ []))
  res ←
      wrap_error ("unable to list tags by name " <> name <> ": ")
        (ask {W = W} (W.list_tags client request))
  guard (res.count == 1)
      (text ("unexpected number of tags found by name " <> name <> ": " <> itoa res.count))
  first res.results
