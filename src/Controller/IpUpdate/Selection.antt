-- ===== src/Controller/IpUpdate/Selection.antt =====
-- The pure parts of internal/controller/ipupdate_controller.go: the choice of the interface, the
-- owner of a claim, and the annotations.
pub mod Best
pub mod Annotations
use argora.Base.{
  ℕ, String, ◌<>◌, Bool, Option, none, some, List, [], ◌∷◌, str_eq, ltb, if◌then◌else◌, Dict,
  lookup, insert, erase, ℤ,
}
use argora.Go.Strings.{to_lower}
use argora.Go.Strconv.{itoa, atoi}
use argora.Go.Regexp.{lag_digit}
use argora.Errors.{text, wrapped, NetboxConflictError, Result, ok, err}
use argora.Models.Netbox.{Device, Interface}
use argora.Models.Kubernetes.{OwnerReference, ObjectMeta, IpAddress}
use argora.Controller.Constants.{interface_type_lag}

abbrev pub annotation_device_key : String
annotation_device_key = "netbox.argora.cloud.sap/device-id"

abbrev pub annotation_interface_key : String
annotation_interface_key = "netbox.argora.cloud.sap/interface-id"

abbrev pub annotation_conflicted_key : String
annotation_conflicted_key = "netbox.argora.cloud.sap/conflicted"

-- `netboxTarget`
pub record NetboxTarget : Type 0 where
  pub device : Device
  pub iface : Interface

-- `getOwnerByKind`
unfoldable pub get_owner_by_kind : List OwnerReference → String → String
get_owner_by_kind [] kind = ""
get_owner_by_kind (o ∷ owners) kind =
    let rest = get_owner_by_kind owners kind in if str_eq o.kind kind then o.name else rest

-- `lag > maxLag`; no `maxLag` is the empty text, which is below every digit.
abbrev pub better : ℕ → Interface → Option (ℕ × Interface) → Option (ℕ × Interface)
better lag iface none = some (lag, iface)
better lag iface (some (max_lag, target)) =
    if ltb max_lag lag then some (lag, iface) else some (max_lag, target)

abbrev pub offer : Option ℕ → Interface → Option (ℕ × Interface) → Option (ℕ × Interface)
offer none iface best = best
offer (some lag) iface best = better lag iface best

-- The body of the loop of `findTargetInterface`
unfoldable pub consider : Interface → Option (ℕ × Interface) → Option (ℕ × Interface)
consider iface best =
    if str_eq (to_lower iface.type_value) interface_type_lag
    then offer (lag_digit iface.name) iface best
    else best

-- The loop of `findTargetInterface`: `maxLag` and `target`, once `maxLag` is not empty
unfoldable pub best_lag : List Interface → Option (ℕ × Interface) → Option (ℕ × Interface)
best_lag [] best = best
best_lag (iface ∷ interfaces) best = best_lag interfaces (consider iface best)

-- `findTargetInterface`
unfoldable pub find_target_interface : List Interface → Result Interface
find_target_interface interfaces = elim (best_lag interfaces none) [
  | none ↦ err (text "no LAG interface found for device")
  | some (max_lag, target) ↦ ok target
]

-- A `nil` map reads as an empty one, and `make` replaces it before a write.
abbrev pub made : Option (Dict String) → Dict String
made none = []
made (some m) = m

-- What `setConflictAnnotation` patches
unfoldable pub conflict_annotated : IpAddress → NetboxConflictError → IpAddress
conflict_annotated ip c = record ip {
  meta = record (ip.meta) {
    annotations = some (insert annotation_conflicted_key c.conflict_obj (made ip.meta.annotations));
  };
}

-- What `updateIPAddressMetadata` patches
unfoldable pub metadata_annotated : IpAddress → NetboxTarget → IpAddress
metadata_annotated ip target = record ip {
  meta = record (ip.meta) {
    annotations = some (
        insert annotation_interface_key (itoa target.iface.id) (
          insert annotation_device_key (itoa target.device.id)
            (erase annotation_conflicted_key (made ip.meta.annotations))));
  };
}

-- Both annotations are looked up before either is read as a number.
ids_of : Option String → Option String → Result (ℤ × ℤ)
ids_of none interface_text =
    err (text ("device annotation " <> annotation_device_key <> " not found"))
ids_of (some device_text) none =
    err (text ("interface annotation " <> annotation_interface_key <> " not found"))
ids_of (some device_text) (some interface_text) = elim (atoi device_text) [
  | none ↦ err (wrapped "invalid device id in annotation: " (text "strconv.Atoi"))
  | some device_id ↦ elim (atoi interface_text) [
    | none ↦ err (wrapped "invalid interface id in annotation: " (text "strconv.Atoi"))
    | some interface_id ↦ ok (device_id, interface_id)
  ]
]

-- `deviceIDAndInterfaceIDFromAnnotations`
unfoldable pub ids_from_annotations : IpAddress → Result (ℤ × ℤ)
unfolding ids_of
ids_from_annotations ip =
    ids_of (lookup annotation_device_key (made ip.meta.annotations))
      (lookup annotation_interface_key (made ip.meta.annotations))
