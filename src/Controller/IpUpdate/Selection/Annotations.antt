-- ===== src/Controller/IpUpdate/Selection/Annotations.antt =====
-- What the annotations of an address say after a reconciliation.
use argora.Base.{
  String, ◌≤◌, ◌≡◌, refl, Option, none, some, lookup, lookup-insert, lookup-erase, str_eq,
  str_eq_refl, arith, pos, false, if◌then◌else◌,
}
use argora.Go.Strconv.{max_int, itoa}
use argora.Go.Strconv.RoundTrip.{atoi-itoa}
use argora.Errors.{ok, NetboxConflictError}
use argora.Models.Kubernetes.{IpAddress}
use argora.Controller.IpUpdate.Selection.{
  NetboxTarget, annotation_device_key, annotation_interface_key, annotation_conflicted_key, made,
  conflict_annotated, metadata_annotated, ids_from_annotations,
}

-- An annotation of an address.
abbrev pub annotation : String → IpAddress → Option String
annotation key ip = lookup key (made ip.meta.annotations)

keys_differ :
    (str_eq annotation_interface_key annotation_device_key ≡ false)
    × (str_eq annotation_device_key annotation_interface_key ≡ false)
    × (str_eq annotation_interface_key annotation_conflicted_key ≡ false)
    × (str_eq annotation_device_key annotation_conflicted_key ≡ false)
unfolding str_eq
keys_differ = (refl, refl, refl, refl)

annotated_device :
    (ip : IpAddress) (target : NetboxTarget)
    → annotation annotation_device_key (metadata_annotated ip target) ≡ some (itoa target.device.id)
unfolding metadata_annotated
annotated_device ip target = simp (lookup-insert, lookup-erase, str_eq_refl, keys_differ.0)

annotated_interface :
    (ip : IpAddress) (target : NetboxTarget)
    → annotation annotation_interface_key (metadata_annotated ip target)
      ≡ some (itoa target.iface.id)
unfolding metadata_annotated
annotated_interface ip target = simp (lookup-insert, str_eq_refl)

-- The ids that `updateIPAddressMetadata` writes are those that the deletion reads back, if they fit
-- an `int`.
pub ids_from_annotations-metadata_annotated :
    (ip : IpAddress) (target : NetboxTarget)
    → target.device.id ≤ max_int
    → target.iface.id ≤ max_int
    → ids_from_annotations (metadata_annotated ip target)
      ≡ ok (pos target.device.id, pos target.iface.id)
unfolding ids_from_annotations
ids_from_annotations-metadata_annotated ip target h k = ground (
  arith,
  annotated_device ip target,
  annotated_interface ip target,
  atoi-itoa target.device.id h,
  atoi-itoa target.iface.id k,
)

-- Every annotation after a conflict that was noted and then resolved: the two ids are those of the
-- target, the conflict mark is gone, and any other key is as it was.
pub annotation-metadata_annotated :
    (ip : IpAddress) (target : NetboxTarget) (e : NetboxConflictError) (key : String)
    → annotation key (metadata_annotated (conflict_annotated ip e) target) ≡ (
        if str_eq annotation_interface_key key
        then some (itoa target.iface.id)
        else if str_eq annotation_device_key key
        then some (itoa target.device.id)
        else if str_eq annotation_conflicted_key key
        then none
        else annotation key ip)
unfolding metadata_annotated conflict_annotated
annotation-metadata_annotated ip target e key = simp (lookup-insert, lookup-erase) (ground arith)
