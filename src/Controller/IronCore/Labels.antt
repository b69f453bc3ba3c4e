-- ===== src/Controller/IronCore/Labels.antt =====
-- What `patchBMCLabels` of internal/controller/ironcore_controller.go leaves of the labels.
use argora.Base.{
  String, ◌≡◌, refl, ◌∙◌, Option, none, some, [], ◌∷◌, Dict, insert, lookup, lookup-insert,
  str_eq_iff, arith,
}
use argora.Models.Kubernetes.{Bmc}
use argora.Controller.IronCore.Bmcs.{copy_into, labels_of, labelled}

-- No key stands twice in the table, as in a Go map.
abbrev pub Unique : Dict String → Type 0
Unique [] = Unit
Unique ((k, _) ∷ m) = (lookup k m ≡ none) × Unique m

abbrev pub or_else : Option String → Option String → Option String
or_else none old = old
or_else (some v) old = some v

or_else-insert :
    (k j v : String) (new : Dict String) (m : Dict String)
    → lookup k new ≡ none
    → or_else (lookup j new) (lookup j (insert k v m))
      ≡ or_else (lookup j ((k, v) ∷ new)) (lookup j m)
or_else-insert k j v new m h = ground (arith, lookup-insert k j v m, str_eq_iff k j)

copy_into-or_else :
    (j : String) (m labels : Dict String)
    → Unique labels
    → lookup j (copy_into m labels) ≡ or_else (lookup j labels) (lookup j m)
copy_into-or_else j m [] u = refl
copy_into-or_else j m ((k, v) ∷ labels) (fresh, u) =
    copy_into-or_else j (insert k v m) labels u ∙ or_else-insert k j v labels m fresh

-- What a BMC is after its labels were patched
pub record IsRelabelled (bmc patched : Bmc) (labels : Dict String) : Type 0 where
  pub reads :
      (j : String)
      → lookup j (labels_of patched.meta.labels)
        ≡ or_else (lookup j labels) (lookup j (labels_of bmc.meta.labels))
  pub same_name : patched.meta.name ≡ bmc.meta.name
  pub same_namespace : patched.meta.namespace ≡ bmc.meta.namespace
  pub same_annotations : patched.meta.annotations ≡ bmc.meta.annotations
  pub same_endpoint : patched.endpoint_ip ≡ bmc.endpoint_ip
  pub same_secret : patched.secret_ref ≡ bmc.secret_ref
  pub same_hostname : patched.hostname ≡ bmc.hostname

-- The BMC that `patchBMCLabels` sends has every label that was given, whatever stood under its key, and
-- its other labels, its names, annotations, address, secret and hostname are as they were.
pub labelled-IsRelabelled :
    (bmc : Bmc) (labels : Dict String)
    → Unique labels
    → IsRelabelled bmc (labelled bmc labels) labels
unfolding labelled
labelled-IsRelabelled bmc labels u = record {
  reads = λ j. copy_into-or_else j (labels_of bmc.meta.labels) labels u;
  same_name = refl;
  same_namespace = refl;
  same_annotations = refl;
  same_endpoint = refl;
  same_secret = refl;
  same_hostname = refl;
}
