-- ===== src/Controller/Metal3/Roles.antt =====
-- `getRoleFromTags` of internal/controller/metal3_controller.go against what its tags say.
use argora.Base.{
  ℕ, suc, ◌+◌, String, ◌≡◌, refl, ap, Option, none, some, List, [], ◌∷◌, arith, ltb, length,
  if◌then◌else◌,
}
use argora.Errors.{text, Result, ok, err}
use argora.Models.Netbox.{Device}
use argora.Controller.Metal3.Hints.{role_of_tag, count_tag, count_tags, get_role_from_tags}

abbrev pub prepend_some : Option String → List String → List String
prepend_some none roles = roles
prepend_some (some role) roles = role ∷ roles

-- The roles that the tags stand for, one for each tag that has one
abbrev pub roles_of : List String → List String
roles_of [] = []
roles_of (tag ∷ tags) = prepend_some (role_of_tag tag) (roles_of tags)

-- The role of a device: its own without such a tag, and with one that of the tag
abbrev pub sole_role : String → List String → Result String
sole_role own [] = ok own
sole_role own (role ∷ []) = ok role
sole_role own (_ ∷ _ ∷ _) = err (text "device has multiple tags")

-- What the loop holds after these roles
abbrev last_role : String → List String → String
last_role role [] = role
last_role role (r ∷ rs) = last_role r rs

shift_one : (n m : ℕ) → n + 1 + m ≡ n + suc m
shift_one n m = omega arith

module _ (tags : List String)
    (tail_lem : (role : String) (n : ℕ)
      → count_tags tags (role, n)
        ≡ (last_role role (roles_of tags), n + length (roles_of tags))) where
  count_tag-prepend_some :
      (new : Option String) (role : String) (n : ℕ)
      → count_tags tags (count_tag new (role, n)) ≡ (
        last_role role (prepend_some new (roles_of tags)),
        n + length (prepend_some new (roles_of tags)),
      )
  count_tag-prepend_some none role n = tail_lem role n
  count_tag-prepend_some (some new) role n =
      rw (tail_lem new (n + 1))
        (ap (λ m. (last_role new (roles_of tags), m)) (shift_one n (length (roles_of tags))))

count_tags-roles_of :
    (tags : List String) (role : String) (n : ℕ)
    → count_tags tags (role, n) ≡ (last_role role (roles_of tags), n + length (roles_of tags))
unfolding count_tags
count_tags-roles_of [] role n = ap (λ m. (role, m)) (omega arith)
count_tags-roles_of (tag ∷ tags) role n =
    count_tag-prepend_some tags (count_tags-roles_of tags) (role_of_tag tag) role n

decide-sole_role :
    (own : String) (roles : List String)
    → (if ltb 1 (0 + length roles)
        then err (text "device has multiple tags")
        else ok (last_role own roles))
      ≡ sole_role own roles
decide-sole_role own [] = refl
decide-sole_role own (r ∷ []) = refl
decide-sole_role own (r ∷ q ∷ roles) = ground arith

-- `getRoleFromTags` is the role of the device itself, if no tag stands for a role, the role of the only
-- tag that does, and an error if several do, also where they stand for the same role.
pub get_role_from_tags-sole_role :
    (device : Device)
    → get_role_from_tags device ≡ sole_role device.device_role.slug (roles_of device.tags)
unfolding get_role_from_tags
get_role_from_tags-sole_role device =
    rw (count_tags-roles_of device.tags device.device_role.slug 0)
      (decide-sole_role device.device_role.slug (roles_of device.tags))
