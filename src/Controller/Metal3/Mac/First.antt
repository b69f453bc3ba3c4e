-- ===== src/Controller/Metal3/Mac/First.antt =====
-- Which MAC address `getMacForIP` of internal/controller/metal3_controller.go takes.
use mathlib.Core.List.{append-nil, append_assoc}
use argora.Base.{
  String, ◌≡◌, ◌≢◌, refl, sym, ◌∙◌, Bool-cases, true, Option, none, some, inl, inr, ◌⊎◌, List, [],
  ◌∷◌, ◌++◌, All, Among, here, later, Dict, insert, lookup, lookup-insert, str_eq, str_eq_iff,
  arith,
}
use argora.Go.Sort.{text_leb, sort_strings}
use argora.Go.Sort.Least.{HeadIsLeast, IsLeast, sort_strings-HeadIsLeast}
use argora.Errors.{text, Result, ok, err}
use argora.Models.Netbox.{Interface}
use argora.World.{World}
use argora.Effect.{Sys, pure, raise, first, ◌>>=◌, on_result}
use argora.Controller.Metal3.Mac.{collect_macs, mac_at, first_mac}

-- `i` stands in the list, has the name, and no later interface has it.
pub data LastNamed (n : String) (i : Interface) : List Interface → Type 0 where
  last :
      {is : List Interface}
      → i.name ≡ n
      → All (λ j. ◌≢◌ {A = String} j.name n) is
      → LastNamed n i (i ∷ is)
  earlier : {j : Interface} {is : List Interface} → LastNamed n i is → LastNamed n i (j ∷ is)

abbrev names_of : List Interface → List String
names_of [] = []
names_of (i ∷ is) = i.name ∷ names_of is

collect_macs-names :
    (is : List Interface) (macs : Dict String) (names : List String)
    → (collect_macs is (macs, names)).1 ≡ names ++ names_of is
unfolding collect_macs
collect_macs-names [] macs names = sym (append-nil names)
collect_macs-names (i ∷ is) macs names =
    collect_macs-names is (insert i.name i.mac_address macs) (names ++ i.name ∷ [])
    ∙ append_assoc names (i.name ∷ []) (names_of is)

-- What the table says of a name after the loop
abbrev Tells : String → List Interface → Option String → Option String → Type 0
Tells n is old new =
    (All (λ j. ◌≢◌ {A = String} j.name n) is × (new ≡ old))
    ⊎ ((i : Interface) × LastNamed n i is × (new ≡ some i.mac_address))

collect_macs-Tells :
    (n : String) (is : List Interface) (macs : Dict String) (names : List String)
    → Tells n is (lookup n macs) (lookup n (collect_macs is (macs, names)).0)
unfolding collect_macs
collect_macs-Tells n [] macs names = inl (tt, refl)
collect_macs-Tells n (i ∷ is) macs names =
    elim (collect_macs-Tells n is (insert i.name i.mac_address macs) (names ++ i.name ∷ [])) [
      | inr (j, l, h) ↦ inr (j, earlier l, h)
      | inl (others, h) ↦ elim (Bool-cases (str_eq i.name n)) [
        | inl same ↦ inr (
          i,
          last ((str_eq_iff i.name n).0 same) others,
          ground (arith, lookup-insert i.name n i.mac_address macs),
        )
        | inr differs ↦ inl (
          (ground (arith, str_eq_iff i.name n), others),
          ground (arith, lookup-insert i.name n i.mac_address macs),
        )
      ]
    ]

-- The interface has the least name of all, and is the last one with that name.
pub record IsFirst (i : Interface) (is : List Interface) : Type 0 where
  pub last_named : LastNamed i.name i is
  pub least : All (λ j. text_leb i.name j.name ≡ true) is

-- What is returned for the members of a bond
pub data FirstMac {W : World} (s : Sys W) (is : List Interface) (x : Result String × Sys W)
    : Type 0 where
  no_members : is ≡ [] → x ≡ (err (text "no LAG interfaces found"), s) → FirstMac s is x
  member : (i : Interface) → IsFirst i is → x ≡ (ok i.mac_address, s) → FirstMac s is x

LastNamed-name : {n : String} {i : Interface} {is : List Interface} → LastNamed n i is → i.name ≡ n
LastNamed-name (last h others) = h
LastNamed-name (earlier l) = LastNamed-name l

names_of-All :
    (s t : String) (is : List Interface)
    → s ≡ t
    → All (λ u. text_leb t u ≡ true) (names_of is)
    → All (λ j. text_leb s j.name ≡ true) is
names_of-All s t [] same h = tt
names_of-All s t (i ∷ is) same (h, hs) = (rw same h, names_of-All s t is same hs)

others-absurd :
    (n : String) (is : List Interface)
    → All (λ j. ◌≢◌ {A = String} j.name n) is
    → Among n (names_of is)
    → ⊥
others-absurd n [] h m = elim m [ ]
others-absurd n (i ∷ is) (h, hs) here = h refl
others-absurd n (i ∷ is) (h, hs) (later m) = others-absurd n is hs m

module _ {W : World} (s : Sys W) (i : Interface) (is : List Interface) (macs : Dict String)
    (tells : (n : String) → Tells n (i ∷ is) none (lookup n macs)) where
  least-FirstMac :
      (n : String)
      → IsLeast n (names_of (i ∷ is))
      → FirstMac s (i ∷ is) (ok (mac_at (lookup n macs)), s)
  least-FirstMac n h = elim (tells n) [
    | inl (others, _) ↦ absurd (others-absurd n (i ∷ is) others h.among)
    | inr (j, l, found) ↦
        member j
          (record {
            last_named = rw (sym (LastNamed-name l)) at l;
            least = names_of-All j.name n (i ∷ is) (LastNamed-name l) h.least;
          })
          (rw found refl)
  ]

  sorted-FirstMac :
      (sorted : List String)
      → HeadIsLeast (names_of (i ∷ is)) sorted
      → FirstMac s (i ∷ is) ((first sorted >>= λ n. pure (mac_at (lookup n macs))) s)
  unfolding first ◌>>=◌ on_result pure
  sorted-FirstMac [] h = absurd cc
  sorted-FirstMac (n ∷ _) h = least-FirstMac n h

module _ {W : World} where
  -- Without members `getMacForIP` ends in an error, and else in the MAC address of the member whose name
  -- comes first in the order of texts, the last one of them if several members have that name. It does
  -- not panic.
  pub first_mac-FirstMac : (is : List Interface) (s : Sys W) → FirstMac s is (first_mac is s)
  unfolding first_mac raise
  first_mac-FirstMac [] s = no_members refl refl
  first_mac-FirstMac (i ∷ is) s =
      let (macs, names) = collect_macs (i ∷ is) ([], []) in
      sorted-FirstMac s i is macs (λ n. collect_macs-Tells n (i ∷ is) [] []) (sort_strings names)
        (rw (collect_macs-names (i ∷ is) [] []) (sort_strings-HeadIsLeast (names_of (i ∷ is))))
