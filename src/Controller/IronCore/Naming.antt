-- ===== src/Controller/IronCore/Naming.antt =====
-- How a device name is taken apart by internal/controller/ironcore_controller.go.
use mathlib.Core.Option.{some-injective}
use argora.Base.{String, ◌<>◌, ◌++◌, ◌∷◌, [], List, ◌≡◌, ◌↔◌, refl, some, sym, ap, ◌∙◌}
use argora.Go.Strings.{codes, codes-append, codes-injective, split_dash}
use argora.Go.Strings.Split.{LacksDash, AreParts, split_dash-AreParts, split_dash-append}
use argora.Controller.IronCore.{NodeName, two_parts}

-- The name is the node, a dash, and the building block, and there is no other dash.
pub record IsNodeName (name : String) (n : NodeName) : Type 0 where
  pub is_name : name ≡ n.nodename <> "-" <> n.bb
  pub node_lacks : LacksDash n.nodename
  pub bb_lacks : LacksDash n.bb

codes-joined : (a b : String) → codes (a <> "-" <> b) ≡ codes a ++ b'-' ∷ codes b
codes-joined a b = codes-append a ("-" <> b) ∙ ap (λ cs. codes a ++ cs) (codes-append "-" b)

parts-IsNodeName :
    (name : String) (n : NodeName) (parts : List String)
    → AreParts (codes name) parts
    → two_parts parts ≡ some n
    → IsNodeName name n
parts-IsNodeName name n [] h k = absurd cc
parts-IsNodeName name n (a ∷ []) h k = absurd cc
parts-IsNodeName name n (a ∷ b ∷ []) h k = rw (sym (some-injective _ _ k)) (record {
  is_name = codes-injective _ _ (sym (codes-joined a b ∙ h.join));
  node_lacks = h.lack.0;
  bb_lacks = h.lack.1.0;
})
parts-IsNodeName name n (a ∷ b ∷ c ∷ r) h k = absurd cc

-- Two texts without a dash, put together by a dash, are taken apart into the same two.
two_parts-joined :
    (nodename bb : String)
    → LacksDash nodename
    → LacksDash bb
    → two_parts (split_dash (nodename <> "-" <> bb))
      ≡ some (record { nodename = nodename; bb = bb })
two_parts-joined nodename bb h k = rw (split_dash-append nodename bb h k) refl

joined-two_parts :
    (name : String) (n : NodeName) → IsNodeName name n → two_parts (split_dash name) ≡ some n
joined-two_parts name n h = rw h.is_name (two_parts-joined n.nodename n.bb h.node_lacks h.bb_lacks)

-- A device name is taken apart into a node and a building block exactly if it is the two with a dash
-- between them and neither has a dash itself: what is taken apart can be put together again, and what
-- is put together from two parts without a dash is taken apart into them.
pub two_parts-IsNodeName :
    (name : String) (n : NodeName) → (two_parts (split_dash name) ≡ some n) ↔ IsNodeName name n
two_parts-IsNodeName name n =
    (parts-IsNodeName name n (split_dash name) (split_dash-AreParts name), joined-two_parts name n)
