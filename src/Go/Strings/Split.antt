-- ===== src/Go/Strings/Split.antt =====
-- What `strings.Split(s, "-")` gives: the parts have no dash, and with dashes between them they are `s`.
use Prim.Native.Char.{Char, code}
use Prim.Native.String
use text.Mathlib.TextLemmas.{nil-append, cons-append}
use argora.Base.{
  ℕ, String, ◌<>◌, List, [], ◌∷◌, ◌++◌, ◌≡◌, ◌≢◌, refl, ap, ◌∙◌, All, ◌==◌, ==_iff, Bool-cases, inl,
  inr, arith,
}
use argora.Go.Strings.{codes, push_char, split_dash}

-- No dash is among the code points.
abbrev pub LacksDash : String → Type 0
LacksDash s = All (λ c. ◌≢◌ {A = ℕ} c b'-') (codes s)

-- The parts with dashes between them
abbrev pub joined : List String → List ℕ
joined [] = []
joined (p ∷ []) = codes p
joined (p ∷ q ∷ ps) = codes p ++ b'-' ∷ joined (q ∷ ps)

-- Parts of a text with these code points
pub record AreParts (t : List ℕ) (parts : List String) : Type 0 where
  pub lack : All LacksDash parts
  pub join : joined parts ≡ t

joined-longer :
    (c : Char) (p : String) (ps : List String)
    → joined (String.◌∷◌ c p ∷ ps) ≡ code c ∷ joined (p ∷ ps)
joined-longer c p [] = refl
joined-longer c p (q ∷ ps) = refl

-- There is a first part.
record HasParts (t : List ℕ) (parts : List String) : Type 0 where
  head : String
  tail : List String
  is_cons : parts ≡ head ∷ tail
  parts_of : AreParts t (head ∷ tail)

push_char-HasParts :
    (c : Char) (t : List ℕ) (p : String) (ps : List String)
    → AreParts t (p ∷ ps)
    → HasParts (code c ∷ t) (push_char c (p ∷ ps))
unfolding push_char
push_char-HasParts c t p ps h = elim (Bool-cases (code c == b'-')) [
  | inl dash ↦ record {
    head = "";
    tail = p ∷ ps;
    is_cons = rw dash refl;
    parts_of = record {
      lack = (tt, h.lack);
      join = rw ((==_iff (code c) b'-').0 dash, h.join) refl;
    };
  }
  | inr other ↦ record {
    head = String.◌∷◌ c p;
    tail = ps;
    is_cons = rw other refl;
    parts_of = record {
      lack = ((ground (arith, ==_iff (code c) b'-'), h.lack.0), h.lack.1);
      join = joined-longer c p ps ∙ ap (λ u. code c ∷ u) h.join;
    };
  }
]

split_dash-HasParts : (s : String) → HasParts (codes s) (split_dash s)
unfolding split_dash
split_dash-HasParts String.[] = record {
  head = "";
  tail = [];
  is_cons = refl;
  parts_of = record { lack = (tt, tt); join = refl };
}
split_dash-HasParts (String.◌∷◌ c s) =
    let h = split_dash-HasParts s in
    rw h.is_cons (push_char-HasParts c (codes s) h.head h.tail h.parts_of)

pub split_dash-AreParts : (s : String) → AreParts (codes s) (split_dash s)
split_dash-AreParts s = rw (split_dash-HasParts s).is_cons (split_dash-HasParts s).parts_of

split_dash_whole : (s : String) → LacksDash s → split_dash s ≡ s ∷ []
unfolding split_dash push_char
split_dash_whole String.[] h = refl
split_dash_whole (String.◌∷◌ c s) (h, hs) =
    rw (split_dash_whole s hs) (ground (arith, ==_iff (code c) b'-', h))

dash-append : (t : String) → "-" <> t ≡ String.◌∷◌ (String.char_at "-" 0) t
dash-append t =
    cons-append (String.char_at "-" 0) "" t
    ∙ ap (λ u. String.◌∷◌ (String.char_at "-" 0) u) (nil-append t)

dash_split :
    (t : String)
    → split_dash t ≡ t ∷ []
    → split_dash (String.◌∷◌ (String.char_at "-" 0) t) ≡ "" ∷ t ∷ []
unfolding split_dash push_char
dash_split t h = rw h refl

pub split_dash-append :
    (s t : String) → LacksDash s → LacksDash t → split_dash (s <> "-" <> t) ≡ s ∷ t ∷ []
unfolding split_dash push_char
split_dash-append String.[] t h k =
    rw nil-append (ap split_dash (dash-append t) ∙ dash_split t (split_dash_whole t k))
split_dash-append (String.◌∷◌ c s) t (h, hs) k =
    rw (cons-append, split_dash-append s t hs k) (ground (arith, ==_iff (code c) b'-', h))
