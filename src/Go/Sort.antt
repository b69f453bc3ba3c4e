-- ===== src/Go/Sort.antt =====
-- Package `sort`: `sort.Strings`, by the code points of the texts, which is the order of their bytes.
pub mod Least
use argora.Base.{ℕ, String, Bool, true, false, List, [], ◌∷◌, ltb, ◌==◌, if◌then◌else◌, ◌≡◌, refl}
use argora.Go.Strings.{codes}

-- `a <= b` on texts
abbrev pub lex_leb : List ℕ → List ℕ → Bool
lex_leb [] b = true
lex_leb (x ∷ a) [] = false
lex_leb (x ∷ a) (y ∷ b) =
    let rest = lex_leb a b in if ltb x y then true else if x == y then rest else false

abbrev pub text_leb : String → String → Bool
text_leb s t = lex_leb (codes s) (codes t)

abbrev pub insert_sorted : String → List String → List String
insert_sorted s [] = s ∷ []
insert_sorted s (t ∷ ts) =
    let rest = insert_sorted s ts in if text_leb s t then s ∷ t ∷ ts else t ∷ rest

unfoldable pub sort_strings : List String → List String
sort_strings [] = []
sort_strings (s ∷ ts) = insert_sorted s (sort_strings ts)

sort_test : sort_strings ("eth10" ∷ "eth2" ∷ "eth1" ∷ []) ≡ "eth1" ∷ "eth10" ∷ "eth2" ∷ []
unfolding sort_strings
sort_test = refl
