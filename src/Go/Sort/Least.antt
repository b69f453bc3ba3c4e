-- ===== src/Go/Sort/Least.antt =====
-- The first text after sorting is the least one.
use argora.Base.{
  ℕ, String, true, false, List, [], ◌∷◌, ◌≡◌, refl, arith, All, Bool-cases, inl, inr, Among, here,
  later, All-weaken,
}
use argora.Go.Strings.{codes}
use argora.Go.Sort.{lex_leb, text_leb, insert_sorted, sort_strings}

lex_leb_total : (a b : List ℕ) → lex_leb a b ≡ false → lex_leb b a ≡ true
lex_leb_total [] b h = cc
lex_leb_total (x ∷ a) [] h = refl
lex_leb_total (x ∷ a) (y ∷ b) h = ground (arith, lex_leb_total a b)

lex_leb_trans : (a b c : List ℕ) → lex_leb a b ≡ true → lex_leb b c ≡ true → lex_leb a c ≡ true
lex_leb_trans [] b c h k = refl
lex_leb_trans (x ∷ a) [] c h k = cc
lex_leb_trans (x ∷ a) (y ∷ b) [] h k = cc
lex_leb_trans (x ∷ a) (y ∷ b) (z ∷ c) h k = ground (arith, lex_leb_trans a b c)

lex_leb_refl : (a : List ℕ) → lex_leb a a ≡ true
lex_leb_refl [] = refl
lex_leb_refl (x ∷ a) = ground (arith, lex_leb_refl a)

-- `s` is among the texts, and none of them is before it.
pub record IsLeast (s : String) (ts : List String) : Type 0 where
  pub among : Among s ts
  pub least : All (λ t. text_leb s t ≡ true) ts

-- What is known of the first of the sorted texts.
abbrev pub HeadIsLeast : List String → List String → Type 0
HeadIsLeast ts [] = ts ≡ []
HeadIsLeast ts (s ∷ _) = IsLeast s ts

insert_sorted-HeadIsLeast :
    (s : String) (ts sorted : List String)
    → HeadIsLeast ts sorted
    → HeadIsLeast (s ∷ ts) (insert_sorted s sorted)
insert_sorted-HeadIsLeast s ts [] h =
    rw h (record { among = here; least = (lex_leb_refl (codes s), tt) })
insert_sorted-HeadIsLeast s ts (t ∷ sorted) h = elim (Bool-cases (text_leb s t)) [
  | inl le ↦ rw le (record {
    among = here;
    least = (
      lex_leb_refl (codes s),
      All-weaken ts (λ u k. lex_leb_trans (codes s) (codes t) (codes u) le k) h.least,
    );
  })
  | inr gt ↦
      rw gt
        (record { among = later h.among; least = (lex_leb_total (codes s) (codes t) gt, h.least) })
]

pub sort_strings-HeadIsLeast : (ts : List String) → HeadIsLeast ts (sort_strings ts)
unfolding sort_strings
sort_strings-HeadIsLeast [] = refl
sort_strings-HeadIsLeast (s ∷ ts) =
    insert_sorted-HeadIsLeast s ts (sort_strings ts) (sort_strings-HeadIsLeast ts)
