-- ===== src/Go/Strings.antt =====
-- Package `strings`, over native texts. `to_lower` changes the ASCII letters only.
pub mod Split
use Prim.Native.Char.{Char, code}
use Prim.Native.String
use text.Mathlib.Text.{starts_with, find?}
use text.Mathlib.TextEquality.{Char-path}
use text.Mathlib.TextLemmas.{nil-append, cons-append}
use argora.Base.{
  ℕ, ◌-◌, String, ◌<>◌, Bool, true, false, ◌&&◌, none, some, List, [], ◌∷◌, ◌++◌, ◌≡◌, refl, ap,
  leb, ◌==◌, if◌then◌else◌,
}

-- The code points of a text: its bytes, where it is ASCII.
abbrev pub codes : String → List ℕ
codes String.[] = []
codes (String.◌∷◌ c s) = code c ∷ codes s

pub codes-append : (s t : String) → codes (s <> t) ≡ codes s ++ codes t
codes-append String.[] t = rw nil-append
codes-append (String.◌∷◌ c s) t = rw cons-append (ap (λ r. code c ∷ r) (codes-append s t))

-- A text is known by its code points.
pub codes-injective : (s t : String) → codes s ≡ codes t → s ≡ t
codes-injective String.[] String.[] h = refl
codes-injective String.[] (String.◌∷◌ d t) h = absurd cc
codes-injective (String.◌∷◌ c s) String.[] h = absurd cc
codes-injective (String.◌∷◌ c s) (String.◌∷◌ d t) h =
    rw (Char-path c d cc) (ap (λ r. String.◌∷◌ d r) (codes-injective s t cc))

-- `strings.HasPrefix`
unfoldable pub has_prefix : String → String → Bool
has_prefix s prefix = starts_with s prefix

-- `strings.TrimPrefix`
unfoldable pub trim_prefix : String → String → String
trim_prefix s prefix =
    if starts_with s prefix then String.slice s (String.len prefix) (String.len s) else s

-- `strings.Contains`
unfoldable pub contains_text : String → String → Bool
contains_text s part = elim (find? s part) [ none ↦ false | some _ ↦ true ]

is_upper : ℕ → Bool
is_upper c = leb b'A' c && leb c b'Z'

lower_char : Char → Char
lower_char c =
    if is_upper (code c) then String.char_at "abcdefghijklmnopqrstuvwxyz" (code c - b'A') else c

-- `strings.ToLower`
unfoldable pub to_lower : String → String
unfolding lower_char is_upper
to_lower String.[] = String.[]
to_lower (String.◌∷◌ c s) = String.◌∷◌ (lower_char c) (to_lower s)

push_char : Char → List String → List String
push_char c [] = []
push_char c (part ∷ parts) = if code c == b'-' then "" ∷ part ∷ parts else String.◌∷◌ c part ∷ parts

-- `strings.Split(s, "-")`
unfoldable pub split_dash : String → List String
unfolding push_char
split_dash String.[] = "" ∷ []
split_dash (String.◌∷◌ c s) = push_char c (split_dash s)

lower_test : to_lower "QA-De-1" ≡ "qa-de-1"
unfolding to_lower
lower_test = refl

trim_test : trim_prefix "qa-de-1a" "qa-de-1" ≡ "a"
unfolding trim_prefix
trim_test = refl

contains_test : contains_text "x-kubernetes-compute-transit" "kubernetes-compute-transit" ≡ true
unfolding contains_text
contains_test = refl

split_test : split_dash "node001-bb086" ≡ "node001" ∷ "bb086" ∷ []
unfolding split_dash
split_test = refl
