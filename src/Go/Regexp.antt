-- ===== src/Go/Regexp.antt =====
-- The two regular expressions of the program: `(?i)compute(\d+)` and `^LAG(\d)$`.
use argora.Base.{
  ℕ, ◌+◌, String, ◌&&◌, Option, none, some, List, [], ◌∷◌, ◌==◌, leb, if◌then◌else◌, refl, ◌≡◌,
}
use argora.Go.Strings.{codes}
use argora.Go.Strconv.{is_digit}

-- A letter in lower case, for a match that ignores the case.
fold_case : ℕ → ℕ
fold_case c = if leb b'A' c && leb c b'Z' then c + 32 else c

-- The rest of the text after the word, if the text begins with it.
after_word : List ℕ → List ℕ → Option (List ℕ)
after_word [] s = some s
after_word (w ∷ ws) [] = none
after_word (w ∷ ws) (c ∷ s) = let rest = after_word ws s in if fold_case c == w then rest else none

unfoldable pub leading_digits : List ℕ → List ℕ
leading_digits [] = []
leading_digits (c ∷ s) = let rest = leading_digits s in if is_digit c then c ∷ rest else []

some_digits : List ℕ → Option (List ℕ)
some_digits [] = none
some_digits (d ∷ ds) = some (d ∷ ds)

digits_after : Option (List ℕ) → Option (List ℕ)
digits_after none = none
digits_after (some rest) = some_digits (leading_digits rest)

-- The digits of the leftmost match of `(?i)compute(\d+)`.
unfoldable pub find_compute : List ℕ → Option (List ℕ)
unfolding fold_case after_word leading_digits some_digits digits_after
find_compute [] = none
find_compute (c ∷ s) =
    let rest = find_compute s in
    elim (digits_after (after_word (codes "compute") (c ∷ s))) [ some ds ↦ some ds | none ↦ rest ]

-- The digit of `^LAG(\d)$`, as its character.
lag_of : List ℕ → Option ℕ
lag_of (l ∷ a ∷ g ∷ d ∷ []) =
    if l == b'L' && (a == b'A' && (g == b'G' && is_digit d)) then some d else none
lag_of _ = none

unfoldable pub lag_digit : String → Option ℕ
unfolding lag_of
lag_digit s = lag_of (codes s)

find_compute_test :
    (find_compute (codes "vlan-Compute12-x") ≡ some (codes "12"))
    × (find_compute (codes "compute computer3") ≡ none)
    × (find_compute (codes "xcompute-compute7a") ≡ some (codes "7"))
unfolding find_compute
find_compute_test = (refl, refl, refl)

lag_digit_test :
    (lag_digit "LAG1" ≡ some b'1') × (lag_digit "LAG12" ≡ none) × (lag_digit "lag1" ≡ none)
unfolding lag_digit
lag_digit_test = (refl, refl, refl)
