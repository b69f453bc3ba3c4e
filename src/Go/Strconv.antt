-- ===== src/Go/Strconv.antt =====
-- Package `strconv`: `Itoa`, `Atoi`, and `%d` of `fmt.Sprintf`. An `int` has 64 bits.
pub mod RoundTrip
use Prim.Native.Char.{code}
use Prim.Native.String
use argora.Base.{
  ℕ, zero, suc, ◌+◌, ◌-◌, ◌*◌, ◌/◌, ◌%◌, ◌^◌, String, ◌<>◌, Bool, ◌&&◌, Option, none, some, List,
  [], ◌∷◌, ◌≡◌, refl, ltb, leb, ◌==◌, if◌then◌else◌, ℤ, pos, negsuc,
}
use argora.Go.Strings.{codes}

-- One decimal digit.
unfoldable pub digit : ℕ → String
digit d = String.◌∷◌ (String.char_at "0123456789" d) ""

-- The fuel bounds the number of digits.
unfoldable pub digits : ℕ → ℕ → String → String
unfolding digit
digits zero n out = out
digits (suc fuel) n out =
    let out' = digit (n % 10) <> out in
    let rest = digits fuel (n / 10) out' in if n / 10 == 0 then out' else rest

unfoldable pub itoa : ℕ → String
unfolding digits
itoa n = digits (suc n) n ""

unfoldable pub itoa_int : ℤ → String
unfolding itoa
itoa_int (pos n) = itoa n
itoa_int (negsuc n) = "-" <> itoa (n + 1)

abbrev pub is_digit : ℕ → Bool
is_digit c = leb b'0' c && leb c b'9'

unfoldable pub scan : List ℕ → ℕ → Option ℕ
scan [] n = some n
scan (c ∷ s) n = let rest = scan s (n * 10 + (c - b'0')) in if is_digit c then rest else none

-- One digit at least.
unfoldable pub parse_digits : List ℕ → Option ℕ
unfolding scan
parse_digits [] = none
parse_digits (c ∷ s) = scan (c ∷ s) 0

abbrev pub max_int : ℕ
max_int = 2 ^ 63 - 1

abbrev non_negative : Option ℕ → Option ℤ
non_negative none = none
non_negative (some n) = if leb n max_int then some (pos n) else none

abbrev negative : Option ℕ → Option ℤ
negative none = none
negative (some zero) = some (pos 0)
negative (some (suc n)) = if leb n max_int then some (negsuc n) else none

unfoldable pub atoi_codes : List ℕ → Option ℤ
unfolding parse_digits
atoi_codes [] = none
atoi_codes (c ∷ s) =
    if c == b'-'
    then negative (parse_digits s)
    else if c == b'+'
    then non_negative (parse_digits s)
    else non_negative (parse_digits (c ∷ s))

-- `none` stands for the error, which no caller looks into.
unfoldable pub atoi : String → Option ℤ
unfolding atoi_codes
atoi s = atoi_codes (codes s)

itoa_test : (itoa 0 ≡ "0") × (itoa 2025 ≡ "2025") × (itoa_int (negsuc 0) ≡ "-1")
unfolding itoa_int
itoa_test = (refl, refl, refl)

atoi_test :
    (atoi "-17" ≡ some (negsuc 16))
    × (atoi "+5" ≡ some (pos 5))
    × (atoi "" ≡ none)
    × (atoi "1a" ≡ none)
    × (atoi "9223372036854775808" ≡ none)
unfolding atoi
atoi_test = (refl, refl, refl, refl, refl)
