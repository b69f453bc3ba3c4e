-- ===== src/Go/Strconv/RoundTrip.antt =====
-- What `Itoa` prints, `Atoi` reads.
use argora.Base.{
  ℕ, zero, suc, ◌+◌, ◌*◌, ◌/◌, ◌%◌, ◌≤◌, ◌<◌, String, ◌<>◌, some, [], ◌∷◌, List, ◌≡◌, refl, arith,
  pos,
}
use argora.Go.Strings.{codes, codes-append}
use argora.Go.Strconv.{digit, digits, itoa, scan, max_int, atoi_codes, atoi}

codes-digit : (d : ℕ) → d < 10 → codes (digit d) ≡ (b'0' + d) ∷ []
unfolding digit
codes-digit zero h = refl
codes-digit (suc zero) h = refl
codes-digit (suc (suc zero)) h = refl
codes-digit (suc (suc (suc zero))) h = refl
codes-digit (suc (suc (suc (suc zero)))) h = refl
codes-digit (suc (suc (suc (suc (suc zero))))) h = refl
codes-digit (suc (suc (suc (suc (suc (suc zero)))))) h = refl
codes-digit (suc (suc (suc (suc (suc (suc (suc zero))))))) h = refl
codes-digit (suc (suc (suc (suc (suc (suc (suc (suc zero)))))))) h = refl
codes-digit (suc (suc (suc (suc (suc (suc (suc (suc (suc zero))))))))) h = refl
codes-digit (suc (suc (suc (suc (suc (suc (suc (suc (suc (suc d)))))))))) h = absurd (omega arith)

scan-digit :
    (d m : ℕ) (out : String)
    → d < 10
    → scan (codes (digit d <> out)) m ≡ scan (codes out) (m * 10 + d)
unfolding scan
scan-digit d m out h = rw (codes-append, codes-digit d h) (ground arith)

-- Reading the printed digits from 0 gives the number, whatever follows.
scan-digits :
    (fuel n : ℕ) (out : String) → n < fuel → scan (codes (digits fuel n out)) 0 ≡ scan (codes out) n
unfolding digits
scan-digits zero n out h = absurd (omega arith)
scan-digits (suc fuel) n out h = ground (
  arith,
  scan-digit (n % 10) 0 out,
  scan-digit (n % 10) (n / 10) out,
  scan-digits fuel (n / 10) (digit (n % 10) <> out),
)

-- The first character of the print is a digit.
StartsWithDigit : List ℕ → Type 0
StartsWithDigit [] = ⊥
StartsWithDigit (c ∷ s) = (b'0' ≤ c) × (c ≤ b'9')

digit-StartsWithDigit : (d : ℕ) (out : String) → d < 10 → StartsWithDigit (codes (digit d <> out))
unfolding StartsWithDigit
digit-StartsWithDigit d out h = rw (codes-append, codes-digit d h) (omega arith)

digits-StartsWithDigit :
    (fuel n : ℕ) (out : String)
    → StartsWithDigit (codes out)
    → StartsWithDigit (codes (digits fuel n out))
unfolding digits
digits-StartsWithDigit zero n out h = h
digits-StartsWithDigit (suc fuel) n out h =
    let first : StartsWithDigit (codes (digit (n % 10) <> out)) =
      digit-StartsWithDigit (n % 10) out (omega arith) in
    ground (arith, first, digits-StartsWithDigit fuel (n / 10) (digit (n % 10) <> out) first)

itoa-StartsWithDigit : (n : ℕ) → StartsWithDigit (codes (itoa n))
unfolding itoa digits
itoa-StartsWithDigit n =
    let first : StartsWithDigit (codes (digit (n % 10) <> "")) =
      digit-StartsWithDigit (n % 10) "" (omega arith) in
    ground (arith, first, digits-StartsWithDigit n (n / 10) (digit (n % 10) <> "") first)

atoi_codes-parse :
    (s : List ℕ) (n : ℕ)
    → StartsWithDigit s
    → scan s 0 ≡ some n
    → n ≤ max_int
    → atoi_codes s ≡ some (pos n)
unfolding atoi_codes StartsWithDigit
atoi_codes-parse [] n h e le = absurd h
atoi_codes-parse (c ∷ s) n h e le = ground arith

-- An `int` that is not negative is read back from its decimal print.
pub atoi-itoa : (n : ℕ) → n ≤ max_int → atoi (itoa n) ≡ some (pos n)
unfolding atoi itoa scan
atoi-itoa n h =
    atoi_codes-parse _ n (itoa-StartsWithDigit n) (scan-digits (suc n) n "" (omega arith)) h
