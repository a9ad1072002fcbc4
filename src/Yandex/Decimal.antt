-- ===== src/Yandex/Decimal.antt =====
-- strconv.FormatInt(n, 10) and strconv.ParseInt(s, 10, 64), for the core fractions of
-- pkg/yandex/types.go.
use Prim.Native.Char.{Char, code}
use karpenter_provider_yande.Prelude.{
  ℕ, zero, suc, ◌+◌, ◌-◌, ◌*◌, ◌/◌, ◌%◌, ◌^◌, ◌≤◌, ◌<◌, String, ◌≡◌, refl, false, ◌&&◌, Option,
  none, some, arith, leb, eqb, if◌then◌else◌,
}
use karpenter_provider_yande.Prelude.Int.{ℤ, pos, negsuc}
use karpenter_provider_yande.Prelude.{◌∙◌}
use karpenter_provider_yande.Prelude.{Bool-cases}
use karpenter_provider_yande.Prelude.{inl}
use karpenter_provider_yande.Prelude.{inr}

-- the character of a digit
unfoldable pub digit : ℕ → Char
digit zero = "0"
digit (suc zero) = "1"
digit (suc (suc zero)) = "2"
digit (suc (suc (suc zero))) = "3"
digit (suc (suc (suc (suc zero)))) = "4"
digit (suc (suc (suc (suc (suc zero))))) = "5"
digit (suc (suc (suc (suc (suc (suc zero)))))) = "6"
digit (suc (suc (suc (suc (suc (suc (suc zero))))))) = "7"
digit (suc (suc (suc (suc (suc (suc (suc (suc zero)))))))) = "8"
digit (suc (suc (suc (suc (suc (suc (suc (suc (suc n))))))))) = "9"

pub code-digit : (d : ℕ) → d < 10 → code (digit d) ≡ 48 + d
unfolding digit
code-digit zero h = refl
code-digit (suc zero) h = refl
code-digit (suc (suc zero)) h = refl
code-digit (suc (suc (suc zero))) h = refl
code-digit (suc (suc (suc (suc zero)))) h = refl
code-digit (suc (suc (suc (suc (suc zero))))) h = refl
code-digit (suc (suc (suc (suc (suc (suc zero)))))) h = refl
code-digit (suc (suc (suc (suc (suc (suc (suc zero))))))) h = refl
code-digit (suc (suc (suc (suc (suc (suc (suc (suc zero)))))))) h = refl
code-digit (suc (suc (suc (suc (suc (suc (suc (suc (suc zero))))))))) h = refl
code-digit (suc (suc (suc (suc (suc (suc (suc (suc (suc (suc n)))))))))) h = absurd (omega arith)

-- the digits of `n` before `rest`; the fuel bounds their number
digits_before : ℕ → ℕ → String → String
digits_before zero n rest = rest
digits_before (suc fuel) n rest =
    let here = String.◌∷◌ (digit (n % 10)) rest in
    let more = digits_before fuel (n / 10) here in if eqb (n / 10) 0 then here else more

unfoldable pub format_nat : ℕ → String
unfolding digits_before digit
format_nat n = digits_before (suc n) n String.[]

unfoldable pub format_int : ℤ → String
unfolding format_nat
format_int (pos n) = format_nat n
format_int (negsuc n) = String.◌∷◌ "-" (format_nat (suc n))

-- the value of a text of digits, after those read before
parse_digits : ℕ → String → Option ℕ
parse_digits acc String.[] = some acc
parse_digits acc (String.◌∷◌ c s) =
    let rest = parse_digits (acc * 10 + (code c - 48)) s in
    if leb 48 (code c) && leb (code c) 57 then rest else none

parse_nat : String → Option ℕ
unfolding parse_digits
parse_nat String.[] = none
parse_nat (String.◌∷◌ c s) = parse_digits 0 (String.◌∷◌ c s)

abbrev pub int64_limit : ℕ
int64_limit = 2 ^ 63

at_most : ℕ → (ℕ → ℤ) → Option ℕ → Option ℤ
at_most limit f none = none
at_most limit f (some n) = if leb n limit then some (f n) else none

abbrev negate : ℕ → ℤ
negate zero = pos 0
negate (suc n) = negsuc n

-- an optional sign, then digits, and the result in range
unfoldable pub parse_int : String → Option ℤ
unfolding parse_nat at_most
parse_int String.[] = none
parse_int (String.◌∷◌ c s) =
    if eqb (code c) b'-'
    then at_most int64_limit negate (parse_nat s)
    else if eqb (code c) b'+'
    then at_most (int64_limit - 1) pos (parse_nat s)
    else at_most (int64_limit - 1) pos (parse_nat (String.◌∷◌ c s))

parse_digits-digits_before :
    (fuel n : ℕ) (rest : String)
    → n < fuel
    → parse_digits 0 (digits_before fuel n rest) ≡ parse_digits n rest
unfolding parse_digits digits_before
parse_digits-digits_before zero n rest h = absurd (omega arith)
parse_digits-digits_before (suc fuel) n rest h = ground (
  arith,
  code-digit (n % 10) (omega arith),
  parse_digits-digits_before fuel (n / 10) (String.◌∷◌ (digit (n % 10)) rest),
)

-- no character of the text has this code
abbrev pub Free : ℕ → String → Type 0
Free k String.[] = Unit
Free k (String.◌∷◌ c s) = (eqb (code c) k ≡ false) × Free k s

digits_before-Free :
    (fuel n : ℕ) (rest : String) → Free b'_' rest → Free b'_' (digits_before fuel n rest)
unfolding digits_before
digits_before-Free zero n rest h = h
digits_before-Free (suc fuel) n rest h =
    let here : Free b'_' (String.◌∷◌ (digit (n % 10)) rest) =
      (ground (arith, code-digit (n % 10) (omega arith)), h) in
    elim (Bool-cases (eqb (n / 10) 0)) [
      | inl e ↦ rw e here
      | inr e ↦ rw e (digits_before-Free fuel (n / 10) _ here)
    ]

-- the first character of a printed number is a digit
Starts : String → Type 0
Starts String.[] = ⊥
Starts (String.◌∷◌ c s) = (48 ≤ code c) × (code c ≤ 57)

digits_before-Starts : (fuel n : ℕ) (rest : String) → n < fuel → Starts (digits_before fuel n rest)
unfolding digits_before Starts
digits_before-Starts zero n rest h = absurd (omega arith)
digits_before-Starts (suc fuel) n rest h = elim (Bool-cases (eqb (n / 10) 0)) [
  | inl e ↦ rw e (omega (arith, code-digit (n % 10) (omega arith)))
  | inr e ↦ rw e (digits_before-Starts fuel (n / 10) _ (ground arith))
]

parse_nat-Starts : (s : String) → Starts s → parse_nat s ≡ parse_digits 0 s
unfolding parse_nat Starts
parse_nat-Starts String.[] h = absurd h
parse_nat-Starts (String.◌∷◌ c s) h = refl

parse_nat-format_nat : (n : ℕ) → parse_nat (format_nat n) ≡ some n
unfolding format_nat
parse_nat-format_nat n =
    parse_nat-Starts _ (digits_before-Starts (suc n) n String.[] (omega arith))
    ∙ parse_digits-digits_before (suc n) n String.[] (omega arith)
    ∙ unfold parse_digits in refl

parse_int-Starts :
    (s : String) → Starts s → parse_int s ≡ at_most (int64_limit - 1) pos (parse_nat s)
unfolding parse_int Starts
parse_int-Starts String.[] h = absurd h
parse_int-Starts (String.◌∷◌ c s) h = ground arith

-- An int64: from -2^63 to 2^63 - 1.
abbrev pub IsInt64 : ℤ → Type 0
IsInt64 (pos n) = n < int64_limit
IsInt64 (negsuc n) = n < int64_limit

-- Every int64 that is printed in decimal is read back.
pub parse_int-format_int : (z : ℤ) → IsInt64 z → parse_int (format_int z) ≡ some z
unfolding format_int
parse_int-format_int (pos n) h =
    parse_int-Starts (format_nat n)
      (unfold format_nat in digits_before-Starts (suc n) n String.[] (omega arith))
    ∙ rw (parse_nat-format_nat n) (unfold at_most in ground arith)
parse_int-format_int (negsuc n) h =
    unfold parse_int in rw (parse_nat-format_nat (suc n)) (unfold at_most in ground arith)

-- A printed number holds no underscore.
pub format_int-Free : (z : ℤ) → Free b'_' (format_int z)
unfolding format_int format_nat
format_int-Free (pos n) = digits_before-Free (suc n) n String.[] tt
format_int-Free (negsuc n) = (refl, digits_before-Free (suc (suc n)) (suc n) String.[] tt)
