-- ===== src/Base/Decimal.antt =====
-- `strconv.Itoa` and `strconv.Atoi`, by what they are documented to do.
use cluster_performance_engi.Base.{
  ℕ, zero, suc, ◌+◌, ◌-◌, ◌*◌, ◌/◌, ◌%◌, ◌≤◌, ◌<◌, ◌≡◌, refl, Bool, false, ◌&&◌, [], ◌∷◌, Option,
  none, some, arith, leb, ◌==◌, if◌then◌else◌, All, is_nil,
}
use cluster_performance_engi.Base.Int.{ℤ, pos, negsuc, max_int}
use cluster_performance_engi.Base.Text.{Bytes}

-- The digits of `n` before `out`; `n + 1` rounds are enough.
pub digits : ℕ → ℕ → Bytes → Bytes
digits zero n out = out
digits (suc fuel) n out =
    let more = digits fuel (n / 10) ((b'0' + n % 10) ∷ out) in
    if n / 10 == 0 then (b'0' + n % 10) ∷ out else more

unfoldable pub format_nat : ℕ → Bytes
unfolding digits
format_nat n = digits (suc n) n []

unfoldable pub itoa : ℤ → Bytes
unfolding format_nat
itoa (pos n) = format_nat n
itoa (negsuc n) = b'-' ∷ format_nat (suc n)

abbrev pub is_digit : ℕ → Bool
is_digit c = leb b'0' c && leb c b'9'

pub scan : Bytes → ℕ → Option ℕ
scan [] n = some n
scan (c ∷ s) n = let rest = scan s (n * 10 + (c - b'0')) in if is_digit c then rest else none

-- At least one digit, and nothing else.
unfoldable pub parse_nat : Bytes → Option ℕ
unfolding scan
parse_nat [] = none
parse_nat (c ∷ s) = scan (c ∷ s) 0

-- The values of an `int` alone.
abbrev pub positive : Option ℕ → Option ℤ
positive none = none
positive (some n) = if leb n max_int then some (pos n) else none

abbrev pub negative : Option ℕ → Option ℤ
negative none = none
negative (some zero) = some (pos 0)
negative (some (suc n)) = if leb n max_int then some (negsuc n) else none

unfoldable pub atoi : Bytes → Option ℤ
unfolding parse_nat
atoi [] = none
atoi (c ∷ s) =
    if c == b'-'
    then negative (parse_nat s)
    else if c == b'+'
    then positive (parse_nat s)
    else positive (parse_nat (c ∷ s))

scan-digits : (fuel n : ℕ) (out : Bytes) → n < fuel → scan (digits fuel n out) 0 ≡ scan out n
unfolding digits scan
scan-digits zero n out h = absurd (omega arith)
scan-digits (suc fuel) n out h = ground (arith, scan-digits fuel (n / 10) ((b'0' + n % 10) ∷ out))

abbrev pub Digits : Bytes → Type 0
Digits = All (λ c. (b'0' ≤ c) × (c ≤ b'9'))

digits-Digits : (fuel n : ℕ) (out : Bytes) → Digits out → Digits (digits fuel n out)
unfolding digits
digits-Digits zero n out h = h
digits-Digits (suc fuel) n out h =
    let more : Digits ((b'0' + n % 10) ∷ out) = (omega arith, h) in
    ground (arith, digits-Digits fuel (n / 10) ((b'0' + n % 10) ∷ out) more)

digits-cons : (fuel n : ℕ) (c : ℕ) (out : Bytes) → is_nil (digits fuel n (c ∷ out)) ≡ false
unfolding digits
digits-cons zero n c out = refl
digits-cons (suc fuel) n c out = ground (arith, digits-cons fuel (n / 10) (b'0' + n % 10) (c ∷ out))

pub format_nat-Digits : (n : ℕ) → Digits (format_nat n)
unfolding format_nat
format_nat-Digits n = digits-Digits (suc n) n [] tt

pub format_nat-nonempty : (n : ℕ) → is_nil (format_nat n) ≡ false
unfolding format_nat digits
format_nat-nonempty n = ground (arith, digits-cons n (n / 10) (b'0' + n % 10) [])

-- Digits alone are read as a number.
atoi-scan :
    (s : Bytes) (n : ℕ)
    → Digits s
    → is_nil s ≡ false
    → scan s 0 ≡ some n
    → n ≤ max_int
    → atoi s ≡ some (pos n)
unfolding atoi
atoi-scan [] n d e h fits = cc
atoi-scan (c ∷ s) n d e h fits = ground arith

pub atoi-format_nat : (n : ℕ) → n ≤ max_int → atoi (format_nat n) ≡ some (pos n)
atoi-format_nat n h =
    atoi-scan (format_nat n) n (format_nat-Digits n) (format_nat-nonempty n)
      (unfold format_nat scan in scan-digits (suc n) n [] (omega arith)) h
