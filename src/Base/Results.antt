-- ===== src/Base/Results.antt =====
-- A Go result `(v, err)`: the value, or the error.
use mathlib.Core.Path.{◌≡◌, refl}
use mathlib.Core.Logic.{◌⊎◌, inl, inr}
use mathlib.Core.Bool.{Bool, true, false}

pub data Result {κ ℓ} (Err : Type κ) (Val : Type ℓ) : Type (κ ⊔ ℓ) where
  err : Err → Result Err Val
  ok : Val → Result Err Val

-- `if b { return e }`
abbrev pub fail_if {κ} : {Err : Type κ} → Bool → Err → Result Err (Unit {0})
fail_if false failure = ok tt
fail_if true failure = err failure

infixl 5 ◌>>=◌ ◌>>◌
abbrev pub ◌>>=◌ {κ ℓ μ} :
    {Err : Type κ} {Val : Type ℓ} {Next : Type μ}
    → Result Err Val
    → (Val → Result Err Next)
    → Result Err Next
err failure >>= rest = err failure
ok value >>= rest = rest value

abbrev pub ◌>>◌ {κ μ} :
    {Err : Type κ} {Next : Type μ} → Result Err (Unit {0}) → Result Err Next → Result Err Next
check >> rest = check >>= λ _. rest

pub Result-cases {κ ℓ} :
    {Err : Type κ} {Val : Type ℓ} (r : Result Err Val)
    → ((value : Val) × (r ≡ ok value)) ⊎ ((failure : Err) × (r ≡ err failure))
Result-cases (err failure) = inr (failure, refl)
Result-cases (ok value) = inl (value, refl)

pub >>=-eq-ok {κ ℓ μ} :
    {Err : Type κ} {Val : Type ℓ} {Next : Type μ} (first : Result Err Val)
    (rest : Val → Result Err Next) {final : Next}
    → (first >>= rest) ≡ ok final
    → (value : Val) × (first ≡ ok value) × (rest value ≡ ok final)
>>=-eq-ok (err failure) rest done = cc
>>=-eq-ok (ok value) rest done = (value, refl, done)
