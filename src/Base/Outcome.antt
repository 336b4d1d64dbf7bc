-- ===== src/Base/Outcome.antt =====
-- Go's (value, error) pair, and chains of calls that return at the first error.
use mathlib.Core.Path.{◌≡◌, refl}
use mathlib.Core.Logic.{◌⊎◌, inl, inr}
use mathlib.Core.Bool.{Bool, true, false}

pub data Result {ε ℓ} (Err : Type ε) (Value : Type ℓ) : Type (ε ⊔ ℓ) where
  err : Err → Result Err Value
  ok : Value → Result Err Value

pub Result-cases {ε ℓ} :
    {Err : Type ε} {Value : Type ℓ} (out : Result Err Value)
    → ((value : Value) × (out ≡ ok value)) ⊎ ((e : Err) × (out ≡ err e))
Result-cases (err e) = inr (e, refl)
Result-cases (ok value) = inl (value, refl)

-- `if !test { return e }`
abbrev pub guard {ε} : {Err : Type ε} → Bool → Err → Result Err (Unit {0})
guard false e = err e
guard true e = ok tt

infixl 5 ◌>>=◌ ◌>>◌
abbrev pub ◌>>=◌ {ε ℓ κ} :
    {Err : Type ε} {Value : Type ℓ} {Next : Type κ}
    → Result Err Value
    → (Value → Result Err Next)
    → Result Err Next
err e >>= next = err e
ok value >>= next = next value

abbrev pub ◌>>◌ {ε κ} :
    {Err : Type ε} {Next : Type κ} → Result Err (Unit {0}) → Result Err Next → Result Err Next
first >> then_do = first >>= λ done. then_do

pub >>=-eq-ok {ε ℓ κ} :
    {Err : Type ε} {Value : Type ℓ} {Next : Type κ} (first : Result Err Value)
    (next : Value → Result Err Next) {last : Next}
    → (first >>= next) ≡ ok last
    → (value : Value) × (first ≡ ok value) × (next value ≡ ok last)
>>=-eq-ok (err e) next h = cc
>>=-eq-ok (ok value) next h = (value, refl, h)
