-- ===== src/Common/Results.antt =====
-- The outcome of a fallible call: the reason why it failed, or what it gave.
use mathlib.Core.Path.{◌≡◌, refl}
use mathlib.Core.Bool.{Bool, true, false}
use mathlib.Core.Logic.{◌⊎◌, inl, inr}

pub data Result {κ ℓ} (Error : Type κ) (Value : Type ℓ) : Type (κ ⊔ ℓ) where
  err : Error → Result Error Value
  ok : Value → Result Error Value

-- `if (refused) { err = reason; return false; }`
abbrev pub refuse_if {κ} : {Error : Type κ} → Bool → Error → Result Error (Unit {0})
refuse_if false reason = ok tt
refuse_if true reason = err reason

infixl 5 ◌>>=◌ ◌>>◌
abbrev pub ◌>>=◌ {κ ℓ μ} :
    {Error : Type κ} {Value : Type ℓ} {Next : Type μ}
    → Result Error Value
    → (Value → Result Error Next)
    → Result Error Next
err reason >>= next = err reason
ok value >>= next = next value

abbrev pub ◌>>◌ {κ μ} :
    {Error : Type κ} {Next : Type μ}
    → Result Error (Unit {0})
    → Result Error Next
    → Result Error Next
first >> next = first >>= λ u. next

-- What a successful bind was made of.
pub >>=-eq-ok {κ ℓ μ} :
    {Error : Type κ} {Value : Type ℓ} {Next : Type μ} (first : Result Error Value)
    (next : Value → Result Error Next) {result : Next}
    → (first >>= next) ≡ ok result
    → (value : Value) × (first ≡ ok value) × (next value ≡ ok result)
>>=-eq-ok (err reason) next h = cc
>>=-eq-ok (ok value) next h = (value, refl, h)

pub Result-cases {κ ℓ} :
    {Error : Type κ} {Value : Type ℓ} (result : Result Error Value)
    → ((reason : Error) × (result ≡ err reason)) ⊎ ((value : Value) × (result ≡ ok value))
Result-cases (err reason) = inl (reason, refl)
Result-cases (ok value) = inr (value, refl)
