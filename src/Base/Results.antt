-- ===== src/Base/Results.antt =====
-- `Result<A, E>`, the `?` operator as bind, and refusals.
use mathlib.Core.Path.{◌≡◌, refl}
use mathlib.Core.Bool.{Bool, true, false}
use mathlib.Core.Option.{Option, none, some}

pub data Result {ℓ} (Failure : Type 0) (Value : Type ℓ) : Type ℓ where
  err : Failure → Result Failure Value
  ok : Value → Result Failure Value

-- `if test { return Err(failure) }`
abbrev pub refuse_if : {Failure : Type 0} → Bool → Failure → Result Failure (Unit {0})
refuse_if false failure = ok tt
refuse_if true failure = err failure

-- `Option::ok_or`
abbrev pub ok_or {ℓ} :
    {Failure : Type 0} {Value : Type ℓ} → Option Value → Failure → Result Failure Value
ok_or none failure = err failure
ok_or (some value) failure = ok value

-- `result?` with the code that follows it
infixl 5 ◌>>=◌ ◌>>◌
abbrev pub ◌>>=◌ {ℓ κ} :
    {Failure : Type 0} {Value : Type ℓ} {Next : Type κ}
    → Result Failure Value
    → (Value → Result Failure Next)
    → Result Failure Next
err failure >>= next = err failure
ok value >>= next = next value

abbrev pub ◌>>◌ {ℓ} :
    {Failure : Type 0} {Next : Type ℓ}
    → Result Failure (Unit {0})
    → Result Failure Next
    → Result Failure Next
check >> next = check >>= λ _. next

-- What a chain of `?` that returned a value has gone through.
pub >>=-inv {ℓ κ} :
    {Failure : Type 0} {Value : Type ℓ} {Next : Type κ} {result : Next}
    → (first : Result Failure Value) (next : Value → Result Failure Next)
    → (first >>= next) ≡ ok result
    → (value : Value) × (first ≡ ok value) × (next value ≡ ok result)
>>=-inv (err failure) next returned = cc
>>=-inv (ok value) next returned = (value, refl, returned)

abbrev pub is_ok {ℓ} : {Failure : Type 0} {Value : Type ℓ} → Result Failure Value → Bool
is_ok (err failure) = false
is_ok (ok value) = true
