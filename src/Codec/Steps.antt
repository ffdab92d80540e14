-- ===== src/Codec/Steps.antt =====
-- The `?` operator in the long chains of a decoder: a bind that stays folded until a proof opens it,
-- so that a proof can take the steps of a chain apart one at a time.
use supgang.Base.{◌≡◌, refl, Result, ok, err}

infixl 5 ◌>>=◌ ◌>>◌
unfoldable pub ◌>>=◌ {ℓ κ} :
    {Failure : Type 0} {Value : Type ℓ} {Next : Type κ}
    → Result Failure Value
    → (Value → Result Failure Next)
    → Result Failure Next
(first >>= next) = elim first [ err e ↦ err e | ok value ↦ next value ]

abbrev pub ◌>>◌ {ℓ κ} :
    {Failure : Type 0} {Value : Type ℓ} {Next : Type κ}
    → Result Failure Value
    → Result Failure Next
    → Result Failure Next
first >> next = first >>= λ _. next

-- The first step of a chain that returned a value.
pub step-inv {ℓ κ} :
    {Failure : Type 0} {Value : Type ℓ} {Next : Type κ} {first : Result Failure Value}
    {next : Value → Result Failure Next} {v : Next}
    → (first >>= next) ≡ ok v
    → (value : Value) × (first ≡ ok value) × (next value ≡ ok v)
unfolding ◌>>=◌
step-inv {first = err e} h = cc
step-inv {first = ok value} h = (value, refl, h)
