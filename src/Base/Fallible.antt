-- ===== src/Base/Fallible.antt =====
-- Go's pair of a value and an error: one of the two.
use mathlib.Core.Bool.{Bool, true, false}
use mathlib.Core.Option.{Option, none, some}
use mathlib.Core.Path.{◌≡◌, refl, subst}

pub data Result {ε ℓ} (Failure : Type ε) (Value : Type ℓ) : Type (ε ⊔ ℓ) where
  err : Failure → Result Failure Value
  ok : Value → Result Failure Value

infixl 5 ◌>>=◌ ◌>>◌
abbrev pub ◌>>=◌ {ε ℓ κ} :
    {Failure : Type ε} {Value : Type ℓ} {Next : Type κ} (outcome : Result Failure Value)
    (next : Value → Result Failure Next)
    → Result Failure Next
err failure >>= next = err failure
ok value >>= next = next value

abbrev pub ◌>>◌ {ε ℓ} :
    {Failure : Type ε} {Next : Type ℓ} (check : Result Failure (Unit {0}))
    (next : Result Failure Next)
    → Result Failure Next
check >> next = check >>= λ done. next

-- `if !b { return err }`.
abbrev pub ensure {ε} : {Failure : Type ε} → Bool → Failure → Result Failure (Unit {0})
ensure false failure = err failure
ensure true failure = ok tt

-- The value, or the error where there is none.
abbrev pub or_err {ε ℓ} :
    {Failure : Type ε} {Value : Type ℓ} → Option Value → Failure → Result Failure Value
or_err none failure = err failure
or_err (some value) failure = ok value

-- The value, or another where there is none.
abbrev pub or_else {ℓ} : {Value : Type ℓ} → Option Value → Value → Value
or_else none default = default
or_else (some value) default = value

-- A chain that returns a value has passed its first call.
pub bind-ok {ε ℓ κ} :
    {Failure : Type ε} {Value : Type ℓ} {Next : Type κ} {result : Next}
    (outcome : Result Failure Value) (next : Value → Result Failure Next)
    → (outcome >>= next) ≡ ok result
    → (value : Value) × (outcome ≡ ok value) × (next value ≡ ok result)
bind-ok (err failure) next returned = cc
bind-ok (ok value) next returned = (value, refl, returned)

-- What holds of a result, where there is one.
pub data Ensures {ε ℓ κ} {Failure : Type ε} {Value : Type ℓ} (P : Value → Type κ)
    : Result Failure Value → Type (ε ⊔ ℓ ⊔ κ) where
  failed : {failure : Failure} → Ensures P (err failure)
  returned : {value : Value} → P value → Ensures P (ok value)

pub bind-Ensures {ε ℓ κ μ} :
    {Failure : Type ε} {Value : Type ℓ} {Next : Type κ} {P : Next → Type μ}
    (outcome : Result Failure Value) (next : Value → Result Failure Next)
    → ((value : Value) → outcome ≡ ok value → Ensures P (next value))
    → Ensures P (outcome >>= next)
bind-Ensures (err failure) next rest = failed
bind-Ensures (ok value) next rest = rest value refl

pub Ensures-ok {ε ℓ κ} :
    {Failure : Type ε} {Value : Type ℓ} {P : Value → Type κ} {outcome : Result Failure Value}
    {value : Value}
    → Ensures P outcome
    → outcome ≡ ok value
    → P value
Ensures-ok failed e = cc
Ensures-ok {P = P} (returned h) e = subst P (cc) h
