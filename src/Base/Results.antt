-- ===== src/Base/Results.antt =====
-- The outcome of a call that may raise: a value, or the exception's name.
use mathlib.Core.Path.{◌≡◌, refl}
use mathlib.Core.Bool.{Bool, true, false}

pub data Result {ℓ κ} (E : Type κ) (A : Type ℓ) : Type (ℓ ⊔ κ) where
  ok : A → Result E A
  err : E → Result E A

infixl 5 ◌>>=◌ ◌>>◌
abbrev pub ◌>>=◌ {ℓ κ μ} :
    {E : Type κ} {A : Type ℓ} {B : Type μ} → Result E A → (A → Result E B) → Result E B
ok value >>= next = next value
err raised >>= next = err raised

abbrev pub ◌>>◌ {ℓ κ} : {E : Type κ} {B : Type ℓ} → Result E (Unit {0}) → Result E B → Result E B
check >> next = check >>= λ done. next

-- `if test: raise e`
abbrev pub raise_if {κ} : {E : Type κ} → Bool → E → Result E (Unit {0})
raise_if true e = err e
raise_if false e = ok tt

-- A chain that ends well: its first step ended well, and so did the rest from what that gave.
pub >>=-eq-ok {ℓ κ μ} :
    {E : Type κ} {A : Type ℓ} {B : Type μ} (step : Result E A) (next : A → Result E B) {end : B}
    → (step >>= next) ≡ ok end
    → (given : A) × (step ≡ ok given) × (next given ≡ ok end)
>>=-eq-ok (err raised) next ended = cc
>>=-eq-ok (ok value) next ended = (value, refl, ended)

pub ok-injective {ℓ κ} :
    {E : Type κ} {A : Type ℓ} {a b : A} → ◌≡◌ {A = Result E A} (ok a) (ok b) → a ≡ b
ok-injective e = cc

-- A check that is passed: its test was false.
pub raise_if-passes {ℓ κ} :
    {E : Type κ} {A : Type ℓ} (test : Bool) (e : E) (next : Result E A) {end : A}
    → (raise_if test e >> next) ≡ ok end
    → (test ≡ false) × (next ≡ ok end)
raise_if-passes true e next ended = cc
raise_if-passes false e next ended = (refl, ended)
