-- ===== src/Common/Result.antt =====
-- A value or the error that was thrown, and the chain of fallible steps.
use mathlib.Core.Path.{◌≡◌, refl}
use mathlib.Core.Bool.{Bool, true, false}

pub data Result {ℓ} (E : Type 0) (A : Type ℓ) : Type ℓ where
  err : E → Result E A
  ok : A → Result E A

infixl 5 ◌>>◌ ◌>>=◌
-- What follows runs only where nothing was thrown.
abbrev pub ◌>>=◌ {ℓ κ} :
    {E : Type 0} {A : Type ℓ} {B : Type κ} (m : Result E A) (next : A → Result E B) → Result E B
err thrown >>= next = err thrown
ok value >>= next = next value

abbrev pub ◌>>◌ {ℓ} :
    {E : Type 0} {B : Type ℓ} (m : Result E (Unit {0})) (k : Result E B) → Result E B
m >> k = m >>= λ nothing. k

-- `if (bad) throw e`
abbrev pub throw_if : {E : Type 0} → Bool → E → Result E (Unit {0})
throw_if true e = err e
throw_if false e = ok tt

pub >>=-eq-ok {ℓ κ} :
    {E : Type 0} {A : Type ℓ} {B : Type κ} (m : Result E A) (f : A → Result E B) {b : B}
    → (m >>= f) ≡ ok b
    → (a : A) × (m ≡ ok a) × (f a ≡ ok b)
>>=-eq-ok (err thrown) f h = cc
>>=-eq-ok (ok value) f h = (value, refl, h)

-- A chain that has a result passed its first test.
pub throw_if-passed {ℓ} :
    {E : Type 0} {B : Type ℓ} (bad : Bool) (e : E) (rest : Result E B) {b : B}
    → (throw_if bad e >> rest) ≡ ok b
    → (bad ≡ false) × (rest ≡ ok b)
throw_if-passed true e rest h = cc
throw_if-passed false e rest h = (refl, h)

pub ok-injective {ℓ} :
    {E : Type 0} {A : Type ℓ} {a b : A} → ◌≡◌ {A = Result E A} (ok a) (ok b) → a ≡ b
ok-injective h = cc
