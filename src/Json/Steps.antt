-- ===== src/Json/Steps.antt =====
-- The chain of steps of a reader that gives up with `return null`.
use mathlib.Core.Path.{◌≡◌, refl}
use mathlib.Core.Bool.{Bool, true, false}
use mathlib.Core.List.{List, [], ◌∷◌}
use mathlib.Core.Option.{Option, none, some}

infixl 5 ◌>>◌ ◌>>=◌
abbrev pub ◌>>=◌ {ℓ κ} :
    {A : Type ℓ} {B : Type κ} (given : Option A) (next : A → Option B) → Option B
none >>= next = none
some a >>= next = next a

abbrev pub ◌>>◌ {ℓ} : {B : Type ℓ} (given : Option (Unit {0})) (next : Option B) → Option B
given >> next = given >>= λ nothing. next

-- `if (bad) return null`
abbrev pub refuse_if : Bool → Option (Unit {0})
refuse_if true = none
refuse_if false = some tt

-- `some` of every result, where every item has one
abbrev pub each {ℓ κ} : {A : Type ℓ} {B : Type κ} → (A → Option B) → List A → Option (List B)
each read [] = some []
each read (x ∷ xs) = read x >>= λ y. each read xs >>= λ ys. some (y ∷ ys)

pub >>=-eq-some {ℓ κ} :
    {A : Type ℓ} {B : Type κ} (given : Option A) (f : A → Option B) {b : B}
    → (given >>= f) ≡ some b
    → (a : A) × (given ≡ some a) × (f a ≡ some b)
>>=-eq-some none f h = cc
>>=-eq-some (some a) f h = (a, refl, h)

-- A chain that passed its first test: the test was false, and the rest has the result.
pub refuse_if-passed {ℓ} :
    {B : Type ℓ} (bad : Bool) (rest : Option B) {b : B}
    → (refuse_if bad >> rest) ≡ some b
    → (bad ≡ false) × (rest ≡ some b)
refuse_if-passed true rest h = cc
refuse_if-passed false rest h = (refl, h)
