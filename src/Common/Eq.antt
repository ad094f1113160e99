-- ===== src/Common/Eq.antt =====
-- Equality tests as an interface: numbers, texts, and the numbers of the browser, of which only
-- the test is known.
use Prim.Native.Nat.{ℕ}
use Prim.Native.String.{String}
use Prim.Native.Char.{code}
use mathlib.Core.Path.{◌≡◌, refl, subst}
use mathlib.Core.Logic.{◌↔◌}
use mathlib.Core.Bool.{Bool, true, false, ◌&&◌, and-eq-true_iff}
use mathlib.Core.List.{List, [], ◌∷◌}
use text.Mathlib.Text.{◌==◌ as str_eq}
use text.Mathlib.TextEquality.{eq_iff}
use my_paraview_web.Common.Tests.{==_iff, ◌==◌ as nat_eq}

pub record Eq {ℓ} (A : Type ℓ) : Type ℓ where
  pub beq : A → A → Bool
  pub beq_iff : (a b : A) → (beq a b ≡ true) ↔ (a ≡ b)

infix 50 ◌===◌
abbrev pub ◌===◌ {ℓ} : {A : Type ℓ} ⦃e : Eq A⦄ → A → A → Bool
◌===◌ ⦃e⦄ = e.beq

instance abbrev pub String_eq : Eq String
String_eq = record { beq = str_eq; beq_iff = eq_iff }

instance abbrev pub ℕ_eq : Eq ℕ
ℕ_eq = record { beq = nat_eq; beq_iff = ==_iff }

module _ {ℓ} {A : Type ℓ} ⦃e : Eq A⦄ where
  pub beq_refl : (a : A) → e.beq a a ≡ true
  beq_refl a = (e.beq_iff a a).1 refl

  abbrev pub contains : List A → A → Bool
  contains [] a = false
  contains (x ∷ xs) a = elim (e.beq x a) [ true ↦ true | false ↦ contains xs a ]

-- A text as the list of its code units.
abbrev pub Text : Type 0
Text = List ℕ

-- The text of a literal of the source.
abbrev pub codes : String → Text
codes String.[] = []
codes (String.◌∷◌ c s) = code c ∷ codes s

abbrev pub same_units : List ℕ → List ℕ → Bool
same_units [] [] = true
same_units (c ∷ cs) (d ∷ ds) = nat_eq c d && same_units cs ds
same_units _ _ = false

pub same_units_refl : (cs : List ℕ) → same_units cs cs ≡ true
same_units_refl [] = refl
same_units_refl (c ∷ cs) = (and-eq-true_iff _ _).1 ((==_iff c c).1 refl, same_units_refl cs)

pub same_units_eq : (cs ds : List ℕ) → same_units cs ds ≡ true → cs ≡ ds
same_units_eq [] [] h = refl
same_units_eq [] (d ∷ ds) h = cc
same_units_eq (c ∷ cs) [] h = cc
same_units_eq (c ∷ cs) (d ∷ ds) h =
    let (first, rest) = (and-eq-true_iff (nat_eq c d) (same_units cs ds)).0 h in
    let head : c ≡ d = (==_iff c d).0 first in let tail : cs ≡ ds = same_units_eq cs ds rest in cc

instance abbrev pub Units_eq : Eq (List ℕ)
Units_eq = record {
  beq = same_units;
  beq_iff = λ cs ds.
      (same_units_eq cs ds, λ e. subst (λ x. same_units cs x ≡ true) e (same_units_refl cs));
}
