-- ===== src/Common/Dict.antt =====
-- `Map` of the browser: entries in the order in which their keys came first.
use mathlib.Core.Path.{◌≡◌, refl}
use mathlib.Core.Logic.{inl, inr}
use mathlib.Core.Bool.{true}
use mathlib.Core.Option.{Option, none, some}
use mathlib.Core.List.{List, [], ◌∷◌}
use my_paraview_web.Common.Tests.{if◌then◌else◌, Bool-cases}
use my_paraview_web.Common.Eq.{Eq}

module _ {ℓ κ} {K : Type ℓ} {V : Type κ} ⦃e : Eq K⦄ where
  abbrev pub dict_get : List (K × V) → K → Option V
  dict_get [] k = none
  dict_get ((key, v) ∷ rest) k = if e.beq key k then some v else dict_get rest k

  -- `map.set(k, v)`: a key that is there keeps its place
  abbrev pub dict_set : List (K × V) → K → V → List (K × V)
  dict_set [] k v = (k, v) ∷ []
  dict_set ((key, old) ∷ rest) k v =
      let later = dict_set rest k v in if e.beq key k then (key, v) ∷ rest else (key, old) ∷ later

  pub dict_get-dict_set :
      (entries : List (K × V)) (k : K) (v : V) (q : K)
      → dict_get (dict_set entries k v) q ≡ (if e.beq k q then some v else dict_get entries q)
  dict_get-dict_set [] k v q = refl
  dict_get-dict_set ((key, old) ∷ rest) k v q = elim (Bool-cases (e.beq key k)) [
    | inl t ↦
        let same : key ≡ k = (e.beq_iff key k).0 t in
        rw (t, same) (elim (Bool-cases (e.beq k q)) [ inl s ↦ rw s refl | inr s ↦ rw s refl ])
    | inr f ↦ rw f (elim (Bool-cases (e.beq key q)) [
      | inl s ↦
          let same : key ≡ q = (e.beq_iff key q).0 s in
          rw s (elim (Bool-cases (e.beq k q)) [
            | inl t ↦
                let other : k ≡ q = (e.beq_iff k q).0 t in
                let again : key ≡ k = cc in
                absurd (let w : e.beq key k ≡ true = (e.beq_iff key k).1 again in cc)
            | inr t ↦ rw t refl
          ])
      | inr s ↦ rw s (dict_get-dict_set rest k v q)
    ])
  ]
