-- ===== src/Preset/Ids/Surrogates.antt =====
-- The characters of a label, and the surrogates that stand alone.
use my_paraview_web.Common.{
  ℕ, zero, suc, ◌≤◌, Bool, true, false, not, ◌&&◌, ◌||◌, [], ◌∷◌, ◌++◌, length, take, ◌≡◌, refl,
  Bool-cases, inl, inr, arith, all,
}
use mathlib.Core.Bool.{and-eq-true_iff}
use my_paraview_web.Common.Eq.{Text}
use my_paraview_web.Preset.Ids.{is_high, is_low, has_unpaired_surrogate, characters, join}

take-nil : (n : ℕ) → take {A = Text} n [] ≡ []
take-nil zero = refl
take-nil (suc n) = refl

-- The first unit of a text is that of its first characters.
pub first_unit :
    (n c : ℕ) (rest : Text)
    → (tail : Text) × (join (take (suc n) (characters (c ∷ rest))) ≡ c ∷ tail)
unfolding characters
first_unit n c [] = (_, refl)
first_unit n c (d ∷ rest) = elim (Bool-cases (is_high c && is_low d)) [
  | inl t ↦ rw t (_, refl)
  | inr f ↦ rw f (_, refl)
]

-- The first characters of a text are no more characters when they are joined.
pub length-characters-join_le :
    (n : ℕ) (t : Text) → length (characters (join (take n (characters t)))) ≤ n
unfolding characters
length-characters-join_le zero t = omega arith
length-characters-join_le (suc n) [] = omega arith
length-characters-join_le (suc n) (c ∷ []) = rw (take-nil n) (omega arith)
length-characters-join_le (suc n) (c ∷ (d ∷ rest)) = elim (Bool-cases (is_high c && is_low d)) [
  | inl t ↦ let ih = length-characters-join_le n rest in rw t (rw t (omega arith))
  | inr f ↦ rw f (alone n c d rest f (length-characters-join_le n (d ∷ rest)))
]
  where
    alone :
        (n c d : ℕ) (rest : Text)
        → (is_high c && is_low d) ≡ false
        → length (characters (join (take n (characters (d ∷ rest))))) ≤ n
        → length (characters (c ∷ join (take n (characters (d ∷ rest))))) ≤ suc n
    alone zero c d rest f ih = omega arith
    alone (suc m) c d rest f ih =
        let (tail, e) = first_unit m d rest in let few = rw e at ih in rw e (rw f (omega arith))

abbrev pub is_ordinary : ℕ → Bool
is_ordinary c = not (is_high c || is_low c)

-- A high surrogate that stands alone at the end of a label of ordinary units is not found.
pub has_unpaired_surrogate-trailing :
    (label : Text) (c : ℕ)
    → all is_ordinary label ≡ true
    → is_high c ≡ true
    → has_unpaired_surrogate (label ++ c ∷ []) ≡ false
unfolding has_unpaired_surrogate
has_unpaired_surrogate-trailing [] c h k = rw k refl
has_unpaired_surrogate-trailing (d ∷ []) c h k = ground arith
has_unpaired_surrogate-trailing (d ∷ (e ∷ rest)) c h k =
    let (first, later) = (and-eq-true_iff (is_ordinary d) (all is_ordinary (e ∷ rest))).0 h in
    let ih = has_unpaired_surrogate-trailing (e ∷ rest) c later k in
    let not_high : is_high d ≡ false = ground arith in
    let not_low : is_low d ≡ false = ground arith in rw (not_high, not_low) ih
