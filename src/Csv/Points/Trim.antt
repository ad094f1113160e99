-- ===== src/Csv/Points/Trim.antt =====
-- String.prototype.trim, as frontend/src/lib/csvToPoints.ts and colormap.ts call it.
use mathlib.Core.List.{reverse, reverse-append, reverse-reverse}
use my_paraview_web.Common.{
  ℕ, ◌≡◌, refl, sym, ap, ◌∙◌, Bool, true, not, List, [], ◌∷◌, ◌++◌, Bool-cases, inl, inr, subst,
}
use my_paraview_web.Csv.Points.{is_space, trim_start, trim}

begins : List ℕ → Bool
begins [] = true
begins (c ∷ cs) = not (is_space c)

trim_start-begins : (l : List ℕ) → begins (trim_start l) ≡ true
unfolding trim_start begins
trim_start-begins [] = refl
trim_start-begins (c ∷ cs) = elim (Bool-cases (is_space c)) [
  | inl space ↦ rw space (trim_start-begins cs)
  | inr other ↦ rw (other, other) refl
]

begins-trim_start : (l : List ℕ) → begins l ≡ true → trim_start l ≡ l
unfolding trim_start begins
begins-trim_start [] h = refl
begins-trim_start (c ∷ cs) h = elim (Bool-cases (is_space c)) [
  | inl space ↦ let bad = rw space at h in cc
  | inr other ↦ rw other refl
]

begins-append : (l p : List ℕ) → begins (l ++ p) ≡ true → begins l ≡ true
unfolding begins
begins-append [] p h = refl
begins-append (c ∷ cs) p h = h

-- What trim_start leaves is the end of the text.
trim_start-suffix : (l : List ℕ) → (p : List ℕ) × (l ≡ p ++ trim_start l)
unfolding trim_start
trim_start-suffix [] = ([], refl)
trim_start-suffix (c ∷ cs) = elim (Bool-cases (is_space c)) [
  | inl space ↦ let (p, e) = trim_start-suffix cs in (c ∷ p, rw space (ap (c ∷◌) e))
  | inr other ↦ ([], rw other refl)
]

-- A text that begins with no space still does when its end is trimmed.
begins-trim_end : (l : List ℕ) → begins l ≡ true → begins (reverse (trim_start (reverse l))) ≡ true
begins-trim_end l h =
    let (p, e) = trim_start-suffix (reverse l) in
    let whole : l ≡ reverse (trim_start (reverse l)) ++ reverse p =
      sym (reverse-reverse l) ∙ ap reverse e ∙ reverse-append p (trim_start (reverse l)) in
    begins-append _ (reverse p) (subst (λ k. begins k ≡ true) whole h)

-- A trimmed text is trimmed already.
pub trim-trim : (l : List ℕ) → trim (trim l) ≡ trim l
unfolding trim
trim-trim l =
    let inner = trim_start l in
    let once = trim_start (reverse inner) in
    let front : trim_start (reverse once) ≡ reverse once =
      begins-trim_start _ (begins-trim_end inner (trim_start-begins l)) in
    let back : trim_start (reverse (reverse once)) ≡ once =
      ap trim_start (reverse-reverse once)
      ∙ begins-trim_start _ (trim_start-begins (reverse inner)) in
    rw (front, back) refl
