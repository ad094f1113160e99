-- ===== src/ColorMap/Registry/Keyed.antt =====
-- What the two maps of frontend/src/lib/colormap.ts hold under a name, after deletions and
-- insertions.
use my_paraview_web.Common.{
  ◌≡◌, refl, ◌∙◌, true, false, not, Option, none, some, List, [], ◌∷◌, ◌++◌, find?, filter, any,
  if◌then◌else◌, Bool-cases, inl, inr,
}
use my_paraview_web.Common.Eq.{◌===◌, Units_eq, same_units_eq}
use my_paraview_web.ColorMap.{Name}
use my_paraview_web.ColorMap.Registry.{Label, Stored}

-- What stands under a name, in the labels and in the maps.
abbrev pub label_of : {L : Type 0} → List (Label L) → Name → Option (Label L)
label_of labels k = find? (λ l. l.id === k) labels

abbrev pub map_of : {S : Type 0} → List (Stored S) → Name → Option (Stored S)
map_of maps k = find? (λ m. m.name === k) maps

-- Keyed entries, with deletion and a new entry at the end.
module _ {ℓ} {A : Type ℓ} (key : A → Name) where
  pub find?-deleted :
      (xs : List A) (id k : Name)
      → (id === k) ≡ false
      → find? (λ x. key x === k) (filter (λ x. not (key x === id)) xs) ≡ find? (λ x. key x === k) xs
  find?-deleted [] id k other = refl
  find?-deleted (x ∷ xs) id k other = elim (Bool-cases (key x === id)) [
    | inl same ↦
        let is : key x ≡ id = same_units_eq (key x) id same in
        let differs : (key x === k) ≡ false = rw is other in
        rw (same, differs) (find?-deleted xs id k other)
    | inr kept ↦ elim (Bool-cases (key x === k)) [
      | inl here ↦ rw (kept, here) refl
      | inr later ↦ rw (kept, later) (find?-deleted xs id k other)
    ]
  ]

  pub find?-deleted_self :
      (xs : List A) (id : Name)
      → find? (λ x. key x === id) (filter (λ x. not (key x === id)) xs) ≡ none
  find?-deleted_self [] id = refl
  find?-deleted_self (x ∷ xs) id = elim (Bool-cases (key x === id)) [
    | inl same ↦ rw same (find?-deleted_self xs id)
    | inr kept ↦ rw (kept, kept) (find?-deleted_self xs id)
  ]

  pub find?-deleted_none :
      (xs : List A) (id k : Name)
      → find? (λ x. key x === k) xs ≡ none
      → find? (λ x. key x === k) (filter (λ x. not (key x === id)) xs) ≡ none
  find?-deleted_none xs id k h = elim (Bool-cases (id === k)) [
    | inl same ↦ let is : id ≡ k = same_units_eq id k same in rw is (find?-deleted_self xs k)
    | inr other ↦ find?-deleted xs id k other ∙ h
  ]

  -- A new entry at the end is found under its own name where none stood before.
  pub find?-last :
      (xs : List A) (x : A) (k : Name)
      → ((key x === k) ≡ true → find? (λ y. key y === k) xs ≡ none)
      → find? (λ y. key y === k) (xs ++ x ∷ [])
        ≡ (if key x === k then some x else find? (λ y. key y === k) xs)
  find?-last [] x k h = refl
  find?-last (y ∷ xs) x k h = elim (Bool-cases (key y === k)) [
    | inl here ↦ elim (Bool-cases (key x === k)) [
      | inl same ↦ let bad : some y ≡ none = rw here at (h same) in cc
      | inr other ↦ rw (here, other) refl
    ]
    | inr later ↦ rw later (find?-last xs x k (λ same. rw later at (h same)))
  ]

  pub find?-absent :
      (xs : List A) (k : Name)
      → any (λ x. key x === k) xs ≡ false
      → find? (λ x. key x === k) xs ≡ none
  find?-absent [] k h = refl
  find?-absent (x ∷ xs) k h = elim (Bool-cases (key x === k)) [
    | inl here ↦ let bad = rw here at h in cc
    | inr later ↦ rw later (find?-absent xs k (rw later at h))
  ]

  -- Deleted first, a new entry is found under its own name only.
  pub find?-replaced :
      (xs : List A) (x : A) (k : Name)
      → find? (λ y. key y === k) (filter (λ y. not (key y === key x)) xs ++ x ∷ [])
        ≡ (if key x === k then some x else find? (λ y. key y === k) xs)
  find?-replaced xs x k =
      find?-last (filter (λ y. not (key y === key x)) xs) x k (λ same.
        let is : key x ≡ k = same_units_eq (key x) k same in rw is (find?-deleted_self xs k))
      ∙ elim (Bool-cases (key x === k)) [
        | inl same ↦ rw same refl
        | inr other ↦ rw other (find?-deleted xs (key x) k other)
      ]
