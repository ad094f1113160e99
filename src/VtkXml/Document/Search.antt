-- ===== src/VtkXml/Document/Search.antt =====
-- indexOfSequence of frontend/src/lib/vtkXml.ts.
use my_paraview_web.Common.{
  ℕ, zero, suc, ◌+◌, ◌<◌, ◌≡◌, refl, sym, subst, true, false, none, some, List, [], ◌∷◌, drop,
  arith, Bool-cases, inl, inr, some_injective,
}
use my_paraview_web.VtkXml.Document.{starts_with, index_from, index_of_sequence}

-- The first match is behind `k` bytes.
pub record IsFirst (target bytes : List ℕ) (k : ℕ) : Type 0 where
  pub matches : starts_with target (drop k bytes) ≡ true
  pub earlier : (j : ℕ) → j < k → starts_with target (drop j bytes) ≡ false

later-IsFirst :
    (target : List ℕ) (b : ℕ) (bs : List ℕ) (k : ℕ)
    → starts_with target (b ∷ bs) ≡ false
    → IsFirst target bs k
    → IsFirst target (b ∷ bs) (suc k)
later-IsFirst target b bs k other i = record { matches = i.matches; earlier = earlier }
  where
    earlier : (j : ℕ) → j < suc k → starts_with target (drop j (b ∷ bs)) ≡ false
    earlier zero h = other
    earlier (suc j) h = i.earlier j (omega arith)

index_from-IsFirst :
    (target bytes : List ℕ) (start index : ℕ)
    → index_from target bytes start ≡ some index
    → (k : ℕ) × (index ≡ start + k) × IsFirst target bytes k
unfolding index_from
index_from-IsFirst target [] start index h = elim (Bool-cases (starts_with target [])) [
  | inl here ↦
      let same = some_injective (rw here at h) in
      (0, omega arith, record { matches = here; earlier = λ j k. absurd (omega arith) })
  | inr other ↦ let bad = rw other at h in cc
]
index_from-IsFirst target (b ∷ bs) start index h = elim (Bool-cases (starts_with target (b ∷ bs))) [
  | inl here ↦
      let same = some_injective (rw here at h) in
      (0, omega arith, record { matches = here; earlier = λ j k. absurd (omega arith) })
  | inr other ↦
      let (k, place, first) = index_from-IsFirst target bs (start + 1) index (rw other at h) in
      (suc k, omega arith, later-IsFirst target b bs k other first)
]

drop-nil : (j : ℕ) → drop {A = ℕ} j [] ≡ []
drop-nil zero = refl
drop-nil (suc j) = refl

index_from-none :
    (target bytes : List ℕ) (start : ℕ)
    → index_from target bytes start ≡ none
    → (j : ℕ) → starts_with target (drop j bytes) ≡ false
unfolding index_from
index_from-none target [] start h j = elim (Bool-cases (starts_with target [])) [
  | inl here ↦ let bad = rw here at h in cc
  | inr other ↦ subst (λ l. starts_with target l ≡ false) (sym (drop-nil j)) other
]
index_from-none target (b ∷ bs) start h zero = elim (Bool-cases (starts_with target (b ∷ bs))) [
  | inl here ↦ let bad = rw here at h in cc
  | inr other ↦ other
]
index_from-none target (b ∷ bs) start h (suc j) = elim (Bool-cases (starts_with target (b ∷ bs))) [
  | inl here ↦ let bad = rw here at h in cc
  | inr other ↦ index_from-none target bs (start + 1) (rw other at h) j
]

-- Where the search finds nothing, the bytes go on with the target nowhere behind `from`.
pub index_of_sequence-none :
    (bytes target : List ℕ) (from : ℕ)
    → index_of_sequence bytes target from ≡ none
    → (j : ℕ) → starts_with target (drop j (drop from bytes)) ≡ false
unfolding index_of_sequence
index_of_sequence-none bytes target from h = index_from-none target (drop from bytes) from h

-- The search finds the first place from `from` on where the bytes go on with the target.
pub index_of_sequence-IsFirst :
    (bytes target : List ℕ) (from index : ℕ)
    → index_of_sequence bytes target from ≡ some index
    → (k : ℕ) × (index ≡ from + k) × IsFirst target (drop from bytes) k
unfolding index_of_sequence
index_of_sequence-IsFirst bytes target from index h =
    index_from-IsFirst target (drop from bytes) from index h
