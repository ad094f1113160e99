-- ===== src/Glyph/Selection.antt =====
-- Theorems on `samplePointVectors` of frontend/src/lib/viewer/vectorGlyph.ts.
use my_paraview_web.Common.{
  ℕ, zero, suc, ◌+◌, ◌*◌, ◌≡◌, refl, sym, subst, ◌∙◌, ap, Bool, not, ◌||◌, Option, none, some, List,
  [], ◌∷◌, length, ◌==◌, arith, Bool-cases, some_injective, inl, inr, ==_iff,
}
use my_paraview_web.Glyph.{
  SampledVectors, magnitude_at, count_one, count_valid, select_one, select, gather, source_points,
  sample_point_vectors, finite_positive, deterministic_sample_indices,
}
use my_paraview_web.Glyph.Indices.{IsAscending, sample_size, deterministic_sample_indices_lem}

module _ {V : Type 0} (is_finite is_positive : V → Bool) (hypot : V → V → V → V) (max : V → V → V)
    (zero_value nan : V) (points vectors : List V) where
  abbrev magnitude : ℕ → Option V
  magnitude = magnitude_at is_finite is_positive hypot max zero_value nan points vectors

  abbrev counted : ℕ → ℕ → ℕ × V → ℕ × V
  counted = count_valid is_finite is_positive hypot max zero_value nan points vectors

  abbrev selected : ℕ → ℕ → ℕ → List ℕ → List ℕ
  selected = select is_finite is_positive hypot max zero_value nan points vectors

  abbrev round_selected : (ℕ → List ℕ → List ℕ) → Option V → ℕ → ℕ → ℕ → List ℕ → List ℕ
  round_selected = select_one is_finite is_positive hypot max zero_value nan points vectors

  abbrev Covers : ℕ → ℕ → Type 0
  Covers n i =
      (ordinal : ℕ) (m : V) (targets : List ℕ)
      → IsAscending ordinal (counted n i (ordinal, m)).0 targets
      → length (selected n i ordinal targets) ≡ length targets

  length-select_one :
      (o : Option V) (n i ordinal : ℕ) (m : V) (t : ℕ) (ts : List ℕ)
      → Covers n (i + 1)
      → IsAscending ordinal
          (counted n (i + 1) (
            count_one is_finite is_positive hypot max zero_value nan points vectors o
              (ordinal, m))).0
          (t ∷ ts)
      → length (round_selected (selected n (i + 1)) o i ordinal t ts) ≡ suc (length ts)
  unfolding select_one
  length-select_one none n i ordinal m t ts covers h = covers ordinal m (t ∷ ts) h
  length-select_one (some v) n i ordinal m t ts covers (low, high, later) =
      elim (Bool-cases (ordinal == t)) [
        | inl hit ↦
            let is : t ≡ ordinal = sym ((==_iff ordinal t).0 hit) in
            rw hit (
              ap suc (
                covers (ordinal + 1) (max m v) ts (
                  subst (λ x. IsAscending (x + 1) (counted n (i + 1) (ordinal + 1, max m v)).0 ts)
                    is later)))
        | inr miss ↦ rw miss (covers (ordinal + 1) (max m v) (t ∷ ts) (ground arith, high, later))
      ]

  -- The loop selects a point for each target ordinal that is left, if these rise and stay below the
  -- number of valid vectors.
  length-select : (n i : ℕ) → Covers n i
  unfolding select count_valid
  length-select zero i ordinal m [] h = refl
  length-select zero i ordinal m (t ∷ ts) h = absurd (let (low, high, _) = h in omega arith)
  length-select (suc n) i ordinal m [] h = refl
  length-select (suc n) i ordinal m (t ∷ ts) h =
      length-select_one (magnitude i) n i ordinal m t ts (length-select n (i + 1)) h

  length-gather :
      (values : List V) (is : List ℕ)
      → length (gather is_finite is_positive hypot max zero_value nan points vectors values is)
        ≡ length is * 3
  unfolding gather
  length-gather values [] = refl
  length-gather values (i ∷ is) = omega (arith, length-gather values is)

  -- The number of points whose vector is finite and longer than zero.
  abbrev pub valid_count : ℕ
  valid_count =
      (counted (source_points is_finite is_positive hypot max zero_value nan points vectors) 0
        (0, zero_value)).0

  -- What is sampled has as many arrows as there are valid vectors, and the limit at most, with three
  -- coordinates and three components for each.
  pub sample_point_vectors_lem :
      (limit : ℕ) {s : SampledVectors V}
      → sample_point_vectors is_finite is_positive hypot max zero_value nan points vectors limit
        ≡ some s
      → (s.glyph_count ≡ sample_size valid_count limit)
        × (length s.points ≡ s.glyph_count * 3)
        × (length s.vectors ≡ s.glyph_count * 3)
  unfolding sample_point_vectors
  sample_point_vectors_lem limit {s} h =
      let n = source_points is_finite is_positive hypot max zero_value nan points vectors in
      let found = counted n 0 (0, zero_value) in
      let targets = deterministic_sample_indices found.0 limit in
      let chosen = selected n 0 0 targets in
      let (rising, size) = deterministic_sample_indices_lem found.0 limit in
      let count : length chosen ≡ sample_size valid_count limit =
        length-select n 0 0 zero_value targets rising ∙ size in
      let gathered = length-gather points chosen in
      let gathered' = length-gather vectors chosen in
      elim (Bool-cases (
        found.0 == 0
        || not (finite_positive is_finite is_positive hypot max zero_value nan found.1))) [
          | inl failed ↦ let h' = rw failed at h in cc
          | inr passed ↦
              subst
                (λ (s : SampledVectors V).
                  (s.glyph_count ≡ sample_size valid_count limit)
                  × (length s.points ≡ s.glyph_count * 3)
                  × (length s.vectors ≡ s.glyph_count * 3))
                (some_injective (rw passed at h)) (omega arith, omega arith, omega arith)
        ]
