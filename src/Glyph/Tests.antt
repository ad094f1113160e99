-- ===== src/Glyph/Tests.antt =====
-- Runs of the selection at concrete inputs, with natural numbers as values.
use my_paraview_web.Common.{ℕ, ◌+◌, ◌≡◌, refl, true, some, List, [], ◌∷◌, ltb}
use my_paraview_web.Glyph.{SampledVectors, deterministic_sample_indices, sample_point_vectors}

sampled_ten : deterministic_sample_indices 10 4 ≡ 0 ∷ 3 ∷ 6 ∷ 9 ∷ []
unfolding deterministic_sample_indices
sampled_ten = refl

-- Two points, of which the first has a vector of no length.
abbrev two_points : List ℕ
two_points = 1 ∷ 2 ∷ 3 ∷ 4 ∷ 5 ∷ 6 ∷ []

abbrev two_vectors : List ℕ
two_vectors = 0 ∷ 0 ∷ 0 ∷ 0 ∷ 7 ∷ 0 ∷ []

abbrev one_arrow : SampledVectors ℕ
one_arrow = record {
  points = 4 ∷ 5 ∷ 6 ∷ [];
  vectors = 0 ∷ 7 ∷ 0 ∷ [];
  glyph_count = 1;
  source_point_count = 2;
  max_magnitude = 7;
}

arrow_sampled :
    sample_point_vectors
      (λ _. true)
      (λ v. ltb 0 v)
      (λ a b c. a + b + c)
      (λ a b. a + b)
      0
      0
      two_points
      two_vectors
      5
    ≡ some one_arrow
unfolding sample_point_vectors deterministic_sample_indices
arrow_sampled = refl
