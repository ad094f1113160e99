-- ===== src/Glyph/Indices.antt =====
-- Theorems on `deterministicSampleIndices` of frontend/src/lib/viewer/vectorGlyph.ts.
use native.Mathlib.Nat.{
  div-mul-le_self, le-div_iff_mul-le, div-lt_iff_lt-mul, div-eq_of_lt-le, div-eq_of_lt,
  mul-le-mul_right,
}
use my_paraview_web.Common.{
  ℕ, zero, suc, ◌+◌, ◌-◌, ◌*◌, ◌≤◌, ◌<◌, ◌≡◌, refl, ap, ◌∙◌, false, ◌||◌, some, List, [], ◌∷◌,
  length, get_elem?, leb, if◌then◌else◌, ◌==◌, arith, Bool-cases, inl, inr,
}
use my_paraview_web.Glyph.{round_div, array_from, deterministic_sample_indices}

-- The numbers rise strictly, from `low` on, and stay below `high`.
abbrev pub IsAscending : ℕ → ℕ → List ℕ → Type 0
IsAscending low high [] = Unit
IsAscending low high (x ∷ xs) = (low ≤ x) × (x < high) × IsAscending (x + 1) high xs

length-array_from : (f : ℕ → ℕ) (index n : ℕ) → length (array_from f index n) ≡ n
unfolding array_from
length-array_from f index zero = refl
length-array_from f index (suc n) = omega (arith, length-array_from f (index + 1) n)

get_elem?-array_from :
    (f : ℕ → ℕ) (index n i : ℕ) → i < n → get_elem? (array_from f index n) i ≡ some (f (index + i))
unfolding array_from
get_elem?-array_from f index zero i h = absurd (omega arith)
get_elem?-array_from f index (suc n) zero h = let e : index + 0 ≡ index = omega arith in rw e refl
get_elem?-array_from f index (suc n) (suc i) h =
    let e : index + suc i ≡ index + 1 + i = omega arith in
    rw e (get_elem?-array_from f (index + 1) n i (omega arith))

array_from-IsAscending :
    (f : ℕ → ℕ) (index n low high end : ℕ)
    → index + n ≡ end
    → ((i : ℕ) → i + 1 < end → f i < f (i + 1))
    → ((i : ℕ) → i < end → f i < high)
    → (0 < n → low ≤ f index)
    → IsAscending low high (array_from f index n)
unfolding array_from
array_from-IsAscending f index zero low high end e rise below start = tt
array_from-IsAscending f index (suc n) low high end e rise below start = (
  start (omega arith),
  below index (omega arith),
  array_from-IsAscending f (index + 1) n (f index + 1) high end (omega arith) rise below
      (λ more. let r = rise index (omega arith) in omega arith),
)

-- With `b + 1` samples of more than `b + 1` elements, each step is at least one.
round_div-rises :
    (b last i : ℕ) → 0 < b → b ≤ last → round_div (i * last) b < round_div ((i + 1) * last) b
round_div-rises b last i hb h =
    let step : (i + 1) * last ≡ i * last + last = grind arith in
    let wide : 0 < 2 * b = omega arith in
    let q = round_div (i * last) b in
    let below : q * (2 * b) ≤ 2 * (i * last) + b = div-mul-le_self (2 * (i * last) + b) (2 * b) in
    let spread : (q + 1) * (2 * b) ≡ q * (2 * b) + 2 * b = grind arith in
    let room : (q + 1) * (2 * b) ≤ 2 * ((i + 1) * last) + b = rw (step, spread) (omega arith) in
    let rises : q + 1 ≤ round_div ((i + 1) * last) b = (le-div_iff_mul-le wide).1 room in
    omega arith

round_div-lt : (b last i : ℕ) → 0 < b → i ≤ b → round_div (i * last) b < last + 1
round_div-lt b last i hb h =
    let wide : 0 < 2 * b = omega arith in
    let most : i * last ≤ b * last = mul-le-mul_right last h in
    let spread : (last + 1) * (2 * b) ≡ 2 * (b * last) + 2 * b = grind arith in
    (div-lt_iff_lt-mul wide).1 (rw spread (omega arith))

round_div-last : (b last : ℕ) → 0 < b → round_div (b * last) b ≡ last
round_div-last b last hb =
    let low : last * (2 * b) ≡ 2 * (b * last) = grind arith in
    let high : (last + 1) * (2 * b) ≡ 2 * (b * last) + 2 * b = grind arith in
    div-eq_of_lt-le {k = last} (2 * b) (rw low (omega arith)) (rw high (omega arith))

round_div-first : (b last : ℕ) → 0 < b → round_div (0 * last) b ≡ 0
round_div-first b last hb =
    let none : 0 * last ≡ 0 = omega arith in rw none (div-eq_of_lt (omega arith))

-- How many are sampled.
abbrev pub sample_size : ℕ → ℕ → ℕ
sample_size count limit = if leb count limit then count else limit

-- For any number of elements and any limit, as many ordinals are sampled as the smaller of them,
-- and they rise strictly and stay below the number of elements.
pub deterministic_sample_indices_lem :
    (count limit : ℕ)
    → IsAscending 0 count (deterministic_sample_indices count limit)
      × (length (deterministic_sample_indices count limit) ≡ sample_size count limit)
unfolding deterministic_sample_indices
deterministic_sample_indices_lem count limit = elim (Bool-cases (count == 0 || limit == 0)) [
  | inl nothing ↦ rw nothing (tt, ground arith)
  | inr something ↦ elim (Bool-cases (leb count limit)) [
    | inl all ↦
        rw (something, all)
          (
            array_from-IsAscending (λ index. index) 0 count 0 count count (omega arith)
                (λ i h. omega arith) (λ i h. h) (λ h. omega arith),
            length-array_from (λ index. index) 0 count,
          )
    | inr more ↦ elim (Bool-cases (limit == 1)) [
      | inl one ↦ rw (something, more, one) ((omega arith, ground arith, tt), ground arith)
      | inr several ↦
          rw (something, more, several)
            (
              array_from-IsAscending (λ index. round_div (index * (count - 1)) (limit - 1)) 0 limit
                  0 count limit (omega arith)
                  (λ i h. round_div-rises (limit - 1) (count - 1) i (ground arith) (ground arith))
                  (λ i h.
                    let below =
                      round_div-lt (limit - 1) (count - 1) i (ground arith) (omega arith) in
                    ground arith)
                  (λ h. omega arith),
              length-array_from (λ index. round_div (index * (count - 1)) (limit - 1)) 0 limit,
            )
    ]
  ]
]

-- With at least two samples, and more elements than that, the first and the last element are among
-- them, at the two ends.
pub deterministic_sample_indices_ends :
    (count limit : ℕ)
    → 1 < limit
    → limit < count
    → (get_elem? (deterministic_sample_indices count limit) 0 ≡ some 0)
      × (get_elem? (deterministic_sample_indices count limit) (limit - 1) ≡ some (count - 1))
unfolding deterministic_sample_indices
deterministic_sample_indices_ends count limit h k =
    let f : ℕ → ℕ = λ index. round_div (index * (count - 1)) (limit - 1) in
    let something : (count == 0 || limit == 0) ≡ false = ground arith in
    let more : leb count limit ≡ false = ground arith in
    let several : (limit == 1) ≡ false = ground arith in
    let first : f 0 ≡ 0 = round_div-first (limit - 1) (count - 1) (omega arith) in
    let last : f (limit - 1) ≡ count - 1 = round_div-last (limit - 1) (count - 1) (omega arith) in
    rw (something, more, several)
      (
        get_elem?-array_from f 0 limit 0 (omega arith) ∙ ap some first,
        get_elem?-array_from f 0 limit (limit - 1) (omega arith)
            ∙ ap some (ap f (start (limit - 1)) ∙ last),
      )
  where
    start : (n : ℕ) → 0 + n ≡ n
    start n = omega arith
