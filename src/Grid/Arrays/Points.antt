-- ===== src/Grid/Arrays/Points.antt =====
-- Theorems on the readers of attribute arrays and of rectilinear coordinates,
-- frontend/src/lib/structuredGrid.ts.
use my_paraview_web.Common.{
  ℕ, suc, ◌+◌, ◌*◌, ◌<◌, ◌≡◌, refl, sym, ◌∙◌, some, List, [], ◌∷◌, length, for_from, get_elem?,
  get_or, get_elem?-loop, get_elem?-get_or, length-for_from, arith, All, Option-cases, ◌==◌, ==_iff,
  Bool-cases, inl, inr,
}
use my_paraview_web.Common.Result.{ok, >>=-eq-ok, ok-injective}
use my_paraview_web.Grid.Extent.{JsNumber, integer, Dimensions, point_count}
use my_paraview_web.Common.Int.{pos}
use my_paraview_web.Grid.Topology.{GridIndex, at, point_id, flat_id}
use my_paraview_web.Grid.Topology.Cells.{IsInside}
use my_paraview_web.Grid.Arrays.{
  SurfaceArray, DataArray, positive_integer, set_array, read_array, read_arrays,
  read_attribute_arrays, expand_coordinates, check_axis, read_rectilinear_points,
}

module _ {V : Type 0} (nan : V) where
  module _ (d : Dimensions) (xs ys zs : List V) where
    abbrev triple : ℕ → ℕ → ℕ → List V
    triple k j i = get_or xs i nan ∷ get_or ys j nan ∷ get_or zs k nan ∷ []

    abbrev row : ℕ → ℕ → List V
    row k j = for_from d.nx 0 (triple k j)

    abbrev plane : ℕ → List V
    plane k = for_from d.ny 0 (row k)

    length-row : (k j : ℕ) → length (row k j) ≡ d.nx * 3
    length-row k j = length-for_from d.nx 0 3 (triple k j) (λ i. refl)

    length-plane : (k : ℕ) → length (plane k) ≡ d.ny * (d.nx * 3)
    length-plane k = length-for_from d.ny 0 (d.nx * 3) (row k) (length-row k)

    length-expand : length (expand_coordinates nan d xs ys zs) ≡ point_count d * 3
    unfolding expand_coordinates
    length-expand = omega (arith, length-for_from d.nz 0 (d.ny * (d.nx * 3)) plane length-plane)

    -- Value `c` of point (i, j, k), before the coordinates are known to be long enough.
    get_elem?-expand :
        (i j k c index : ℕ)
        → i < d.nx
        → j < d.ny
        → k < d.nz
        → c < 3
        → index ≡ point_id d (at i j k) * 3 + c
        → get_elem? (expand_coordinates nan d xs ys zs) index ≡ get_elem? (triple k j i) c
    unfolding expand_coordinates flat_id
    get_elem?-expand i j k c index hi hj hk hc e =
        let in_row : i * 3 + c < d.nx * 3 = omega arith in
        let in_plane : j * (d.nx * 3) + (i * 3 + c) < d.ny * (d.nx * 3) = grind arith in
        get_elem?-loop d.nz (d.ny * (d.nx * 3)) plane length-plane index k
          (j * (d.nx * 3) + (i * 3 + c)) (omega arith) hk in_plane
        ∙ get_elem?-loop d.ny (d.nx * 3) (row k) (length-row k) _ j (i * 3 + c) refl hj in_row
        ∙ get_elem?-loop d.nx 3 (triple k j) (λ i. refl) _ i c refl hi hc

  abbrev pub HoldsCoordinates : Dimensions → (xs ys zs points : List V) → GridIndex → Type 0
  HoldsCoordinates d xs ys zs points p =
      (get_elem? points (point_id d p * 3) ≡ get_elem? xs p.i)
      × (get_elem? points (point_id d p * 3 + 1) ≡ get_elem? ys p.j)
      × (get_elem? points (point_id d p * 3 + 2) ≡ get_elem? zs p.k)

  -- Where each axis has as many coordinates as points, a rectilinear grid is read, three values for
  -- each point, and those of any point of the grid are its coordinates on the three axes, at the
  -- place that its point id gives.
  pub read_rectilinear_points_lem :
      (d : Dimensions) (xs ys zs : List V) (p : GridIndex)
      → length xs ≡ d.nx
      → length ys ≡ d.ny
      → length zs ≡ d.nz
      → IsInside d p
      → (points : List V) × (read_rectilinear_points nan d (xs ∷ ys ∷ zs ∷ []) ≡ ok points)
        × (length points ≡ point_count d * 3)
        × HoldsCoordinates d xs ys zs points p
  unfolding read_rectilinear_points check_axis
  read_rectilinear_points_lem d xs ys zs p hx hy hz h =
      let place = λ (c index : ℕ) (hc : c < 3).
        get_elem?-expand d xs ys zs p.i p.j p.k c index h.i_lt h.j_lt h.k_lt hc in
      (
        expand_coordinates nan d xs ys zs,
        ground arith,
        length-expand d xs ys zs,
        (
          place 0 _ (omega arith) (omega arith)
              ∙ sym (get_elem?-get_or xs p.i nan (let q = h.i_lt in omega arith)),
          place 1 _ (omega arith) refl
              ∙ sym (get_elem?-get_or ys p.j nan (let q = h.j_lt in omega arith)),
          place 2 _ (omega arith) refl
              ∙ sym (get_elem?-get_or zs p.k nan (let q = h.k_lt in omega arith)),
        ),
      )

  pub read_rectilinear_points-sized :
      (d : Dimensions) (axes : List (List V)) {points : List V}
      → read_rectilinear_points nan d axes ≡ ok points
      → length points ≡ point_count d * 3
  unfolding read_rectilinear_points
  read_rectilinear_points-sized d (xs ∷ ys ∷ zs ∷ []) h = ground (arith, length-expand d xs ys zs)
  read_rectilinear_points-sized d _ h = cc

-- An array has at least one component, and as many values as `tuples` tuples have.
pub record IsSized {V : Type 0} (tuples : ℕ) (a : SurfaceArray V) : Type 0 where
  pub some_component : 0 < a.components
  pub sized : length a.values ≡ tuples * a.components

positive_of_positive_integer : (n : JsNumber) {k : ℕ} → positive_integer n ≡ some k → 0 < k
positive_of_positive_integer (integer (pos (suc n))) h = ground arith
positive_of_positive_integer _ h = cc

module _ {V : Type 0} (tuples : ℕ) where
  set_array-IsSized :
      (m : List (SurfaceArray V)) (a : SurfaceArray V)
      → All (IsSized tuples) m
      → IsSized tuples a
      → All (IsSized tuples) (set_array m a)
  unfolding set_array
  set_array-IsSized [] a h k = (k, tt)
  set_array-IsSized (b ∷ m) a (p, h) k = ground (arith, set_array-IsSized m a h k)

  read_array-IsSized :
      (m : List (SurfaceArray V)) (e : DataArray V) {m' : List (SurfaceArray V)}
      → All (IsSized tuples) m
      → read_array tuples m e ≡ ok m'
      → All (IsSized tuples) m'
  unfolding read_array
  read_array-IsSized m e h k = elim (Option-cases (positive_integer e.components)) [
    | inl bad ↦ let k' = rw (bad, read_array) at k in cc
    | inr (n, good) ↦ elim (Bool-cases (length e.values == tuples * n)) [
      | inl same ↦
          let stored = rw (good, same, read_array) at k in
          let a : SurfaceArray V = record { name = e.name; components = n; values = e.values } in
          rw (ok-injective stored) at (
            set_array-IsSized m a h (record {
              some_component = positive_of_positive_integer e.components good;
              sized = (==_iff _ _).0 same;
            }))
      | inr differs ↦ let k' = rw (good, differs, read_array) at k in cc
    ]
  ]

  read_arrays-IsSized :
      (m : List (SurfaceArray V)) (es : List (DataArray V)) {m' : List (SurfaceArray V)}
      → All (IsSized tuples) m
      → read_arrays tuples m es ≡ ok m'
      → All (IsSized tuples) m'
  unfolding read_arrays
  read_arrays-IsSized m [] h k = let e = ok-injective k in rw e at h
  read_arrays-IsSized m (e ∷ es) h k =
      let (next, first, rest) = >>=-eq-ok _ _ k in
      read_arrays-IsSized next es (read_array-IsSized m e h first) rest

  -- What is read has a component at least, and the number of values that the tuples need.
  pub read_attribute_arrays-IsSized :
      (es : List (DataArray V)) {m : List (SurfaceArray V)}
      → read_attribute_arrays tuples es ≡ ok m
      → All (IsSized tuples) m
  unfolding read_attribute_arrays
  read_attribute_arrays-IsSized es h = read_arrays-IsSized [] es tt h
