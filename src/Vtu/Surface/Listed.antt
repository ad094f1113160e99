-- ===== src/Vtu/Surface/Listed.antt =====
-- Which cell arrays the surface keeps.
use my_paraview_web.Common.{
  ℕ, ◌≡◌, refl, ap, Bool, true, false, ◌&&◌, Option, none, some, List, [], ◌∷◌, map, filter, all,
  get_elem?, if◌then◌else◌,
}
use my_paraview_web.Common.Eq.{Text}
use my_paraview_web.Vtu.Surface.{
  CellData, VtuArray, piece_for_cell, array_in, joined, kept, tuple_of, cell_tuple, cell_values,
  components_of, cell_arrays,
}

abbrev pub is_there : {A : Type 0} → Option A → Bool
is_there none = false
is_there (some a) = true

module _ {V : Type 0} where
  -- Whether the piece of each of some cells has an array.
  abbrev pub in_each_piece : List (CellData V) → List ℕ → List ℕ → Text → Bool
  in_each_piece per_piece starts emitted name =
      all (λ g. is_there (array_in (get_elem? per_piece (piece_for_cell starts g)) name)) emitted

  is_there-joined : (a b : Option (List V)) → is_there (joined a b) ≡ (is_there a && is_there b)
  is_there-joined none none = refl
  is_there-joined none (some b) = refl
  is_there-joined (some a) none = refl
  is_there-joined (some a) (some b) = refl

  map-kept :
      (name : Text) (n : ℕ) (o : Option (List V)) (later : List (VtuArray V))
      → map (λ (a : VtuArray V). a.name) (kept name n o later) ≡ (
          if is_there o
          then name ∷ map (λ (a : VtuArray V). a.name) later
          else map (λ (a : VtuArray V). a.name) later)
  map-kept name n none later = refl
  map-kept name n (some values) later = refl

  module _ (not_a_number : V) where
    is_there-tuple_of :
        (n local : ℕ) (o : Option (List V))
        → is_there (tuple_of not_a_number n local o) ≡ is_there o
    is_there-tuple_of n local none = refl
    is_there-tuple_of n local (some source) = refl

    is_there-cell_values :
        (per_piece : List (CellData V)) (starts : List ℕ) (name : Text) (n : ℕ) (emitted : List ℕ)
        → is_there (cell_values not_a_number per_piece starts name n emitted)
          ≡ in_each_piece per_piece starts emitted name
    unfolding cell_values
    is_there-cell_values per_piece starts name n [] = refl
    is_there-cell_values per_piece starts name n (g ∷ gs) =
        rw
          (
            is_there-joined (cell_tuple not_a_number per_piece starts name n g)
                (cell_values not_a_number per_piece starts name n gs),
            is_there-cell_values per_piece starts name n gs,
          )
          (ap (λ b. b && in_each_piece per_piece starts gs name)
            (is_there-tuple_of n _ (array_in (get_elem? per_piece (piece_for_cell starts g)) name)))

    -- The arrays that are kept are those that the piece of every emitted cell has.
    pub map-cell_arrays :
        (per_piece : List (CellData V)) (starts emitted : List ℕ) (names : List Text)
        → map (λ (a : VtuArray V). a.name) (cell_arrays not_a_number per_piece starts emitted names)
          ≡ filter (in_each_piece per_piece starts emitted) names
    unfolding cell_arrays
    map-cell_arrays per_piece starts emitted [] = refl
    map-cell_arrays per_piece starts emitted (name ∷ names) =
        let n = components_of per_piece name in
        let values = cell_values not_a_number per_piece starts name n emitted in
        rw
          (
            map-kept name n values (cell_arrays not_a_number per_piece starts emitted names),
            is_there-cell_values per_piece starts name n emitted,
            map-cell_arrays per_piece starts emitted names,
          )
          refl
