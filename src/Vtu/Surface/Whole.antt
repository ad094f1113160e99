-- ===== src/Vtu/Surface/Whole.antt =====
-- The surface of a document: its cell arrays, with the loop over the pieces in front of them.
use my_paraview_web.Common.{
  ℕ, ◌*◌, ◌<◌, false, List, [], ◌∷◌, ◌≡◌, sym, ap, ◌∙◌, subst, map, filter, length, All, All-append,
  Option-cases, inl, inr, is_empty,
}
use my_paraview_web.Common.Eq.{Text}
use my_paraview_web.Common.Result.{ok, >>=-eq-ok, throw_if-passed, ok-injective}
use my_paraview_web.Vtu.Surface.{
  CellData, VtuArray, VtuSurface, Parsing, PieceElement, parse_pieces, new_parsing, surface_of,
  emitted_sources, starts_from, cell_values, cell_arrays, components_of, parse_vtu_surface,
  cell_array_names,
}
use my_paraview_web.Vtu.Surface.Owner.{sum}
use my_paraview_web.Vtu.Surface.Attributes.{IsSourceValue, Tuples, cell_values-IsSourceValue}
use my_paraview_web.Vtu.Surface.Components.{
  IsDeclared, cell_array_names-IsDeclared, parse_pieces-IsComplete,
}
use my_paraview_web.Vtu.Surface.Listed.{in_each_piece, map-cell_arrays}
use my_paraview_web.Vtu.Surface.Parsed.{parse_pieces-IsParsed, new_parsing-IsParsed}

module _ {V : Type 0} where
  -- An array has the number of components that the first piece with it declares, and holds so many
  -- values for each emitted cell, from that cell's place in its own piece's array.
  abbrev pub IsFromSource : V → List (CellData V) → List ℕ → List ℕ → VtuArray V → Type 0
  IsFromSource not_a_number per_piece counts emitted a =
      IsDeclared per_piece a.name a.components
      × (length a.values ≡ length emitted * a.components)
      × Tuples (IsSourceValue not_a_number per_piece counts a.name a.components) a.components
          emitted a.values

  cell_arrays-IsFromSource :
      (not_a_number : V) (per_piece : List (CellData V)) (counts emitted : List ℕ)
      (names : List Text)
      → All (λ name. IsDeclared per_piece name (components_of per_piece name)) names
      → All (λ g. g < sum counts) emitted
      → All
          (IsFromSource not_a_number per_piece counts emitted)
          (cell_arrays not_a_number per_piece (starts_from 0 counts) emitted names)
  unfolding cell_arrays
  cell_arrays-IsFromSource not_a_number per_piece counts emitted [] k h = tt
  cell_arrays-IsFromSource not_a_number per_piece counts emitted (name ∷ names) (declared, k) h =
      let n = components_of per_piece name in
      let later = cell_arrays-IsFromSource not_a_number per_piece counts emitted names k h in
      elim (Option-cases
        (cell_values not_a_number per_piece (starts_from 0 counts) name n emitted)) [
          | inl e ↦ rw e later
          | inr (values, e) ↦
              let (size, from) =
                cell_values-IsSourceValue not_a_number per_piece counts name n emitted h e in
              rw e ((declared, size, from), later)
        ]

  -- A document that is read has pieces. The cell arrays of its surface are those, of the arrays of
  -- its pieces, that the piece of every emitted cell has, in the order in which their names come
  -- first. Every cell array of its surface has the number of components
  -- `n` that the first of the pieces with that array declares. Its value `c` for an emitted cell, in
  -- the order vertices, lines, polygons, is the value `c` from `n` times the cell's number in its own
  -- piece on, in the array of that piece, or NaN past the end; no array has further values.
  pub parse_vtu_surface-IsFromSource :
      (not_a_number : V) (pieces : List (PieceElement V)) {surface : VtuSurface V}
      → parse_vtu_surface not_a_number pieces ≡ ok surface
      → (s : Parsing V) × (is_empty pieces ≡ false)
        × (parse_pieces new_parsing pieces ≡ ok s)
        × (surface.poly_count ≡ length s.emitted.poly_sources)
        × (map (λ (a : VtuArray V). a.name) surface.cell_arrays
            ≡ filter
                (in_each_piece s.cell_data
                  (starts_from 0 s.cell_counts)
                  (emitted_sources s.emitted))
                (cell_array_names [] s.cell_data))
        × All
            (IsFromSource not_a_number s.cell_data s.cell_counts (emitted_sources s.emitted))
            surface.cell_arrays
  unfolding parse_vtu_surface surface_of
  parse_vtu_surface-IsFromSource not_a_number pieces {surface} h =
      let (some_pieces, later) = throw_if-passed (is_empty pieces) _ _ h in
      let (s, read, done) = >>=-eq-ok (parse_pieces new_parsing pieces) _ later in
      let inv = parse_pieces-IsParsed pieces new_parsing new_parsing-IsParsed read in
      let (v, l, p) = inv.below in
      let total = inv.counted in
      let all : All (λ g. g < s.total_cells) (emitted_sources s.emitted) =
        All-append (λ g. g < s.total_cells) s.emitted.vert_sources _ v
          (All-append (λ g. g < s.total_cells) s.emitted.line_sources _ l p) in
      let arrays =
        cell_arrays-IsFromSource not_a_number s.cell_data s.cell_counts (emitted_sources s.emitted)
          (cell_array_names [] s.cell_data)
          (cell_array_names-IsDeclared s.cell_data
            (parse_pieces-IsComplete pieces new_parsing tt read))
          (subst (λ t. All (λ g. g < t) (emitted_sources s.emitted)) (sym total) all) in
      (
        s,
        some_pieces,
        read,
        ap (λ (x : VtuSurface V). x.poly_count) (sym (ok-injective done)),
        ap (λ (x : VtuSurface V). map (λ (a : VtuArray V). a.name) x.cell_arrays)
              (sym (ok-injective done))
            ∙ map-cell_arrays not_a_number s.cell_data (starts_from 0 s.cell_counts)
                (emitted_sources s.emitted) (cell_array_names [] s.cell_data),
        subst
            (λ (x : VtuSurface V).
              All (IsFromSource not_a_number s.cell_data s.cell_counts (emitted_sources s.emitted))
                x.cell_arrays)
            (ok-injective done) arrays,
      )
