-- ===== src/Vtu/Cells/Types.antt =====
-- Which pieces are refused, and the result of the others.
use my_paraview_web.Common.{
  ℕ, Bool, true, not, ◌||◌, Option, none, some, List, [], ◌∷◌, ◌++◌, ◌≡◌, refl, ◌∙◌, ap, find?,
  Bool-cases, inl, inr, if◌then◌else◌,
}
use my_paraview_web.Common.Result.{Result, ok, err}
use my_paraview_web.Vtu.Faces.{cell_faces, used_once}
use my_paraview_web.Vtu.Cells.{
  Cell, Emitted, Uses, VtuError, unsupported_type, is_flat, is_line, is_vertex, add_cell_of,
  add_cell, add_cells, add_faces, emit_piece,
}
use my_paraview_web.Vtu.Cells.Emission.{extended, flats, boundary, lines, verts, emit_piece_lem}

abbrev pub is_known_of : ℕ → Option (List (List ℕ)) → Bool
is_known_of type (some faces) = true
is_known_of type none = is_flat type || (is_line type || is_vertex type)

abbrev pub is_unknown : Cell → Bool
is_unknown c = not (is_known_of c.type (cell_faces c.type))

abbrev FirstError : Cell → Option (List (List ℕ)) → Result VtuError (Emitted × Uses) → Type 0
FirstError c faces r =
    if is_known_of c.type faces
    then ((next : Emitted × Uses) × (r ≡ ok next))
    else (r ≡ err (unsupported_type c.type))

add_cell_of-FirstError :
    (e : Emitted) (uses : Uses) (c : Cell) (faces : Option (List (List ℕ)))
    → FirstError c faces (add_cell_of e uses c faces)
unfolding add_cell_of
add_cell_of-FirstError e uses c (some faces) = (_, refl)
add_cell_of-FirstError e uses c none = elim (Bool-cases (is_flat c.type)) [
  | inl t ↦ rw t (_, refl)
  | inr not_flat ↦ elim (Bool-cases (is_line c.type)) [
    | inl t ↦ rw (not_flat, t) (_, refl)
    | inr not_line ↦ elim (Bool-cases (is_vertex c.type)) [
      | inl t ↦ rw (not_flat, not_line, t) (_, refl)
      | inr no_vertex ↦ rw (not_flat, not_line, no_vertex) refl
    ]
  ]
]

-- The first cell whose type is in no table decides what the loop throws.
abbrev Outcome : Option Cell → Result VtuError (Emitted × Uses) → Type 0
Outcome none r = (next : Emitted × Uses) × (r ≡ ok next)
Outcome (some c) r = r ≡ err (unsupported_type c.type)

add_cells-Outcome :
    (cells : List Cell) (e : Emitted) (uses : Uses)
    → Outcome (find? is_unknown cells) (add_cells e uses cells)
unfolding add_cells add_cell
add_cells-Outcome [] e uses = (_, refl)
add_cells-Outcome (c ∷ cs) e uses =
    let one = add_cell_of-FirstError e uses c (cell_faces c.type) in
    elim (Bool-cases (is_known_of c.type (cell_faces c.type))) [
      | inl t ↦ let (next, p) = rw t at one in rw (t, p) (add_cells-Outcome cs next.0 next.1)
      | inr f ↦ let p = rw f at one in rw (f, p) refl
    ]

-- The result of a piece, by the first cell of an unknown type.
abbrev pub expected : Emitted → List Cell → Option Cell → Result VtuError Emitted
expected e cells none = ok (extended e (flats cells ++ boundary cells) (lines cells) (verts cells))
expected e cells (some c) = err (unsupported_type c.type)

-- A piece is refused with the type of its first cell whose type is in no table. Where there is no
-- such cell it emits, behind what was emitted before, a polygon for each flat cell, with the swap of a
-- pixel's corners, and behind these each face of the solid cells whose key no second face of the piece
-- has; a line for each line cell, and vertices for each vertex cell; each with its source cell.
pub emit_piece-expected :
    (e : Emitted) (cells : List Cell)
    → emit_piece e cells ≡ expected e cells (find? is_unknown cells)
unfolding emit_piece
emit_piece-expected e cells = by_outcome (find? is_unknown cells) (add_cells-Outcome cells e [])
  where
    by_outcome :
        (first : Option Cell)
        → Outcome first (add_cells e [] cells)
        → emit_piece e cells ≡ expected e cells first
    by_outcome none (next, p) =
        let result : emit_piece e cells ≡ ok (add_faces next.0 (used_once next.1)) = rw p refl in
        result ∙ ap ok (emit_piece_lem e cells result)
    by_outcome (some c) p = rw p refl
