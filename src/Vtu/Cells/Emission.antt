-- ===== src/Vtu/Cells/Emission.antt =====
-- What the cells of a piece emit, against a list of its primitives.
use my_paraview_web.Common.{
  ℕ, true, false, Option, none, some, List, [], ◌∷◌, ◌++◌, map, ◌==◌, if◌then◌else◌, ◌≡◌, refl, sym,
  ◌∙◌, ap, filter, concat_map, append_assoc, append-nil, Bool-cases, inl, inr, arith,
}
use my_paraview_web.Common.Result.{ok, >>=-eq-ok, ok-injective}
use my_paraview_web.Vtu.Faces.{Face, cell_faces, face_key, use_faces, used_once}
use my_paraview_web.Vtu.Faces.Once.{occurrences, used_once-new}
use my_paraview_web.Vtu.Faces.Corners.{Corner}
use my_paraview_web.Vtu.Cells.{
  Cell, Emitted, Uses, is_flat, is_line, is_vertex, winding, pushed, faces_of, add_poly, add_line,
  add_vert, add_cell_of, add_cell, add_cells, add_faces, emit_piece,
}

-- The faces of the solid cells, all of them, in the order of the cells.
abbrev pub faces_or_none : Cell → Option (List (List ℕ)) → List Face
faces_or_none c none = []
faces_or_none c (some faces) = faces_of c faces

unfoldable pub all_faces : List Cell → List Face
all_faces = concat_map (λ c. faces_or_none c (cell_faces c.type))

-- The faces that no second face of the piece shares its key with.
unfoldable pub boundary : List Cell → List Face
unfolding all_faces
boundary cells = filter (λ f. occurrences (face_key f.ids) (all_faces cells) == 1) (all_faces cells)

-- The polygons of the flat cells.
abbrev pub flat_of : Cell → Option (List (List ℕ)) → List Face
flat_of c (some faces) = []
flat_of c none =
    if is_flat c.type then record { ids = winding c.type c.ids; cell = c.global } ∷ [] else []

unfoldable pub flats : List Cell → List Face
flats = concat_map (λ c. flat_of c (cell_faces c.type))

abbrev pub line_of : Cell → List Face
line_of c = if is_line c.type then record { ids = c.ids; cell = c.global } ∷ [] else []

unfoldable pub lines : List Cell → List Face
lines = concat_map line_of

abbrev pub vert_of : Cell → List Face
vert_of c = if is_vertex c.type then record { ids = c.ids; cell = c.global } ∷ [] else []

unfoldable pub verts : List Cell → List Face
verts = concat_map vert_of

-- The array layout of primitives, and the cells that they come from.
abbrev pub layout : List Face → List Corner
layout = concat_map (λ f. pushed f.ids)

abbrev pub sources : List Face → List ℕ
sources = map (λ f. f.cell)

-- What stands in the arrays after some primitives are pushed.
abbrev pub extended : Emitted → List Face → List Face → List Face → Emitted
extended e polys ls vs = record {
  poly_ids = e.poly_ids ++ layout polys;
  line_ids = e.line_ids ++ layout ls;
  vert_ids = e.vert_ids ++ layout vs;
  poly_sources = e.poly_sources ++ sources polys;
  line_sources = e.line_sources ++ sources ls;
  vert_sources = e.vert_sources ++ sources vs;
}

layout-append : (xs ys : List Face) → layout (xs ++ ys) ≡ layout xs ++ layout ys
layout-append [] ys = refl
layout-append (x ∷ xs) ys =
    ap (pushed x.ids ++◌) (layout-append xs ys)
    ∙ sym (append_assoc (pushed x.ids) (layout xs) (layout ys))

sources-append : (xs ys : List Face) → sources (xs ++ ys) ≡ sources xs ++ sources ys
sources-append [] ys = refl
sources-append (x ∷ xs) ys = ap (x.cell ∷◌) (sources-append xs ys)

extended_nothing : (e : Emitted) → extended e [] [] [] ≡ e
extended_nothing e =
    rw
      (
        append-nil e.poly_ids,
        append-nil e.line_ids,
        append-nil e.vert_ids,
        append-nil e.poly_sources,
        append-nil e.line_sources,
        append-nil e.vert_sources,
      )
      refl

more_ids :
    (ids : List Corner) (xs ys : List Face)
    → (ids ++ layout xs) ++ layout ys ≡ ids ++ layout (xs ++ ys)
more_ids ids xs ys =
    append_assoc ids (layout xs) (layout ys) ∙ ap (ids ++◌) (sym (layout-append xs ys))

more_sources :
    (cells : List ℕ) (xs ys : List Face)
    → (cells ++ sources xs) ++ sources ys ≡ cells ++ sources (xs ++ ys)
more_sources cells xs ys =
    append_assoc cells (sources xs) (sources ys) ∙ ap (cells ++◌) (sym (sources-append xs ys))

extended_twice :
    (e : Emitted) (ps ls vs ps' ls' vs' : List Face)
    → extended (extended e ps ls vs) ps' ls' vs' ≡ extended e (ps ++ ps') (ls ++ ls') (vs ++ vs')
extended_twice e ps ls vs ps' ls' vs' =
    rw
      (
        more_ids e.poly_ids ps ps',
        more_ids e.line_ids ls ls',
        more_ids e.vert_ids vs vs',
        more_sources e.poly_sources ps ps',
        more_sources e.line_sources ls ls',
        more_sources e.vert_sources vs vs',
      )
      refl

-- No type stands in two of the tables.
solid_only :
    (type : ℕ) {faces : List (List ℕ)}
    → cell_faces type ≡ some faces
    → (is_line type ≡ false) × (is_vertex type ≡ false)
unfolding cell_faces
solid_only type h = ground arith

flat_only : (type : ℕ) → is_flat type ≡ true → (is_line type ≡ false) × (is_vertex type ≡ false)
flat_only type h = ground arith

line_only : (type : ℕ) → is_line type ≡ true → is_vertex type ≡ false
line_only type h = ground arith

polygon : (e : Emitted) (f : Face) → add_poly e f.ids f.cell ≡ extended e (f ∷ []) [] []
polygon e f =
    rw
      (
        append-nil e.line_ids,
        append-nil e.vert_ids,
        append-nil e.line_sources,
        append-nil e.vert_sources,
        append-nil (pushed f.ids),
      )
      refl

polyline : (e : Emitted) (f : Face) → add_line e f.ids f.cell ≡ extended e [] (f ∷ []) []
polyline e f =
    rw
      (
        append-nil e.poly_ids,
        append-nil e.vert_ids,
        append-nil e.poly_sources,
        append-nil e.vert_sources,
        append-nil (pushed f.ids),
      )
      refl

vertices : (e : Emitted) (f : Face) → add_vert e f.ids f.cell ≡ extended e [] [] (f ∷ [])
vertices e f =
    rw
      (
        append-nil e.poly_ids,
        append-nil e.line_ids,
        append-nil e.poly_sources,
        append-nil e.line_sources,
        append-nil (pushed f.ids),
      )
      refl

-- What one cell adds.
added_by : Emitted → Uses → Cell → Option (List (List ℕ)) → Emitted × Uses
added_by e uses c faces =
    (extended e (flat_of c faces) (line_of c) (vert_of c), use_faces uses (faces_or_none c faces))

use_faces-nil : (uses : Uses) → use_faces uses [] ≡ uses
unfolding use_faces
use_faces-nil uses = refl

add_cell_of_lem :
    (e : Emitted) (uses : Uses) (c : Cell) (faces : Option (List (List ℕ))) {next : Emitted × Uses}
    → cell_faces c.type ≡ faces
    → add_cell_of e uses c faces ≡ ok next
    → next ≡ added_by e uses c faces
unfolding add_cell_of added_by
add_cell_of_lem e uses c (some faces) q h =
    let (no_line, no_vertex) = solid_only c.type q in
    sym (ok-injective h) ∙ (rw (no_line, no_vertex, extended_nothing e) refl)
add_cell_of_lem e uses c none q h = elim (Bool-cases (is_flat c.type)) [
  | inl t ↦
      let (no_line, no_vertex) = flat_only c.type t in
      let this : Face = record { ids = winding c.type c.ids; cell = c.global } in
      let done = rw t at h in
      sym (ok-injective done)
      ∙ (rw (t, no_line, no_vertex, use_faces-nil uses) (ap (λ x. (x, uses)) (polygon e this)))
  | inr not_flat ↦ elim (Bool-cases (is_line c.type)) [
    | inl t ↦
        let no_vertex = line_only c.type t in
        let this : Face = record { ids = c.ids; cell = c.global } in
        let done = rw (not_flat, t) at h in
        sym (ok-injective done)
        ∙ (rw (not_flat, t, no_vertex, use_faces-nil uses) (ap (λ x. (x, uses)) (polyline e this)))
    | inr not_line ↦ elim (Bool-cases (is_vertex c.type)) [
      | inl t ↦
          let this : Face = record { ids = c.ids; cell = c.global } in
          let done = rw (not_flat, not_line, t) at h in
          sym (ok-injective done)
          ∙ (rw (not_flat, not_line, t, use_faces-nil uses) (ap (λ x. (x, uses)) (vertices e this)))
      | inr no_vertex ↦ let done = rw (not_flat, not_line, no_vertex) at h in cc
    ]
  ]
]

use_faces-append :
    (xs ys : List Face) (uses : Uses) → use_faces uses (xs ++ ys) ≡ use_faces (use_faces uses xs) ys
unfolding use_faces
use_faces-append [] ys uses = refl
use_faces-append (x ∷ xs) ys uses = use_faces-append xs ys _

add_cells_lem :
    (cells : List Cell) (e : Emitted) (uses : Uses) {next : Emitted × Uses}
    → add_cells e uses cells ≡ ok next
    → next
      ≡ (extended e (flats cells) (lines cells) (verts cells), use_faces uses (all_faces cells))
unfolding add_cells flats lines verts all_faces add_cell added_by
add_cells_lem [] e uses h =
    sym (ok-injective h) ∙ (rw (extended_nothing e, use_faces-nil uses) refl)
add_cells_lem (c ∷ cs) e uses h =
    let (next, one, rest) = >>=-eq-ok (add_cell e uses c) _ h in
    let step = add_cell_of_lem e uses c (cell_faces c.type) refl one in
    add_cells_lem cs next.0 next.1 rest ∙ (rw step (both c cs e uses))
  where
    both :
        (c : Cell) (cs : List Cell) (e : Emitted) (uses : Uses)
        → let step = added_by e uses c (cell_faces c.type) in
          (◌≡◌ {A = Emitted × Uses}
            (extended step.0 (flats cs) (lines cs) (verts cs), use_faces step.1 (all_faces cs))
            (
              extended e (flats (c ∷ cs)) (lines (c ∷ cs)) (verts (c ∷ cs)),
              use_faces uses (all_faces (c ∷ cs)),
            ))
    both c cs e uses =
        rw
          (
            extended_twice e (flat_of c (cell_faces c.type)) (line_of c) (vert_of c) (flats cs)
                (lines cs) (verts cs),
            use_faces-append (faces_or_none c (cell_faces c.type)) (all_faces cs) uses,
          )
          refl

add_faces_lem : (fs : List Face) (e : Emitted) → add_faces e fs ≡ extended e fs [] []
unfolding add_faces
add_faces_lem [] e = sym (extended_nothing e)
add_faces_lem (f ∷ fs) e =
    add_faces_lem fs (add_poly e f.ids f.cell)
    ∙ ap (λ x. extended x fs [] []) (polygon e f)
    ∙ extended_twice e (f ∷ []) [] [] fs [] []

-- What a piece emits is behind what was emitted before: a polygon for each flat cell, with the swap
-- of a pixel's corners, and behind these each face of the solid cells whose key no second face of the
-- piece has; a line for each line cell, and vertices for each vertex cell; each with its source cell.
pub emit_piece_lem :
    (e : Emitted) (cells : List Cell) {out : Emitted}
    → emit_piece e cells ≡ ok out
    → out ≡ extended e (flats cells ++ boundary cells) (lines cells) (verts cells)
unfolding emit_piece boundary
emit_piece_lem e cells h =
    let (next, added, rest) = >>=-eq-ok (add_cells e [] cells) _ h in
    let step = add_cells_lem cells e [] added in
    let all = extended e (flats cells) (lines cells) (verts cells) in
    let twice = extended_twice e (flats cells) (lines cells) (verts cells) (boundary cells) [] [] in
    sym (ok-injective rest)
    ∙ ap (λ (n : Emitted × Uses). add_faces n.0 (used_once n.1)) step
    ∙ ap (add_faces all) (used_once-new (all_faces cells))
    ∙ add_faces_lem (boundary cells) all
    ∙ rw (append-nil (lines cells), append-nil (verts cells)) at twice
