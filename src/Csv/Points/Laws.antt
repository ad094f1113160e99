-- ===== src/Csv/Points/Laws.antt =====
-- Theorems on `csvToPointData` of frontend/src/lib/csvToPoints.ts.
use my_paraview_web.Common.{
  ℕ, ◌+◌, ◌*◌, ◌≤◌, ◌<◌, ◌≡◌, refl, subst, not, ◌&&◌, Option, none, some, List, [], ◌∷◌, is_empty,
  length, length-append, arith, All, Bool-cases, inl, inr, concat_map, get_elem?,
}
use my_paraview_web.Common.Result.{Result, ok, >>=-eq-ok, throw_if, ok-injective}
use my_paraview_web.Csv.Parser.{Cell, parse_csv}
use my_paraview_web.Csv.Points.{
  CsvError, no_points, Coordinates, PointArray, CsvPointData, Accepted, Scan, Column, is_blank,
  number_in, accept_row, scan_row, scan_rows, header_names, add_number, add_cell, fill_column,
  new_column, columns, point_data, scan_body, table_points, csv_to_point_data,
}

module _ {V : Type 0} (to_number : Cell → Option V) (nan : V) (to_float32 : V → V) where
  abbrev scan :
      ℕ → (List Cell → Option (Accepted V)) → Scan V → List (List Cell) → Result CsvError (Scan V)
  scan = scan_rows to_number nan to_float32

  pub record IsScanned (max rows : ℕ) (s : Scan V) : Type 0 where
    pub counted : length s.accepted + s.skipped ≡ rows
    pub bounded : length s.accepted ≤ max

  scan_row-IsScanned :
      (max rows : ℕ) (s : Scan V) (o : Option (Accepted V)) {s' : Scan V}
      → IsScanned max rows s
      → scan_row to_number nan to_float32 max s o ≡ ok s'
      → IsScanned max (rows + 1) s'
  unfolding scan_row
  scan_row-IsScanned max rows s none h e = ground arith
  scan_row-IsScanned max rows s (some a) h e = ground (arith, length-append s.accepted (a ∷ []))

  scan_rows-IsScanned :
      (max rows total : ℕ) (accept : List Cell → Option (Accepted V)) (s : Scan V)
      (body : List (List Cell)) {s' : Scan V}
      → IsScanned max rows s
      → rows + length body ≡ total
      → scan max accept s body ≡ ok s'
      → IsScanned max total s'
  unfolding scan_rows
  scan_rows-IsScanned max rows total accept s [] h sum e = ground arith
  scan_rows-IsScanned max rows total accept s (row ∷ body) h sum e =
      let (next, first, rest) = >>=-eq-ok _ _ e in
      scan_rows-IsScanned max (rows + 1) total accept next body
        (scan_row-IsScanned max rows s (accept row) h first) (omega arith) rest

  length-add_number :
      (c : Column V) (o : Option V)
      → length (add_number to_number nan to_float32 c o).values ≡ length c.values + 1
  length-add_number c none = length-append c.values (nan ∷ [])
  length-add_number c (some v) = length-append c.values (to_float32 v ∷ [])

  length-add_cell :
      (c : Column V) (cell : Option Cell)
      → length (add_cell to_number nan to_float32 c cell).values ≡ length c.values + 1
  unfolding add_cell
  length-add_cell c cell = elim (Bool-cases (is_blank cell)) [
    | inl e ↦ rw e (length-append c.values (nan ∷ []))
    | inr e ↦ rw e (length-add_number c (number_in to_number nan to_float32 cell))
  ]

  length-fill_column :
      (index : ℕ) (c : Column V) (accepted : List (Accepted V))
      → length (fill_column to_number nan to_float32 index c accepted).values
        ≡ length c.values + length accepted
  unfolding fill_column
  length-fill_column index c [] = omega arith
  length-fill_column index c (a ∷ rest) =
      let one = length-add_cell c (get_elem? a.row index) in
      let more =
        length-fill_column index (add_cell to_number nan to_float32 c (get_elem? a.row index))
          rest in
      omega arith

  length-new_fill :
      (index : ℕ) (accepted : List (Accepted V))
      → length
          (fill_column to_number nan to_float32 index
            (new_column to_number nan to_float32)
            accepted).values
        ≡ length accepted
  length-new_fill index accepted =
      let all = length-fill_column index (new_column to_number nan to_float32) accepted in
      omega arith

  pub IsColumn : ℕ → PointArray V → Type 0
  IsColumn n a = length a.values ≡ n

  columns-IsColumn :
      (accepted : List (Accepted V)) (index : ℕ) (names : List Cell)
      → All (IsColumn (length accepted)) (columns to_number nan to_float32 accepted index names).0
  unfolding columns IsColumn
  columns-IsColumn accepted index [] = tt
  columns-IsColumn accepted index (name ∷ names) =
      let rest = columns-IsColumn accepted (index + 1) names in
      let column =
        fill_column to_number nan to_float32 index (new_column to_number nan to_float32) accepted in
      let size = length-new_fill index accepted in
      elim (Bool-cases (not (is_empty name) && column.saw_finite)) [
        | inl e ↦ rw e (size, rest)
        | inr e ↦ rw e rest
      ]

  length-coordinates :
      (accepted : List (Accepted V))
      → length (
          concat_map
            (λ (a : Accepted V). to_float32 a.px ∷ to_float32 a.py ∷ to_float32 a.pz ∷ [])
            accepted)
        ≡ 3 * length accepted
  length-coordinates [] = refl
  length-coordinates (a ∷ rest) = let ih = length-coordinates rest in ground arith

  some_of_thrown :
      (accepted : List (Accepted V)) (error : CsvError) (t : Unit {0})
      → throw_if (is_empty accepted) error ≡ ok t
      → 0 < length accepted
  some_of_thrown [] error t e = cc
  some_of_thrown (a ∷ rest) error t e = omega arith

  -- What a successful conversion of a table of `rows` rows, the header among them, returns.
  pub record IsPointTable (max rows : ℕ) (d : CsvPointData V) : Type 0 where
    pub counted : 1 + d.number_of_points + d.skipped_rows ≡ rows
    pub bounded : d.number_of_points ≤ max
    pub some_point : 0 < d.number_of_points
    pub coordinates : length d.points ≡ 3 * d.number_of_points
    pub arrays_sized : All (IsColumn d.number_of_points) d.arrays

  point_data-IsPointTable :
      (max rows : ℕ) (header : List Cell) (s : Scan V) {d : CsvPointData V}
      → IsScanned max rows s
      → point_data to_number nan to_float32 header s ≡ ok d
      → IsPointTable max (1 + rows) d
  unfolding point_data
  point_data-IsPointTable max rows header s h e =
      let (t, tested, made) = >>=-eq-ok (throw_if (is_empty s.accepted) no_points) _ e in
      subst (λ d. IsPointTable max (1 + rows) d) (ok-injective made)
        (record {
          counted = omega arith;
          bounded = h.bounded;
          some_point = some_of_thrown s.accepted no_points _ tested;
          coordinates = length-coordinates s.accepted;
          arrays_sized = columns-IsColumn s.accepted 0 header;
        })

  scan_body_lem :
      (max : ℕ) (header : List Cell) (body : List (List Cell)) (ix iy iz : Option ℕ)
      {d : CsvPointData V}
      → scan_body to_number nan to_float32 max header body ix iy iz ≡ ok d
      → IsPointTable max (1 + length body) d
  unfolding scan_body
  scan_body_lem max header body (some ix) (some iy) (some iz) e =
      let (s, scanned, made) = >>=-eq-ok _ (point_data to_number nan to_float32 header) e in
      point_data-IsPointTable max (length body) header s
        (scan_rows-IsScanned max 0 (length body) (accept_row to_number nan to_float32 ix iy iz) _
          body (record { counted = refl; bounded = omega arith }) (omega arith) scanned)
        made
  scan_body_lem max header body none iy iz e = cc
  scan_body_lem max header body (some ix) none iz e = cc
  scan_body_lem max header body (some ix) (some iy) none e = cc

  table_points_lem :
      (max : ℕ) (names : Coordinates) (rows : List (List Cell)) {d : CsvPointData V}
      → table_points to_number nan to_float32 max names rows ≡ ok d
      → IsPointTable max (length rows) d
  unfolding table_points
  table_points_lem max names [] e = cc
  table_points_lem max names (first ∷ body) {d} e =
      subst (λ n. IsPointTable max n d) (omega arith)
        (scan_body_lem max (header_names first) body _ _ _ e)

  -- A conversion that succeeds accepts each row below the header or counts it as skipped, keeps the
  -- limit, has one point at least, three coordinates for each, and a value of each array for each.
  pub csv_to_point_data_lem :
      (max : ℕ) (names : Coordinates) (text : List ℕ) {d : CsvPointData V}
      → csv_to_point_data to_number nan to_float32 max names text ≡ ok d
      → IsPointTable max (length (parse_csv text)) d
  unfolding csv_to_point_data
  csv_to_point_data_lem max names text e = table_points_lem max names (parse_csv text) e
