-- ===== src/Csv/Points.antt =====
-- `csvToPointData` of frontend/src/lib/csvToPoints.ts. What `Number` makes of a cell is a parameter:
-- its value, or `none` where it is not finite. A Float32Array's values are of the type `V`.
pub mod Laws
pub mod Trim
use my_paraview_web.Common.{
  ℕ, suc, ◌+◌, ◌*◌, Bool, true, false, not, ◌&&◌, ◌||◌, Option, none, some, List, [], ◌∷◌, ◌++◌,
  map, ltb, leb, if◌then◌else◌, any, is_empty, length, get_elem?, concat_map, ◌==◌,
}
use mathlib.Core.List.{reverse}
use my_paraview_web.Common.Result.{Result, ok, err, ◌>>=◌, ◌>>◌, throw_if}
use my_paraview_web.Csv.Parser.{Cell, parse_csv}

pub data CsvError : Type 0 where
  empty no_column too_many_points no_points : CsvError

pub record Coordinates : Type 0 where
  pub x : Cell
  pub y : Cell
  pub z : Cell

pub record PointArray (V : Type 0) : Type 0 where
  pub name : Cell
  pub values : List V

pub record CsvPointData (V : Type 0) : Type 0 where
  pub points : List V
  pub arrays : List (PointArray V)
  pub number_of_points : ℕ
  pub skipped_rows : ℕ
  pub invalid_scalar_cells : ℕ

-- A row with three finite coordinates.
pub record Accepted (V : Type 0) : Type 0 where
  pub row : List Cell
  pub px : V
  pub py : V
  pub pz : V

-- `accepted` and `skippedRows`
pub record Scan (V : Type 0) : Type 0 where
  pub accepted : List (Accepted V)
  pub skipped : ℕ

-- `values`, `sawFinite` and `columnInvalidCells`
pub record Column (V : Type 0) : Type 0 where
  pub values : List V
  pub saw_finite : Bool
  pub invalid : ℕ

-- White space and line ends, as `String.prototype.trim` knows them.
pub is_space : ℕ → Bool
is_space c =
    leb 9 c && leb c 13
    || (c == 32
        || (c == 160
            || (c == 0x1680
                || (leb 0x2000 c && leb c 0x200a
                    || (c == 0x2028
                        || (c == 0x2029
                            || (c == 0x202f || (c == 0x205f || (c == 0x3000 || c == 0xfeff)))))))))

pub trim_start : Cell → Cell
trim_start [] = []
trim_start (c ∷ cs) = if is_space c then trim_start cs else c ∷ cs

unfoldable pub trim : Cell → Cell
unfolding trim_start is_space
trim cell = reverse (trim_start (reverse (trim_start cell)))

-- `name.replace(/^\uFEFF/, "")`
pub strip_bom : Cell → Cell
strip_bom [] = []
strip_bom (c ∷ cs) = if c == 0xfeff then cs else c ∷ cs

pub header_names : List Cell → List Cell
header_names [] = []
header_names (first ∷ rest) = trim (strip_bom first) ∷ map trim rest

pub same_cell : Cell → Cell → Bool
same_cell [] [] = true
same_cell (c ∷ cs) (d ∷ ds) = c == d && same_cell cs ds
same_cell _ _ = false

-- `header.indexOf(name)`; `none` is -1
abbrev pub next_index : Option ℕ → Option ℕ
next_index none = none
next_index (some i) = some (suc i)

pub index_of : Cell → List Cell → Option ℕ
index_of name [] = none
index_of name (h ∷ hs) = if same_cell h name then some 0 else next_index (index_of name hs)

-- `cell === undefined || cell.trim() === ""`
abbrev pub is_blank : Option Cell → Bool
is_blank none = true
is_blank (some cell) = is_empty (trim cell)

module _ {V : Type 0} (to_number : Cell → Option V) (nan : V) (to_float32 : V → V) where
  abbrev pub number_in : Option Cell → Option V
  number_in none = none
  number_in (some cell) = to_number cell

  pub finite_cell : Option Cell → Option V
  finite_cell cell = if is_blank cell then none else number_in cell

  abbrev pub accepted_of : List Cell → Option V → Option V → Option V → Option (Accepted V)
  accepted_of row (some a) (some b) (some c) = some (record { row = row; px = a; py = b; pz = c })
  accepted_of row _ _ _ = none

  pub accept_row : ℕ → ℕ → ℕ → List Cell → Option (Accepted V)
  accept_row ix iy iz row =
      accepted_of row (finite_cell (get_elem? row ix)) (finite_cell (get_elem? row iy))
        (finite_cell (get_elem? row iz))

  -- one round of the loop over the rows
  pub scan_row : ℕ → Scan V → Option (Accepted V) → Result CsvError (Scan V)
  scan_row max s none = ok (record s { skipped = s.skipped + 1 })
  scan_row max s (some a) =
      let more = s.accepted ++ a ∷ [] in
      throw_if (ltb max (length more)) too_many_points >> ok (record s { accepted = more })

  pub scan_rows :
      ℕ → (List Cell → Option (Accepted V)) → Scan V → List (List Cell) → Result CsvError (Scan V)
  scan_rows max accept s [] = ok s
  scan_rows max accept s (row ∷ rows) =
      scan_row max s (accept row) >>= λ next. scan_rows max accept next rows

  -- one round of the loop over the accepted rows, at a column's cell
  abbrev pub add_number : Column V → Option V → Column V
  add_number c none = record c { values = c.values ++ nan ∷ []; invalid = c.invalid + 1 }
  add_number c (some v) = record c { values = c.values ++ to_float32 v ∷ []; saw_finite = true }

  pub add_cell : Column V → Option Cell → Column V
  add_cell c cell =
      if is_blank cell
      then record c { values = c.values ++ nan ∷ [] }
      else add_number c (number_in cell)

  pub fill_column : ℕ → Column V → List (Accepted V) → Column V
  fill_column index c [] = c
  fill_column index c (a ∷ rest) = fill_column index (add_cell c (get_elem? a.row index)) rest

  abbrev pub new_column : Column V
  new_column = record { values = []; saw_finite = false; invalid = 0 }

  -- the loop over the header; the second result counts the invalid cells
  pub columns : List (Accepted V) → ℕ → List Cell → List (PointArray V) × ℕ
  columns accepted index [] = ([], 0)
  columns accepted index (name ∷ names) =
      let rest = columns accepted (index + 1) names in
      let column = fill_column index new_column accepted in
      if not (is_empty name) && column.saw_finite
      then (record { name = name; values = column.values } ∷ rest.0, column.invalid + rest.1)
      else rest

  pub point_data : List Cell → Scan V → Result CsvError (CsvPointData V)
  point_data header s =
      let arrays = columns s.accepted 0 header in
      throw_if (is_empty s.accepted) no_points
      >> ok (record {
        points =
            concat_map (λ a. to_float32 a.px ∷ to_float32 a.py ∷ to_float32 a.pz ∷ []) s.accepted;
        arrays = arrays.0;
        number_of_points = length s.accepted;
        skipped_rows = s.skipped;
        invalid_scalar_cells = arrays.1;
      })

  pub scan_body :
      ℕ
      → List Cell
      → List (List Cell)
      → Option ℕ
      → Option ℕ
      → Option ℕ
      → Result CsvError (CsvPointData V)
  scan_body max header body (some ix) (some iy) (some iz) =
      scan_rows max (accept_row ix iy iz) (record { accepted = []; skipped = 0 }) body
      >>= point_data header
  scan_body max header body _ _ _ = err no_column

  pub table_points : ℕ → Coordinates → List (List Cell) → Result CsvError (CsvPointData V)
  table_points max names [] = err empty
  table_points max names (first ∷ body) =
      let header = header_names first in
      scan_body max header body (index_of names.x header) (index_of names.y header)
        (index_of names.z header)

  unfoldable pub csv_to_point_data : ℕ → Coordinates → List ℕ → Result CsvError (CsvPointData V)
  unfolding parse_csv table_points scan_body header_names strip_bom trim index_of same_cell
      scan_rows scan_row accept_row finite_cell fill_column add_cell columns point_data
  csv_to_point_data max names text = table_points max names (parse_csv text)

-- the default of `maxPoints`
abbrev pub max_csv_points : ℕ
max_csv_points = 250000
