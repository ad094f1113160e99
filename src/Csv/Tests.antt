-- ===== src/Csv/Tests.antt =====
-- Runs of the CSV reader at concrete inputs.
use my_paraview_web.Common.{
  ℕ, ◌≡◌, refl, Option, none, some, List, [], ◌∷◌, All, if◌then◌else◌, leb, ◌&&◌, ◌-◌,
}
use my_paraview_web.Common.Result.{ok}
use my_paraview_web.Csv.Parser.{Cell, comma, newline, quote, strip_cr, parse_csv}
use my_paraview_web.Csv.Parser.RoundTrip.{IsKept, format_csv, parse_csv-format_csv}
use my_paraview_web.Csv.Points.{Coordinates, CsvPointData, csv_to_point_data, max_csv_points}

-- Two rows, with a quote, a comma and a line end in their cells.
abbrev quoted_rows : List (List Cell)
quoted_rows = ((quote ∷ 97 ∷ []) ∷ (98 ∷ comma ∷ []) ∷ []) ∷ ((newline ∷ []) ∷ [] ∷ []) ∷ []

quoted_rows-IsKept : All IsKept quoted_rows
unfolding strip_cr
quoted_rows-IsKept = ((refl, refl), ((refl, refl), tt))

parse_csv-format_csv_example : parse_csv (format_csv quoted_rows) ≡ quoted_rows
parse_csv-format_csv_example = parse_csv-format_csv quoted_rows quoted_rows-IsKept

-- A cell of one digit is a number.
abbrev digit_value : Cell → Option ℕ
digit_value (c ∷ []) = if◌then◌else◌ (leb 48 c && leb c 57) (some (c - 48)) none
digit_value _ = none

-- x,y,z and a row of numbers, and a row that lacks one.
abbrev small_table : List ℕ
small_table =
    b'x' ∷ comma ∷ b'y' ∷ comma ∷ b'z' ∷ newline ∷ b'1' ∷ comma ∷ b'2' ∷ comma ∷ b'3' ∷ newline
    ∷ b'4' ∷ comma ∷ b'5' ∷ comma ∷ newline ∷ []

abbrev xyz : Coordinates
xyz = record { x = b'x' ∷ []; y = b'y' ∷ []; z = b'z' ∷ [] }

abbrev small_data : CsvPointData ℕ
small_data = record {
  points = 1 ∷ 2 ∷ 3 ∷ [];
  arrays =
      record { name = b'x' ∷ []; values = 1 ∷ [] }
      ∷ record { name = b'y' ∷ []; values = 2 ∷ [] }
      ∷ record { name = b'z' ∷ []; values = 3 ∷ [] }
      ∷ [];
  number_of_points = 1;
  skipped_rows = 1;
  invalid_scalar_cells = 0;
}

small_table_read :
    csv_to_point_data digit_value 99 (λ v. v) max_csv_points xyz small_table ≡ ok small_data
unfolding csv_to_point_data
small_table_read = refl
