-- ===== src/Csv/Parser.antt =====
-- `parseCsv` of frontend/src/lib/csvToPoints.ts. A string is the list of its code units.
pub mod RoundTrip
use my_paraview_web.Common.{
  ℕ, Bool, true, false, not, ◌&&◌, Option, none, some, List, [], ◌∷◌, ◌++◌, if◌then◌else◌, any,
  is_empty, ◌==◌, ◌≡◌,
}

abbrev pub Cell : Type 0
Cell = List ℕ

abbrev pub quote : ℕ
quote = b'"'

abbrev pub comma : ℕ
comma = b','

abbrev pub newline : ℕ
newline = 10

abbrev pub carriage_return : ℕ
carriage_return = 13

pub record Csv : Type 0 where
  pub rows : List (List Cell)
  pub row : List Cell
  pub value : Cell
  pub quoted : Bool

-- `value.replace(/\r$/, "")`
unfoldable pub strip_cr : Cell → Cell
strip_cr [] = []
strip_cr (c ∷ []) = if c == carriage_return then [] else c ∷ []
strip_cr (c ∷ d ∷ rest) = c ∷ strip_cr (d ∷ rest)

-- the row with its last cell, and `rows` with it unless all its cells are empty
abbrev pub full_row : Csv → List Cell
full_row s = s.row ++ strip_cr s.value ∷ []

abbrev pub add_row : List (List Cell) → List Cell → List (List Cell)
add_row rows row = if any (λ cell. not (is_empty cell)) row then rows ++ row ∷ [] else rows

pub end_row : Csv → Csv
end_row s = record s { rows = add_row s.rows (full_row s); row = []; value = [] }

abbrev pub is_quote : Option ℕ → Bool
is_quote none = false
is_quote (some c) = c == quote

-- One round of the loop, at a code unit and the one behind it; the second result says that this
-- one is passed over too.
pub step : Csv → ℕ → Option ℕ → Csv × Bool
step s c next =
    if s.quoted
    then (if c == quote && is_quote next
        then (record s { value = s.value ++ quote ∷ [] }, true)
        else if c == quote
        then (record s { quoted = false }, false)
        else (record s { value = s.value ++ c ∷ [] }, false))
    else if c == quote
    then (record s { quoted = true }, false)
    else if c == comma
    then (record s { row = s.row ++ s.value ∷ []; value = [] }, false)
    else if c == newline
    then (end_row s, false)
    else (record s { value = s.value ++ c ∷ [] }, false)

pub parse_from : Csv → List ℕ → List (List Cell)
parse_from s [] = (end_row s).rows
parse_from s (c ∷ []) = (end_row (step s c none).0).rows
parse_from s (c ∷ d ∷ rest) =
    let here = step s c (some d) in
    let passed = parse_from here.0 rest in
    let next = parse_from here.0 (d ∷ rest) in if here.1 then passed else next

unfoldable pub parse_csv : List ℕ → List (List Cell)
unfolding parse_from step end_row strip_cr
parse_csv text = parse_from (record { rows = []; row = []; value = []; quoted = false }) text
