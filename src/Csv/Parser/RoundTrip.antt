-- ===== src/Csv/Parser/RoundTrip.antt =====
-- A writer of CSV, and `parseCsv` of frontend/src/lib/csvToPoints.ts on what it writes.
use my_paraview_web.Common.{
  ℕ, ◌≡◌, refl, sym, ◌∙◌, ap, Bool, true, false, not, Option, none, some, List, [], ◌∷◌, ◌++◌,
  if◌then◌else◌, any, is_empty, ◌==◌, ==_iff, append_assoc, append-nil, All, Bool-cases, inl, inr,
}
use my_paraview_web.Csv.Parser.{
  Cell, quote, comma, newline, carriage_return, Csv, strip_cr, add_row, end_row, is_quote, step,
  parse_from, parse_csv,
}

-- A cell between quotes, its own quotes doubled.
escape : Cell → List ℕ
escape [] = []
escape (c ∷ cs) = if c == quote then quote ∷ quote ∷ escape cs else c ∷ escape cs

pub format_cell : Cell → List ℕ
unfolding escape
format_cell cell = quote ∷ (escape cell ++ quote ∷ [])

pub format_row : List Cell → List ℕ
format_row [] = []
format_row (cell ∷ []) = format_cell cell
format_row (cell ∷ more ∷ cells) = format_cell cell ++ comma ∷ format_row (more ∷ cells)

unfoldable pub format_csv : List (List Cell) → List ℕ
unfolding format_row format_cell
format_csv [] = []
format_csv (row ∷ rows) = format_row row ++ newline ∷ format_csv rows

abbrev head_of : List ℕ → Option ℕ
head_of [] = none
head_of (c ∷ _) = some c

parse_from-cons :
    (s : Csv) (c : ℕ) (t : List ℕ)
    → (step s c (head_of t)).1 ≡ false
    → parse_from s (c ∷ t) ≡ parse_from (step s c (head_of t)).0 t
unfolding parse_from
parse_from-cons s c [] h = refl
parse_from-cons s c (d ∷ t) h = rw h

-- No quote stands at the head.
abbrev NoQuote : List ℕ → Type 0
NoQuote t = is_quote (head_of t) ≡ false

state : List (List Cell) → List Cell → Cell → Bool → Csv
state rows row value quoted = record { rows = rows; row = row; value = value; quoted = quoted }

step-other :
    (rows : List (List Cell)) (row : List Cell) (value : Cell) (c : ℕ) (next : Option ℕ)
    → (c == quote) ≡ false
    → step (state rows row value true) c next ≡ (state rows row (value ++ c ∷ []) true, false)
unfolding step state
step-other rows row value c next h = rw h

parse-doubled :
    (rows : List (List Cell)) (row : List Cell) (value : Cell) (rest : List ℕ)
    → parse_from (state rows row value true) (quote ∷ quote ∷ rest)
      ≡ parse_from (state rows row (value ++ quote ∷ []) true) rest
unfolding parse_from step state
parse-doubled rows row value rest = refl

parse-other :
    (rows : List (List Cell)) (row : List Cell) (value : Cell) (c : ℕ) (rest : List ℕ)
    → (c == quote) ≡ false
    → parse_from (state rows row value true) (c ∷ rest)
      ≡ parse_from (state rows row (value ++ c ∷ []) true) rest
parse-other rows row value c rest h =
    let one = step-other rows row value c (head_of rest) h in
    parse_from-cons (state rows row value true) c rest (ap (λ r. r.1) one)
    ∙ ap (λ r. parse_from r.0 rest) one

parse-closing :
    (rows : List (List Cell)) (row : List Cell) (value : Cell) (rest : List ℕ)
    → NoQuote rest
    → parse_from (state rows row value true) (quote ∷ rest)
      ≡ parse_from (state rows row value false) rest
unfolding step state
parse-closing rows row value rest h =
    rw (parse_from-cons (state rows row value true) quote rest (rw h refl), h)

parse-escaped :
    (rows : List (List Cell)) (row : List Cell) (value cell : Cell) (rest : List ℕ)
    → NoQuote rest
    → parse_from (state rows row value true) (escape cell ++ quote ∷ rest)
      ≡ parse_from (state rows row (value ++ cell) false) rest
unfolding escape
parse-escaped rows row value [] rest h = rw append-nil (parse-closing rows row value rest h)
parse-escaped rows row value (c ∷ cs) rest h =
    let regroup = append_assoc value (c ∷ []) cs in
    elim (Bool-cases (c == quote)) [
      | inl is ↦
          let same : c ≡ quote = (==_iff c quote).0 is in
          rw (is, ← regroup, same)
            (parse-doubled rows row value (escape cs ++ quote ∷ rest)
              ∙ parse-escaped rows row (value ++ quote ∷ []) cs rest h)
      | inr is_not ↦
          rw (is_not, ← regroup)
            (parse-other rows row value c (escape cs ++ quote ∷ rest) is_not
              ∙ parse-escaped rows row (value ++ c ∷ []) cs rest h)
    ]

parse-cell :
    (rows : List (List Cell)) (row : List Cell) (cell : Cell) (rest : List ℕ)
    → NoQuote rest
    → parse_from (state rows row [] false) (format_cell cell ++ rest)
      ≡ parse_from (state rows row cell false) rest
unfolding format_cell state step
parse-cell rows row cell rest h =
    parse_from-cons (state rows row [] false) quote ((escape cell ++ quote ∷ []) ++ rest) refl
    ∙ (rw (append_assoc (escape cell) (quote ∷ []) rest) (parse-escaped rows row [] cell rest h))

parse-comma :
    (rows : List (List Cell)) (row : List Cell) (cell : Cell) (rest : List ℕ)
    → parse_from (state rows row cell false) (comma ∷ rest)
      ≡ parse_from (state rows (row ++ cell ∷ []) [] false) rest
unfolding state step
parse-comma rows row cell rest = parse_from-cons (state rows row cell false) comma rest refl

parse-newline :
    (rows : List (List Cell)) (row : List Cell) (cell : Cell) (rest : List ℕ)
    → parse_from (state rows row cell false) (newline ∷ rest)
      ≡ parse_from (state (add_row rows (row ++ strip_cr cell ∷ [])) [] [] false) rest
unfolding state step end_row
parse-newline rows row cell rest = parse_from-cons (state rows row cell false) newline rest refl

-- The row has a cell, and its last cell does not end in a carriage return.
abbrev pub LastKept : List Cell → Type 0
LastKept [] = ⊥
LastKept (cell ∷ []) = strip_cr cell ≡ cell
LastKept (cell ∷ more ∷ cells) = LastKept (more ∷ cells)

parse-row :
    (rows : List (List Cell)) (row cells : List Cell) (rest : List ℕ)
    → LastKept cells
    → parse_from (state rows row [] false) (format_row cells ++ newline ∷ rest)
      ≡ parse_from (state (add_row rows (row ++ cells)) [] [] false) rest
unfolding format_row
parse-row rows row [] rest h = absurd h
parse-row rows row (cell ∷ []) rest h =
    parse-cell rows row cell (newline ∷ rest) refl ∙ (rw (parse-newline rows row cell rest, h) refl)
parse-row rows row (cell ∷ more ∷ cells) rest h =
    let tail = format_row (more ∷ cells) ++ newline ∷ rest in
    rw
      (
        append_assoc (format_cell cell) (comma ∷ format_row (more ∷ cells)) (newline ∷ rest),
        ← append_assoc row (cell ∷ []) (more ∷ cells),
      )
      (parse-cell rows row cell (comma ∷ tail) refl
        ∙ parse-comma rows row cell tail
        ∙ parse-row rows (row ++ cell ∷ []) (more ∷ cells) rest h)

-- A row that the reader keeps: some cell is not empty, and the last one keeps its end.
abbrev pub IsKept : List Cell → Type 0
IsKept row = LastKept row × (any (λ cell. not (is_empty cell)) row ≡ true)

parse-rows :
    (done rows : List (List Cell))
    → All IsKept rows
    → parse_from (state done [] [] false) (format_csv rows) ≡ done ++ rows
unfolding format_csv state end_row parse_from strip_cr
parse-rows done [] h = sym (append-nil done)
parse-rows done (row ∷ rows) ((kept, some_cell), h) =
    parse-row done [] row (format_csv rows) kept
    ∙ (rw some_cell (parse-rows (done ++ row ∷ []) rows h ∙ append_assoc done (row ∷ []) rows))

-- Rows that are written with every cell between quotes are read back, whatever commas, quotes and
-- line ends their cells hold, if each row has a cell that is not empty and its last cell does not
-- end in a carriage return.
pub parse_csv-format_csv :
    (rows : List (List Cell)) → All IsKept rows → parse_csv (format_csv rows) ≡ rows
unfolding parse_csv state
parse_csv-format_csv rows h = parse-rows [] rows h

strip_cr-append : (cell : Cell) → strip_cr (cell ++ carriage_return ∷ []) ≡ cell
unfolding strip_cr
strip_cr-append [] = refl
strip_cr-append (c ∷ []) = refl
strip_cr-append (c ∷ d ∷ cell) = ap (c ∷◌) (strip_cr-append (d ∷ cell))

-- A carriage return at the end of a row's only cell is lost even where it stands between quotes.
pub parse_csv-carriage_return :
    (cell : Cell)
    → is_empty cell ≡ false
    → parse_csv (format_csv (((cell ++ carriage_return ∷ []) ∷ []) ∷ [])) ≡ (cell ∷ []) ∷ []
unfolding parse_csv state format_csv end_row parse_from strip_cr
parse_csv-carriage_return cell h =
    let long = cell ++ carriage_return ∷ [] in
    parse-cell [] [] long (newline ∷ []) refl
    ∙ parse-newline [] [] long []
    ∙ (rw (strip_cr-append cell, h) refl)
