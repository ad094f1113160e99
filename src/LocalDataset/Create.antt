-- ===== src/LocalDataset/Create.antt =====
-- createLocalDataset of frontend/src/lib/localDataset.ts. An object URL is made by a function of the
-- count of those made before; the result lists the URLs that were made, whether or not an error was
-- thrown. The document of a PVD file is a parameter: `none` where it is no collection, else the
-- attributes of its DataSet elements. Times are of a type `N` with the operators of the language.
use my_paraview_web.Common.{
  ℕ, zero, suc, ◌+◌, Bool, true, false, not, ◌&&◌, Option, none, some, List, [], ◌∷◌, ◌++◌, any,
  all, is_empty, length, take, leb, ◌==◌, if◌then◌else◌,
}
use my_paraview_web.Common.Eq.{Text, Units_eq}
use my_paraview_web.Common.Result.{Result, ok, err, ◌>>=◌, ◌>>◌, throw_if}
use my_paraview_web.Csv.Parser.{parse_csv}
use my_paraview_web.Csv.Points.{trim, header_names}
use my_paraview_web.LocalDataset.Paths.{
  LocalFile, BrowserType, Classification, collection_file, server_file,
}

-- `LocalDatasetErrorCode` with the details
pub data LocalError : Type 0 where
  no_files invalid_pvd empty_csv : LocalError
  unsupported server_only missing_files needs_descriptor : List Text → LocalError

pub record PvdElement : Type 0 where
  pub file : Option Text
  pub timestep : Option Text

pub record PvdStep (N : Type 0) : Type 0 where
  pub time : N
  pub file : Text

pub record Collection (N : Type 0) : Type 0 where
  pub steps : List (PvdStep N)
  pub skipped_parts : ℕ

-- What `Number` makes of a text and of a count, and the operators on numbers
pub record Times (N : Type 0) : Type 0 where
  pub number_of : Text → N
  pub count : ℕ → N
  pub is_finite : N → Bool
  -- the equality of the keys of a Map
  pub same : N → N → Bool
  pub less : N → N → Bool

abbrev pub trimmed_or_empty : Option Text → Text
trimmed_or_empty none = []
trimmed_or_empty (some t) = trim t

module _ {N : Type 0} (times : Times N) where
  abbrev pub time_of : Option Text → ℕ → N
  time_of none size = times.count size
  time_of (some raw) size = if is_empty (trim raw) then times.count size else times.number_of raw

  -- the round of the loop for an element with a file, and the rest of the loop
  abbrev pub add_step :
      (Collection N → Result LocalError (Collection N))
      → N
      → Text
      → Collection N
      → Result LocalError (Collection N)
  add_step rest time file c =
      if not (times.is_finite time)
      then err invalid_pvd
      else if any (λ s. times.same s.time time) c.steps
      then rest (record c { skipped_parts = c.skipped_parts + 1 })
      else rest (record c { steps = c.steps ++ record { time = time; file = file } ∷ [] })

  pub collect_steps : List PvdElement → Collection N → Result LocalError (Collection N)
  collect_steps [] c = ok c
  collect_steps (e ∷ es) c =
      let file = trimmed_or_empty e.file in
      let rest = collect_steps es in
      if is_empty file then rest c else add_step rest (time_of e.timestep (length c.steps)) file c

  -- `sort((left, right) => left.time - right.time)`, which keeps the order of equal times
  unfoldable pub insert_step : PvdStep N → List (PvdStep N) → List (PvdStep N)
  insert_step s [] = s ∷ []
  insert_step s (t ∷ ts) =
      let behind = insert_step s ts in if times.less t.time s.time then t ∷ behind else s ∷ t ∷ ts

  unfoldable pub sort_steps : List (PvdStep N) → List (PvdStep N)
  sort_steps [] = []
  sort_steps (s ∷ ss) = insert_step s (sort_steps ss)

  -- `parsePvdCollection`
  unfoldable pub parse_pvd_collection : Option (List PvdElement) → Result LocalError (Collection N)
  unfolding collect_steps insert_step sort_steps
  parse_pvd_collection none = err invalid_pvd
  parse_pvd_collection (some elements) = do
    c ← collect_steps elements (record { steps = []; skipped_parts = 0 })
    throw_if (is_empty c.steps) invalid_pvd
    ok (record c { steps = sort_steps c.steps })

pub record Column : Type 0 where
  pub name : Text
  pub is_numeric : Bool

abbrev pub cell_at : List Text → ℕ → Option Text
cell_at [] i = none
cell_at (c ∷ cs) zero = some c
cell_at (c ∷ cs) (suc i) = cell_at cs i

-- the cells of a column that are neither missing nor blank
pub column_cells : List (List Text) → ℕ → List Text
column_cells [] i = []
column_cells (row ∷ rows) i =
    let rest = column_cells rows i in
    elim (cell_at row i) [ none ↦ rest | some c ↦ if is_empty (trim c) then rest else c ∷ rest ]

module _ (is_number : Text → Bool) where
  pub columns_from : List Text → List (List Text) → ℕ → List Column
  columns_from [] sample i = []
  columns_from (name ∷ names) sample i =
      let cells = column_cells sample i in
      record { name = name; is_numeric = not (is_empty cells) && all is_number cells }
      ∷ columns_from names sample (i + 1)

  abbrev pub column_info_of : List (List Text) → Result LocalError (List Column)
  column_info_of [] = err empty_csv
  column_info_of (first ∷ rest) = ok (columns_from (header_names first) (take 50 rest) 0)

  -- `csvColumnInfo`
  unfoldable pub csv_column_info : Text → Result LocalError (List Column)
  unfolding columns_from column_cells
  csv_column_info t = column_info_of (parse_csv t)

-- `head.slice(0, lastNewline + 1)` where there is a line end behind the first character
pub up_to_newline : Text → Text
up_to_newline [] = []
up_to_newline (c ∷ cs) =
    let rest = up_to_newline cs in if any (λ d. d == 10) (c ∷ cs) then c ∷ rest else []

abbrev pub cut_head : Text → Text
cut_head [] = []
cut_head (c ∷ cs) = if any (λ d. d == 10) cs then c ∷ up_to_newline cs else c ∷ cs

-- `readCsvHead`, with `CSV_SAMPLE_BYTES`
unfoldable pub read_csv_head : LocalFile → Text
unfolding up_to_newline
read_csv_head f = if leb f.size 65536 then f.content else cut_head f.head

pub data DatasetType : Type 0 where
  single_type : BrowserType → DatasetType
  collection_of : BrowserType → DatasetType

-- The parts of a Dataset and of its `extra` that createLocalDataset computes.
pub record LocalDataset (N : Type 0) : Type 0 where
  pub filename : Text
  pub ext : Text
  pub size_bytes : ℕ
  pub dataset_type : DatasetType
  pub arrays : Option (List Column)
  pub timesteps : Option (List N)
  pub local_urls : List Text
  pub member_count : Option ℕ
  pub skipped_parts : Option ℕ

pub record Source (N : Type 0) : Type 0 where
  pub dataset : LocalDataset N
  pub urls : List Text
  pub files : List LocalFile
  -- the URLs that `revoke` revokes
  pub revoked : List Text

abbrev pub is_collection : Classification → Bool
is_collection (collection_file ext) = true
is_collection _ = false

abbrev pub is_server : Classification → Bool
is_server (server_file ext) = true
is_server _ = false

-- `options.label ?? name`
abbrev pub label_or : Option Text → Text → Text
label_or none name = name
label_or (some t) name = t

unfoldable pub total_size : List LocalFile → ℕ → ℕ
total_size [] total = total
total_size (f ∷ fs) total = total_size fs (total + f.size)
