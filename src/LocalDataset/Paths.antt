-- ===== src/LocalDataset/Paths.antt =====
-- The names and the paths of local files, frontend/src/lib/localDataset.ts. Texts are lists of code
-- units; `toLowerCase` is a parameter.
pub mod Laws
use mathlib.Core.List.{reverse}
use my_paraview_web.Common.{
  ℕ, Bool, true, false, not, ◌&&◌, ◌||◌, Option, none, some, List, [], ◌∷◌, ◌++◌, map, filter,
  find?, any, all, is_empty, length, ◌==◌, if◌then◌else◌,
}
use my_paraview_web.Common.Eq.{Text, codes, ◌===◌, Units_eq}

-- `File`, with the text that reading it gives and the text of its first CSV_SAMPLE_BYTES bytes
pub record LocalFile : Type 0 where
  pub name : Text
  -- `webkitRelativePath`
  pub relative : Text
  pub size : ℕ
  pub content : Text
  pub head : Text

pub data BrowserType : Type 0 where
  poly_data unstructured_grid structured_grid rectilinear_grid image_data table : BrowserType

pub data Classification : Type 0 where
  browser_file : Text → BrowserType → Classification
  collection_file server_file unknown_file : Text → Classification

-- `[^./\\]`
abbrev pub is_extension_char : ℕ → Bool
is_extension_char c = not (c == b'.') && (not (c == b'/') && not (c == b'\\'))

-- `/\.[^./\\]+$/.exec(name)`, with the empty text where nothing matches
pub extension_in : Text → Text
extension_in [] = []
extension_in (c ∷ cs) =
    let later = extension_in cs in
    if c == b'.' && (not (is_empty cs) && all is_extension_char cs) then c ∷ cs else later

-- `BROWSER_FORMATS[ext]`
unfoldable pub browser_type : Text → Option BrowserType
browser_type ext =
    if ext === codes ".vtp"
    then some poly_data
    else if ext === codes ".vtu"
    then some unstructured_grid
    else if ext === codes ".vts"
    then some structured_grid
    else if ext === codes ".vtr"
    then some rectilinear_grid
    else if ext === codes ".vti"
    then some image_data
    else if ext === codes ".csv"
    then some table
    else none

-- `SERVER_ONLY_FORMATS`
abbrev pub server_only_formats : List Text
server_only_formats =
    codes ".cgns"
    ∷ codes ".exo"
    ∷ codes ".e"
    ∷ codes ".case"
    ∷ codes ".xdmf"
    ∷ codes ".xmf"
    ∷ codes ".h5"
    ∷ codes ".hdf5"
    ∷ []

abbrev pub classified : Option BrowserType → Text → Classification
classified (some type) ext = browser_file ext type
classified none ext =
    if ext === codes ".pvd"
    then collection_file ext
    else if any (λ f. f === ext) server_only_formats
    then server_file ext
    else unknown_file ext

module _ (to_lower_case : Text → Text) where
  -- `fileExtension` and `classifyFileName`
  unfoldable pub file_extension : Text → Text
  unfolding extension_in
  file_extension name = to_lower_case (extension_in name)

  unfoldable pub classify_file_name : Text → Classification
  unfolding file_extension browser_type
  classify_file_name name = let ext = file_extension name in classified (browser_type ext) ext

-- `path.replace(/\\/g, "/")`
abbrev pub with_slashes : Text → Text
with_slashes path = map (λ c. if c == b'\\' then b'/' else c) path

-- `split("/")`, whose last piece is being read
pub split_from : Text → Text → List Text
split_from piece [] = piece ∷ []
split_from piece (c ∷ cs) =
    let next = split_from [] cs in
    let longer = split_from (piece ++ c ∷ []) cs in if c == b'/' then piece ∷ next else longer

-- `parts.pop()`, with the end of `parts` at the head of the stack
pub tail : List Text → List Text
tail [] = []
tail (t ∷ ts) = ts

-- the loop over the segments
pub push_segments : List Text → List Text → List Text
push_segments stack [] = stack
push_segments stack (s ∷ ss) =
    let kept = push_segments stack ss in
    let popped = push_segments (tail stack) ss in
    let pushed = push_segments (s ∷ stack) ss in
    if is_empty s || s === codes "." then kept else if s === codes ".." then popped else pushed

-- `parts.join("/")`
pub join : List Text → Text
join [] = []
join (s ∷ []) = s
join (s ∷ t ∷ ss) = s ++ b'/' ∷ join (t ∷ ss)

-- `normalizePath`
unfoldable pub normalize_path : Text → Text
unfolding split_from push_segments join tail
normalize_path path = join (reverse (push_segments [] (split_from [] (with_slashes path))))

-- `relativePath`
abbrev pub relative_path : LocalFile → Text
relative_path f = with_slashes (if is_empty f.relative then f.name else f.relative)

-- `directoryOf`: the text before the last slash
pub directory_of : Text → Text
directory_of [] = []
directory_of (c ∷ cs) =
    let rest = directory_of cs in if any (λ d. d == b'/') cs then c ∷ rest else []

-- `wanted.split("/").pop()`
pub last_piece : Text → Text
last_piece [] = []
last_piece (c ∷ cs) =
    let rest = last_piece cs in if any (λ d. d == b'/') (c ∷ cs) then rest else c ∷ cs

abbrev pub only : List LocalFile → Option LocalFile
only (f ∷ []) = some f
only _ = none

abbrev pub or_only : Option LocalFile → List LocalFile → Option LocalFile
or_only (some f) candidates = some f
or_only none candidates = only candidates

abbrev pub wanted_path : Text → Text → Text
wanted_path directory reference =
    normalize_path (if is_empty directory then reference else directory ++ b'/' ∷ reference)

-- `resolveReferencedFile`
unfoldable pub resolve_referenced_file : Text → Text → List LocalFile → Option LocalFile
unfolding normalize_path directory_of last_piece
resolve_referenced_file descriptor_path reference files =
    let wanted = wanted_path (directory_of (normalize_path descriptor_path)) reference in
    or_only (find? (λ f. normalize_path (relative_path f) === wanted) files)
      (filter (λ f. f.name === last_piece wanted) files)
