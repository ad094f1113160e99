-- ===== src/LocalDataset/Build.antt =====
-- The body of createLocalDataset, and localDatasetUrl, of frontend/src/lib/localDataset.ts. `make_url`
-- is the URL of a file when so many were made before it.
pub mod Urls
pub mod Laws
use my_paraview_web.Common.{
  ℕ, zero, suc, ◌+◌, ◌-◌, Bool, true, false, not, ◌&&◌, ◌||◌, Option, none, some, List, [], ◌∷◌,
  ◌++◌, map, filter, find?, any, is_empty, length, get_elem?, ltb, ◌==◌, if◌then◌else◌,
}
use my_paraview_web.Common.Eq.{Text, codes, ◌===◌, Units_eq}
use my_paraview_web.Common.Int.{ℤ, pos, negsuc}
use my_paraview_web.Common.Result.{Result, ok, err, ◌>>=◌, ◌>>◌, throw_if}
use my_paraview_web.LocalDataset.Paths.{
  LocalFile, BrowserType, poly_data, unstructured_grid, structured_grid, rectilinear_grid,
  image_data, table, Classification, browser_file, collection_file, server_file, unknown_file,
  classify_file_name, relative_path, resolve_referenced_file,
}
use my_paraview_web.LocalDataset.Create.{
  LocalError, no_files, unsupported, server_only, missing_files, needs_descriptor, PvdElement,
  PvdStep, Collection, Times, parse_pvd_collection, Column, csv_column_info, read_csv_head,
  single_type, collection_of, LocalDataset, Source, is_collection, is_server, label_or, total_size,
}

abbrev pub same_type : BrowserType → BrowserType → Bool
same_type poly_data poly_data = true
same_type unstructured_grid unstructured_grid = true
same_type structured_grid structured_grid = true
same_type rectilinear_grid rectilinear_grid = true
same_type image_data image_data = true
same_type table table = true
same_type _ _ = false

abbrev pub type_name : BrowserType → Text
type_name poly_data = codes "PolyData"
type_name unstructured_grid = codes "UnstructuredGrid"
type_name structured_grid = codes "StructuredGrid"
type_name rectilinear_grid = codes "RectilinearGrid"
type_name image_data = codes "ImageData"
type_name table = codes "Table"

-- `resolved` and `missing`, the one with the step that it resolves
pub record Resolution (N : Type 0) : Type 0 where
  pub resolved : List LocalFile
  pub missing : List Text

abbrev pub add_resolved : {N : Type 0} → Option LocalFile → PvdStep N → Resolution N → Resolution N
add_resolved none step r = record r { missing = step.file ∷ r.missing }
add_resolved (some f) step r = record r { resolved = f ∷ r.resolved }

pub resolve_steps : {N : Type 0} → Text → List LocalFile → List (PvdStep N) → Resolution N
resolve_steps path files [] = record { resolved = []; missing = [] }
resolve_steps path files (s ∷ ss) =
    add_resolved (resolve_referenced_file path s.file files) s (resolve_steps path files ss)

-- the URLs that are made for files, from one on
pub urls_from : (ℕ → LocalFile → Text) → ℕ → List LocalFile → List Text
urls_from make_url n [] = []
urls_from make_url n (f ∷ fs) = make_url n f ∷ urls_from make_url (n + 1) fs

-- `Set.add`
abbrev pub add_type : BrowserType → List BrowserType → List BrowserType
add_type t types = if any (same_type t) types then types else types ++ t ∷ []

-- `innerTypes.size !== 1`
abbrev pub only_type : List BrowserType → Result LocalError BrowserType
only_type (t ∷ []) = ok t
only_type types = err (unsupported (map type_name types))

abbrev pub text_or_name : Text → Text → Text
text_or_name ext name = if is_empty ext then name else ext

-- `file.name.startsWith(".")`
abbrev pub is_hidden : Text → Bool
is_hidden [] = false
is_hidden (c ∷ cs) = c == b'.'

module _ (to_lower_case : Text → Text) where
  abbrev pub type_of : Classification → LocalFile → Result LocalError BrowserType
  type_of (browser_file ext type) f = ok type
  type_of _ f = err (server_only (f.name ∷ []))

  pub inner_types : List LocalFile → List BrowserType → Result LocalError (List BrowserType)
  inner_types [] types = ok types
  inner_types (f ∷ fs) types = type_of (classify_file_name to_lower_case f.name) f >>= λ type.
      inner_types fs (add_type type types)

  module _ {N : Type 0} (times : Times N) (is_number : Text → Bool)
      (pvd_document : Text → Option (List PvdElement)) (make_url : ℕ → LocalFile → Text)
      (label : Option Text) where
    abbrev pub arrays_of : BrowserType → LocalFile → Result LocalError (Option (List Column))
    arrays_of table f = csv_column_info is_number (read_csv_head f) >>= λ columns. ok (some columns)
    arrays_of _ f = ok none

    abbrev pub single_source : Classification → LocalFile → Result LocalError (Source N)
    single_source (server_file ext) f = err (server_only (f.name ∷ []))
    single_source (collection_file ext) f = err (unsupported (text_or_name ext f.name ∷ []))
    single_source (unknown_file ext) f = err (unsupported (text_or_name ext f.name ∷ []))
    single_source (browser_file ext type) f = do
      arrays ← arrays_of type f
      let urls = urls_from make_url 0 (f ∷ [])
      ok (record {
        dataset = record {
          filename = label_or label f.name;
          ext = ext;
          size_bytes = f.size;
          dataset_type = single_type type;
          arrays = arrays;
          timesteps = none;
          local_urls = urls;
          member_count = none;
          skipped_parts = none;
        };
        urls = urls;
        files = f ∷ [];
        revoked = urls;
      })

    pub collection_source : LocalFile → List LocalFile → Result LocalError (Source N)
    collection_source descriptor files = do
      c ← parse_pvd_collection times (pvd_document descriptor.content)
      let r = resolve_steps (relative_path descriptor) files c.steps
      throw_if (not (is_empty r.missing)) (missing_files r.missing)
      types ← inner_types r.resolved []
      type ← only_type types
      let urls = urls_from make_url 0 r.resolved
      ok (record {
        dataset = record {
          filename = label_or label descriptor.name;
          ext = codes ".pvd";
          size_bytes = total_size r.resolved descriptor.size;
          dataset_type = collection_of type;
          arrays = none;
          timesteps = some (map (λ (s : PvdStep N). s.time) c.steps);
          local_urls = urls;
          member_count = some (length r.resolved + 1);
          skipped_parts = some c.skipped_parts;
        };
        urls = urls;
        files = descriptor ∷ r.resolved;
        revoked = urls;
      })

    abbrev pub alone : List LocalFile → Result LocalError (Source N)
    alone [] = err no_files
    alone (f ∷ []) = single_source (classify_file_name to_lower_case f.name) f
    alone files = err (needs_descriptor (map (λ (f : LocalFile). f.name) files))

    abbrev pub source_of : Option LocalFile → List LocalFile → Result LocalError (Source N)
    source_of (some descriptor) files = collection_source descriptor files
    source_of none files = do
      let server = filter (λ f. is_server (classify_file_name to_lower_case f.name)) files
      throw_if (ltb 0 (length server) && length files == length server)
          (server_only (map (λ (f : LocalFile). f.name) server))
      alone files

    -- `createLocalDataset`
    unfoldable pub create_local_dataset : List LocalFile → Result LocalError (Source N)
    unfolding collection_source resolve_steps urls_from inner_types total_size
    create_local_dataset input = do
      let files = filter (λ f. not (is_hidden f.name)) input
      throw_if (is_empty files) no_files
      source_of (find? (λ f. is_collection (classify_file_name to_lower_case f.name)) files) files

-- `Math.max(0, Math.min(timestepIndex, urls.length - 1))`
abbrev pub url_index : ℤ → ℕ → ℕ
url_index (negsuc n) count = 0
url_index (pos n) count = if ltb n count then n else count - 1

-- `localDatasetUrl` of a dataset that createLocalDataset has built, which is a local one with a
-- list of texts as its URLs: the two tests of that are left out.
unfoldable pub local_dataset_url : {N : Type 0} → LocalDataset N → ℤ → Option Text
local_dataset_url d timestep = get_elem? d.local_urls (url_index timestep (length d.local_urls))
