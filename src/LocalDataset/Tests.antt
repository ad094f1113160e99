-- ===== src/LocalDataset/Tests.antt =====
-- A collection of two files, with natural numbers as times.
use my_paraview_web.Common.{
  ℕ, ◌-◌, ◌≡◌, refl, true, Option, none, some, List, [], ◌∷◌, ltb, ◌==◌, get_elem?,
}
use my_paraview_web.Common.Eq.{Text, codes}
use my_paraview_web.Common.Int.{ℤ}
use my_paraview_web.Common.Result.{ok, err}
use my_paraview_web.Csv.Points.{trim}
use my_paraview_web.LocalDataset.Paths.{
  LocalFile, image_data, classify_file_name, normalize_path, resolve_referenced_file,
}
use my_paraview_web.LocalDataset.Create.{
  Times, PvdElement, Source, collection_of, parse_pvd_collection, missing_files,
}
use my_paraview_web.LocalDataset.Build.{create_local_dataset, local_dataset_url}
use my_paraview_web.LocalDataset.Build.Laws.{IsServedFrom, create_local_dataset-IsServed}
use my_paraview_web.LocalDataset.Build.Urls.{IsNearest}

abbrev digit : Text → ℕ
digit [] = 0
digit (c ∷ cs) = c - 48

abbrev digits : Times ℕ
digits = record {
  number_of = digit;
  count = λ n. n;
  is_finite = λ n. true;
  same = λ a b. a == b;
  less = λ a b. ltb a b;
}

abbrev file_at : Text → Text → LocalFile
file_at name relative = record {
  name = name;
  relative = relative;
  size = 10;
  content = codes "pvd";
  head = [];
}

abbrev series : List LocalFile
series =
    file_at (codes "s.pvd") (codes "run/s.pvd")
    ∷ file_at (codes "b.vti") (codes "run/d/b.vti")
    ∷ file_at (codes "a.vti") (codes "run/a.vti")
    ∷ []

abbrev two_elements : Text → Option (List PvdElement)
two_elements content = some (
    record { file = some (codes "d\\b.vti"); timestep = some (codes "5") }
    ∷ record { file = some (codes "./x/../a.vti"); timestep = some (codes "2") }
    ∷ [])

abbrev url_of : ℕ → LocalFile → Text
url_of n f = f.name

abbrev two_step_source : Source ℕ
two_step_source = record {
  dataset = record {
    filename = codes "s.pvd";
    ext = codes ".pvd";
    size_bytes = 30;
    dataset_type = collection_of image_data;
    arrays = none;
    timesteps = some (2 ∷ 5 ∷ []);
    local_urls = codes "a.vti" ∷ codes "b.vti" ∷ [];
    member_count = some 3;
    skipped_parts = some 0;
  };
  urls = codes "a.vti" ∷ codes "b.vti" ∷ [];
  files =
      file_at (codes "s.pvd") (codes "run/s.pvd")
      ∷ file_at (codes "a.vti") (codes "run/a.vti")
      ∷ file_at (codes "b.vti") (codes "run/d/b.vti")
      ∷ [];
  revoked = codes "a.vti" ∷ codes "b.vti" ∷ [];
}

series_created :
    create_local_dataset (λ t. t) digits (λ t. true) two_elements url_of none series
    ≡ ok two_step_source
unfolding create_local_dataset parse_pvd_collection trim classify_file_name resolve_referenced_file
series_created = refl

create_local_dataset-IsServed_example :
    IsServedFrom (λ t. t) digits (λ t. true) two_elements url_of none series two_step_source
    × ((timestep : ℤ)
        → (i : ℕ) × (url : Text) × IsNearest timestep 2 i
          × (get_elem? two_step_source.dataset.local_urls i ≡ some url)
          × (local_dataset_url two_step_source.dataset timestep ≡ some url))
create_local_dataset-IsServed_example =
    create_local_dataset-IsServed (λ t. t) digits (λ t. true) two_elements url_of none series
      two_step_source series_created

path_normalized : normalize_path (codes "a\\./b/../c") ≡ codes "a/c"
unfolding normalize_path
path_normalized = refl

missing_reported :
    create_local_dataset
      (λ t. t)
      digits
      (λ t. true)
      two_elements
      url_of
      none
      (file_at (codes "s.pvd") [] ∷ file_at (codes "a.vti") [] ∷ [])
    ≡ err (missing_files (codes "d\\b.vti" ∷ []))
unfolding create_local_dataset parse_pvd_collection trim classify_file_name resolve_referenced_file
missing_reported = refl
