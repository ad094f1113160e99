-- ===== src/LocalDataset/Build/Urls.antt =====
-- Which file stands behind each URL of a dataset of frontend/src/lib/localDataset.ts.
use my_paraview_web.Common.{
  ℕ, zero, suc, ◌+◌, ◌≤◌, ◌<◌, ◌≡◌, ◌⊎◌, refl, sym, ap, ◌∙◌, true, Option, none, some, List, [],
  ◌∷◌, map, find?, is_empty, length, get_elem?, get_elem?-get_or, ltb, arith, Bool-cases, inl, inr,
  some_injective,
}
use my_paraview_web.Common.Eq.{Text}
use my_paraview_web.Common.Int.{ℤ, pos, negsuc}
use my_paraview_web.Common.Result.{ok}
use my_paraview_web.LocalDataset.Paths.{
  LocalFile, classify_file_name, relative_path, resolve_referenced_file,
}
use my_paraview_web.LocalDataset.Create.{
  PvdElement, PvdStep, Collection, Times, parse_pvd_collection, LocalDataset, Source, is_collection,
}
use my_paraview_web.LocalDataset.Build.{
  Resolution, add_resolved, resolve_steps, urls_from, url_index, local_dataset_url,
}

-- The index in a list of this length that is nearest to a timestep.
abbrev pub IsNearest : ℤ → ℕ → ℕ → Type 0
IsNearest (negsuc n) count i = i ≡ 0
IsNearest (pos n) count i = ((n < count) × (i ≡ n)) ⊎ ((count ≤ n) × (i + 1 ≡ count))

url_index-IsNearest : (t : ℤ) (count : ℕ) → 1 ≤ count → IsNearest t count (url_index t count)
url_index-IsNearest (negsuc n) count h = refl
url_index-IsNearest (pos n) count h = elim (Bool-cases (ltb n count)) [
  | inl inside ↦ inl (ground arith, rw inside refl)
  | inr outside ↦ inr (ground arith, rw outside (omega arith))
]

url_index-lt : (t : ℤ) (count : ℕ) → 1 ≤ count → url_index t count < count
url_index-lt (negsuc n) count h = omega arith
url_index-lt (pos n) count h = ground arith

-- The URL that is loaded is that at the nearest index.
pub local_dataset_url-IsNearest :
    {N : Type 0} (d : LocalDataset N) (timestep : ℤ)
    → 1 ≤ length d.local_urls
    → (i : ℕ) × (url : Text) × IsNearest timestep (length d.local_urls) i
      × (get_elem? d.local_urls i ≡ some url)
      × (local_dataset_url d timestep ≡ some url)
unfolding local_dataset_url
local_dataset_url-IsNearest d timestep h =
    let count = length d.local_urls in
    let there =
      get_elem?-get_or d.local_urls (url_index timestep count) [] (url_index-lt timestep count h) in
    (url_index timestep count, _, url_index-IsNearest timestep count h, there, there)

get_elem?-urls_from :
    (make_url : ℕ → LocalFile → Text) (n i : ℕ) (fs : List LocalFile) {f : LocalFile}
    → get_elem? fs i ≡ some f
    → get_elem? (urls_from make_url n fs) i ≡ some (make_url (n + i) f)
unfolding urls_from
get_elem?-urls_from make_url n i [] h = cc
get_elem?-urls_from make_url n zero (g ∷ fs) {f} h =
    let same : g ≡ f = some_injective h in
    let place : n ≡ n + 0 = omega arith in
    ap some (ap (make_url n) same ∙ ap (λ k. make_url k f) place)
get_elem?-urls_from make_url n (suc i) (g ∷ fs) {f} h =
    let place : n + 1 + i ≡ n + suc i = omega arith in
    get_elem?-urls_from make_url (n + 1) i fs h ∙ ap (λ k. some (make_url k f)) place

module _ {N : Type 0} where
  added :
      (path : Text) (files : List LocalFile) (o : Option LocalFile) (s : PvdStep N)
      (r : Resolution N)
      → resolve_referenced_file path s.file files ≡ o
      → is_empty (add_resolved o s r).missing ≡ true
      → (f : LocalFile) × (resolve_referenced_file path s.file files ≡ some f)
        × ((add_resolved o s r).resolved ≡ f ∷ r.resolved)
        × (is_empty r.missing ≡ true)
  added path files none s r e h = cc
  added path files (some f) s r e h = (f, e, refl, h)

  -- Where no file is missing, the file that each step refers to stands at the step's place.
  resolve_steps-file :
      (path : Text) (files : List LocalFile) (steps : List (PvdStep N)) (i : ℕ) {step : PvdStep N}
      → is_empty (resolve_steps path files steps).missing ≡ true
      → get_elem? steps i ≡ some step
      → (f : LocalFile) × (resolve_referenced_file path step.file files ≡ some f)
        × (get_elem? (resolve_steps path files steps).resolved i ≡ some f)
  unfolding resolve_steps
  resolve_steps-file path files [] i h e = cc
  resolve_steps-file path files (s ∷ ss) zero {step} h e =
      let same : s ≡ step = some_injective e in
      let (f, found, now, later) =
        added path files (resolve_referenced_file path s.file files) s (resolve_steps path files ss)
          refl h in
      (
        f,
        ap (λ (k : PvdStep N). resolve_referenced_file path k.file files) (sym same) ∙ found,
        rw now refl,
      )
  resolve_steps-file path files (s ∷ ss) (suc i) h e =
      let (f, found, now, later) =
        added path files (resolve_referenced_file path s.file files) s (resolve_steps path files ss)
          refl h in
      let (g, found_later, place) = resolve_steps-file path files ss i later e in
      (g, found_later, rw now place)

module _ (to_lower_case : Text → Text) {N : Type 0} (times : Times N)
    (pvd_document : Text → Option (List PvdElement)) (make_url : ℕ → LocalFile → Text) where
  -- Without timesteps there is one file, and its URL. Else the first descriptor among the files has
  -- been read as a collection, the timesteps are the times of its steps, and the URL of each step is
  -- that of the file that the step refers to.
  abbrev pub ServesFiles : List LocalFile → Source N → Option (List N) → Type 0
  ServesFiles files s none =
      (f : LocalFile) × (files ≡ f ∷ [])
      × (s.files ≡ f ∷ [])
      × (s.dataset.local_urls ≡ make_url 0 f ∷ [])
  ServesFiles files s (some steps) =
      (descriptor : LocalFile) × (c : Collection N) × (find?
          (λ f. is_collection (classify_file_name to_lower_case f.name)) files
        ≡ some descriptor)
      × (parse_pvd_collection times (pvd_document descriptor.content) ≡ ok c)
      × (steps ≡ map (λ (k : PvdStep N). k.time) c.steps)
      × ((i : ℕ) (step : PvdStep N)
          → get_elem? c.steps i ≡ some step
          → (f : LocalFile) × (resolve_referenced_file (relative_path descriptor) step.file files
              ≡ some f)
            × (get_elem? s.files (suc i) ≡ some f)
            × (get_elem? s.dataset.local_urls i ≡ some (make_url i f)))

pub resolved-urls :
    {N : Type 0} (make_url : ℕ → LocalFile → Text) (path : Text) (files : List LocalFile)
    (steps : List (PvdStep N))
    → is_empty (resolve_steps path files steps).missing ≡ true
    → let resolved = (resolve_steps path files steps).resolved in
      (i : ℕ) (step : PvdStep N)
      → get_elem? steps i ≡ some step
      → (f : LocalFile) × (resolve_referenced_file path step.file files ≡ some f)
        × (get_elem? resolved i ≡ some f)
        × (get_elem? (urls_from make_url 0 resolved) i ≡ some (make_url i f))
resolved-urls make_url path files steps h i step e =
    let (f, found, place) = resolve_steps-file path files steps i h e in
    let url = get_elem?-urls_from make_url 0 i (resolve_steps path files steps).resolved place in
    let same : 0 + i ≡ i = omega arith in
    (f, found, place, url ∙ ap (λ k. some (make_url k f)) same)
