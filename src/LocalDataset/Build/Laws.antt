-- ===== src/LocalDataset/Build/Laws.antt =====
-- What createLocalDataset of frontend/src/lib/localDataset.ts builds.
use my_paraview_web.Common.{
  ℕ, suc, ◌+◌, ◌≤◌, ◌≡◌, refl, ap, ◌∙◌, subst, Bool, true, false, not, ◌&&◌, Option, none, some,
  List, [], ◌∷◌, map, filter, is_empty, length, length-map, find?, get_elem?, ltb, ◌==◌, arith,
  either,
}
use my_paraview_web.Common.Eq.{Text}
use my_paraview_web.Common.Int.{ℤ}
use my_paraview_web.Common.Result.{ok, >>=-eq-ok, throw_if-passed, ok-injective}
use my_paraview_web.LocalDataset.Paths.{
  LocalFile, Classification, browser_file, collection_file, server_file, unknown_file,
  classify_file_name, relative_path, resolve_referenced_file,
}
use my_paraview_web.LocalDataset.Create.{
  invalid_pvd, missing_files, server_only, no_files, PvdElement, PvdStep, Collection, Times,
  collect_steps, insert_step, sort_steps, parse_pvd_collection, Source, is_server, is_collection,
}
use my_paraview_web.LocalDataset.Build.{
  Resolution, add_resolved, resolve_steps, urls_from, only_type, inner_types, arrays_of,
  single_source, collection_source, alone, source_of, is_hidden, create_local_dataset,
  local_dataset_url,
}
use my_paraview_web.LocalDataset.Build.Urls.{
  IsNearest, local_dataset_url-IsNearest, ServesFiles, resolved-urls,
}

-- As many as there are timesteps
abbrev pub MatchesSteps : {N : Type 0} → Option (List N) → ℕ → Type 0
MatchesSteps none n = n ≡ 1
MatchesSteps (some steps) n = n ≡ length steps

-- A dataset with a URL for every timestep, of which all are revoked.
pub record IsServed {N : Type 0} (s : Source N) : Type 0 where
  pub some_url : 1 ≤ length s.dataset.local_urls
  pub one_per_step : MatchesSteps s.dataset.timesteps (length s.dataset.local_urls)
  pub listed : s.urls ≡ s.dataset.local_urls
  pub released : s.revoked ≡ s.dataset.local_urls

length-urls_from :
    (make_url : ℕ → LocalFile → Text) (n : ℕ) (fs : List LocalFile)
    → length (urls_from make_url n fs) ≡ length fs
unfolding urls_from
length-urls_from make_url n [] = refl
length-urls_from make_url n (f ∷ fs) = ap suc (length-urls_from make_url (n + 1) fs)

length-add_resolved :
    {N : Type 0} (o : Option LocalFile) (s : PvdStep N) (r : Resolution N)
    → length (add_resolved o s r).resolved + length (add_resolved o s r).missing
      ≡ suc (length r.resolved + length r.missing)
length-add_resolved none s r = omega arith
length-add_resolved (some f) s r = omega arith

length-resolve_steps :
    {N : Type 0} (path : Text) (files : List LocalFile) (ss : List (PvdStep N))
    → length (resolve_steps path files ss).resolved + length (resolve_steps path files ss).missing
      ≡ length ss
unfolding resolve_steps
length-resolve_steps path files [] = omega arith
length-resolve_steps path files (s ∷ ss) =
    length-add_resolved (resolve_referenced_file path s.file files) s (resolve_steps path files ss)
    ∙ ap suc (length-resolve_steps path files ss)

empty-length {ℓ} : {A : Type ℓ} (xs : List A) → not (is_empty xs) ≡ false → length xs ≡ 0
empty-length [] h = refl
empty-length (x ∷ xs) h = cc

nonempty-length {ℓ} : {A : Type ℓ} (xs : List A) → is_empty xs ≡ false → 1 ≤ length xs
nonempty-length [] h = cc
nonempty-length (x ∷ xs) h = omega arith

module _ {N : Type 0} (times : Times N) where
  length-insert_step :
      (s : PvdStep N) (ss : List (PvdStep N)) → length (insert_step times s ss) ≡ suc (length ss)
  unfolding insert_step
  length-insert_step s [] = refl
  length-insert_step s (t ∷ ts) =
      either (λ (l : List (PvdStep N)). length l ≡ suc (suc (length ts))) (times.less t.time s.time)
        (t ∷ insert_step times s ts) (s ∷ t ∷ ts) (λ h. ap suc (length-insert_step s ts))
        (λ h. refl)

  length-sort_steps : (ss : List (PvdStep N)) → length (sort_steps times ss) ≡ length ss
  unfolding sort_steps
  length-sort_steps [] = refl
  length-sort_steps (s ∷ ss) =
      length-insert_step s (sort_steps times ss) ∙ ap suc (length-sort_steps ss)

  -- A collection has a step.
  pub parse_pvd_collection-steps :
      (document : Option (List PvdElement)) (c : Collection N)
      → parse_pvd_collection times document ≡ ok c
      → 1 ≤ length c.steps
  unfolding parse_pvd_collection
  parse_pvd_collection-steps none c h = cc
  parse_pvd_collection-steps (some es) c h =
      let (d, _, h1) =
        >>=-eq-ok (collect_steps times es (record { steps = []; skipped_parts = 0 })) _ h in
      let (full, h2) = throw_if-passed (is_empty d.steps) invalid_pvd _ h1 in
      let size = length-sort_steps d.steps in
      let some_step = nonempty-length d.steps full in
      subst (λ (k : Collection N). 1 ≤ length k.steps) (ok-injective h2) (omega arith)

true_of_not : (b : Bool) → not b ≡ false → b ≡ true
true_of_not true h = refl
true_of_not false h = cc

module _ (to_lower_case : Text → Text) {N : Type 0} (times : Times N) (is_number : Text → Bool)
    (pvd_document : Text → Option (List PvdElement)) (make_url : ℕ → LocalFile → Text)
    (label : Option Text) where
  -- The source has its URLs, and they are those of the right files.
  abbrev pub IsServedFrom : List LocalFile → Source N → Type 0
  IsServedFrom files s =
      IsServed s × ServesFiles to_lower_case times pvd_document make_url files s s.dataset.timesteps

  single_source-IsServed :
      (c : Classification) (f : LocalFile) (s : Source N)
      → single_source to_lower_case times is_number pvd_document make_url label c f ≡ ok s
      → IsServedFrom (f ∷ []) s
  unfolding urls_from
  single_source-IsServed (server_file ext) f s h = cc
  single_source-IsServed (collection_file ext) f s h = cc
  single_source-IsServed (unknown_file ext) f s h = cc
  single_source-IsServed (browser_file ext type) f s h =
      let (arrays, _, h1) =
        >>=-eq-ok (arrays_of to_lower_case times is_number pvd_document make_url label type f) _
          h in
      subst (IsServedFrom (f ∷ [])) (ok-injective h1) (
        record { some_url = omega arith; one_per_step = refl; listed = refl; released = refl },
        (f, refl, refl, refl),
      )

  collection_source-IsServed :
      (descriptor : LocalFile) (files : List LocalFile) (s : Source N)
      → find? (λ f. is_collection (classify_file_name to_lower_case f.name)) files ≡ some descriptor
      → collection_source to_lower_case times is_number pvd_document make_url label descriptor files
        ≡ ok s
      → IsServedFrom files s
  unfolding collection_source
  collection_source-IsServed descriptor files s first h =
      let (c, parsed, h1) =
        >>=-eq-ok (parse_pvd_collection times (pvd_document descriptor.content)) _ h in
      let r = resolve_steps (relative_path descriptor) files c.steps in
      let (complete, h2) =
        throw_if-passed (not (is_empty r.missing)) (missing_files r.missing) _ h1 in
      let (types, _, h3) = >>=-eq-ok (inner_types to_lower_case r.resolved []) _ h2 in
      let (type, _, h4) = >>=-eq-ok (only_type types) _ h3 in
      let steps = parse_pvd_collection-steps times (pvd_document descriptor.content) c parsed in
      let counted = length-resolve_steps (relative_path descriptor) files c.steps in
      let none_missing = empty-length r.missing complete in
      let urls = length-urls_from make_url 0 r.resolved in
      let time_count = length-map (λ (k : PvdStep N). k.time) c.steps in
      subst (IsServedFrom files) (ok-injective h4) (
        record {
          some_url = omega arith;
          one_per_step = omega arith;
          listed = refl;
          released = refl;
        },
        (
          descriptor,
          c,
          first,
          parsed,
          refl,
          resolved-urls make_url (relative_path descriptor) files c.steps
              (true_of_not (is_empty r.missing) complete),
        ),
      )

  alone-IsServed :
      (files : List LocalFile) (s : Source N)
      → alone to_lower_case times is_number pvd_document make_url label files ≡ ok s
      → IsServedFrom files s
  alone-IsServed [] s h = cc
  alone-IsServed (f ∷ []) s h =
      single_source-IsServed (classify_file_name to_lower_case f.name) f s h
  alone-IsServed (f ∷ g ∷ files) s h = cc

  source_of-IsServed :
      (o : Option LocalFile) (files : List LocalFile) (s : Source N)
      → find? (λ f. is_collection (classify_file_name to_lower_case f.name)) files ≡ o
      → source_of to_lower_case times is_number pvd_document make_url label o files ≡ ok s
      → IsServedFrom files s
  source_of-IsServed (some descriptor) files s first h =
      collection_source-IsServed descriptor files s first h
  source_of-IsServed none files s first h =
      let server = filter (λ f. is_server (classify_file_name to_lower_case f.name)) files in
      let (_, h1) =
        throw_if-passed (ltb 0 (length server) && length files == length server)
          (server_only (map (λ (f : LocalFile). f.name) server)) _ h in
      alone-IsServed files s h1

  -- A dataset that is built has a URL for each of its timesteps, one at least, which revoking
  -- revokes all. Of the files that are not hidden, the URL of each step of a collection is that of
  -- the file to which the step refers, and another dataset has the URL of the one file. For every
  -- index that is asked for, in range or not, the URL of the nearest timestep is loaded.
  pub create_local_dataset-IsServed :
      (input : List LocalFile) (s : Source N)
      → create_local_dataset to_lower_case times is_number pvd_document make_url label input ≡ ok s
      → IsServedFrom (filter (λ (f : LocalFile). not (is_hidden f.name)) input) s
        × ((timestep : ℤ)
            → (i : ℕ) × (url : Text) × IsNearest timestep (length s.dataset.local_urls) i
              × (get_elem? s.dataset.local_urls i ≡ some url)
              × (local_dataset_url s.dataset timestep ≡ some url))
  unfolding create_local_dataset
  create_local_dataset-IsServed input s h =
      let files = filter (λ (f : LocalFile). not (is_hidden f.name)) input in
      let (_, h1) = throw_if-passed (is_empty files) no_files _ h in
      let (served, from) = source_of-IsServed _ files s refl h1 in
      ((served, from), λ timestep. local_dataset_url-IsNearest s.dataset timestep served.some_url)
