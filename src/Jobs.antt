-- ===== src/Jobs.antt =====
-- `mergeJobSnapshots` and `isCancellable` of frontend/src/lib/job.ts. Texts are values of a type
-- with an equality test, and the operator `>` on them is a parameter, as is the text of a result,
-- `JSON.stringify(result ?? null)`. The result is a value: where nothing changed, the code returns
-- the list that it was given, which is equal to the one that it built. The fields of a job that the
-- merge does not read are left out.
pub mod Merge
mod Tests
use my_paraview_web.Common.{
  ℕ, Bool, true, false, not, ◌&&◌, ◌||◌, Option, none, some, List, [], ◌∷◌, ◌++◌, map, find?, any,
  if◌then◌else◌,
}
use my_paraview_web.Common.Eq.{Eq, ◌===◌}

pub data JobStatus : Type 0 where
  queued running succeeded failed canceled : JobStatus

pub record Job (T N : Type 0) : Type 0 where
  pub id : T
  pub status : JobStatus
  pub progress : N
  pub log : T
  -- the text of `result`
  pub result : T
  pub updated_at : T

abbrev pub same_status : JobStatus → JobStatus → Bool
same_status queued queued = true
same_status running running = true
same_status succeeded succeeded = true
same_status failed failed = true
same_status canceled canceled = true
same_status _ _ = false

pub is_cancellable : {T N : Type 0} → Job T N → Bool
is_cancellable j = same_status j.status queued || same_status j.status running

-- `[...new Set(order)]`, of which `seen` are the ids that are behind
pub unique : {T : Type 0} ⦃e : Eq T⦄ → List T → List T → List T
unique seen [] = []
unique seen (id ∷ ids) =
    let rest = unique (id ∷ seen) ids in
    let again = unique seen ids in if any (λ s. s === id) seen then again else id ∷ rest

abbrev pub same_job : {T N : Type 0} ⦃e : Eq T⦄ ⦃f : Eq N⦄ → Job T N → Job T N → Bool
same_job a b =
    a.updated_at === b.updated_at
    && (same_status a.status b.status
        && (a.progress === b.progress && (a.log === b.log && a.result === b.result)))

module _ {T N : Type 0} ⦃e : Eq T⦄ where
  -- `merged.get(id)`
  abbrev pub get_job : List (Job T N) → T → Option (Job T N)
  get_job jobs id = find? (λ j. j.id === id) jobs

  -- `merged.set(job.id, job)`
  pub set_job : List (Job T N) → Job T N → List (Job T N)
  set_job [] job = job ∷ []
  set_job (j ∷ jobs) job = if j.id === job.id then job ∷ jobs else j ∷ set_job jobs job

  -- `new Map(current.map((job) => [job.id, job]))`
  pub set_all : List (Job T N) → List (Job T N) → List (Job T N)
  set_all merged [] = merged
  set_all merged (job ∷ jobs) = set_all (set_job merged job) jobs

  -- `.map((id) => merged.get(id)).filter((job) => !!job)`
  abbrev pub add_found : Option (Job T N) → List (Job T N) → List (Job T N)
  add_found none jobs = jobs
  add_found (some job) jobs = job ∷ jobs

  pub find_all : List (Job T N) → List T → List (Job T N)
  find_all merged [] = []
  find_all merged (id ∷ ids) = add_found (get_job merged id) (find_all merged ids)

  abbrev pub job_ids : List (Job T N) → List T
  job_ids jobs = map (λ j. j.id) jobs

  module _ ⦃f : Eq N⦄ (later : T → T → Bool) where
    -- one round of the loop over the incoming jobs, at the job that is there already
    pub merge_job : List (Job T N) → Job T N → Option (Job T N) → List (Job T N)
    merge_job merged job none = set_job merged job
    merge_job merged job (some previous) =
        if later previous.updated_at job.updated_at
        then merged
        else if same_job previous job
        then merged
        else set_job merged job

    pub merge_all : List (Job T N) → List (Job T N) → List (Job T N)
    merge_all merged [] = merged
    merge_all merged (job ∷ jobs) = merge_all (merge_job merged job (get_job merged job.id)) jobs

    unfoldable pub merge_job_snapshots : List (Job T N) → List (Job T N) → List (Job T N)
    unfolding merge_all merge_job set_all set_job find_all unique
    merge_job_snapshots current incoming =
        find_all (merge_all (set_all [] current) incoming)
          (unique [] (job_ids incoming ++ job_ids current))
