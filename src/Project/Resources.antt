-- ===== src/Project/Resources.antt =====
-- The resources of a project, frontend/src/hooks/useProjectResources.ts, with what
-- frontend/src/hooks/usePipelineActions.ts and frontend/src/App.tsx do to them. A function that asks
-- the server is two: what it captures, and what its answer does; an answer may come at any time, for
-- any ticket. Of an item its id and what it belongs to are kept apart from the rest, `B`.
pub mod Own
pub mod Stale
use my_paraview_web.Common.{
  ℕ, ◌+◌, Bool, true, false, not, ◌&&◌, Option, none, some, List, [], ◌∷◌, map, filter,
  if◌then◌else◌, ◌==◌,
}
use my_paraview_web.Common.Eq.{Text, ◌===◌, Units_eq}
use my_paraview_web.Common.Result.{Result, ok, err}
use my_paraview_web.Project.Scope.{
  Scope, Ticket, still_current, still_selected, begin_project_switch, begin_selection,
  request_selection, is_answer_wanted,
}
use my_paraview_web.Project.Session.{without_project}
use my_paraview_web.Project.Banners.{push_error, prefixed, clear_errors_by_prefix}

-- A Dataset, a Pipeline or a ProjectMember.
pub record Item (B : Type 0) : Type 0 where
  pub id : Text
  pub project_id : Text
  pub rest : B

pub record Artifact (B : Type 0) : Type 0 where
  pub id : Text
  pub dataset_id : Option Text
  pub rest : B

-- `ErrorPrefixes`
pub record Prefixes : Type 0 where
  pub dataset : Text
  pub pipeline : Text
  pub member : Text
  pub artifact : Text

pub record Resources (B : Type 0) : Type 0 where
  pub scope : Scope
  pub datasets : List (Item B)
  pub pipelines : List (Item B)
  pub membership : Option (Item B)
  pub members : List (Item B)
  pub artifacts : List (Artifact B)
  pub prefixes : Prefixes
  -- the messages that are shown
  pub errors : List Text

-- `ticket?.stillCurrent() && ticket.projectId === projectId`
abbrev pub is_wanted : Option Ticket → Text → Scope → Bool
is_wanted none project s = false
is_wanted (some t) project s = still_current t s && t.project_id === project

abbrev pub is_current : Option Ticket → Scope → Bool
is_current none s = false
is_current (some t) s = still_current t s

abbrev pub is_selected : Option Ticket → Text → Scope → Bool
is_selected none dataset s = false
is_selected (some t) dataset s = still_selected t dataset s

-- What comes back, with the ticket of the call and what the call was about.
pub data Answer (B : Type 0) : Type 0 where
  datasets_listed pipelines_listed : Option Ticket → Text → Result Text (List (Item B)) → Answer B
  -- the membership, with all members where the role is admin
  membership_read : Option Ticket → Text → Result Text (Item B × List (Item B)) → Answer B
  artifacts_listed : Option Ticket → Text → Result Text (List (Artifact B)) → Answer B
  artifact_stored : Option Ticket → Text → Result Text (Artifact B) → Answer B
  pipeline_created : Ticket → Result Text (Item B) → Answer B
  pipeline_deleted : Ticket → Text → Result Text (Unit {0}) → Answer B
  pipeline_renamed : Ticket → Result Text (Item B) → Answer B
  tags_updated : Ticket → Result Text (Item B) → Answer B
  dataset_read : Ticket → ℕ → Text → Result Text (Item B) → Answer B

module _ {B : Type 0} where
  abbrev pub failed_if : Bool → Text → Resources B → Resources B
  failed_if wanted message r =
      if wanted then record r { errors = push_error message r.errors } else r

  -- `previous.map((item) => (item.id === updated.id ? updated : item))`
  abbrev pub replaced : Item B → List (Item B) → List (Item B)
  replaced new = map (λ item. if item.id === new.id then new else item)

  unfoldable pub clear_project_resources : Resources B → Resources B
  clear_project_resources r = record r {
    datasets = [];
    pipelines = [];
    membership = none;
    members = [];
    artifacts = [];
  }

  -- The rest of selectDataset once the server has answered.
  abbrev pub show_dataset : Text → Item B → Resources B → Resources B
  show_dataset id dataset r = record r {
    scope = record r.scope { selected_dataset = some id };
    artifacts = [];
    datasets = map (λ item. if item.id === id then dataset else item) r.datasets;
  }

  unfoldable pub take_answer : Answer B → Resources B → Resources B
  unfolding still_current still_selected push_error clear_errors_by_prefix
  take_answer (datasets_listed t project (ok next)) r =
      if is_wanted t project r.scope
      then record r { datasets = next; errors = clear_errors_by_prefix r.prefixes.dataset r.errors }
      else r
  take_answer (datasets_listed t project (err e)) r =
      failed_if (is_wanted t project r.scope) (prefixed r.prefixes.dataset e) r
  take_answer (pipelines_listed t project (ok next)) r =
      if is_wanted t project r.scope then record r { pipelines = next } else r
  take_answer (pipelines_listed t project (err e)) r =
      failed_if (is_wanted t project r.scope) (prefixed r.prefixes.pipeline e) r
  take_answer (membership_read t project (ok (current, all))) r =
      if is_wanted t project r.scope
      then record r { membership = some current; members = all }
      else r
  take_answer (membership_read t project (err e)) r =
      if is_wanted t project r.scope
      then record r {
        membership = none;
        members = [];
        errors = push_error (prefixed r.prefixes.member e) r.errors;
      }
      else r
  take_answer (artifacts_listed t dataset (ok next)) r =
      if is_selected t dataset r.scope then record r { artifacts = next } else r
  take_answer (artifacts_listed t dataset (err e)) r =
      failed_if (is_current t r.scope) (prefixed r.prefixes.artifact e) r
  take_answer (artifact_stored t dataset (ok a)) r =
      if is_selected t dataset r.scope then record r { artifacts = a ∷ r.artifacts } else r
  take_answer (artifact_stored t dataset (err e)) r = failed_if (is_current t r.scope) e r
  take_answer (pipeline_created t (ok p)) r =
      if still_current t r.scope then record r { pipelines = p ∷ r.pipelines } else r
  take_answer (pipeline_created t (err e)) r = failed_if (still_current t r.scope) e r
  take_answer (pipeline_deleted t id (ok tt)) r =
      if still_current t r.scope
      then record r { pipelines = filter (λ p. not (p.id === id)) r.pipelines }
      else r
  take_answer (pipeline_deleted t id (err e)) r = failed_if (still_current t r.scope) e r
  take_answer (pipeline_renamed t (ok p)) r =
      if still_current t r.scope then record r { pipelines = replaced p r.pipelines } else r
  take_answer (pipeline_renamed t (err e)) r = failed_if (still_current t r.scope) e r
  take_answer (tags_updated t (ok d)) r =
      if still_current t r.scope && d.project_id === t.project_id
      then record r { datasets = replaced d r.datasets }
      else r
  take_answer (tags_updated t (err e)) r = failed_if (still_current t r.scope) e r
  take_answer (dataset_read t request id (ok d)) r =
      if is_answer_wanted t request d.project_id r.scope then show_dataset id d r else r
  take_answer (dataset_read t request id (err e)) r =
      failed_if (still_current t r.scope && r.scope.selection_request == request) e r

pub data ResourceEvent (B : Type 0) : Type 0 where
  project_switched : Text → ResourceEvent B
  server_lost : ResourceEvent B
  -- a dataset of the browser, which needs no answer
  local_selected : Text → ResourceEvent B
  selection_requested : ResourceEvent B
  answered : Answer B → ResourceEvent B

module _ {B : Type 0} where
  -- With the effect that runs where no project is left.
  unfoldable pub resource_step : ResourceEvent B → Resources B → Resources B
  unfolding take_answer clear_project_resources begin_project_switch begin_selection
      request_selection
  resource_step (project_switched id) r =
      clear_project_resources (record r { scope = begin_project_switch id r.scope; errors = [] })
  resource_step server_lost r =
      clear_project_resources (record r { scope = without_project r.scope })
  resource_step (local_selected id) r = record r {
    scope = begin_selection (some id) r.scope;
    artifacts = [];
    errors = [];
  }
  resource_step selection_requested r = record r { scope = request_selection r.scope; errors = [] }
  resource_step (answered a) r = take_answer a r

  unfoldable pub resource_run : List (ResourceEvent B) → Resources B → Resources B
  unfolding resource_step
  resource_run [] r = r
  resource_run (e ∷ es) r = resource_run es (resource_step e r)
