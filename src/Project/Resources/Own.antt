-- ===== src/Project/Resources/Own.antt =====
-- What is shown belongs to the current project and the selected dataset.
use mathlib.Core.Bool.{and-eq-true_iff}
use my_paraview_web.Common.{
  ℕ, Bool, true, false, not, ◌&&◌, Option, none, some, List, [], ◌∷◌, map, filter, if◌then◌else◌,
  ◌≡◌, sym, ◌∙◌, ap, All, All-map_of, All-filter, All-weaken, either, ◌==◌,
}
use my_paraview_web.Common.Eq.{Text, ◌===◌, Units_eq}
use my_paraview_web.Common.Result.{ok, err}
use my_paraview_web.Project.Scope.{
  Scope, Ticket, is_text, still_current, still_selected, is_answer_wanted, begin_project_switch,
}
use my_paraview_web.Project.Session.{without_project}
use my_paraview_web.Project.Banners.{push_error, prefixed, clear_errors_by_prefix}
use my_paraview_web.Project.Resources.{
  Item, Artifact, Resources, Answer, datasets_listed, pipelines_listed, membership_read,
  artifacts_listed, artifact_stored, pipeline_created, pipeline_deleted, pipeline_renamed,
  tags_updated, dataset_read, is_wanted, is_current, is_selected, failed_if, replaced, show_dataset,
  clear_project_resources, take_answer, ResourceEvent, project_switched, server_lost,
  local_selected, selection_requested, answered, resource_step, resource_run,
}

is_text-some : (o : Option Text) (t : Text) → is_text o t ≡ true → o ≡ some t
is_text-some none t h = cc
is_text-some (some u) t h = ap some ((Units_eq.beq_iff u t).0 h)

still_current-project :
    (t : Ticket) (s : Scope) → still_current t s ≡ true → s.current_project ≡ some t.project_id
unfolding still_current
still_current-project t s h =
    is_text-some s.current_project t.project_id ((and-eq-true_iff _ _).0 h).0

is_wanted-project :
    (t : Option Ticket) (project : Text) (s : Scope)
    → is_wanted t project s ≡ true
    → s.current_project ≡ some project
is_wanted-project none project s h = cc
is_wanted-project (some t) project s h =
    let (current, same) = (and-eq-true_iff _ _).0 h in
    still_current-project t s current ∙ ap some ((Units_eq.beq_iff t.project_id project).0 same)

is_selected-dataset :
    (t : Option Ticket) (dataset : Text) (s : Scope)
    → is_selected t dataset s ≡ true
    → s.selected_dataset ≡ some dataset
unfolding still_selected
is_selected-dataset none dataset s h = cc
is_selected-dataset (some t) dataset s h =
    let (_, h1) = (and-eq-true_iff (is_text s.current_project t.project_id) _).0 h in
    let (_, h2) = (and-eq-true_iff (s.project_epoch == t.epoch) _).0 h1 in
    let (_, h3) = (and-eq-true_iff (s.selection_request == t.selection_request) _).0 h2 in
    is_text-some s.selected_dataset dataset h3

module _ {B : Type 0} where
  abbrev pub IsOf : Option Text → Item B → Type 0
  IsOf current item = current ≡ some item.project_id

  abbrev pub OptionIsOf : Option Text → Option (Item B) → Type 0
  OptionIsOf current none = Unit
  OptionIsOf current (some item) = IsOf current item

  -- Every dataset, pipeline and member is of the current project, and every artifact of the selected
  -- dataset.
  pub record IsOwn (r : Resources B) : Type 0 where
    pub own_datasets : All (IsOf r.scope.current_project) r.datasets
    pub own_pipelines : All (IsOf r.scope.current_project) r.pipelines
    pub own_membership : OptionIsOf r.scope.current_project r.membership
    pub own_members : All (IsOf r.scope.current_project) r.members
    pub own_artifacts : All (λ a. r.scope.selected_dataset ≡ a.dataset_id) r.artifacts

  -- The server lists, of a project or a dataset, what belongs to it, and keeps the project of what it
  -- creates and renames. Of a single dataset nothing is said.
  abbrev pub IsFaithful : Answer B → Type 0
  IsFaithful (datasets_listed t project (ok ds)) = All (λ d. d.project_id ≡ project) ds
  IsFaithful (pipelines_listed t project (ok ps)) = All (λ p. p.project_id ≡ project) ps
  IsFaithful (membership_read t project (ok (current, all))) =
      (current.project_id ≡ project) × All (λ m. m.project_id ≡ project) all
  IsFaithful (artifacts_listed t dataset (ok as_)) = All (λ a. a.dataset_id ≡ some dataset) as_
  IsFaithful (artifact_stored t dataset (ok a)) = a.dataset_id ≡ some dataset
  IsFaithful (pipeline_created t (ok p)) = p.project_id ≡ t.project_id
  IsFaithful (pipeline_renamed t (ok p)) = p.project_id ≡ t.project_id
  IsFaithful _ = Unit

  abbrev pub IsFaithfulEvent : ResourceEvent B → Type 0
  IsFaithfulEvent (answered a) = IsFaithful a
  IsFaithfulEvent _ = Unit

  -- The state where datasets are listed, and where the membership could not be read.
  abbrev listed_datasets : List (Item B) → Resources B → Resources B
  listed_datasets next r = record r {
    datasets = next;
    errors = clear_errors_by_prefix r.prefixes.dataset r.errors;
  }

  abbrev no_membership : Text → Resources B → Resources B
  no_membership e r = record r {
    membership = none;
    members = [];
    errors = push_error (prefixed r.prefixes.member e) r.errors;
  }

  with_errors : (es : List Text) (r : Resources B) → IsOwn r → IsOwn (record r { errors = es })
  with_errors es r h = record {
    own_datasets = h.own_datasets;
    own_pipelines = h.own_pipelines;
    own_membership = h.own_membership;
    own_members = h.own_members;
    own_artifacts = h.own_artifacts;
  }

  failed_if-IsOwn : (b : Bool) (e : Text) (r : Resources B) → IsOwn r → IsOwn (failed_if b e r)
  failed_if-IsOwn true e r h = with_errors (push_error e r.errors) r h
  failed_if-IsOwn false e r h = h

  listed-IsOf :
      (current : Option Text) (project : Text) (items : List (Item B))
      → current ≡ some project
      → All (λ i. i.project_id ≡ project) items
      → All (IsOf current) items
  listed-IsOf current project items e h =
      All-weaken (λ i. i.project_id ≡ project) items (λ i k. e ∙ ap some (sym k)) h

  replaced-IsOf :
      (current : Option Text) (new : Item B) (id : Text) (items : List (Item B))
      → IsOf current new
      → All (IsOf current) items
      → All (IsOf current) (map (λ i. if i.id === id then new else i) items)
  replaced-IsOf current new id items e h =
      All-map_of (IsOf current) (λ i. if i.id === id then new else i) items
        (λ i k. either (IsOf current) (i.id === id) new i (λ t. e) (λ f. k)) h

  kept-IsOf :
      (current : Option Text) (p : Item B → Bool) (items : List (Item B))
      → All (IsOf current) items
      → All (IsOf current) (filter p items)
  kept-IsOf current p items h =
      All-weaken (λ i. IsOf current i × (p i ≡ true)) (filter p items) (λ i k. k.0)
        (All-filter (IsOf current) p items h)

  with_datasets :
      (r : Resources B) (ds : List (Item B))
      → IsOwn r
      → All (IsOf r.scope.current_project) ds
      → IsOwn (record r { datasets = ds })
  with_datasets r ds h k = record {
    own_datasets = k;
    own_pipelines = h.own_pipelines;
    own_membership = h.own_membership;
    own_members = h.own_members;
    own_artifacts = h.own_artifacts;
  }

  with_pipelines :
      (r : Resources B) (ps : List (Item B))
      → IsOwn r
      → All (IsOf r.scope.current_project) ps
      → IsOwn (record r { pipelines = ps })
  with_pipelines r ps h k = record {
    own_datasets = h.own_datasets;
    own_pipelines = k;
    own_membership = h.own_membership;
    own_members = h.own_members;
    own_artifacts = h.own_artifacts;
  }

  with_members :
      (r : Resources B) (m : Option (Item B)) (ms : List (Item B))
      → IsOwn r
      → OptionIsOf r.scope.current_project m
      → All (IsOf r.scope.current_project) ms
      → IsOwn (record r { membership = m; members = ms })
  with_members r m ms h k l = record {
    own_datasets = h.own_datasets;
    own_pipelines = h.own_pipelines;
    own_membership = k;
    own_members = l;
    own_artifacts = h.own_artifacts;
  }

  with_artifacts :
      (r : Resources B) (as_ : List (Artifact B))
      → IsOwn r
      → All (λ a. r.scope.selected_dataset ≡ a.dataset_id) as_
      → IsOwn (record r { artifacts = as_ })
  with_artifacts r as_ h k = record {
    own_datasets = h.own_datasets;
    own_pipelines = h.own_pipelines;
    own_membership = h.own_membership;
    own_members = h.own_members;
    own_artifacts = k;
  }

  -- What a check of the project of an answer lets through is of the current project.
  checked-IsOf :
      (t : Ticket) (s : Scope) (item : Item B)
      → still_current t s ≡ true
      → (item.project_id === t.project_id) ≡ true
      → IsOf s.current_project item
  checked-IsOf t s item current same =
      still_current-project t s current
      ∙ ap some (sym ((Units_eq.beq_iff item.project_id t.project_id).0 same))

  show_dataset-IsOwn :
      (t : Ticket) (request : ℕ) (id : Text) (d : Item B) (r : Resources B)
      → is_answer_wanted t request d.project_id r.scope ≡ true
      → IsOwn r
      → IsOwn (show_dataset id d r)
  show_dataset-IsOwn t request id d r e h =
      let (current, more) = (and-eq-true_iff _ _).0 e in
      let (_, same) = (and-eq-true_iff (r.scope.selection_request == request) _).0 more in
      record {
        own_datasets =
            replaced-IsOf r.scope.current_project d id r.datasets
              (checked-IsOf t r.scope d current same) h.own_datasets;
        own_pipelines = h.own_pipelines;
        own_membership = h.own_membership;
        own_members = h.own_members;
        own_artifacts = tt;
      }

  take_answer-IsOwn :
      (a : Answer B) (r : Resources B) → IsFaithful a → IsOwn r → IsOwn (take_answer a r)
  unfolding take_answer
  take_answer-IsOwn (datasets_listed t project (ok next)) r k h =
      either IsOwn (is_wanted t project r.scope) (listed_datasets next r) r
        (λ e.
          with_errors _ (record r { datasets = next })
            (with_datasets r next h (
              listed-IsOf r.scope.current_project project next
                (is_wanted-project t project r.scope e) k)))
        (λ f. h)
  take_answer-IsOwn (datasets_listed t project (err e)) r k h =
      failed_if-IsOwn (is_wanted t project r.scope) _ r h
  take_answer-IsOwn (pipelines_listed t project (ok next)) r k h =
      either IsOwn (is_wanted t project r.scope) (record r { pipelines = next }) r
        (λ e. with_pipelines r next h (
          listed-IsOf r.scope.current_project project next (is_wanted-project t project r.scope e)
            k))
        (λ f. h)
  take_answer-IsOwn (pipelines_listed t project (err e)) r k h =
      failed_if-IsOwn (is_wanted t project r.scope) _ r h
  take_answer-IsOwn (membership_read t project (ok (current, all))) r k h =
      either IsOwn (is_wanted t project r.scope)
        (record r { membership = some current; members = all }) r
        (λ e.
          with_members r (some current) all h
            (is_wanted-project t project r.scope e ∙ ap some (sym k.0))
            (listed-IsOf r.scope.current_project project all (is_wanted-project t project r.scope e)
              k.1))
        (λ f. h)
  take_answer-IsOwn (membership_read t project (err x)) r k h =
      either IsOwn (is_wanted t project r.scope) (no_membership x r) r
        (λ e.
          with_errors _ (record r { membership = none; members = [] })
            (with_members r none [] h tt tt))
        (λ f. h)
  take_answer-IsOwn (artifacts_listed t dataset (ok next)) r k h =
      either IsOwn (is_selected t dataset r.scope) (record r { artifacts = next }) r
        (λ e. with_artifacts r next h (
          All-weaken (λ a. a.dataset_id ≡ some dataset) next
            (λ a p. is_selected-dataset t dataset r.scope e ∙ sym p) k))
        (λ f. h)
  take_answer-IsOwn (artifacts_listed t dataset (err e)) r k h =
      failed_if-IsOwn (is_current t r.scope) _ r h
  take_answer-IsOwn (artifact_stored t dataset (ok a)) r k h =
      either IsOwn (is_selected t dataset r.scope) (record r { artifacts = a ∷ r.artifacts }) r
        (λ e.
          with_artifacts r (a ∷ r.artifacts) h
            (is_selected-dataset t dataset r.scope e ∙ sym k, h.own_artifacts))
        (λ f. h)
  take_answer-IsOwn (artifact_stored t dataset (err e)) r k h =
      failed_if-IsOwn (is_current t r.scope) _ r h
  take_answer-IsOwn (pipeline_created t (ok p)) r k h =
      either IsOwn (still_current t r.scope) (record r { pipelines = p ∷ r.pipelines }) r
        (λ e.
          with_pipelines r (p ∷ r.pipelines) h
            (still_current-project t r.scope e ∙ ap some (sym k), h.own_pipelines))
        (λ f. h)
  take_answer-IsOwn (pipeline_created t (err e)) r k h =
      failed_if-IsOwn (still_current t r.scope) e r h
  take_answer-IsOwn (pipeline_deleted t id (ok tt)) r k h =
      either IsOwn (still_current t r.scope)
        (record r { pipelines = filter (λ p. not (p.id === id)) r.pipelines }) r
        (λ e.
          with_pipelines r _ h (
            kept-IsOf r.scope.current_project (λ p. not (p.id === id)) r.pipelines h.own_pipelines))
        (λ f. h)
  take_answer-IsOwn (pipeline_deleted t id (err e)) r k h =
      failed_if-IsOwn (still_current t r.scope) e r h
  take_answer-IsOwn (pipeline_renamed t (ok p)) r k h =
      either IsOwn (still_current t r.scope) (record r { pipelines = replaced p r.pipelines }) r
        (λ e. with_pipelines r _ h (
          replaced-IsOf r.scope.current_project p p.id r.pipelines
            (still_current-project t r.scope e ∙ ap some (sym k)) h.own_pipelines))
        (λ f. h)
  take_answer-IsOwn (pipeline_renamed t (err e)) r k h =
      failed_if-IsOwn (still_current t r.scope) e r h
  take_answer-IsOwn (tags_updated t (ok d)) r k h =
      either IsOwn (still_current t r.scope && d.project_id === t.project_id)
        (record r { datasets = replaced d r.datasets }) r
        (λ e.
          let (current, same) = (and-eq-true_iff _ _).0 e in
          with_datasets r _ h (
            replaced-IsOf r.scope.current_project d d.id r.datasets
              (checked-IsOf t r.scope d current same) h.own_datasets))
        (λ f. h)
  take_answer-IsOwn (tags_updated t (err e)) r k h = failed_if-IsOwn (still_current t r.scope) e r h
  take_answer-IsOwn (dataset_read t request id (ok d)) r k h =
      either IsOwn (is_answer_wanted t request d.project_id r.scope) (show_dataset id d r) r
        (λ e. show_dataset-IsOwn t request id d r e h) (λ f. h)
  take_answer-IsOwn (dataset_read t request id (err e)) r k h =
      failed_if-IsOwn (still_current t r.scope && r.scope.selection_request == request) e r h

  cleared-IsOwn : (r : Resources B) → IsOwn (clear_project_resources r)
  unfolding clear_project_resources
  cleared-IsOwn r = record {
    own_datasets = tt;
    own_pipelines = tt;
    own_membership = tt;
    own_members = tt;
    own_artifacts = tt;
  }

  resource_step-IsOwn :
      (e : ResourceEvent B) (r : Resources B)
      → IsFaithfulEvent e
      → IsOwn r
      → IsOwn (resource_step e r)
  unfolding resource_step
  resource_step-IsOwn (project_switched id) r k h =
      cleared-IsOwn (record r { scope = begin_project_switch id r.scope; errors = [] })
  resource_step-IsOwn server_lost r k h =
      cleared-IsOwn (record r { scope = without_project r.scope })
  resource_step-IsOwn (local_selected id) r k h = record {
    own_datasets = h.own_datasets;
    own_pipelines = h.own_pipelines;
    own_membership = h.own_membership;
    own_members = h.own_members;
    own_artifacts = tt;
  }
  resource_step-IsOwn selection_requested r k h = record {
    own_datasets = h.own_datasets;
    own_pipelines = h.own_pipelines;
    own_membership = h.own_membership;
    own_members = h.own_members;
    own_artifacts = h.own_artifacts;
  }
  resource_step-IsOwn (answered a) r k h = take_answer-IsOwn a r k h

  -- If the server lists what belongs to the project or the dataset that it is asked about, and keeps the
  -- project of a pipeline, then after any events and answers, early or late, every dataset, pipeline and
  -- member that is shown is of the current project, and every artifact of the selected dataset.
  pub resource_run-IsOwn :
      (es : List (ResourceEvent B)) (r : Resources B)
      → All IsFaithfulEvent es
      → IsOwn r
      → IsOwn (resource_run es r)
  unfolding resource_run
  resource_run-IsOwn [] r k h = h
  resource_run-IsOwn (e ∷ es) r (k, ks) h =
      resource_run-IsOwn es (resource_step e r) ks (resource_step-IsOwn e r k h)
