-- ===== src/Project/Resources/Stale.antt =====
-- The answers to calls that were made before a switch of projects.
use my_paraview_web.Common.{
  ◌+◌, ◌≤◌, Bool, true, false, not, ◌&&◌, Option, none, some, List, [], ◌∷◌, any, ◌==◌, ◌≡◌, refl,
  if◌then◌else◌, Bool-cases, inl, inr, arith, filter, some_injective,
}
use my_paraview_web.Common.Eq.{Text, ◌===◌, Units_eq}
use my_paraview_web.Common.Result.{ok, err}
use my_paraview_web.Project.Scope.{
  Scope, Ticket, capture, is_text, still_current, still_selected, is_answer_wanted,
  begin_project_switch,
}
use my_paraview_web.Project.Scope.Laws.{ticket_of-eqs}
use my_paraview_web.Project.Session.{without_project}
use my_paraview_web.Project.Banners.{push_error, prefixed, clear_errors_by_prefix}
use my_paraview_web.Project.Resources.{
  Resources, Answer, datasets_listed, pipelines_listed, membership_read, artifacts_listed,
  artifact_stored, pipeline_created, pipeline_deleted, pipeline_renamed, tags_updated, dataset_read,
  is_wanted, is_current, is_selected, take_answer, ResourceEvent, project_switched, server_lost,
  local_selected, selection_requested, answered, resource_step, resource_run, show_dataset,
  replaced,
}

abbrev IsOld : Ticket → Scope → Type 0
IsOld t s = (s.project_epoch == t.epoch) ≡ false

and_false : (a b : Bool) → b ≡ false → (a && b) ≡ false
and_false true b h = h
and_false false b h = refl

still_current-IsOld : (t : Ticket) (s : Scope) → IsOld t s → still_current t s ≡ false
unfolding still_current
still_current-IsOld t s h = and_false (is_text s.current_project t.project_id) _ h

still_selected-IsOld :
    (t : Ticket) (d : Text) (s : Scope) → IsOld t s → still_selected t d s ≡ false
unfolding still_selected
still_selected-IsOld t d s h =
    let other = and_false (is_text s.current_project t.project_id) in rw h (other false refl)

is_wanted-IsOld :
    (o : Option Ticket) (t : Ticket) (project : Text) (s : Scope)
    → o ≡ some t
    → IsOld t s
    → is_wanted o project s ≡ false
is_wanted-IsOld o t project s e h = rw (e, still_current-IsOld t s h) refl

is_current-IsOld :
    (o : Option Ticket) (t : Ticket) (s : Scope) → o ≡ some t → IsOld t s → is_current o s ≡ false
is_current-IsOld o t s e h = rw e (still_current-IsOld t s h)

current-IsOld : (u t : Ticket) (s : Scope) → some u ≡ some t → IsOld t s → still_current u s ≡ false
current-IsOld u t s h old =
    let same : u ≡ t = some_injective h in rw same (still_current-IsOld t s old)

is_selected-IsOld :
    (o : Option Ticket) (t : Ticket) (d : Text) (s : Scope)
    → o ≡ some t
    → IsOld t s
    → is_selected o d s ≡ false
is_selected-IsOld o t d s e h = rw e (still_selected-IsOld t d s h)

lost-epoch : (s : Scope) → s.project_epoch ≤ (without_project s).project_epoch
unfolding begin_project_switch
lost-epoch s = ground arith

module _ {B : Type 0} where
  -- The ticket that the call took.
  abbrev pub ticket_in : Answer B → Option Ticket
  ticket_in (datasets_listed t project r) = t
  ticket_in (pipelines_listed t project r) = t
  ticket_in (membership_read t project r) = t
  ticket_in (artifacts_listed t dataset r) = t
  ticket_in (artifact_stored t dataset r) = t
  ticket_in (pipeline_created t r) = some t
  ticket_in (pipeline_deleted t id r) = some t
  ticket_in (pipeline_renamed t r) = some t
  ticket_in (tags_updated t r) = some t
  ticket_in (dataset_read t request id r) = some t

  abbrev pub is_switched : ResourceEvent B → Bool
  is_switched (project_switched id) = true
  is_switched _ = false

  kept_epoch :
      (b : Bool) (x r : Resources B)
      → x.scope.project_epoch ≡ r.scope.project_epoch
      → (if b then x else r).scope.project_epoch ≡ r.scope.project_epoch
  kept_epoch true x r h = h
  kept_epoch false x r h = refl

  answer-epoch :
      (a : Answer B) (r : Resources B)
      → (take_answer a r).scope.project_epoch ≡ r.scope.project_epoch
  unfolding take_answer
  answer-epoch (datasets_listed o p (ok x)) r =
      kept_epoch (is_wanted o p r.scope)
        (record r { datasets = x; errors = clear_errors_by_prefix r.prefixes.dataset r.errors }) r
        refl
  answer-epoch (datasets_listed o p (err e)) r =
      kept_epoch (is_wanted o p r.scope)
        (record r { errors = push_error (prefixed r.prefixes.dataset e) r.errors }) r refl
  answer-epoch (pipelines_listed o p (ok x)) r =
      kept_epoch (is_wanted o p r.scope) (record r { pipelines = x }) r refl
  answer-epoch (pipelines_listed o p (err e)) r =
      kept_epoch (is_wanted o p r.scope)
        (record r { errors = push_error (prefixed r.prefixes.pipeline e) r.errors }) r refl
  answer-epoch (membership_read o p (ok (m, ms))) r =
      kept_epoch (is_wanted o p r.scope) (record r { membership = some m; members = ms }) r refl
  answer-epoch (membership_read o p (err e)) r =
      kept_epoch (is_wanted o p r.scope)
        (record r {
          membership = none;
          members = [];
          errors = push_error (prefixed r.prefixes.member e) r.errors;
        })
        r refl
  answer-epoch (artifacts_listed o d (ok x)) r =
      kept_epoch (is_selected o d r.scope) (record r { artifacts = x }) r refl
  answer-epoch (artifacts_listed o d (err e)) r =
      kept_epoch (is_current o r.scope)
        (record r { errors = push_error (prefixed r.prefixes.artifact e) r.errors }) r refl
  answer-epoch (artifact_stored o d (ok x)) r =
      kept_epoch (is_selected o d r.scope) (record r { artifacts = x ∷ r.artifacts }) r refl
  answer-epoch (artifact_stored o d (err e)) r =
      kept_epoch (is_current o r.scope) (record r { errors = push_error e r.errors }) r refl
  answer-epoch (pipeline_created u (ok x)) r =
      kept_epoch (still_current u r.scope) (record r { pipelines = x ∷ r.pipelines }) r refl
  answer-epoch (pipeline_created u (err e)) r =
      kept_epoch (still_current u r.scope) (record r { errors = push_error e r.errors }) r refl
  answer-epoch (pipeline_deleted u id (ok tt)) r =
      kept_epoch (still_current u r.scope)
        (record r { pipelines = filter (λ p. not (p.id === id)) r.pipelines }) r refl
  answer-epoch (pipeline_deleted u id (err e)) r =
      kept_epoch (still_current u r.scope) (record r { errors = push_error e r.errors }) r refl
  answer-epoch (pipeline_renamed u (ok x)) r =
      kept_epoch (still_current u r.scope) (record r { pipelines = replaced x r.pipelines }) r refl
  answer-epoch (pipeline_renamed u (err e)) r =
      kept_epoch (still_current u r.scope) (record r { errors = push_error e r.errors }) r refl
  answer-epoch (tags_updated u (ok x)) r =
      kept_epoch (still_current u r.scope && x.project_id === u.project_id)
        (record r { datasets = replaced x r.datasets }) r refl
  answer-epoch (tags_updated u (err e)) r =
      kept_epoch (still_current u r.scope) (record r { errors = push_error e r.errors }) r refl
  answer-epoch (dataset_read u n id (ok x)) r =
      kept_epoch (is_answer_wanted u n x.project_id r.scope) (show_dataset id x r) r refl
  answer-epoch (dataset_read u n id (err e)) r =
      kept_epoch (still_current u r.scope && r.scope.selection_request == n)
        (record r { errors = push_error e r.errors }) r refl

  -- An answer to a call whose ticket is old changes nothing.
  take_answer-IsOld :
      (a : Answer B) (t : Ticket) (r : Resources B)
      → ticket_in a ≡ some t
      → IsOld t r.scope
      → take_answer a r ≡ r
  unfolding take_answer
  take_answer-IsOld (datasets_listed o p (ok x)) t r h old =
      rw (is_wanted-IsOld o t p r.scope h old) refl
  take_answer-IsOld (datasets_listed o p (err e)) t r h old =
      rw (is_wanted-IsOld o t p r.scope h old) refl
  take_answer-IsOld (pipelines_listed o p (ok x)) t r h old =
      rw (is_wanted-IsOld o t p r.scope h old) refl
  take_answer-IsOld (pipelines_listed o p (err e)) t r h old =
      rw (is_wanted-IsOld o t p r.scope h old) refl
  take_answer-IsOld (membership_read o p (ok (m, ms))) t r h old =
      rw (is_wanted-IsOld o t p r.scope h old) refl
  take_answer-IsOld (membership_read o p (err e)) t r h old =
      rw (is_wanted-IsOld o t p r.scope h old) refl
  take_answer-IsOld (artifacts_listed o d (ok x)) t r h old =
      rw (is_selected-IsOld o t d r.scope h old) refl
  take_answer-IsOld (artifacts_listed o d (err e)) t r h old =
      rw (is_current-IsOld o t r.scope h old) refl
  take_answer-IsOld (artifact_stored o d (ok x)) t r h old =
      rw (is_selected-IsOld o t d r.scope h old) refl
  take_answer-IsOld (artifact_stored o d (err e)) t r h old =
      rw (is_current-IsOld o t r.scope h old) refl
  take_answer-IsOld (pipeline_created u (ok x)) t r h old =
      rw (current-IsOld u t r.scope h old) refl
  take_answer-IsOld (pipeline_created u (err e)) t r h old =
      rw (current-IsOld u t r.scope h old) refl
  take_answer-IsOld (pipeline_deleted u id (ok tt)) t r h old =
      rw (current-IsOld u t r.scope h old) refl
  take_answer-IsOld (pipeline_deleted u id (err e)) t r h old =
      rw (current-IsOld u t r.scope h old) refl
  take_answer-IsOld (pipeline_renamed u (ok x)) t r h old =
      rw (current-IsOld u t r.scope h old) refl
  take_answer-IsOld (pipeline_renamed u (err e)) t r h old =
      rw (current-IsOld u t r.scope h old) refl
  take_answer-IsOld (tags_updated u (ok x)) t r h old = rw (current-IsOld u t r.scope h old) refl
  take_answer-IsOld (tags_updated u (err e)) t r h old = rw (current-IsOld u t r.scope h old) refl
  take_answer-IsOld (dataset_read u n id (ok x)) t r h old =
      rw (current-IsOld u t r.scope h old) refl
  take_answer-IsOld (dataset_read u n id (err e)) t r h old =
      rw (current-IsOld u t r.scope h old) refl

  step-epoch :
      (e : ResourceEvent B) (r : Resources B)
      → r.scope.project_epoch + (if is_switched e then 1 else 0)
        ≤ (resource_step e r).scope.project_epoch
  unfolding resource_step
  step-epoch (project_switched id) r = omega arith
  step-epoch server_lost r = omega (arith, lost-epoch r.scope)
  step-epoch (local_selected id) r = omega arith
  step-epoch selection_requested r = omega arith
  step-epoch (answered a) r = omega (arith, answer-epoch a r)

  run-epoch :
      (es : List (ResourceEvent B)) (r : Resources B)
      → r.scope.project_epoch + (if any is_switched es then 1 else 0)
        ≤ (resource_run es r).scope.project_epoch
  unfolding resource_run
  run-epoch [] r = omega arith
  run-epoch (e ∷ es) r =
      let step = step-epoch e r in
      let rest = run-epoch es (resource_step e r) in
      elim (Bool-cases (is_switched e)) [
        | inl t ↦ let more = rw t at step in rw t (omega arith)
        | inr f ↦ rw f (omega arith)
      ]

  -- Once the project has been switched, even back to itself, the answer to a call made before changes
  -- nothing: no resource, no message and no selection.
  pub take_answer-switched :
      (r : Resources B) (es : List (ResourceEvent B)) (t : Ticket) (a : Answer B)
      → capture r.scope ≡ some t
      → any is_switched es ≡ true
      → ticket_in a ≡ some t
      → take_answer a (resource_run es r) ≡ resource_run es r
  unfolding capture
  take_answer-switched r es t a taken switched h =
      let (_, epoch, _) = ticket_of-eqs r.scope.current_project t r.scope taken in
      let later = rw switched at (run-epoch es r) in
      take_answer-IsOld a t (resource_run es r) h (ground arith)
