-- ===== src/Project/Scope/Answers.antt =====
-- What becomes of the selected dataset of frontend/src/hooks/useProjectScope.ts while the answers to
-- requests for a selection come in.
use my_paraview_web.Common.{
  ℕ, ◌≡◌, refl, sym, ◌∙◌, Bool, true, false, ◌&&◌, Option, some, List, [], ◌∷◌, any, if◌then◌else◌,
  ◌==◌, ==_refl, Bool-cases, inl, inr, neither,
}
use my_paraview_web.Common.Eq.{Text, ◌===◌, Units_eq, same_units_refl}
use my_paraview_web.Project.Scope.{
  Scope, Ticket, is_text, still_current, still_selected, answer_selection, is_answer_wanted,
  ScopeEvent, project_switched, dataset_selected, selection_requested, selection_answered,
  scope_step, scope_run,
}

-- What counts the selections on: anything but the answer to a request, which was counted before.
unfoldable pub is_counted : ScopeEvent → Bool
is_counted (selection_answered t request id project) = false
is_counted _ = true

-- Whether an answer is to the request that a ticket was taken at: the number and the project are
-- those of the ticket, and the answer's own ticket is of the same project and epoch.
unfoldable pub is_awaited : Ticket → Ticket → ℕ → Text → Bool
is_awaited t own request project =
    (t.project_id === own.project_id && t.epoch == own.epoch)
    && (t.selection_request == request && project === own.project_id)

-- The dataset that is selected after events of which none is counted: that of the last answer to
-- the ticket's request, or the one from before.
unfoldable pub last_awaited : Ticket → List ScopeEvent → Option Text → Option Text
unfolding is_awaited
last_awaited t [] before = before
last_awaited t (selection_answered own request id project ∷ es) before =
    last_awaited t es (if is_awaited t own request project then some id else before)
last_awaited t (e ∷ es) before = last_awaited t es before

-- As long as nothing is counted, the refs but the selected dataset are those of the ticket.
pub record IsOf (t : Ticket) (s : Scope) : Type 0 where
  pub project : s.current_project ≡ some t.project_id
  pub epoch : s.project_epoch ≡ t.epoch
  pub request : s.selection_request ≡ t.selection_request

wanted-awaited :
    (t own : Ticket) (request : ℕ) (project : Text) (s : Scope)
    → IsOf t s
    → is_answer_wanted own request project s ≡ is_awaited t own request project
unfolding still_current is_awaited
wanted-awaited t own request project s h = rw (h.project, h.epoch, h.request) refl

step-selected :
    (t : Ticket) (e : ScopeEvent) (es : List ScopeEvent) (s : Scope)
    → IsOf t s
    → is_counted e ≡ false
    → IsOf t (scope_step e s)
      × (last_awaited t (e ∷ es) s.selected_dataset
          ≡ last_awaited t es (scope_step e s).selected_dataset)
unfolding scope_step is_counted last_awaited answer_selection
step-selected t (project_switched id) es s h n = cc
step-selected t (dataset_selected d) es s h n = cc
step-selected t selection_requested es s h n = cc
step-selected t (selection_answered own request id project) es s h n =
    let same = wanted-awaited t own request project s h in
    elim (Bool-cases (is_awaited t own request project)) [
      | inl awaited ↦
          rw (same, awaited)
            (record { project = h.project; epoch = h.epoch; request = h.request }, refl)
      | inr stale ↦ rw (same, stale) (h, refl)
    ]

pub run-selected :
    (t : Ticket) (es : List ScopeEvent) (s : Scope)
    → IsOf t s
    → any is_counted es ≡ false
    → IsOf t (scope_run es s)
      × ((scope_run es s).selected_dataset ≡ last_awaited t es s.selected_dataset)
unfolding scope_run last_awaited
run-selected t [] s h n = (h, refl)
run-selected t (e ∷ es) s h n =
    let (first, others) = neither (is_counted e) (any is_counted es) n in
    let (kept, step) = step-selected t e es s h first in
    let (all, rest) = run-selected t es (scope_step e s) kept others in (all, rest ∙ sym step)

pub selected-IsOf :
    (t : Ticket) (id : Text) (s : Scope)
    → IsOf t s
    → still_selected t id s ≡ is_text s.selected_dataset id
unfolding still_selected
selected-IsOf t id s h =
    rw
      (
        h.project,
        h.epoch,
        h.request,
        same_units_refl t.project_id,
        ==_refl t.epoch,
        ==_refl t.selection_request,
      )
      refl
