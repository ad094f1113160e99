-- ===== src/Project/Scope.antt =====
-- The refs of frontend/src/hooks/useProjectScope.ts and the tickets that asynchronous work takes,
-- with the selection of a dataset of the server, selectDataset of frontend/src/App.tsx.
pub mod Answers
pub mod Laws
use my_paraview_web.Common.{
  ℕ, ◌+◌, Bool, true, false, not, ◌&&◌, Option, none, some, List, [], ◌∷◌, is_empty, ◌==◌,
  if◌then◌else◌,
}
use my_paraview_web.Common.Eq.{Text, ◌===◌, Units_eq}

-- `null` is `none`
pub record Scope : Type 0 where
  pub current_project : Option Text
  pub project_epoch : ℕ
  pub selection_request : ℕ
  pub selected_dataset : Option Text

-- What the closures of a ScopeTicket have captured.
pub record Ticket : Type 0 where
  pub project_id : Text
  pub epoch : ℕ
  pub selection_request : ℕ

-- `ref.current === id`
abbrev pub is_text : Option Text → Text → Bool
is_text none id = false
is_text (some t) id = t === id

-- `if (!projectId) return null`: the empty text is none too
abbrev pub ticket_of : Option Text → Scope → Option Ticket
ticket_of none s = none
ticket_of (some id) s =
    if is_empty id
    then none
    else some (record {
      project_id = id;
      epoch = s.project_epoch;
      selection_request = s.selection_request;
    })

unfoldable pub capture : Scope → Option Ticket
capture s = ticket_of s.current_project s

unfoldable pub still_current : Ticket → Scope → Bool
still_current t s = is_text s.current_project t.project_id && s.project_epoch == t.epoch

unfoldable pub still_selected : Ticket → Text → Scope → Bool
still_selected t dataset s =
    is_text s.current_project t.project_id
    && (s.project_epoch == t.epoch
        && (s.selection_request == t.selection_request && is_text s.selected_dataset dataset))

unfoldable pub begin_project_switch : Text → Scope → Scope
begin_project_switch id s = record {
  current_project = some id;
  project_epoch = s.project_epoch + 1;
  selection_request = s.selection_request + 1;
  selected_dataset = none;
}

unfoldable pub begin_selection : Option Text → Scope → Scope
begin_selection dataset s = record s {
  selection_request = s.selection_request + 1;
  selected_dataset = dataset;
}

-- The two halves of selectDataset for a dataset of the server: the request that it counts, and the
-- dataset that it selects when the answer is still the last one asked for.
unfoldable pub request_selection : Scope → Scope
request_selection s = record s { selection_request = s.selection_request + 1 }

abbrev pub is_answer_wanted : Ticket → ℕ → Text → Scope → Bool
is_answer_wanted t request project s =
    still_current t s && (s.selection_request == request && project === t.project_id)

unfoldable pub answer_selection : Ticket → ℕ → Text → Text → Scope → Scope
unfolding still_current
answer_selection t request id project s =
    if is_answer_wanted t request project s then record s { selected_dataset = some id } else s

-- What happens to the refs.
pub data ScopeEvent : Type 0 where
  project_switched : Text → ScopeEvent
  dataset_selected : Option Text → ScopeEvent
  selection_requested : ScopeEvent
  selection_answered : Ticket → ℕ → Text → Text → ScopeEvent

unfoldable pub scope_step : ScopeEvent → Scope → Scope
unfolding begin_project_switch begin_selection request_selection answer_selection
scope_step (project_switched id) s = begin_project_switch id s
scope_step (dataset_selected dataset) s = begin_selection dataset s
scope_step selection_requested s = request_selection s
scope_step (selection_answered t request id project) s = answer_selection t request id project s

unfoldable pub scope_run : List ScopeEvent → Scope → Scope
scope_run [] s = s
scope_run (e ∷ es) s = scope_run es (scope_step e s)
