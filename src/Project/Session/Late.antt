-- ===== src/Project/Session/Late.antt =====
-- A session of frontend/src/hooks/useRemoteSession.ts that is created after a dataset of the browser
-- was selected.
use my_paraview_web.Common.{◌≡◌, refl, ap, ◌∙◌, true, false, none, some, [], ◌∷◌, is_empty}
use my_paraview_web.Common.Eq.{Text}
use my_paraview_web.Project.Scope.{
  Scope, Ticket, capture, still_current, begin_selection, dataset_selected, scope_step, scope_run,
}
use my_paraview_web.Project.Scope.Laws.{is_switch, still_current-capture}
use my_paraview_web.Project.Session.{
  Starting, Remote, start_of, start_remote, session_created, select_dataset,
  stop_if_dataset_changed,
}

-- no session, no request
abbrev pub idle_remote : Scope → Remote
idle_remote s = record {
  scope = s;
  session = none;
  pending = false;
  starting = [];
  stopping = [];
  deleted = [];
  errors = [];
}

abbrev waiting : Scope → Starting → Remote
waiting s q = record (idle_remote s) { pending = true; starting = q ∷ [] }

start-idle :
    (s : Scope) (t : Ticket) (a : Text)
    → capture s ≡ some t
    → s.selected_dataset ≡ some a
    → is_empty a ≡ false
    → start_remote (idle_remote s) ≡ waiting s (record { ticket = t; dataset_id = a })
unfolding start_remote
start-idle s t a h selected named =
    ap (λ c. start_of c s.selected_dataset (idle_remote s)) h
    ∙ ap (λ d. start_of (some t) d (idle_remote s)) selected
    ∙ (rw named refl)

selection-current :
    (s : Scope) (t : Ticket) (b : Text)
    → capture s ≡ some t
    → still_current t (begin_selection (some b) s) ≡ true
unfolding scope_run scope_step is_switch
selection-current s t b h = still_current-capture (dataset_selected (some b) ∷ []) t s h

created-waiting :
    (s : Scope) (t : Ticket) (a b id : Text)
    → still_current t (begin_selection (some b) s) ≡ true
    → let r =
        session_created id (select_dataset b (waiting s (record { ticket = t; dataset_id = a }))) in
      (r.session ≡ some (record { id = id; project_id = t.project_id; dataset_id = a }))
      × (r.scope.selected_dataset ≡ some b)
unfolding session_created select_dataset stop_if_dataset_changed begin_selection
created-waiting s t a b id current = rw current (refl, refl)

-- A session whose creation is answered after a dataset of the browser was selected is shown all the
-- same: it is the session of the dataset selected before.
pub session_created-late :
    (s : Scope) (t : Ticket) (a b id : Text)
    → capture s ≡ some t
    → s.selected_dataset ≡ some a
    → is_empty a ≡ false
    → let r = session_created id (select_dataset b (start_remote (idle_remote s))) in
      (r.session ≡ some (record { id = id; project_id = t.project_id; dataset_id = a }))
      × (r.scope.selected_dataset ≡ some b)
session_created-late s t a b id h selected named =
    rw (start-idle s t a h selected named) (created-waiting s t a b id (selection-current s t b h))
