-- ===== src/Project/Tests.antt =====
-- Runs of the scope, the remote session and the polling at concrete values.
use mathlib.Core.List.{foldl}
use my_paraview_web.Common.{
  ℕ, ◌≡◌, refl, true, false, not, ◌&&◌, none, some, List, [], ◌∷◌, arith, any,
}
use my_paraview_web.Common.Eq.{codes, ℕ_eq}
use my_paraview_web.Project.Scope.{
  Scope, Ticket, capture, still_current, still_selected, ScopeEvent, project_switched,
  selection_answered, scope_run, scope_step, answer_selection, is_text,
}
use my_paraview_web.Project.Scope.Answers.{is_counted, last_awaited}
use my_paraview_web.Project.Scope.Laws.{is_switch, still_current-capture, still_selected-capture}
use my_paraview_web.Project.Session.{
  RemoteEvent, started, was_created, project_chosen, dataset_chosen, remote_step, session_created,
  select_dataset, start_remote,
}
use my_paraview_web.Project.Session.Laws.{IsSound, foldl-remote_step-IsSound}
use my_paraview_web.Project.Session.Late.{idle_remote, session_created-late}
use my_paraview_web.Project.Polling.{Polling, poll_done, cancel_clicked, answered, polling_step}
use my_paraview_web.Project.Polling.Single.{count, IsCalm, polling_step-IsCalm}
use my_paraview_web.Project.Polling.Cancels.{IsGuarded, polling_step-IsGuarded}

abbrev in_project : Scope
in_project = record {
  current_project = some (codes "p1");
  project_epoch = 3;
  selection_request = 5;
  selected_dataset = some (codes "a");
}

abbrev ticket_taken : Ticket
ticket_taken = record { project_id = codes "p1"; epoch = 3; selection_request = 5 }

captured : capture in_project ≡ some ticket_taken
unfolding capture
captured = refl

abbrev back_again : List ScopeEvent
back_again = project_switched (codes "p2") ∷ project_switched (codes "p1") ∷ []

still_current-capture_example :
    still_current ticket_taken (scope_run back_again in_project) ≡ not (any is_switch back_again)
still_current-capture_example = still_current-capture back_again ticket_taken in_project captured

-- An answer to an older request, then that to the request at which the ticket was taken.
abbrev two_answers : List ScopeEvent
two_answers =
    selection_answered (record ticket_taken { selection_request = 3 }) 4 (codes "z") (codes "p1")
    ∷ selection_answered (record ticket_taken { selection_request = 4 }) 5 (codes "b") (codes "p1")
    ∷ selection_answered (record ticket_taken { selection_request = 3 }) 4 (codes "z") (codes "p1")
    ∷ []

still_selected-capture_example :
    still_selected ticket_taken (codes "b") (scope_run two_answers in_project) ≡ (
      not (any is_counted two_answers)
      && is_text (last_awaited ticket_taken two_answers (some (codes "a"))) (codes "b"))
still_selected-capture_example =
    still_selected-capture two_answers ticket_taken (codes "b") in_project captured

newest_answer_selected :
    still_selected ticket_taken (codes "b") (scope_run two_answers in_project) ≡ true
unfolding still_selected scope_run scope_step answer_selection
newest_answer_selected = refl

abbrev some_clicks : List RemoteEvent
some_clicks =
    started
    ∷ dataset_chosen (codes "b")
    ∷ was_created (codes "s")
    ∷ project_chosen (codes "p2")
    ∷ []

idle-IsSound : IsSound (idle_remote in_project)
idle-IsSound = record { shown = tt; requests = omega arith }

foldl-remote_step-IsSound_example :
    IsSound (foldl (λ s e. remote_step e s) (idle_remote in_project) some_clicks)
foldl-remote_step-IsSound_example =
    foldl-remote_step-IsSound some_clicks (idle_remote in_project) idle-IsSound

session_created-late_example :
    let r =
      session_created
        (codes "s")
        (select_dataset (codes "b") (start_remote (idle_remote in_project))) in
    (r.session ≡ some (record { id = codes "s"; project_id = codes "p1"; dataset_id = codes "a" }))
    × (r.scope.selected_dataset ≡ some (codes "b"))
session_created-late_example =
    session_created-late in_project ticket_taken (codes "a") (codes "b") (codes "s") captured refl
      refl

abbrev polling_p1 : Polling ℕ
polling_p1 = record {
  scope = in_project;
  jobs = [];
  effect = 1;
  waiting = record { effect = 1; project_id = codes "p1"; epoch = 3 } ∷ [];
  timer = none;
  timers = [];
  timeouts_set = 0;
  canceling = codes "j" ∷ [];
  canceling_shown = codes "j" ∷ [];
  cancels = record { id = codes "j"; ticket = ticket_taken } ∷ [];
  notices = [];
}

polling_p1-IsCalm : IsCalm polling_p1
unfolding count
polling_p1-IsCalm = record { known = (omega arith, tt); own = tt; single = omega arith }

polling_step-IsCalm_example :
    IsCalm (polling_step (λ a b. false) (poll_done 0 (answered [])) polling_p1)
polling_step-IsCalm_example =
    polling_step-IsCalm (λ a b. false) (poll_done 0 (answered [])) polling_p1 polling_p1-IsCalm

polling_step-IsGuarded_example :
    IsGuarded (polling_step (λ a b. false) (cancel_clicked (codes "k")) polling_p1)
polling_step-IsGuarded_example =
    polling_step-IsGuarded (λ a b. false) (cancel_clicked (codes "k")) polling_p1
      (record { same = refl; distinct = (refl, tt) })
