-- ===== src/Project/Session.antt =====
-- The remote rendering session, frontend/src/hooks/useRemoteSession.ts, with the switches of the
-- project and the selections of frontend/src/App.tsx that clear it. A request that is under way is an
-- entry of `starting` or `stopping`; `deleted` lists the sessions whose deletion was asked for.
pub mod Laws
pub mod Late
use my_paraview_web.Common.{
  ℕ, Bool, true, false, not, ◌||◌, Option, none, some, List, [], ◌∷◌, ◌++◌, is_empty, if◌then◌else◌,
}
use my_paraview_web.Common.Eq.{Text, ◌===◌, Units_eq}
use my_paraview_web.Project.Scope.{
  Scope, Ticket, capture, still_current, begin_project_switch, begin_selection,
}

-- A RenderSession is of the project and the dataset that its creation named.
pub record Session : Type 0 where
  pub id : Text
  pub project_id : Text
  pub dataset_id : Text

-- createSession(ticket.projectId, datasetId), unanswered
pub record Starting : Type 0 where
  pub ticket : Ticket
  pub dataset_id : Text

pub record Remote : Type 0 where
  pub scope : Scope
  -- `remoteSession` and `remotePending`
  pub session : Option Session
  pub pending : Bool
  pub starting : List Starting
  pub stopping : List Text
  pub deleted : List Text
  -- the messages that onError was given
  pub errors : List Text

-- `stopRemoteSession`
abbrev pub stop_session : Option Session → Remote → Remote
stop_session none r = r
stop_session (some s) r = record r { deleted = s.id ∷ r.deleted }

unfoldable pub clear_on_project_switch : Remote → Remote
clear_on_project_switch r = record (stop_session r.session r) { session = none }

abbrev pub stop_if_other : Option Session → Text → Remote → Remote
stop_if_other none dataset r = r
stop_if_other (some s) dataset r =
    if s.dataset_id === dataset then r else record r { session = none; deleted = s.id ∷ r.deleted }

unfoldable pub stop_if_dataset_changed : Text → Remote → Remote
stop_if_dataset_changed dataset r = stop_if_other r.session dataset r

-- `!datasetId`: the empty text is none too
abbrev pub start_of : Option Ticket → Option Text → Remote → Remote
start_of none dataset r = r
start_of (some t) none r = r
start_of (some t) (some d) r = if is_empty d || r.pending then r else record r {
  pending = true;
  starting = r.starting ++ record { ticket = t; dataset_id = d } ∷ [];
}

unfoldable pub start_remote : Remote → Remote
start_remote r = start_of (capture r.scope) r.scope.selected_dataset r

-- The answer to the request that was sent first.
abbrev pub created_for : List Starting → Text → Remote → Remote
created_for [] id r = r
created_for (q ∷ qs) id r =
    let session : Session = record {
      id = id;
      project_id = q.ticket.project_id;
      dataset_id = q.dataset_id;
    } in
    if still_current q.ticket r.scope
    then record r { session = some session; starting = qs; pending = false }
    else record r { deleted = id ∷ r.deleted; starting = qs; pending = false }

unfoldable pub session_created : Text → Remote → Remote
unfolding still_current
session_created id r = created_for r.starting id r

abbrev pub failed_for : List Starting → Text → Remote → Remote
failed_for [] message r = r
failed_for (q ∷ qs) message r =
    if still_current q.ticket r.scope
    then record r { errors = message ∷ r.errors; starting = qs; pending = false }
    else record r { starting = qs; pending = false }

unfoldable pub creation_failed : Text → Remote → Remote
unfolding still_current
creation_failed message r = failed_for r.starting message r

abbrev pub stop_of : Option Session → Remote → Remote
stop_of none r = r
stop_of (some s) r =
    if r.pending
    then r
    else record r { pending = true; stopping = r.stopping ++ s.id ∷ []; deleted = s.id ∷ r.deleted }

unfoldable pub stop_remote : Remote → Remote
stop_remote r = stop_of r.session r

-- `.catch(…).finally(…)`, with the message where the deletion failed
abbrev pub reported : Option Text → List Text → List Text
reported none errors = errors
reported (some message) errors = message ∷ errors

abbrev pub stopped_for : List Text → Option Text → Remote → Remote
stopped_for [] message r = r
stopped_for (q ∷ qs) message r = record r {
  session = none;
  pending = false;
  stopping = qs;
  errors = reported message r.errors;
}

unfoldable pub session_stopped : Option Text → Remote → Remote
session_stopped message r = stopped_for r.stopping message r

-- switchProject of App, on these states
unfoldable pub switch_project : Text → Remote → Remote
unfolding begin_project_switch clear_on_project_switch
switch_project id r = clear_on_project_switch (record r { scope = begin_project_switch id r.scope })

-- The effect of App when the server is lost.
abbrev pub without_project : Scope → Scope
without_project s = elim s.current_project [
  | none ↦ s
  | some _ ↦ record (begin_project_switch [] s) { current_project = none }
]

unfoldable pub lose_server : Remote → Remote
unfolding begin_project_switch clear_on_project_switch
lose_server r = clear_on_project_switch (record r { scope = without_project r.scope })

-- selectDataset of App for a dataset of the browser, the first branch of it
unfoldable pub select_dataset : Text → Remote → Remote
unfolding begin_selection stop_if_dataset_changed
select_dataset id r =
    stop_if_dataset_changed id (record r { scope = begin_selection (some id) r.scope })

pub data RemoteEvent : Type 0 where
  started : RemoteEvent
  was_created was_refused : Text → RemoteEvent
  stop_clicked : RemoteEvent
  was_stopped : Option Text → RemoteEvent
  project_chosen : Text → RemoteEvent
  server_lost : RemoteEvent
  dataset_chosen : Text → RemoteEvent

unfoldable pub remote_step : RemoteEvent → Remote → Remote
remote_step started r = start_remote r
remote_step (was_created id) r = session_created id r
remote_step (was_refused message) r = creation_failed message r
remote_step stop_clicked r = stop_remote r
remote_step (was_stopped message) r = session_stopped message r
remote_step (project_chosen id) r = switch_project id r
remote_step server_lost r = lose_server r
remote_step (dataset_chosen id) r = select_dataset id r
