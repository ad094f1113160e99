-- ===== src/Project/Session/Laws.antt =====
-- What holds of the remote session of frontend/src/hooks/useRemoteSession.ts at every moment.
use mathlib.Core.Bool.{and-eq-true_iff}
use mathlib.Core.List.{foldl}
use my_paraview_web.Common.{
  ℕ, suc, ◌+◌, ◌≡◌, refl, subst, Bool, true, false, ◌||◌, Option, none, some, List, [], ◌∷◌,
  is_empty, length, length-append, arith, either, if◌then◌else◌,
}
use my_paraview_web.Common.Eq.{Text, ◌===◌, Units_eq}
use my_paraview_web.Project.Scope.{
  Scope, Ticket, is_text, capture, still_current, begin_project_switch, begin_selection,
}
use my_paraview_web.Project.Session.{
  Session, Starting, Remote, stop_session, stop_if_other, start_of, created_for, failed_for,
  stop_of, stopped_for, without_project, RemoteEvent, started, was_created, was_refused,
  stop_clicked, was_stopped, project_chosen, server_lost, dataset_chosen, remote_step, start_remote,
  session_created, creation_failed, stop_remote, session_stopped, switch_project, lose_server,
  select_dataset, clear_on_project_switch, stop_if_dataset_changed,
}

abbrev pub IsOfProject : Option Session → Scope → Type 0
IsOfProject none s = Unit
IsOfProject (some k) s = is_text s.current_project k.project_id ≡ true

pub record IsSound (r : Remote) : Type 0 where
  -- a session that is shown is of the current project
  pub shown : IsOfProject r.session r.scope
  -- one request is under way where one is pending, else none
  pub requests : length r.starting + length r.stopping ≡ (if r.pending then 1 else 0)

current-project :
    (t : Ticket) (s : Scope)
    → still_current t s ≡ true
    → is_text s.current_project t.project_id ≡ true
unfolding still_current
current-project t s h =
    let (project, _) = (and-eq-true_iff (is_text s.current_project t.project_id) _).0 h in project

free-of : (a b : Bool) → (a || b) ≡ false → b ≡ false
free-of true b h = cc
free-of false b h = h

idle : (b : Bool) (n : ℕ) → n ≡ (if b then 1 else 0) → b ≡ false → n ≡ 0
idle b n h e = rw e at h

at_most_one : (b : Bool) (n k : ℕ) → suc n + k ≡ (if b then 1 else 0) → n + k ≡ 0
at_most_one true n k h = omega arith
at_most_one false n k h = absurd (omega arith)

start_of-IsSound :
    (t : Option Ticket) (d : Option Text) (r : Remote) → IsSound r → IsSound (start_of t d r)
start_of-IsSound none d r i = i
start_of-IsSound (some t) none r i = i
start_of-IsSound (some t) (some d) r i =
    either IsSound (is_empty d || r.pending) r _ (λ busy. i)
      (λ free.
        let count = idle r.pending _ i.requests (free-of (is_empty d) r.pending free) in
        record {
          shown = i.shown;
          requests =
              omega (arith, length-append r.starting (record { ticket = t; dataset_id = d } ∷ []));
        })

created_for-IsSound :
    (qs : List Starting) (id : Text) (r : Remote)
    → r.starting ≡ qs
    → IsSound r
    → IsSound (created_for qs id r)
created_for-IsSound [] id r e i = i
created_for-IsSound (q ∷ qs) id r e i =
    let count : suc (length qs) + length r.stopping ≡ (if r.pending then 1 else 0) =
      subst (λ l. length l + length r.stopping ≡ (if r.pending then 1 else 0)) e i.requests in
    let left = at_most_one r.pending (length qs) (length r.stopping) count in
    either IsSound (still_current q.ticket r.scope) _ _
      (λ current. record { shown = current-project q.ticket r.scope current; requests = left })
      (λ stale. record { shown = i.shown; requests = left })

failed_for-IsSound :
    (qs : List Starting) (message : Text) (r : Remote)
    → r.starting ≡ qs
    → IsSound r
    → IsSound (failed_for qs message r)
failed_for-IsSound [] message r e i = i
failed_for-IsSound (q ∷ qs) message r e i =
    let count : suc (length qs) + length r.stopping ≡ (if r.pending then 1 else 0) =
      subst (λ l. length l + length r.stopping ≡ (if r.pending then 1 else 0)) e i.requests in
    let left = at_most_one r.pending (length qs) (length r.stopping) count in
    either IsSound (still_current q.ticket r.scope) _ _
      (λ current. record { shown = i.shown; requests = left })
      (λ stale. record { shown = i.shown; requests = left })

stop_of-IsSound : (s : Option Session) (r : Remote) → IsSound r → IsSound (stop_of s r)
stop_of-IsSound none r i = i
stop_of-IsSound (some s) r i =
    either IsSound r.pending r _ (λ busy. i)
      (λ free.
        let count = idle r.pending _ i.requests free in
        record { shown = i.shown; requests = omega (arith, length-append r.stopping (s.id ∷ [])) })

stopped_for-IsSound :
    (qs : List Text) (message : Option Text) (r : Remote)
    → r.stopping ≡ qs
    → IsSound r
    → IsSound (stopped_for qs message r)
stopped_for-IsSound [] message r e i = i
stopped_for-IsSound (q ∷ qs) message r e i =
    let count : length r.starting + suc (length qs) ≡ (if r.pending then 1 else 0) =
      subst (λ l. length r.starting + length l ≡ (if r.pending then 1 else 0)) e i.requests in
    let left = at_most_one r.pending (length qs) (length r.starting) (omega arith) in
    record { shown = tt; requests = omega arith }

cleared-IsSound :
    (k : Option Session) (r : Remote)
    → length r.starting + length r.stopping ≡ (if r.pending then 1 else 0)
    → IsSound (record (stop_session k r) { session = none })
cleared-IsSound none r count = record { shown = tt; requests = count }
cleared-IsSound (some s) r count = record { shown = tt; requests = count }

stop_if_other-IsSound :
    (k : Option Session) (id : Text) (r : Remote) → IsSound r → IsSound (stop_if_other k id r)
stop_if_other-IsSound none id r i = i
stop_if_other-IsSound (some s) id r i =
    either IsSound (s.dataset_id === id) r _ (λ same. i)
      (λ other. record { shown = tt; requests = i.requests })

selected-shown :
    (k : Option Session) (d : Option Text) (s : Scope)
    → IsOfProject k s
    → IsOfProject k (begin_selection d s)
unfolding begin_selection
selected-shown none d s h = h
selected-shown (some k) d s h = h

pub remote_step-IsSound : (e : RemoteEvent) (r : Remote) → IsSound r → IsSound (remote_step e r)
unfolding remote_step start_remote session_created creation_failed stop_remote session_stopped
    switch_project lose_server select_dataset clear_on_project_switch stop_if_dataset_changed
remote_step-IsSound started r i = start_of-IsSound (capture r.scope) r.scope.selected_dataset r i
remote_step-IsSound (was_created id) r i = created_for-IsSound r.starting id r refl i
remote_step-IsSound (was_refused message) r i = failed_for-IsSound r.starting message r refl i
remote_step-IsSound stop_clicked r i = stop_of-IsSound r.session r i
remote_step-IsSound (was_stopped message) r i = stopped_for-IsSound r.stopping message r refl i
remote_step-IsSound (project_chosen id) r i =
    cleared-IsSound r.session (record r { scope = begin_project_switch id r.scope }) i.requests
remote_step-IsSound server_lost r i =
    cleared-IsSound r.session (record r { scope = without_project r.scope }) i.requests
remote_step-IsSound (dataset_chosen id) r i =
    stop_if_other-IsSound r.session id (record r { scope = begin_selection (some id) r.scope })
      (record { shown = selected-shown r.session (some id) r.scope i.shown; requests = i.requests })

-- From a sound state on, whatever is clicked and answered, a session that is shown is of the
-- current project, and one request is under way where one is pending, else none.
pub foldl-remote_step-IsSound :
    (es : List RemoteEvent) (r : Remote) → IsSound r → IsSound (foldl (λ s e. remote_step e s) r es)
foldl-remote_step-IsSound [] r i = i
foldl-remote_step-IsSound (e ∷ es) r i =
    foldl-remote_step-IsSound es (remote_step e r) (remote_step-IsSound e r i)
