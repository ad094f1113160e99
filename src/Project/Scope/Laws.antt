-- ===== src/Project/Scope/Laws.antt =====
-- How long a ticket of frontend/src/hooks/useProjectScope.ts stays current.
use mathlib.Core.Bool.{and-eq-true_iff}
use my_paraview_web.Common.{
  ℕ, ◌+◌, ◌≤◌, ◌<◌, ◌≡◌, refl, sym, ap, ◌∙◌, subst, Bool, true, false, not, ◌&&◌, Option, none,
  some, List, [], ◌∷◌, any, is_empty, if◌then◌else◌, ◌==◌, arith, ==_iff, some_injective,
  Bool-cases, inl, inr,
}
use my_paraview_web.Common.Eq.{Text, Units_eq, same_units_refl}
use my_paraview_web.Project.Scope.{
  Scope, Ticket, is_text, ticket_of, capture, still_current, still_selected, answer_selection,
  is_answer_wanted, ScopeEvent, project_switched, dataset_selected, selection_requested,
  selection_answered, scope_step, scope_run,
}
use my_paraview_web.Project.Scope.Answers.{
  is_counted, last_awaited, IsOf, run-selected, selected-IsOf,
}

unfoldable pub is_switch : ScopeEvent → Bool
is_switch (project_switched id) = true
is_switch _ = false

-- The refs of the project, which only a switch changes.
record KeepsProject (s s' : Scope) : Type 0 where
  project : s'.current_project ≡ s.current_project
  epoch : s'.project_epoch ≡ s.project_epoch

answer-keeps :
    (t : Ticket) (request : ℕ) (id project : Text) (s : Scope)
    → KeepsProject s (answer_selection t request id project s)
unfolding answer_selection
answer-keeps t request id project s = elim (Bool-cases (is_answer_wanted t request project s)) [
  | inl wanted ↦ rw wanted (record { project = refl; epoch = refl })
  | inr unwanted ↦ rw unwanted (record { project = refl; epoch = refl })
]

step-keeps : (e : ScopeEvent) (s : Scope) → is_switch e ≡ false → KeepsProject s (scope_step e s)
unfolding scope_step is_switch
step-keeps (project_switched id) s h = cc
step-keeps (dataset_selected d) s h = record { project = refl; epoch = refl }
step-keeps selection_requested s h = record { project = refl; epoch = refl }
step-keeps (selection_answered t request id project) s h = answer-keeps t request id project s

step-epoch : (e : ScopeEvent) (s : Scope) → s.project_epoch ≤ (scope_step e s).project_epoch
unfolding scope_step
step-epoch (project_switched id) s = omega arith
step-epoch (dataset_selected d) s = omega arith
step-epoch selection_requested s = omega arith
step-epoch (selection_answered t request id project) s =
    let k = answer-keeps t request id project s in let same = k.epoch in omega arith

step-switch :
    (e : ScopeEvent) (s : Scope)
    → is_switch e ≡ true
    → (scope_step e s).project_epoch ≡ s.project_epoch + 1
unfolding scope_step is_switch
step-switch (project_switched id) s h = refl
step-switch (dataset_selected d) s h = cc
step-switch selection_requested s h = cc
step-switch (selection_answered t request id project) s h = cc

run-epoch : (es : List ScopeEvent) (s : Scope) → s.project_epoch ≤ (scope_run es s).project_epoch
unfolding scope_run
run-epoch [] s = omega arith
run-epoch (e ∷ es) s = omega (arith, step-epoch e s, run-epoch es (scope_step e s))

and_false : (b : Bool) → (b && false) ≡ false
and_false true = refl
and_false false = refl

outdated : (t : Ticket) (s : Scope) → t.epoch < s.project_epoch → still_current t s ≡ false
unfolding still_current
outdated t s h =
    let differs : (s.project_epoch == t.epoch) ≡ false = ground arith in
    rw differs (and_false (is_text s.current_project t.project_id))

still_current-run :
    (es : List ScopeEvent) (t : Ticket) (s : Scope)
    → is_text s.current_project t.project_id ≡ true
    → s.project_epoch ≡ t.epoch
    → still_current t (scope_run es s) ≡ not (any is_switch es)
unfolding scope_run still_current
still_current-run [] t s same epoch =
    let equal : (s.project_epoch == t.epoch) ≡ true = ground arith in rw (same, equal) refl
still_current-run (e ∷ es) t s same epoch = elim (Bool-cases (is_switch e)) [
  | inl switch ↦ rw switch (
      outdated t (scope_run es (scope_step e s)) (
        let later = run-epoch es (scope_step e s) in
        let next = step-switch e s switch in omega arith))
  | inr other ↦
      let k = step-keeps e s other in
      rw other (
        still_current-run es t (scope_step e s)
          (subst (λ p. is_text p t.project_id ≡ true) (sym k.project) same) (k.epoch ∙ epoch))
]

-- A ticket is taken of the refs as they are.
pub ticket_of-eqs :
    (project : Option Text) (t : Ticket) (s : Scope)
    → ticket_of project s ≡ some t
    → (is_text project t.project_id ≡ true)
      × (s.project_epoch ≡ t.epoch)
      × (s.selection_request ≡ t.selection_request)
ticket_of-eqs none t s h = cc
ticket_of-eqs (some id) t s h = elim (Bool-cases (is_empty id)) [
  | inl empty ↦ let bad = rw empty at h in cc
  | inr full ↦
      let same = some_injective (rw full at h) in
      (
        subst (λ k. is_text (some id) k ≡ true) (ap (λ k. k.project_id) same) (same_units_refl id),
        ap (λ k. k.epoch) same,
        ap (λ k. k.selection_request) same,
      )
]

project_of-ticket :
    (project : Option Text) (t : Ticket) (s : Scope)
    → ticket_of project s ≡ some t
    → project ≡ some t.project_id
project_of-ticket none t s h = cc
project_of-ticket (some id) t s h = elim (Bool-cases (is_empty id)) [
  | inl empty ↦ let bad = rw empty at h in cc
  | inr full ↦ ap (λ (k : Ticket). some k.project_id) (some_injective (rw full at h))
]

-- A ticket is current, whatever selections come and go, as long as no switch of projects has
-- begun since it was taken, and never again after one, even a switch back to its project.
pub still_current-capture :
    (es : List ScopeEvent) (t : Ticket) (s : Scope)
    → capture s ≡ some t
    → still_current t (scope_run es s) ≡ not (any is_switch es)
unfolding capture
still_current-capture es t s h =
    let (same, epoch, _) = ticket_of-eqs s.current_project t s h in
    still_current-run es t s same epoch

answer-request :
    (t : Ticket) (request : ℕ) (id project : Text) (s : Scope)
    → (answer_selection t request id project s).selection_request ≡ s.selection_request
unfolding answer_selection
answer-request t request id project s = elim (Bool-cases (is_answer_wanted t request project s)) [
  | inl wanted ↦ rw wanted refl
  | inr unwanted ↦ rw unwanted refl
]

-- Every event counts as a selection but the answer to one.
step-request :
    (e : ScopeEvent) (s : Scope)
    → (scope_step e s).selection_request ≡ s.selection_request + (if is_counted e then 1 else 0)
unfolding scope_step is_counted
step-request (project_switched id) s = refl
step-request (dataset_selected d) s = refl
step-request selection_requested s = refl
step-request (selection_answered t request id project) s =
    answer-request t request id project s ∙ omega arith

run-request :
    (es : List ScopeEvent) (s : Scope) → s.selection_request ≤ (scope_run es s).selection_request
unfolding scope_run
run-request [] s = omega arith
run-request (e ∷ es) s =
    let step = step-request e s in
    let rest = run-request es (scope_step e s) in
    let some_more : s.selection_request ≤ (scope_step e s).selection_request = ground arith in
    omega arith

run-later :
    (es : List ScopeEvent) (s : Scope)
    → any is_counted es ≡ true
    → s.selection_request < (scope_run es s).selection_request
unfolding scope_run
run-later [] s h = cc
run-later (e ∷ es) s h =
    let step = step-request e s in
    let rest = run-request es (scope_step e s) in
    elim (Bool-cases (is_counted e)) [
      | inl selection ↦
          let more : (scope_step e s).selection_request ≡ s.selection_request + 1 =
            rw selection at step in
          omega arith
      | inr other ↦
          let later = run-later es (scope_step e s) (rw other at h) in
          let same : (scope_step e s).selection_request ≡ s.selection_request + 0 =
            rw other at step in
          omega arith
    ]

selected-request :
    (t : Ticket) (id : Text) (s : Scope)
    → still_selected t id s ≡ true
    → s.selection_request ≡ t.selection_request
unfolding still_selected
selected-request t id s h =
    let (_, h1) = (and-eq-true_iff (is_text s.current_project t.project_id) _).0 h in
    let (_, h2) = (and-eq-true_iff (s.project_epoch == t.epoch) _).0 h1 in
    let (h3, _) = (and-eq-true_iff (s.selection_request == t.selection_request) _).0 h2 in
    (==_iff s.selection_request t.selection_request).0 h3

-- A ticket stands for a dataset exactly where, since it was taken, neither a switch of projects nor
-- a selection nor a request for one has come, and the dataset is the one of the last answer to the
-- request that the ticket was taken at, or without such an answer the one selected then. Answers to
-- other requests, or of another project or epoch, do not count.
pub still_selected-capture :
    (es : List ScopeEvent) (t : Ticket) (id : Text) (s : Scope)
    → capture s ≡ some t
    → still_selected t id (scope_run es s)
      ≡ (not (any is_counted es) && is_text (last_awaited t es s.selected_dataset) id)
unfolding capture
still_selected-capture es t id s h = elim (Bool-cases (any is_counted es)) [
  | inl newer ↦
      let (_, _, request) = ticket_of-eqs s.current_project t s h in
      let later = run-later es s newer in
      rw newer (elim (Bool-cases (still_selected t id (scope_run es s))) [
        | inl selected ↦
            let same = selected-request t id (scope_run es s) selected in absurd (omega arith)
        | inr lost ↦ lost
      ])
  | inr none_newer ↦
      let (_, epoch, request) = ticket_of-eqs s.current_project t s h in
      let start : IsOf t s = record {
        project = project_of-ticket s.current_project t s h;
        epoch = epoch;
        request = request;
      } in
      let (now, selected) = run-selected t es s start none_newer in
      rw none_newer (selected-IsOf t id (scope_run es s) now ∙ ap (λ d. is_text d id) selected)
]
