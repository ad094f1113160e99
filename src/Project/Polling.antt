-- ===== src/Project/Polling.antt =====
-- The polling of the jobs of a project and their cancelling, frontend/src/hooks/useJobPolling.ts.
-- The effects of the hook are numbered; a poll keeps the number of its effect, which is disposed as
-- soon as another one has run. Requests that are unanswered are entries of `waiting` and `cancels`,
-- timeouts that have not fired entries of `timers`; an answer names the entry it belongs to.
pub mod Single
pub mod Cancels
use my_paraview_web.Common.{
  ℕ, zero, suc, ◌+◌, Bool, true, false, not, ◌&&◌, Option, none, some, List, [], ◌∷◌, ◌++◌, filter,
  any, get_elem?, is_empty, ◌==◌, if◌then◌else◌,
}
use my_paraview_web.Common.Eq.{Text, Eq, ◌===◌, Units_eq}
use my_paraview_web.Jobs.{Job, merge_job_snapshots}
use my_paraview_web.Project.Scope.{
  Scope, Ticket, is_text, capture, still_current, ScopeEvent, scope_step,
}

-- What the closures of an effect have captured.
pub record Poll : Type 0 where
  pub effect : ℕ
  pub project_id : Text
  pub epoch : ℕ

pub record Timeout : Type 0 where
  pub number : ℕ
  pub poll : Poll

pub record Cancel : Type 0 where
  pub id : Text
  pub ticket : Ticket

pub data Notice : Type 0 where
  error_shown : Text → Notice
  errors_cleared : Notice

pub record Polling (N : Type 0) : Type 0 where
  pub scope : Scope
  pub jobs : List (Job Text N)
  pub effect : ℕ
  pub waiting : List Poll
  -- the variable `timer` of the effect that is mounted
  pub timer : Option ℕ
  pub timers : List Timeout
  pub timeouts_set : ℕ
  -- `cancelingRef.current` and `cancelingJobIds`
  pub canceling : List Text
  pub canceling_shown : List Text
  pub cancels : List Cancel
  pub notices : List Notice

unfoldable pub remove_at {ℓ} : {A : Type ℓ} → List A → ℕ → List A
remove_at [] i = []
remove_at (x ∷ xs) zero = xs
remove_at (x ∷ xs) (suc i) = x ∷ remove_at xs i

-- an answer, or the message of the error
pub data Answer (A : Type 0) : Type 0 where
  answered : A → Answer A
  failed : Text → Answer A

abbrev pub is_timer : Option ℕ → Timeout → Bool
is_timer none t = false
is_timer (some n) t = t.number == n

-- `!currentProjectId`: the empty text is none too
abbrev pub project_of : Option Text → Option Text
project_of none = none
project_of (some id) = if is_empty id then none else some id

module _ {N : Type 0} where
  -- `stillCurrent` of an effect
  unfoldable pub is_live : Poll → Polling N → Bool
  is_live p s =
      p.effect == s.effect
      && (is_text s.scope.current_project p.project_id && s.scope.project_epoch == p.epoch)

  -- The clean-up of the effect: `clearTimeout(timer)`.
  abbrev pub cleared_timers : Polling N → List Timeout
  cleared_timers s = filter (λ t. not (is_timer s.timer t)) s.timers

  abbrev pub effect_of : Option Text → Polling N → Polling N
  effect_of none s = record s {
    jobs = [];
    canceling_shown = [];
    effect = s.effect + 1;
    timer = none;
    timers = cleared_timers s;
  }
  effect_of (some id) s = record s {
    effect = s.effect + 1;
    waiting =
        s.waiting
        ++ record { effect = s.effect + 1; project_id = id; epoch = s.scope.project_epoch } ∷ [];
    timer = none;
    timers = cleared_timers s;
  }

  unfoldable pub run_effect : Option Text → Polling N → Polling N
  run_effect project s = effect_of (project_of project) s

  -- `timer = window.setTimeout(poll, 1200)`
  abbrev pub schedule : Poll → Polling N → Polling N
  schedule p s = record s {
    timer = some s.timeouts_set;
    timers = s.timers ++ record { number = s.timeouts_set; poll = p } ∷ [];
    timeouts_set = s.timeouts_set + 1;
  }

  abbrev pub fire : ℕ → Option Timeout → Polling N → Polling N
  fire i none s = s
  fire i (some t) s = record s { timers = remove_at s.timers i; waiting = s.waiting ++ t.poll ∷ [] }

  unfoldable pub timeout_fired : ℕ → Polling N → Polling N
  unfolding remove_at
  timeout_fired i s = fire i (get_elem? s.timers i) s

module _ {N : Type 0} ⦃f : Eq N⦄ (later : Text → Text → Bool) where
  abbrev pub with_answer : Answer (List (Job Text N)) → Polling N → Polling N
  with_answer (answered next) s = record s {
    jobs = merge_job_snapshots later s.jobs next;
    notices = errors_cleared ∷ s.notices;
  }
  with_answer (failed message) s = record s { notices = error_shown message ∷ s.notices }

  abbrev pub answer_poll : ℕ → Answer (List (Job Text N)) → Option Poll → Polling N → Polling N
  answer_poll i a none s = s
  answer_poll i a (some p) s =
      let left : Polling N = record s { waiting = remove_at s.waiting i } in
      if is_live p s then schedule p (with_answer a left) else left

  unfoldable pub poll_answered : ℕ → Answer (List (Job Text N)) → Polling N → Polling N
  unfolding is_live remove_at
  poll_answered i a s = answer_poll i a (get_elem? s.waiting i) s

  unfoldable pub upsert_job : Job Text N → Polling N → Polling N
  upsert_job job s = record s {
    jobs = merge_job_snapshots later s.jobs (job ∷ filter (λ j. not (j.id === job.id)) s.jobs);
  }

  abbrev pub cancel_with : Option Ticket → Text → Polling N → Polling N
  cancel_with none id s = s
  cancel_with (some t) id s = if any (λ k. k === id) s.canceling then s else record s {
    canceling = s.canceling ++ id ∷ [];
    canceling_shown = s.canceling ++ id ∷ [];
    cancels = s.cancels ++ record { id = id; ticket = t } ∷ [];
  }

  unfoldable pub cancel_job : Text → Polling N → Polling N
  cancel_job id s = cancel_with (capture s.scope) id s

  abbrev pub with_canceled : Answer (Job Text N) → Polling N → Polling N
  with_canceled (answered job) s = upsert_job job s
  with_canceled (failed message) s = record s { notices = error_shown message ∷ s.notices }

  -- the `finally` of a request to cancel
  abbrev pub end_cancel : Text → Polling N → Polling N
  end_cancel id s =
      let left = filter (λ k. not (k === id)) s.canceling in
      record s { canceling = left; canceling_shown = left }

  abbrev pub answer_cancel : ℕ → Answer (Job Text N) → Option Cancel → Polling N → Polling N
  answer_cancel i a none s = s
  answer_cancel i a (some c) s =
      let left : Polling N = record s { cancels = remove_at s.cancels i } in
      end_cancel c.id (if still_current c.ticket s.scope then with_canceled a left else left)

  unfoldable pub cancel_answered : ℕ → Answer (Job Text N) → Polling N → Polling N
  unfolding remove_at still_current upsert_job
  cancel_answered i a s = answer_cancel i a (get_elem? s.cancels i) s

pub data PollingEvent (N : Type 0) : Type 0 where
  effect_ran : Option Text → PollingEvent N
  poll_done : ℕ → Answer (List (Job Text N)) → PollingEvent N
  timer_fired : ℕ → PollingEvent N
  job_posted : Job Text N → PollingEvent N
  cancel_clicked : Text → PollingEvent N
  cancel_done : ℕ → Answer (Job Text N) → PollingEvent N
  -- the other users of the refs, and `setJobs([])` of App
  scope_changed : ScopeEvent → PollingEvent N
  jobs_cleared : PollingEvent N

unfoldable pub polling_step :
    {N : Type 0} ⦃f : Eq N⦄ (later : Text → Text → Bool) → PollingEvent N → Polling N → Polling N
polling_step later (effect_ran project) s = run_effect project s
polling_step later (poll_done i a) s = poll_answered later i a s
polling_step later (timer_fired i) s = timeout_fired i s
polling_step later (job_posted job) s = upsert_job later job s
polling_step later (cancel_clicked id) s = cancel_job later id s
polling_step later (cancel_done i a) s = cancel_answered later i a s
polling_step later (scope_changed e) s = record s { scope = scope_step e s.scope }
polling_step later jobs_cleared s = record s { jobs = [] }
