-- ===== src/Project/Polling/Single.antt =====
-- The polls of frontend/src/hooks/useJobPolling.ts do not pile up.
use mathlib.Core.Bool.{and-eq-true_iff}
use my_paraview_web.Common.{
  ℕ, zero, suc, ◌+◌, ◌≤◌, ◌≡◌, refl, sym, ap, ◌∙◌, subst, Bool, true, false, not, Option, none,
  some, List, [], ◌∷◌, ◌++◌, length, filter, any, get_elem?, All, All-append, All-weaken,
  All-get_elem?, ◌==◌, ==_iff, ==_refl, arith, either, if◌then◌else◌, Bool-cases, inl, inr,
  some_injective,
}
use my_paraview_web.Common.Eq.{Text, Eq, ◌===◌, Units_eq}
use my_paraview_web.Jobs.{Job}
use my_paraview_web.Project.Scope.{Ticket, capture, still_current}
use my_paraview_web.Project.Polling.{
  Poll, Timeout, Cancel, Polling, Answer, answered, failed, remove_at, is_timer, is_live,
  cleared_timers, project_of, effect_of, schedule, fire, with_answer, answer_poll, upsert_job,
  cancel_with, with_canceled, answer_cancel, PollingEvent, effect_ran, poll_done, timer_fired,
  job_posted, cancel_clicked, cancel_done, scope_changed, jobs_cleared, polling_step, run_effect,
  poll_answered, timeout_fired, cancel_job, cancel_answered,
}

-- the polls of effect `e` that are unanswered
unfoldable pub count : ℕ → List Poll → ℕ
count e ps = length (filter (λ p. p.effect == e) ps)

pub one_if : Bool → ℕ
one_if b = if b then 1 else 0

one_if-false : one_if false ≡ 0
unfolding one_if
one_if-false = refl

one_if-true : one_if true ≡ 1
unfolding one_if
one_if-true = refl

one_if-le : (b : Bool) → one_if b ≤ 1
unfolding one_if
one_if-le true = omega arith
one_if-le false = omega arith

pub record IsSingle (effect : ℕ) (waiting : List Poll) (timer : Option ℕ) (timers : List Timeout)
    : Type 0 where
  pub known : All (λ p. p.effect ≤ effect) waiting
  pub own : All (λ t. (t.poll.effect ≡ effect) × (timer ≡ some t.number)) timers
  -- at most one poll of the mounted effect is unanswered or waits for its timeout
  pub single : count effect waiting + length timers ≤ 1

count-nil : (e : ℕ) → count e [] ≡ 0
unfolding count
count-nil e = refl

count-cons :
    (e : ℕ) (p : Poll) (ps : List Poll) → count e (p ∷ ps) ≡ one_if (p.effect == e) + count e ps
unfolding count one_if
count-cons e p ps = elim (Bool-cases (p.effect == e)) [
  | inl same ↦ rw same (omega arith)
  | inr other ↦ rw other (omega arith)
]

count-append_one :
    (e : ℕ) (ps : List Poll) (p : Poll)
    → count e (ps ++ p ∷ []) ≡ count e ps + one_if (p.effect == e)
count-append_one e [] p = omega (arith, count-cons e p [], count-nil e)
count-append_one e (q ∷ ps) p =
    omega (arith, count-cons e q (ps ++ p ∷ []), count-append_one e ps p, count-cons e q ps)

count-remove_at :
    (e : ℕ) (ps : List Poll) (i : ℕ) (p : Poll)
    → get_elem? ps i ≡ some p
    → count e ps ≡ one_if (p.effect == e) + count e (remove_at ps i)
unfolding remove_at
count-remove_at e [] i p h = cc
count-remove_at e (q ∷ ps) zero p h =
    subst (λ k. count e (q ∷ ps) ≡ one_if (k.effect == e) + count e ps) (some_injective h)
      (count-cons e q ps)
count-remove_at e (q ∷ ps) (suc i) p h =
    omega (arith, count-cons e q ps, count-remove_at e ps i p h, count-cons e q (remove_at ps i))

All-remove_at {ℓ κ} :
    {A : Type ℓ} (P : A → Type κ) (xs : List A) (i : ℕ) → All P xs → All P (remove_at xs i)
unfolding remove_at
All-remove_at P [] i h = h
All-remove_at P (x ∷ xs) zero (p, h) = h
All-remove_at P (x ∷ xs) (suc i) (p, h) = (p, All-remove_at P xs i h)

length-remove_at {ℓ} :
    {A : Type ℓ} (xs : List A) (i : ℕ) (x : A)
    → get_elem? xs i ≡ some x
    → length xs ≡ suc (length (remove_at xs i))
unfolding remove_at
length-remove_at [] i x h = cc
length-remove_at (y ∷ xs) zero x h = refl
length-remove_at (y ∷ xs) (suc i) x h = ap suc (length-remove_at xs i x h)

-- No poll is of an effect that has not run.
count-later : (e : ℕ) (ps : List Poll) → All (λ p. p.effect ≤ e) ps → count (e + 1) ps ≡ 0
count-later e [] h = count-nil (e + 1)
count-later e (p ∷ ps) (q, h) =
    let other : (p.effect == e + 1) ≡ false = ground arith in
    let zero_if : one_if (p.effect == e + 1) ≡ 0 = ap one_if other ∙ one_if-false in
    omega (arith, count-cons (e + 1) p ps, count-later e ps h)

cleared-empty :
    (e : ℕ) (timer : Option ℕ) (ts : List Timeout)
    → All (λ t. (t.poll.effect ≡ e) × (timer ≡ some t.number)) ts
    → filter (λ t. not (is_timer timer t)) ts ≡ []
cleared-empty e timer [] h = refl
cleared-empty e timer (t ∷ ts) ((own, same), h) =
    let hit : is_timer timer t ≡ true = ap (λ o. is_timer o t) same ∙ ==_refl t.number in
    rw hit (cleared-empty e timer ts h)

nil-of {ℓ} : {A : Type ℓ} (xs : List A) → length xs ≡ 0 → xs ≡ []
nil-of [] h = refl
nil-of (x ∷ xs) h = absurd (omega arith)

-- the parts of a state that the polls are about
abbrev pub IsCalm : {N : Type 0} → Polling N → Type 0
IsCalm s = IsSingle s.effect s.waiting s.timer s.timers

module _ {N : Type 0} where
  effect_of-IsCalm :
      (project : Option Text) (s : Polling N) → IsCalm s → IsCalm (effect_of project s)
  effect_of-IsCalm none s i =
      let empty : cleared_timers s ≡ [] = cleared-empty s.effect s.timer s.timers i.own in
      let fresh = count-later s.effect s.waiting i.known in
      subst (IsSingle (s.effect + 1) s.waiting none) (sym empty) (record {
        known = All-weaken _ s.waiting (λ p h. omega arith) i.known;
        own = tt;
        single = omega arith;
      })
  effect_of-IsCalm (some id) s i =
      let empty : cleared_timers s ≡ [] = cleared-empty s.effect s.timer s.timers i.own in
      let fresh = count-later s.effect s.waiting i.known in
      let p : Poll = record {
        effect = s.effect + 1;
        project_id = id;
        epoch = s.scope.project_epoch;
      } in
      let added = count-append_one (s.effect + 1) s.waiting p in
      let fits = one_if-le (p.effect == s.effect + 1) in
      subst (IsSingle (s.effect + 1) (s.waiting ++ p ∷ []) none) (sym empty) (record {
        known =
            All-append _ s.waiting (p ∷ []) (All-weaken _ s.waiting (λ q h. omega arith) i.known)
              (omega arith, tt);
        own = tt;
        single = omega arith;
      })

  fire-IsCalm :
      (i : ℕ) (o : Option Timeout) (s : Polling N)
      → get_elem? s.timers i ≡ o
      → IsCalm s
      → IsCalm (fire i o s)
  fire-IsCalm i none s e c = c
  fire-IsCalm i (some t) s e c =
      let (own, same) = All-get_elem? _ s.timers i c.own e in
      let added = count-append_one s.effect s.waiting t.poll in
      let fits = one_if-le (t.poll.effect == s.effect) in
      let single = c.single in
      let shorter = length-remove_at s.timers i t e in
      record {
        known = All-append _ s.waiting (t.poll ∷ []) c.known (omega arith, tt);
        own = All-remove_at _ s.timers i c.own;
        single = omega arith;
      }

  scheduled-IsSingle :
      (i : ℕ) (p : Poll) (s : Polling N)
      → get_elem? s.waiting i ≡ some p
      → is_live p s ≡ true
      → IsCalm s
      → IsSingle s.effect
          (remove_at s.waiting i)
          (some s.timeouts_set)
          (s.timers ++ record { number = s.timeouts_set; poll = p } ∷ [])
  unfolding is_live
  scheduled-IsSingle i p s e live c =
      let (same, _) = (and-eq-true_iff (p.effect == s.effect) _).0 live in
      let removed = count-remove_at s.effect s.waiting i p e in
      let one : one_if (p.effect == s.effect) ≡ 1 = ap one_if same ∙ one_if-true in
      let single = c.single in
      let empty : s.timers ≡ [] = nil-of s.timers (omega arith) in
      let t : Timeout = record { number = s.timeouts_set; poll = p } in
      subst (λ ts. IsSingle s.effect (remove_at s.waiting i) (some s.timeouts_set) (ts ++ t ∷ []))
        (sym empty)
        (record {
          known = All-remove_at _ s.waiting i c.known;
          own = (((==_iff p.effect s.effect).0 same, refl), tt);
          single = omega arith;
        })

  left-IsSingle :
      (i : ℕ) (p : Poll) (s : Polling N)
      → get_elem? s.waiting i ≡ some p
      → IsCalm s
      → IsSingle s.effect (remove_at s.waiting i) s.timer s.timers
  left-IsSingle i p s e c =
      let removed = count-remove_at s.effect s.waiting i p e in
      let single = c.single in
      record { known = All-remove_at _ s.waiting i c.known; own = c.own; single = omega arith }

module _ {N : Type 0} ⦃f : Eq N⦄ (later : Text → Text → Bool) where
  answered-IsCalm :
      (a : Answer (List (Job Text N))) (i : ℕ) (p : Poll) (s : Polling N)
      → get_elem? s.waiting i ≡ some p
      → is_live p s ≡ true
      → IsCalm s
      → IsCalm (schedule p (with_answer later a (record s { waiting = remove_at s.waiting i })))
  answered-IsCalm (answered next) i p s e live c = scheduled-IsSingle i p s e live c
  answered-IsCalm (failed message) i p s e live c = scheduled-IsSingle i p s e live c

  answer_poll-IsCalm :
      (a : Answer (List (Job Text N))) (i : ℕ) (o : Option Poll) (s : Polling N)
      → get_elem? s.waiting i ≡ o
      → IsCalm s
      → IsCalm (answer_poll later i a o s)
  answer_poll-IsCalm a i none s e c = c
  answer_poll-IsCalm a i (some p) s e c =
      either IsCalm (is_live p s) _ _ (λ live. answered-IsCalm a i p s e live c)
        (λ stale. left-IsSingle i p s e c)

  cancel_with-IsCalm :
      (t : Option Ticket) (id : Text) (s : Polling N) → IsCalm s → IsCalm (cancel_with later t id s)
  cancel_with-IsCalm none id s c = c
  cancel_with-IsCalm (some t) id s c =
      either IsCalm (any (λ k. k === id) s.canceling) s _ (λ again. c) (λ first. c)

  with_canceled-IsCalm :
      (a : Answer (Job Text N)) (s : Polling N) → IsCalm s → IsCalm (with_canceled later a s)
  unfolding upsert_job
  with_canceled-IsCalm (answered job) s c = c
  with_canceled-IsCalm (failed message) s c = c

  answer_cancel-IsCalm :
      (a : Answer (Job Text N)) (i : ℕ) (o : Option Cancel) (s : Polling N)
      → IsCalm s
      → IsCalm (answer_cancel later i a o s)
  answer_cancel-IsCalm a i none s c = c
  answer_cancel-IsCalm a i (some k) s c =
      either IsCalm (still_current k.ticket s.scope) _ _ (λ current. with_canceled-IsCalm a _ c)
        (λ stale. c)

  -- Where at most one poll of the effect that is mounted is unanswered or waits for its timeout,
  -- and the timeouts are its own, this is so after any effect, answer, timeout or click.
  pub polling_step-IsCalm :
      (e : PollingEvent N) (s : Polling N) → IsCalm s → IsCalm (polling_step later e s)
  unfolding polling_step run_effect poll_answered timeout_fired upsert_job cancel_job
      cancel_answered
  polling_step-IsCalm (effect_ran project) s c = effect_of-IsCalm (project_of project) s c
  polling_step-IsCalm (poll_done i a) s c = answer_poll-IsCalm a i (get_elem? s.waiting i) s refl c
  polling_step-IsCalm (timer_fired i) s c = fire-IsCalm i (get_elem? s.timers i) s refl c
  polling_step-IsCalm (job_posted job) s c = c
  polling_step-IsCalm (cancel_clicked id) s c = cancel_with-IsCalm (capture s.scope) id s c
  polling_step-IsCalm (cancel_done i a) s c = answer_cancel-IsCalm a i (get_elem? s.cancels i) s c
  polling_step-IsCalm (scope_changed e) s c = c
  polling_step-IsCalm jobs_cleared s c = c
