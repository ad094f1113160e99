-- ===== src/Project/Polling/Cancels.antt =====
-- The guard against cancelling a job twice, frontend/src/hooks/useJobPolling.ts.
use my_paraview_web.Common.{
  neither, ℕ, zero, suc, ◌≡◌, refl, sym, ap, ◌∙◌, subst, Bool, true, false, not, Option, none, some,
  List, [], ◌∷◌, ◌++◌, map, filter, any, get_elem?, either, Bool-cases, inl, inr, some_injective,
}
use my_paraview_web.Common.Eq.{Text, Eq, ◌===◌, Units_eq, same_units_refl, same_units_eq}
use my_paraview_web.Jobs.{Job}
use my_paraview_web.Project.Scope.{Ticket, capture, still_current}
use my_paraview_web.Project.Polling.{
  Poll, Timeout, Cancel, Polling, Answer, answered, failed, remove_at, is_live, effect_of,
  project_of, fire, answer_poll, with_answer, cancel_with, with_canceled, answer_cancel,
  PollingEvent, effect_ran, poll_done, timer_fired, job_posted, cancel_clicked, cancel_done,
  scope_changed, jobs_cleared, polling_step, run_effect, poll_answered, timeout_fired, cancel_job,
  cancel_answered, upsert_job,
}

abbrev has_id : List Text → Text → Bool
has_id ids id = any (λ k. k === id) ids

abbrev pub IsDistinct : List Text → Type 0
IsDistinct [] = Unit
IsDistinct (x ∷ xs) = (any (λ k. k === x) xs ≡ false) × IsDistinct xs

abbrev pub cancel_ids : List Cancel → List Text
cancel_ids cs = map (λ c. c.id) cs

-- The ids are those of the requests under way, in their order, and no id is there twice.
pub record IsCanceling (ids : List Text) (cancels : List Cancel) : Type 0 where
  pub same : ids ≡ cancel_ids cancels
  pub distinct : IsDistinct ids

differ-sym : (x y : Text) → (x === y) ≡ false → (y === x) ≡ false
differ-sym x y h = elim (Bool-cases (y === x)) [
  | inl equal ↦
      let e = same_units_eq y x equal in
      let bad : true ≡ false = sym (same_units_refl x) ∙ subst (λ k. (x === k) ≡ false) e h in cc
  | inr other ↦ other
]

filter-absent :
    (ids : List Text) (id : Text) → has_id ids id ≡ false → filter (λ k. not (k === id)) ids ≡ ids
filter-absent [] id h = refl
filter-absent (k ∷ ids) id h =
    let (other, rest) = neither (k === id) _ h in rw other (ap (k ∷◌) (filter-absent ids id rest))

absent-get :
    (cs : List Cancel) (i : ℕ) (c : Cancel) (id : Text)
    → get_elem? cs i ≡ some c
    → has_id (cancel_ids cs) id ≡ false
    → (c.id === id) ≡ false
absent-get [] i c id h a = cc
absent-get (d ∷ cs) zero c id h a =
    let (other, _) = neither (d.id === id) _ a in
    subst (λ (k : Cancel). (k.id === id) ≡ false) (some_injective h) other
absent-get (d ∷ cs) (suc i) c id h a =
    let (_, rest) = neither (d.id === id) _ a in absent-get cs i c id h rest

-- Deleting the id of a request takes out that request alone.
filter-remove_at :
    (cs : List Cancel) (i : ℕ) (c : Cancel)
    → get_elem? cs i ≡ some c
    → IsDistinct (cancel_ids cs)
    → filter (λ k. not (k === c.id)) (cancel_ids cs) ≡ cancel_ids (remove_at cs i)
unfolding remove_at
filter-remove_at [] i c h d = cc
filter-remove_at (b ∷ cs) zero c h (absent, d) =
    subst (λ (k : Cancel). filter (λ j. not (j === k.id)) (b.id ∷ cancel_ids cs) ≡ cancel_ids cs)
      (some_injective h) (rw (same_units_refl b.id) (filter-absent (cancel_ids cs) b.id absent))
filter-remove_at (b ∷ cs) (suc i) c h (absent, d) =
    rw (differ-sym c.id b.id (absent-get cs i c b.id h absent))
      (ap (b.id ∷◌) (filter-remove_at cs i c h d))

absent-remove_at :
    (cs : List Cancel) (i : ℕ) (id : Text)
    → has_id (cancel_ids cs) id ≡ false
    → has_id (cancel_ids (remove_at cs i)) id ≡ false
unfolding remove_at
absent-remove_at [] i id h = h
absent-remove_at (c ∷ cs) zero id h = let (_, rest) = neither (c.id === id) _ h in rest
absent-remove_at (c ∷ cs) (suc i) id h =
    let (other, rest) = neither (c.id === id) _ h in rw (other, absent-remove_at cs i id rest) refl

IsDistinct-remove_at :
    (cs : List Cancel) (i : ℕ)
    → IsDistinct (cancel_ids cs)
    → IsDistinct (cancel_ids (remove_at cs i))
unfolding remove_at
IsDistinct-remove_at [] i d = d
IsDistinct-remove_at (c ∷ cs) zero (absent, d) = d
IsDistinct-remove_at (c ∷ cs) (suc i) (absent, d) =
    (absent-remove_at cs i c.id absent, IsDistinct-remove_at cs i d)

absent-append :
    (ids : List Text) (id new : Text)
    → has_id ids id ≡ false
    → (new === id) ≡ false
    → has_id (ids ++ new ∷ []) id ≡ false
absent-append [] id new h other = rw other refl
absent-append (k ∷ ids) id new h other =
    let (first, rest) = neither (k === id) _ h in
    rw (first, absent-append ids id new rest other) refl

IsDistinct-append :
    (ids : List Text) (new : Text)
    → IsDistinct ids
    → has_id ids new ≡ false
    → IsDistinct (ids ++ new ∷ [])
IsDistinct-append [] new d h = (refl, tt)
IsDistinct-append (k ∷ ids) new (absent, d) h =
    let (other, rest) = neither (k === new) _ h in
    (absent-append ids k new absent (differ-sym k new other), IsDistinct-append ids new d rest)

map-append_one :
    (cs : List Cancel) (c : Cancel) → cancel_ids (cs ++ c ∷ []) ≡ cancel_ids cs ++ c.id ∷ []
map-append_one [] c = refl
map-append_one (b ∷ cs) c = ap (b.id ∷◌) (map-append_one cs c)

abbrev pub IsGuarded : {N : Type 0} → Polling N → Type 0
IsGuarded s = IsCanceling s.canceling s.cancels

module _ {N : Type 0} where
  effect_of-IsGuarded : (o : Option Text) (s : Polling N) → IsGuarded s → IsGuarded (effect_of o s)
  effect_of-IsGuarded none s g = g
  effect_of-IsGuarded (some id) s g = g

  fire-IsGuarded :
      (i : ℕ) (o : Option Timeout) (s : Polling N) → IsGuarded s → IsGuarded (fire i o s)
  fire-IsGuarded i none s g = g
  fire-IsGuarded i (some t) s g = g

module _ {N : Type 0} ⦃f : Eq N⦄ (later : Text → Text → Bool) where
  with_answer-IsGuarded :
      (a : Answer (List (Job Text N))) (s : Polling N)
      → IsGuarded s
      → IsGuarded (with_answer later a s)
  with_answer-IsGuarded (answered next) s g = g
  with_answer-IsGuarded (failed message) s g = g

  answer_poll-IsGuarded :
      (a : Answer (List (Job Text N))) (i : ℕ) (o : Option Poll) (s : Polling N)
      → IsGuarded s
      → IsGuarded (answer_poll later i a o s)
  answer_poll-IsGuarded a i none s g = g
  answer_poll-IsGuarded a i (some p) s g =
      either IsGuarded (is_live p s) _ _ (λ live. with_answer-IsGuarded a _ g) (λ stale. g)

  cancel_with-IsGuarded :
      (t : Option Ticket) (id : Text) (s : Polling N)
      → IsGuarded s
      → IsGuarded (cancel_with later t id s)
  cancel_with-IsGuarded none id s g = g
  cancel_with-IsGuarded (some t) id s g =
      either IsGuarded (has_id s.canceling id) s _ (λ again. g)
        (λ first. record {
          same =
              ap (◌++ (id ∷ [])) g.same
              ∙ sym (map-append_one s.cancels (record { id = id; ticket = t }));
          distinct = IsDistinct-append s.canceling id g.distinct first;
        })

  abbrev IsLeft : Text → Polling N → Type 0
  IsLeft id x = IsCanceling (filter (λ k. not (k === id)) x.canceling) x.cancels

  with_canceled-IsLeft :
      (a : Answer (Job Text N)) (id : Text) (s : Polling N)
      → IsLeft id s
      → IsLeft id (with_canceled later a s)
  unfolding upsert_job
  with_canceled-IsLeft (answered job) id s g = g
  with_canceled-IsLeft (failed message) id s g = g

  answer_cancel-IsGuarded :
      (a : Answer (Job Text N)) (i : ℕ) (o : Option Cancel) (s : Polling N)
      → get_elem? s.cancels i ≡ o
      → IsGuarded s
      → IsGuarded (answer_cancel later i a o s)
  answer_cancel-IsGuarded a i none s e g = g
  answer_cancel-IsGuarded a i (some c) s e g =
      let left : Polling N = record s { cancels = remove_at s.cancels i } in
      let ids = subst IsDistinct g.same g.distinct in
      let same : filter (λ k. not (k === c.id)) s.canceling ≡ cancel_ids (remove_at s.cancels i) =
        ap (filter (λ k. not (k === c.id))) g.same ∙ filter-remove_at s.cancels i c e ids in
      let done : IsCanceling (filter (λ k. not (k === c.id)) s.canceling) (remove_at s.cancels i) =
        record {
          same = same;
          distinct = subst IsDistinct (sym same) (IsDistinct-remove_at s.cancels i ids);
        } in
      either (IsLeft c.id) (still_current c.ticket s.scope) _ left
        (λ current. with_canceled-IsLeft a c.id left done) (λ stale. done)

  -- Where the jobs whose cancelling is under way are those of the unanswered requests, each of them
  -- once, this is so after any effect, answer, timeout or click.
  pub polling_step-IsGuarded :
      (e : PollingEvent N) (s : Polling N) → IsGuarded s → IsGuarded (polling_step later e s)
  unfolding polling_step run_effect poll_answered timeout_fired upsert_job cancel_job
      cancel_answered
  polling_step-IsGuarded (effect_ran project) s g = effect_of-IsGuarded (project_of project) s g
  polling_step-IsGuarded (poll_done i a) s g = answer_poll-IsGuarded a i (get_elem? s.waiting i) s g
  polling_step-IsGuarded (timer_fired i) s g = fire-IsGuarded i (get_elem? s.timers i) s g
  polling_step-IsGuarded (job_posted job) s g = g
  polling_step-IsGuarded (cancel_clicked id) s g = cancel_with-IsGuarded (capture s.scope) id s g
  polling_step-IsGuarded (cancel_done i a) s g =
      answer_cancel-IsGuarded a i (get_elem? s.cancels i) s refl g
  polling_step-IsGuarded (scope_changed e) s g = g
  polling_step-IsGuarded jobs_cleared s g = g
