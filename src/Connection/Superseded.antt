-- ===== src/Connection/Superseded.antt =====
-- The answers to attempts that a later one, or a disconnection, has superseded.
use my_paraview_web.Common.{
  ℕ, ◌≤◌, false, not, Option, none, some, List, [], ◌∷◌, ◌==◌, ◌≡◌, refl, arith, either,
}
use my_paraview_web.Common.Eq.{Text}
use my_paraview_web.Common.Result.{Result, ok, err}
use my_paraview_web.Connection.{
  Connection, health, capabilities, Event, connect, retry, disconnect, health_answered,
  capabilities_answered, waits, connect_to, health_answer, capabilities_answer, answer_health,
  connection_made, connection_step, connection_run, given_up,
}
use my_paraview_web.Connection.Mode.{Url, Thrown}

module _ {C : Type 0} where
  -- All but the attempts that wait is as it was.
  abbrev pub IsUnchanged : Connection C → Connection C → Type 0
  IsUnchanged before after = record after { waiting = before.waiting } ≡ before

  health_answer-late :
      (n : ℕ) (r : Result Thrown (Unit {0})) (s : Connection C)
      → (n == s.attempt) ≡ false
      → IsUnchanged s (health_answer n r s)
  unfolding health_answer
  health_answer-late n r s h =
      either (IsUnchanged s) (not (waits n health s.waiting)) _ _ (λ e. refl)
        (λ e.
          either (IsUnchanged s) (n == s.attempt) (answer_health n r s) (given_up n s) (λ t. cc)
            (λ f. refl))

  capabilities_answer-late :
      (n : ℕ) (r : Option C) (s : Connection C)
      → (n == s.attempt) ≡ false
      → IsUnchanged s (capabilities_answer n r s)
  unfolding capabilities_answer
  capabilities_answer-late n r s h =
      either (IsUnchanged s) (not (waits n capabilities s.waiting)) _ _ (λ e. refl)
        (λ e.
          either (IsUnchanged s) (n == s.attempt) (connection_made n r s) (given_up n s) (λ t. cc)
            (λ f. refl))

  module _ (parse_url : Text → Option Url) where
    connect_to-rises :
        (target : Text) (base : Option Text) (s : Connection C)
        → s.attempt ≤ (connect_to target base s).attempt
    unfolding connect_to
    connect_to-rises target none s = omega arith
    connect_to-rises target (some base) s = omega arith

    step-rises :
        (s : Connection C) (e : Event C) → s.attempt ≤ (connection_step parse_url s e).attempt
    unfolding connection_step
    step-rises s (connect target) = connect_to-rises target _ s
    step-rises s retry = connect_to-rises _ _ s
    step-rises s disconnect = omega arith
    step-rises s (health_answered n (ok tt)) =
        either (λ (t : Connection C). s.attempt ≤ t.attempt) (not (waits n health s.waiting)) _ _
          (λ e. omega arith)
          (λ e.
            either (λ (t : Connection C). s.attempt ≤ t.attempt) (n == s.attempt)
              (answer_health n (ok tt) s) (given_up n s) (λ f. omega arith) (λ f. omega arith))
    step-rises s (health_answered n (err x)) =
        either (λ (t : Connection C). s.attempt ≤ t.attempt) (not (waits n health s.waiting)) _ _
          (λ e. omega arith)
          (λ e.
            either (λ (t : Connection C). s.attempt ≤ t.attempt) (n == s.attempt)
              (answer_health n (err x) s) (given_up n s) (λ f. omega arith) (λ f. omega arith))
    step-rises s (capabilities_answered n r) =
        either (λ (t : Connection C). s.attempt ≤ t.attempt) (not (waits n capabilities s.waiting))
          _ _ (λ e. omega arith)
          (λ e.
            either (λ (t : Connection C). s.attempt ≤ t.attempt) (n == s.attempt)
              (connection_made n r s) (given_up n s) (λ f. omega arith) (λ f. omega arith))

    run-rises :
        (es : List (Event C)) (s : Connection C)
        → s.attempt ≤ (connection_run parse_url s es).attempt
    unfolding connection_run
    run-rises [] s = omega arith
    run-rises (e ∷ es) s =
        omega (arith, step-rises s e, run-rises es (connection_step parse_url s e))

    -- Once the user has disconnected, the answers to all attempts made until then change nothing but
    -- the list of attempts that wait, whenever they come and whatever has happened in between.
    pub disconnected-late :
        (s : Connection C) (es : List (Event C)) (n : ℕ)
        → n ≤ s.attempt
        → let t = connection_run parse_url (connection_step parse_url s disconnect) es in
          ((r : Result Thrown (Unit {0}))
            → IsUnchanged t (connection_step parse_url t (health_answered n r)))
          × ((r : Option C)
              → IsUnchanged t (connection_step parse_url t (capabilities_answered n r)))
    unfolding connection_step
    disconnected-late s es n h =
        let t = connection_run parse_url (connection_step parse_url s disconnect) es in
        let up = run-rises es (connection_step parse_url s disconnect) in
        let other : (n == t.attempt) ≡ false = ground arith in
        (λ r. health_answer-late n r t other, λ r. capabilities_answer-late n r t other)
