-- ===== src/Connection/Laws.antt =====
-- What holds of the connection after any events.
use my_paraview_web.Common.{
  ℕ, ◌+◌, ◌≤◌, Bool, true, false, not, ◌&&◌, Option, none, some, List, [], ◌∷◌, ◌++◌, map, any,
  ◌==◌, ◌≡◌, refl, ◌≢◌, All, All-append, All-filter, All-weaken, All-map_of, Bool-cases, inl, inr,
  arith, either, not_eq_false, ==_iff, ◌∙◌,
}
use mathlib.Core.Bool.{and-eq-true_iff}
use my_paraview_web.Common.Eq.{Text}
use my_paraview_web.Common.Result.{Result, ok, err}
use my_paraview_web.Connection.{
  Connection, Status, disconnected, connecting, connected, failed, Waiting, Phase, health,
  capabilities, Event, connect, retry, disconnect, health_answered, capabilities_answered,
  same_phase, waits, without, asks_capabilities, or_failed, connect_to, health_answer,
  capabilities_answer, disconnect_server, connection_step, connection_run, given_up, answer_health,
  connection_made, opened, started, connect_if,
}
use my_paraview_web.Connection.Mode.{
  static, server, Url, Thrown, client_base_of, non_empty, ConnectionConfig, ModeEnvironment,
  resolve_connection_config,
}
use my_paraview_web.Connection.Mode.Laws.{IsConsistent, resolve_connection_config-IsConsistent}

abbrev is_attempt : ℕ → Waiting → Bool
is_attempt n w = w.attempt == n

-- What a state says of the server that it is on.
abbrev pub IsOn : Option Text → Option Text → Text → Type 0
IsOn api client base = (api ≡ some base) × (client ≡ client_base_of (some base))

module _ {C : Type 0} where
  -- No attempt is newer than the counter, the newest one is at the target that is shown, and in server
  -- mode. While connecting, the newest attempt still waits; what is connected is so to the base that
  -- is shown and that the client calls; in static mode there is no base.
  pub record IsSettled (s : Connection C) : Type 0 where
    pub bounded : All (λ w. w.attempt ≤ s.attempt) s.waiting
    pub newest :
        All
          (λ w. w.attempt ≡ s.attempt → (s.mode ≡ server) × IsOn s.api_base s.client_base w.target)
          s.waiting
    pub under_way : s.status ≡ connecting → any (is_attempt s.attempt) s.waiting ≡ true
    pub on_server :
        s.status ≡ connected
        → (base : Text) × (s.mode ≡ server) × IsOn s.api_base s.client_base base
    pub off_server : s.mode ≡ static → s.api_base ≡ none

or_failed-connecting : (s : Status) → or_failed s ≢ connecting
or_failed-connecting disconnected h = cc
or_failed-connecting connecting h = cc
or_failed-connecting connected h = cc
or_failed-connecting failed h = cc

or_failed-connected : (s : Status) → or_failed s ≡ connected → s ≡ connected
or_failed-connected disconnected h = cc
or_failed-connected connecting h = cc
or_failed-connected connected h = refl
or_failed-connected failed h = cc

any-last :
    (n : ℕ) (ws : List Waiting) (w : Waiting)
    → w.attempt ≡ n
    → any (is_attempt n) (ws ++ w ∷ []) ≡ true
any-last n [] w h = ground arith
any-last n (x ∷ ws) w h = elim (Bool-cases (x.attempt == n)) [
  | inl t ↦ rw t refl
  | inr f ↦ rw f (any-last n ws w h)
]

any-without :
    (n a : ℕ) (ws : List Waiting)
    → (n == a) ≡ false
    → any (is_attempt a) (without n ws) ≡ any (is_attempt a) ws
any-without n a [] h = refl
any-without n a (w ∷ ws) h = elim (Bool-cases (w.attempt == n)) [
  | inl t ↦
      let other : (w.attempt == a) ≡ false = ground arith in rw (t, other) (any-without n a ws h)
  | inr f ↦ rw (f, any-without n a ws h) refl
]

any-asks_capabilities :
    (n a : ℕ) (ws : List Waiting)
    → any (is_attempt a) (map (asks_capabilities n) ws) ≡ any (is_attempt a) ws
any-asks_capabilities n a [] = refl
any-asks_capabilities n a (w ∷ ws) = elim (Bool-cases (w.attempt == n)) [
  | inl t ↦ rw (t, any-asks_capabilities n a ws) refl
  | inr f ↦ rw (f, any-asks_capabilities n a ws) refl
]

All-without : (P : Waiting → Type 0) (n : ℕ) (ws : List Waiting) → All P ws → All P (without n ws)
All-without P n ws h =
    All-weaken (λ w. P w × (not (w.attempt == n) ≡ true)) (without n ws) (λ w k. k.0)
      (All-filter P (λ w. not (w.attempt == n)) ws h)

-- What waits in a phase is among what waits.
waits-member :
    (P : Waiting → Type 0) (n : ℕ) (phase : Phase) (ws : List Waiting)
    → waits n phase ws ≡ true
    → All P ws
    → (w : Waiting) × (w.attempt ≡ n) × P w
waits-member P n phase [] h k = cc
waits-member P n phase (w ∷ ws) h (p, k) =
    elim (Bool-cases (w.attempt == n && same_phase w.phase phase)) [
      | inl t ↦ (w, (==_iff w.attempt n).0 ((and-eq-true_iff _ _).0 t).0, p)
      | inr f ↦ waits-member P n phase ws (rw f at h) k
    ]

-- An attempt counter that rises leaves no waiting attempt as the newest.
older :
    (n : ℕ) (P : Waiting → Type 0) (ws : List Waiting)
    → All (λ w. w.attempt ≤ n) ws
    → All (λ w. w.attempt ≡ n + 1 → P w) ws
older n P ws h = All-weaken (λ w. w.attempt ≤ n) ws (λ w k e. absurd (omega arith)) h

later : (n : ℕ) (ws : List Waiting) → All (λ w. w.attempt ≤ n) ws → All (λ w. w.attempt ≤ n + 1) ws
later n ws h = All-weaken (λ w. w.attempt ≤ n) ws (λ w k. omega arith) h

no_base :
    (config : ConnectionConfig)
    → IsConsistent config
    → config.mode ≡ static
    → config.api_base ≡ none
no_base config (inl (mode, auto, base, given)) e = cc
no_base config (inr (mode, auto, given)) e = given

module _ {C : Type 0} where
  abbrev AtTarget : Connection C → Waiting → Type 0
  AtTarget s w = w.attempt ≡ s.attempt → (s.mode ≡ server) × IsOn s.api_base s.client_base w.target

  connect_to-IsSettled :
      (target : Text) (base : Option Text) (s : Connection C)
      → IsSettled s
      → IsSettled (connect_to target base s)
  unfolding connect_to
  connect_to-IsSettled target none s h = record {
    bounded = h.bounded;
    newest = h.newest;
    under_way = λ e. absurd (or_failed-connecting s.status e);
    on_server = λ e. h.on_server (or_failed-connected s.status e);
    off_server = h.off_server;
  }
  connect_to-IsSettled target (some base) s h =
      let last : Waiting = record { attempt = s.attempt + 1; target = base; phase = health } in
      record {
        bounded =
            All-append (λ w. w.attempt ≤ s.attempt + 1) s.waiting (last ∷ [])
              (later s.attempt s.waiting h.bounded) (omega arith, tt);
        newest =
            All-append _ s.waiting (last ∷ []) (older s.attempt _ s.waiting h.bounded)
              (λ e. (refl, (refl, refl)), tt);
        under_way = λ e. any-last (s.attempt + 1) s.waiting last refl;
        on_server = λ e. cc;
        off_server = λ e. cc;
      }

  given_up-IsSettled :
      (n : ℕ) (s : Connection C) → (n == s.attempt) ≡ false → IsSettled s → IsSettled (given_up n s)
  given_up-IsSettled n s f h = record {
    bounded = All-without (λ w. w.attempt ≤ s.attempt) n s.waiting h.bounded;
    newest = All-without (AtTarget s) n s.waiting h.newest;
    under_way = λ e. any-without n s.attempt s.waiting f ∙ h.under_way e;
    on_server = h.on_server;
    off_server = h.off_server;
  }

  answer_health-IsSettled :
      (n : ℕ) (r : Result Thrown (Unit {0})) (s : Connection C)
      → IsSettled s
      → IsSettled (answer_health n r s)
  answer_health-IsSettled n (ok tt) s h = record {
    bounded =
        All-map_of (λ w. w.attempt ≤ s.attempt) (asks_capabilities n) s.waiting
          (λ w p.
            either (λ (v : Waiting). v.attempt ≤ s.attempt) (w.attempt == n) _ _ (λ t. p) (λ t. p))
          h.bounded;
    newest =
        All-map_of (AtTarget s) (asks_capabilities n) s.waiting
          (λ w p. either (AtTarget s) (w.attempt == n) _ _ (λ t. p) (λ t. p)) h.newest;
    under_way = λ e. any-asks_capabilities n s.attempt s.waiting ∙ h.under_way e;
    on_server = h.on_server;
    off_server = h.off_server;
  }
  answer_health-IsSettled n (err e) s h = record {
    bounded = All-without (λ w. w.attempt ≤ s.attempt) n s.waiting h.bounded;
    newest = All-without (AtTarget s) n s.waiting h.newest;
    under_way = λ e. cc;
    on_server = λ e. cc;
    off_server = h.off_server;
  }

  connection_made-IsSettled :
      (n : ℕ) (r : Option C) (s : Connection C)
      → n ≡ s.attempt
      → waits n capabilities s.waiting ≡ true
      → IsSettled s
      → IsSettled (connection_made n r s)
  connection_made-IsSettled n r s same w h =
      let (v, at, target) = waits-member (AtTarget s) n capabilities s.waiting w h.newest in
      let (mode, (api, client)) = target (at ∙ same) in
      record {
        bounded = All-without (λ w. w.attempt ≤ s.attempt) n s.waiting h.bounded;
        newest = All-without (AtTarget s) n s.waiting h.newest;
        under_way = λ e. cc;
        on_server = λ e. (v.target, mode, (api, client));
        off_server = h.off_server;
      }

  disconnect_server-IsSettled : (s : Connection C) → IsSettled s → IsSettled (disconnect_server s)
  unfolding disconnect_server
  disconnect_server-IsSettled s h = record {
    bounded = later s.attempt s.waiting h.bounded;
    newest = older s.attempt _ s.waiting h.bounded;
    under_way = λ e. cc;
    on_server = λ e. cc;
    off_server = λ e. refl;
  }

  health_answer-IsSettled :
      (n : ℕ) (r : Result Thrown (Unit {0})) (s : Connection C)
      → IsSettled s
      → IsSettled (health_answer n r s)
  unfolding health_answer
  health_answer-IsSettled n r s h =
      either IsSettled (not (waits n health s.waiting)) s _ (λ e. h)
        (λ e.
          either IsSettled (n == s.attempt) (answer_health n r s) (given_up n s)
            (λ t. answer_health-IsSettled n r s h) (λ f. given_up-IsSettled n s f h))

  capabilities_answer-IsSettled :
      (n : ℕ) (r : Option C) (s : Connection C)
      → IsSettled s
      → IsSettled (capabilities_answer n r s)
  unfolding capabilities_answer
  capabilities_answer-IsSettled n r s h =
      either IsSettled (not (waits n capabilities s.waiting)) s _ (λ e. h)
        (λ e.
          either IsSettled (n == s.attempt) (connection_made n r s) (given_up n s)
            (λ t.
              connection_made-IsSettled n r s ((==_iff n s.attempt).0 t)
                (not_eq_false (waits n capabilities s.waiting) e) h)
            (λ f. given_up-IsSettled n s f h))

  module _ (parse_url : Text → Option Url) where
    connection_step-IsSettled :
        (s : Connection C) (e : Event C) → IsSettled s → IsSettled (connection_step parse_url s e)
    unfolding connection_step
    connection_step-IsSettled s (connect target) h = connect_to-IsSettled target _ s h
    connection_step-IsSettled s retry h = connect_to-IsSettled _ _ s h
    connection_step-IsSettled s disconnect h = disconnect_server-IsSettled s h
    connection_step-IsSettled s (health_answered n r) h = health_answer-IsSettled n r s h
    connection_step-IsSettled s (capabilities_answered n r) h =
        capabilities_answer-IsSettled n r s h

    run-IsSettled :
        (es : List (Event C)) (s : Connection C)
        → IsSettled s
        → IsSettled (connection_run parse_url s es)
    unfolding connection_run
    run-IsSettled [] s h = h
    run-IsSettled (e ∷ es) s h =
        run-IsSettled es (connection_step parse_url s e) (connection_step-IsSettled s e h)

    connect_if-IsSettled :
        (auto : Bool) (base : Option Text) (s : Connection C)
        → IsSettled s
        → IsSettled (connect_if parse_url auto base s)
    connect_if-IsSettled true (some base) s k = connect_to-IsSettled base _ s k
    connect_if-IsSettled true none s k = k
    connect_if-IsSettled false base s k = k

    opened-IsSettled :
        (config : ConnectionConfig) (client : Option Text) (storage : Option (Option Text))
        → IsConsistent config
        → IsSettled {C = C} (opened parse_url config client storage)
    unfolding opened
    opened-IsSettled config client storage h = record {
      bounded = tt;
      newest = tt;
      under_way = λ e. cc;
      on_server = λ e. cc;
      off_server = λ e. no_base config h e;
    }

    started-IsSettled :
        (config : ConnectionConfig) (client : Option Text) (storage : Option (Option Text))
        → IsConsistent config
        → IsSettled {C = C} (started parse_url config client storage)
    unfolding started
    started-IsSettled config client storage h =
        connect_if-IsSettled config.auto_connect (non_empty config.api_base) _
          (opened-IsSettled config client storage h)

    -- From the opening of the page on, in any build, after any clicks and answers: no attempt that waits
    -- is newer than the counter; the newest one, where it waits, is for the base that is shown, in
    -- server mode; while the status is connecting the newest attempt waits; what is connected is in
    -- server mode, to the base that is shown and that the client calls; static mode has no base.
    pub connection_run-IsSettled :
        (env : ModeEnvironment) (client : Option Text) (storage : Option (Option Text))
        (es : List (Event C))
        → IsSettled (
            connection_run parse_url
              (started parse_url (resolve_connection_config parse_url env) client storage)
              es)
    connection_run-IsSettled env client storage es = run-IsSettled es _ (
        started-IsSettled (resolve_connection_config parse_url env) client storage
          (resolve_connection_config-IsConsistent parse_url env).0)
