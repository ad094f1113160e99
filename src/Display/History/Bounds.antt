-- ===== src/Display/History/Bounds.antt =====
-- The lengths of the two stacks in frontend/src/hooks/useDisplayState.ts.
use my_paraview_web.Common.{
  ℕ, Bool, not, ◌&&◌, zero, suc, ◌≤◌, List, [], ◌∷◌, length, take, arith, Bool-cases, inl, inr,
}
use mathlib.Core.List.{foldl}
use my_paraview_web.Common.Eq.{Eq}
use my_paraview_web.Display.Snapshot.{Snapshot, snapshots_equal}
use my_paraview_web.Display.History.{
  Display, Defaults, ViewState, Setter, Action, edit, rerender, undone, redone, restored, wiped,
  display_history_limit, append_bounded, apply_without_recording, undo_to, redo_to, undo, redo,
  reset, target_of, restore_view_state, record_entry, record_effect, render, set_state, act,
}
use my_paraview_web.Display.History

pub record IsBounded {N : Type 0} (d : Display N) : Type 0 where
  pub past_le : length d.past ≤ display_history_limit
  pub future_le : length d.future ≤ display_history_limit

length-take_le {ℓ} : {A : Type ℓ} (n : ℕ) (xs : List A) → length (take n xs) ≤ n
length-take_le zero xs = omega arith
length-take_le (suc n) [] = omega arith
length-take_le (suc n) (x ∷ xs) = omega (arith, length-take_le n xs)

module _ {N : Type 0} where
  length-append_bounded :
      (stack : List (Snapshot N)) (s : Snapshot N)
      → length (append_bounded stack s) ≤ display_history_limit
  unfolding append_bounded
  length-append_bounded stack s = ground (arith, length-take_le 50 (s ∷ stack))

  undo_to-IsBounded :
      (d : Display N) (past : List (Snapshot N))
      → IsBounded d
      → length past ≤ display_history_limit
      → IsBounded (undo_to d past)
  unfolding undo_to apply_without_recording
  undo_to-IsBounded d [] h k = h
  undo_to-IsBounded d (s ∷ past) h k = record {
    past_le = omega arith;
    future_le = length-append_bounded d.future d.snapshot;
  }

  redo_to-IsBounded :
      (d : Display N) (future : List (Snapshot N))
      → IsBounded d
      → length future ≤ display_history_limit
      → IsBounded (redo_to d future)
  unfolding redo_to apply_without_recording
  redo_to-IsBounded d [] h k = h
  redo_to-IsBounded d (s ∷ future) h k = record {
    past_le = length-append_bounded d.past d.snapshot;
    future_le = omega arith;
  }

  set_state-IsBounded : (d : Display N) (s : Setter N) → IsBounded d → IsBounded (set_state d s)
  unfolding set_state
  set_state-IsBounded d (History.set_opacity v) h = record {
    past_le = h.past_le;
    future_le = h.future_le;
  }
  set_state-IsBounded d _ h = record { past_le = h.past_le; future_le = h.future_le }

  module _ ⦃e : Eq N⦄ where
    record_entry-IsBounded :
        (d : Display N) (previous snapshot : Snapshot N)
        → IsBounded d
        → IsBounded (record_entry d previous snapshot)
    unfolding record_entry
    record_entry-IsBounded d p s h = ground (arith, length-append_bounded d.past p)

    record_effect-IsBounded : (d : Display N) → IsBounded d → IsBounded (record_effect d)
    unfolding record_effect
    record_effect-IsBounded d h = elim (Bool-cases (snapshots_equal d.last_recorded d.snapshot)) [
      | inl same ↦ rw same (record { past_le = h.past_le; future_le = h.future_le })
      | inr changed ↦ rw changed (
          record_entry-IsBounded _ _ d.snapshot
            (record { past_le = h.past_le; future_le = h.future_le }))
    ]

    render-IsBounded :
        (replaced : Bool) (d : Display N) → IsBounded d → IsBounded (render replaced d)
    unfolding render
    render-IsBounded replaced d h =
        let rendered : IsBounded (record d { snapshot = d.shown }) = record {
          past_le = h.past_le;
          future_le = h.future_le;
        } in
        elim (Bool-cases (snapshots_equal d.snapshot d.shown && not replaced)) [
          | inl same ↦ rw same rendered
          | inr changed ↦ rw changed (record_effect-IsBounded _ rendered)
        ]

    restore-IsBounded :
        (defaults : Defaults N) (d : Display N) (v : ViewState N)
        → IsBounded d
        → IsBounded (restore_view_state defaults d v)
    unfolding restore_view_state apply_without_recording
    restore-IsBounded defaults d v h =
        elim (Bool-cases (snapshots_equal d.snapshot (target_of defaults v))) [
          | inl same ↦ rw same (record { past_le = h.past_le; future_le = h.future_le })
          | inr changed ↦ rw changed (record {
            past_le = length-append_bounded d.past d.snapshot;
            future_le = omega arith;
          })
        ]

    act-IsBounded :
        (defaults : Defaults N) (d : Display N) (a : Action N)
        → IsBounded d
        → IsBounded (act defaults d a)
    unfolding act undo redo reset
    act-IsBounded defaults d (edit s) h = set_state-IsBounded d s h
    act-IsBounded defaults d (rerender replaced) h = render-IsBounded replaced d h
    act-IsBounded defaults d undone h = undo_to-IsBounded d d.past h h.past_le
    act-IsBounded defaults d redone h = redo_to-IsBounded d d.future h h.future_le
    act-IsBounded defaults d (restored v) h = restore-IsBounded defaults d v h
    act-IsBounded defaults d wiped h = record { past_le = omega arith; future_le = omega arith }

    -- Whatever sequence of setters, renders, undos, redos, restores and resets follows, both stacks
    -- hold 50 snapshots at most, if they did at the start.
    pub foldl-act-IsBounded :
        (defaults : Defaults N) (actions : List (Action N)) (d : Display N)
        → IsBounded d
        → IsBounded (foldl (act defaults) d actions)
    foldl-act-IsBounded defaults [] d h = h
    foldl-act-IsBounded defaults (a ∷ actions) d h =
        foldl-act-IsBounded defaults actions (act defaults d a) (act-IsBounded defaults d a h)
