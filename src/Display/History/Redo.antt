-- ===== src/Display/History/Redo.antt =====
-- Redo, reset and restoreViewState in frontend/src/hooks/useDisplayState.ts.
use my_paraview_web.Common.{
  ℕ, zero, suc, ◌+◌, ◌≤◌, ◌≡◌, refl, sym, subst, ◌∙◌, true, false, some, List, [], ◌∷◌, length,
  get_elem?, arith, some_injective,
}
use my_paraview_web.Common.Eq.{Eq}
use my_paraview_web.Display.Snapshot.{Snapshot, snapshots_equal}
use my_paraview_web.Display.History.{
  Display, Defaults, ViewState, display_history_limit, apply_without_recording, undo_to, redo_to,
  undo, redo, target_of, restore_view_state, reset,
}
use my_paraview_web.Display.History.Undo.{append_bounded-take, get_elem?-take, undo_times}

module _ {N : Type 0} where
  -- The rendered snapshot, then those that redo goes forward to.
  abbrev pub prospect : Display N → List (Snapshot N)
  prospect d = d.snapshot ∷ d.future

  abbrev pub redo_times : ℕ → Display N → Display N
  redo_times zero d = d
  redo_times (suc n) d = redo_times n (redo d)

  snapshot-redo_times :
      (n : ℕ) (d : Display N) (future : List (Snapshot N)) {s : Snapshot N}
      → d.future ≡ future
      → get_elem? (d.snapshot ∷ future) n ≡ some s
      → (redo_times n d).snapshot ≡ s
  unfolding redo redo_to apply_without_recording
  snapshot-redo_times zero d future e h = some_injective h
  snapshot-redo_times (suc n) d [] e h = cc
  snapshot-redo_times (suc n) d (t ∷ future) e h =
      rw e (snapshot-redo_times n (redo_to d (t ∷ future)) future refl h)

  prospect-undo_times :
      (m i n : ℕ) (d : Display N) (past : List (Snapshot N)) {s : Snapshot N}
      → d.past ≡ past
      → m ≤ length past
      → get_elem? (prospect d) i ≡ some s
      → i + m ≡ n
      → n ≤ display_history_limit
      → get_elem? (prospect (undo_times m d)) n ≡ some s
  unfolding undo undo_to apply_without_recording
  prospect-undo_times zero i n d past e k h sum room =
      let same : i ≡ n = omega arith in rw same at h
  prospect-undo_times (suc m) i n d [] e k h sum room = absurd (omega arith)
  prospect-undo_times (suc m) i n d (t ∷ past) {s} e k h sum room =
      subst
        (λ (p : List (Snapshot N)). get_elem? (prospect (undo_times m (undo_to d p))) n ≡ some s)
        (sym e)
        (prospect-undo_times m (suc i) n (undo_to d (t ∷ past)) past refl (omega arith)
          (rw (append_bounded-take d.future d.snapshot)
            (get_elem?-take 50 i (prospect d) (omega arith) ∙ h))
          (omega arith) room)

  -- As many redos as undos bring back the snapshot, if there was that much to undo: at most 50.
  pub redo_times-undo_times :
      (n : ℕ) (d : Display N)
      → n ≤ length d.past
      → n ≤ display_history_limit
      → (redo_times n (undo_times n d)).snapshot ≡ d.snapshot
  redo_times-undo_times n d h room =
      snapshot-redo_times n (undo_times n d) _ refl
        (prospect-undo_times n 0 n d d.past refl h refl (omega arith) room)

  -- A reset leaves nothing to undo or redo, whatever the history was, and keeps the parts of the
  -- rendered snapshot that belong to the viewer and not to the dataset.
  pub reset_boundary :
      (defaults : Defaults N) (d : Display N)
      → (undo (reset defaults d) ≡ reset defaults d)
        × (redo (reset defaults d) ≡ reset defaults d)
        × ((reset defaults d).snapshot.representation ≡ d.snapshot.representation)
        × ((reset defaults d).snapshot.display_style ≡ d.snapshot.display_style)
        × ((reset defaults d).snapshot.opacity ≡ d.snapshot.opacity)
        × ((reset defaults d).snapshot.color_map ≡ d.snapshot.color_map)
        × ((reset defaults d).snapshot.legend_visible ≡ d.snapshot.legend_visible)
  unfolding reset undo redo apply_without_recording
  reset_boundary defaults d = (refl, refl, refl, refl, refl, refl, refl)

  module _ ⦃e : Eq N⦄ where
    -- Restoring a view that differs from what is rendered is one undoable step: the view is shown,
    -- one undo brings back the snapshot from before, and one redo the view again.
    pub undo-restore_view_state :
        (defaults : Defaults N) (d : Display N) (v : ViewState N)
        → snapshots_equal d.snapshot (target_of defaults v) ≡ false
        → let d' = restore_view_state defaults d v in
          (d'.snapshot ≡ target_of defaults v)
          × ((undo d').snapshot ≡ d.snapshot)
          × ((redo (undo d')).snapshot ≡ target_of defaults v)
    unfolding restore_view_state undo redo apply_without_recording
    undo-restore_view_state defaults d v differs =
        rw
          (
            differs,
            append_bounded-take d.past d.snapshot,
            append_bounded-take [] (target_of defaults v),
          )
          (refl, refl, refl)

    -- Restoring a view that is equal to what is rendered leaves both stacks as they are.
    pub restore_view_state-same :
        (defaults : Defaults N) (d : Display N) (v : ViewState N)
        → snapshots_equal d.snapshot (target_of defaults v) ≡ true
        → let d' = restore_view_state defaults d v in (d'.past ≡ d.past) × (d'.future ≡ d.future)
    unfolding restore_view_state apply_without_recording
    restore_view_state-same defaults d v same = rw same (refl, refl)
