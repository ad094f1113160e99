-- ===== src/Display/History.antt =====
-- The history of `useDisplayState`, frontend/src/hooks/useDisplayState.ts.
-- The refs and the React states of the hook are the fields of `Display`. The two stacks have their
-- last entry at the head. A setter changes `shown`; `render` makes it the rendered snapshot and
-- runs the recording effect.
pub mod Bounds
pub mod Undo
pub mod Redo
use my_paraview_web.Common.{
  ℕ, suc, ◌+◌, ◌≡◌, Bool, true, false, not, ◌&&◌, Option, none, some, List, [], ◌∷◌, ltb,
  if◌then◌else◌, length, take, ◌==◌,
}
use my_paraview_web.Common.Eq.{Text, Eq}
use my_paraview_web.Common.Int.{ℤ, pos}
use my_paraview_web.ColorMap.{CustomColorMap}
use my_paraview_web.Display.Snapshot.{
  Representation, ScalarSelection, TableCoordinates, ImageMode, slice, SliceAxis, axis_z,
  DisplayStyle, CameraState, VolumeOpacityPoint, Snapshot, snapshots_equal,
}

-- `DISPLAY_HISTORY_LIMIT`
abbrev pub display_history_limit : ℕ
display_history_limit = 50

pub record Display (N : Type 0) : Type 0 where
  -- the React states that a snapshot holds
  pub shown : Snapshot N
  -- `snapshotRef.current` and `lastRecordedSnapshotRef.current`
  pub snapshot : Snapshot N
  pub last_recorded : Snapshot N
  -- `historyRef.current`
  pub past : List (Snapshot N)
  pub future : List (Snapshot N)
  -- `automaticTimestepRef.current`
  pub automatic_timestep : Option ℕ
  -- states that are not part of a snapshot
  pub runtime_color_range : Option (N × N)
  pub axes_visible : Bool
  pub playing : Bool

-- The parts of a stored ViewState that are restored; an absent part is `none`.
pub record ViewState (N : Type 0) : Type 0 where
  pub representation : Representation
  pub display_style : Option (DisplayStyle N)
  pub color_by : Option ScalarSelection
  pub color_range : Option (N × N)
  pub opacity : N
  pub color_map : Text
  pub custom_color_map : Option (CustomColorMap N)
  pub legend_visible : Bool
  pub camera : Option (CameraState N)
  -- `undefined`, or a value that may be `null`
  pub table_coordinates : Option (Option TableCoordinates)
  pub image_mode : Option ImageMode
  pub slice_axis : Option SliceAxis
  pub slice_index : Option ℤ
  pub timestep_index : Option ℕ
  pub volume_opacity_points : Option (List (VolumeOpacityPoint N))

-- `DEFAULT_DISPLAY_STYLE` and `DEFAULT_VOLUME_OPACITY_POINTS`
pub record Defaults (N : Type 0) : Type 0 where
  pub display_style : DisplayStyle N
  pub volume_opacity_points : List (VolumeOpacityPoint N)

-- `value ?? fallback`
abbrev pub or_else {ℓ} : {A : Type ℓ} → Option A → A → A
or_else none fallback = fallback
or_else (some a) fallback = a

abbrev pub same_timestep : Option ℕ → ℕ → Bool
same_timestep none index = false
same_timestep (some a) index = a == index

-- The public setters.
pub data Setter (N : Type 0) : Type 0 where
  set_representation : Representation → Setter N
  set_display_style : DisplayStyle N → Setter N
  set_color_by : Option ScalarSelection → Setter N
  set_color_by_state : Option ScalarSelection → Setter N
  set_custom_color_range : Option (N × N) → Setter N
  set_runtime_color_range : Option (N × N) → Setter N
  set_opacity : N → Setter N
  set_color_map : Text → Setter N
  set_legend_visible : Bool → Setter N
  set_axes_visible : Bool → Setter N
  set_camera_state : Option (CameraState N) → Setter N
  set_table_coordinates : Option TableCoordinates → Setter N
  set_image_mode : ImageMode → Setter N
  set_slice_axis : SliceAxis → Setter N
  set_slice_index : ℤ → Setter N
  set_timestep_index : ℕ → Setter N
  set_playback_timestep : ℕ → Setter N
  set_playing : Bool → Setter N
  set_volume_opacity_points : List (VolumeOpacityPoint N) → Setter N

-- What the user, the player and React do to the hook.
pub data Action (N : Type 0) : Type 0 where
  edit : Setter N → Action N
  rerender : Bool → Action N
  undone : Action N
  redone : Action N
  restored : ViewState N → Action N
  wiped : Action N

module _ {N : Type 0} where
  abbrev pub show : Display N → Snapshot N → Display N
  show d s = record d { shown = s }

  unfoldable pub set_state : Display N → Setter N → Display N
  set_state d (set_representation v) = show d (record d.shown { representation = v })
  set_state d (set_display_style v) = show d (record d.shown { display_style = v })
  set_state d (set_color_by v) = record d {
    shown = record d.shown { color_by = v; custom_color_range = none };
    runtime_color_range = none;
  }
  set_state d (set_color_by_state v) = show d (record d.shown { color_by = v })
  set_state d (set_custom_color_range v) = show d (record d.shown { custom_color_range = v })
  set_state d (set_runtime_color_range v) = record d { runtime_color_range = v }
  set_state d (set_opacity v) = show d (record d.shown { opacity = v })
  set_state d (set_color_map v) = show d (record d.shown { color_map = v })
  set_state d (set_legend_visible v) = show d (record d.shown { legend_visible = v })
  set_state d (set_axes_visible v) = record d { axes_visible = v }
  set_state d (set_camera_state v) = show d (record d.shown { camera_state = v })
  set_state d (set_table_coordinates v) = show d (record d.shown { table_coordinates = v })
  set_state d (set_image_mode v) = show d (record d.shown { image_mode = v })
  set_state d (set_slice_axis v) = show d (record d.shown { slice_axis = v })
  set_state d (set_slice_index v) = show d (record d.shown { slice_index = v })
  set_state d (set_timestep_index v) = record d {
    shown = record d.shown { timestep_index = v };
    automatic_timestep = none;
  }
  set_state d (set_playback_timestep v) = record d {
    shown = record d.shown { timestep_index = v };
    automatic_timestep = some v;
  }
  set_state d (set_playing v) = record d { playing = v }
  set_state d (set_volume_opacity_points v) = show d (record d.shown { volume_opacity_points = v })

  pub append_bounded : List (Snapshot N) → Snapshot N → List (Snapshot N)
  append_bounded stack s =
      let next = s ∷ stack in
      if ltb display_history_limit (length next) then take display_history_limit next else next

  abbrev pub replace_history : Display N → List (Snapshot N) → List (Snapshot N) → Display N
  replace_history d past future = record d { past = past; future = future }

  -- `applyWithoutRecording`, and `applySnapshot` in it
  pub apply_without_recording : Display N → Snapshot N → Display N
  apply_without_recording d next = record d {
    snapshot = next;
    last_recorded = next;
    automatic_timestep = none;
    shown = next;
    runtime_color_range = none;
    playing = false;
  }

  -- With an empty stack nothing happens.
  pub undo_to : Display N → List (Snapshot N) → Display N
  undo_to d [] = d
  undo_to d (target ∷ rest) =
      apply_without_recording (replace_history d rest (append_bounded d.future d.snapshot)) target

  pub redo_to : Display N → List (Snapshot N) → Display N
  redo_to d [] = d
  redo_to d (target ∷ rest) =
      apply_without_recording (replace_history d (append_bounded d.past d.snapshot) rest) target

  unfoldable pub undo : Display N → Display N
  unfolding undo_to
  undo d = undo_to d d.past

  unfoldable pub redo : Display N → Display N
  unfolding redo_to
  redo d = redo_to d d.future

  unfoldable pub target_of : Defaults N → ViewState N → Snapshot N
  target_of defaults v = record {
    representation = v.representation;
    display_style = or_else v.display_style defaults.display_style;
    color_by = v.color_by;
    custom_color_range = v.color_range;
    opacity = v.opacity;
    color_map = v.color_map;
    legend_visible = v.legend_visible;
    camera_state = v.camera;
    table_coordinates = or_else v.table_coordinates none;
    image_mode = or_else v.image_mode slice;
    slice_axis = or_else v.slice_axis axis_z;
    slice_index = or_else v.slice_index (pos 0);
    timestep_index = or_else v.timestep_index 0;
    volume_opacity_points = or_else v.volume_opacity_points defaults.volume_opacity_points;
  }

  unfoldable pub reset : Defaults N → Display N → Display N
  unfolding apply_without_recording
  reset defaults d = apply_without_recording (replace_history d [] []) (record d.snapshot {
    color_by = none;
    custom_color_range = none;
    camera_state = none;
    table_coordinates = none;
    image_mode = slice;
    slice_axis = axis_z;
    slice_index = pos 0;
    timestep_index = 0;
    volume_opacity_points = defaults.volume_opacity_points;
  })

  abbrev pub can_undo : Display N → Bool
  can_undo d = ltb 0 (length d.past)

  abbrev pub can_redo : Display N → Bool
  can_redo d = ltb 0 (length d.future)

  module _ ⦃e : Eq N⦄ where
    pub restore_view_state : Defaults N → Display N → ViewState N → Display N
    restore_view_state defaults d v =
        let target = target_of defaults v in
        apply_without_recording
          (if snapshots_equal d.snapshot target
            then d
            else replace_history d (append_bounded d.past d.snapshot) [])
          target

    -- the entry that the effect records, if any
    pub record_entry : Display N → Snapshot N → Snapshot N → Display N
    record_entry d previous snapshot =
        if snapshots_equal previous snapshot
        then d
        else replace_history d (append_bounded d.past previous) []

    -- the effect, at the snapshot that is rendered
    pub record_effect : Display N → Display N
    record_effect d =
        let automatic = same_timestep d.automatic_timestep d.snapshot.timestep_index in
        let cleared = record d { automatic_timestep = none } in
        let previous =
          if automatic
          then record d.last_recorded { timestep_index = d.snapshot.timestep_index }
          else d.last_recorded in
        if snapshots_equal d.last_recorded d.snapshot
        then cleared
        else record_entry (record cleared { last_recorded = d.snapshot }) previous d.snapshot

    -- The effect runs if the rendered snapshot is another one: some of its fields changed, or some
    -- object in it was `replaced` by an equal one.
    unfoldable pub render : Bool → Display N → Display N
    unfolding record_effect
    render replaced d =
        let rendered = record d { snapshot = d.shown } in
        if snapshots_equal d.snapshot d.shown && not replaced
        then rendered
        else record_effect rendered

    pub act : Defaults N → Display N → Action N → Display N
    act defaults d (edit s) = set_state d s
    act defaults d (rerender replaced) = render replaced d
    act defaults d undone = undo d
    act defaults d redone = redo d
    act defaults d (restored v) = restore_view_state defaults d v
    act defaults d wiped = reset defaults d
