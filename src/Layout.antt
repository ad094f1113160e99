-- ===== src/Layout.antt =====
-- The background and the side panels, frontend/src/hooks/useLayoutPreferences.ts. A flag of `Panels` is
-- true where the panel is collapsed. The browser's storage, where it can be used, holds texts: of the
-- panels' text only what reading it gives is kept. An action is followed by the effects.
pub mod Panels
mod Tests
use my_paraview_web.Common.{
  Bool, true, false, not, ◌&&◌, Option, none, some, List, [], ◌∷◌, if◌then◌else◌,
}

pub data Background : Type 0 where
  theme black gray white : Background

pub record PanelState : Type 0 where
  pub left : Bool
  pub right : Bool

-- What is stored under a key: nothing, a text that is none of the expected, or one that is.
pub data Stored (A : Type 0) : Type 0 where
  nothing unreadable : Stored A
  stored : A → Stored A

pub record Layout : Type 0 where
  pub narrow : Bool
  pub background : Background
  pub panels : PanelState
  -- whether the storage can be used, and what it holds
  pub storage : Bool
  pub stored_background : Stored Background
  pub stored_panels : Stored PanelState

-- `DEFAULT_PANELS`, and both panels collapsed
abbrev pub default_panels : PanelState
default_panels = record { left = false; right = false }

abbrev pub both_collapsed : PanelState
both_collapsed = record { left = true; right = true }

-- `readStoredBackground`
abbrev pub read_stored_background : Stored Background → Background
read_stored_background (stored b) = b
read_stored_background _ = theme

-- `readStoredPanels(…) ?? DEFAULT_PANELS`
abbrev pub panels_or_default : Stored PanelState → PanelState
panels_or_default (stored p) = p
panels_or_default _ = default_panels

abbrev pub remembered : Layout → PanelState
remembered l = if l.storage then panels_or_default l.stored_panels else default_panels

pub data LayoutAction : Type 0 where
  width_changed : Bool → LayoutAction
  background_chosen : Background → LayoutAction
  left_toggled right_toggled maximized layout_reset all_reset : LayoutAction

abbrev pub reset_panels : Bool → PanelState
reset_panels narrow = if narrow then both_collapsed else default_panels

-- the handlers of the hook
unfoldable pub handle : LayoutAction → Layout → Layout
handle (width_changed narrow) l = record l {
  narrow = narrow;
  panels = if narrow then both_collapsed else remembered l;
}
handle (background_chosen b) l = record l { background = b }
handle left_toggled l = record l {
  panels = record {
    left = not l.panels.left;
    right = if l.narrow && l.panels.left then true else l.panels.right;
  };
}
handle right_toggled l = record l {
  panels = record {
    left = if l.narrow && l.panels.right then true else l.panels.left;
    right = not l.panels.right;
  };
}
handle maximized l = record l { panels = both_collapsed }
handle layout_reset l = record l { panels = reset_panels l.narrow }
handle all_reset l = record l {
  background = theme;
  panels = reset_panels l.narrow;
  stored_background = if l.storage then nothing else l.stored_background;
  stored_panels = if l.storage then nothing else l.stored_panels;
}

-- the effects, which store the background, and the panels of a wide layout
unfoldable pub run_effects : Layout → Layout
run_effects l = record l {
  stored_background = if l.storage then stored l.background else l.stored_background;
  stored_panels = if l.storage && not l.narrow then stored l.panels else l.stored_panels;
}

unfoldable pub layout_step : LayoutAction → Layout → Layout
unfolding handle run_effects
layout_step a l = run_effects (handle a l)
