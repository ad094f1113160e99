-- ===== src/Layout/Tests.antt =====
-- A visit to a narrow layout and back.
use mathlib.Core.List.{foldl}
use my_paraview_web.Common.{true, false, List, [], ◌∷◌}
use my_paraview_web.Layout.{
  Layout, theme, black, stored, unreadable, LayoutAction, width_changed, background_chosen,
  left_toggled, right_toggled, layout_step,
}
use my_paraview_web.Layout.Panels.{IsRoomy, foldl-layout_step-IsRoomy}

abbrev wide_layout : Layout
wide_layout = record {
  narrow = false;
  background = theme;
  panels = record { left = true; right = false };
  storage = true;
  stored_background = unreadable;
  stored_panels = stored (record { left = true; right = false });
}

abbrev drawer_visit : List LayoutAction
drawer_visit = left_toggled ∷ right_toggled ∷ background_chosen black ∷ []

foldl-layout_step-IsRoomy_example :
    let l' = foldl (λ k a. layout_step a k) wide_layout (width_changed true ∷ drawer_visit) in
    IsRoomy l'.narrow l'.panels
foldl-layout_step-IsRoomy_example =
    foldl-layout_step-IsRoomy (width_changed true ∷ drawer_visit) wide_layout tt
