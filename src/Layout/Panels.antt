-- ===== src/Layout/Panels.antt =====
-- The panels of a narrow layout, and those that are remembered of a wide one,
-- frontend/src/hooks/useLayoutPreferences.ts.
use mathlib.Core.List.{foldl}
use my_paraview_web.Common.{
  ◌≡◌, refl, ap, ◌∙◌, Bool, true, false, not, ◌&&◌, ◌||◌, List, [], ◌∷◌, All, if◌then◌else◌,
}
use my_paraview_web.Layout.{
  PanelState, Layout, stored, LayoutAction, width_changed, background_chosen, left_toggled,
  right_toggled, maximized, layout_reset, all_reset, handle, run_effects, layout_step,
  both_collapsed, default_panels, panels_or_default, remembered,
}

-- a narrow layout has one panel open at most
abbrev pub IsRoomy : Bool → PanelState → Type 0
IsRoomy true p = (p.left || p.right) ≡ true
IsRoomy false p = Unit

left-IsRoomy :
    (narrow left right : Bool)
    → IsRoomy narrow (record { left = left; right = right })
    → IsRoomy narrow (record { left = not left; right = if narrow && left then true else right })
left-IsRoomy true true right h = refl
left-IsRoomy true false right h = refl
left-IsRoomy false left right h = tt

right-IsRoomy :
    (narrow left right : Bool)
    → IsRoomy narrow (record { left = left; right = right })
    → IsRoomy narrow (record { left = if narrow && right then true else left; right = not right })
right-IsRoomy true left true h = refl
right-IsRoomy true true false h = refl
right-IsRoomy true false false h = cc
right-IsRoomy false left right h = tt

width-IsRoomy :
    (narrow : Bool) (p : PanelState) → IsRoomy narrow (if narrow then both_collapsed else p)
width-IsRoomy true p = refl
width-IsRoomy false p = tt

both-IsRoomy : (narrow : Bool) → IsRoomy narrow both_collapsed
both-IsRoomy true = refl
both-IsRoomy false = tt

layout_step-IsRoomy :
    (a : LayoutAction) (l : Layout)
    → IsRoomy l.narrow l.panels
    → IsRoomy (layout_step a l).narrow (layout_step a l).panels
unfolding layout_step handle run_effects
layout_step-IsRoomy (width_changed narrow) l h = width-IsRoomy narrow (remembered l)
layout_step-IsRoomy (background_chosen b) l h = h
layout_step-IsRoomy left_toggled l h = left-IsRoomy l.narrow l.panels.left l.panels.right h
layout_step-IsRoomy right_toggled l h = right-IsRoomy l.narrow l.panels.left l.panels.right h
layout_step-IsRoomy maximized l h = both-IsRoomy l.narrow
layout_step-IsRoomy layout_reset l h = width-IsRoomy l.narrow _
layout_step-IsRoomy all_reset l h = width-IsRoomy l.narrow _

-- From a layout on that has one panel open at most if it is narrow, this is so after any actions
-- and changes of the width.
pub foldl-layout_step-IsRoomy :
    (acts : List LayoutAction) (l : Layout)
    → IsRoomy l.narrow l.panels
    → let l' = foldl (λ k a. layout_step a k) l acts in IsRoomy l'.narrow l'.panels
foldl-layout_step-IsRoomy [] l h = h
foldl-layout_step-IsRoomy (a ∷ acts) l h =
    foldl-layout_step-IsRoomy acts (layout_step a l) (layout_step-IsRoomy a l h)

-- an action in a narrow layout that does not forget
abbrev pub IsDrawerAction : LayoutAction → Type 0
IsDrawerAction (width_changed narrow) = narrow ≡ true
IsDrawerAction all_reset = ⊥
IsDrawerAction _ = Unit

-- The storage is in use, the layout narrow, and these panels are remembered.
pub record Remembers (p : PanelState) (l : Layout) : Type 0 where
  pub in_use : l.storage ≡ true
  pub is_narrow : l.narrow ≡ true
  pub kept : l.stored_panels ≡ stored p

kept_panels :
    (p : PanelState) (storage narrow : Bool) (l : Layout)
    → narrow ≡ true
    → l.stored_panels ≡ stored p
    → (if storage && not narrow then stored l.panels else l.stored_panels) ≡ stored p
kept_panels p true true l n h = h
kept_panels p false true l n h = h
kept_panels p storage false l n h = cc

run_effects-Remembers : (p : PanelState) (l : Layout) → Remembers p l → Remembers p (run_effects l)
unfolding run_effects
run_effects-Remembers p l m = record {
  in_use = m.in_use;
  is_narrow = m.is_narrow;
  kept = kept_panels p l.storage l.narrow l m.is_narrow m.kept;
}

handle-Remembers :
    (p : PanelState) (a : LayoutAction) (l : Layout)
    → IsDrawerAction a
    → Remembers p l
    → Remembers p (handle a l)
unfolding handle
handle-Remembers p (width_changed narrow) l d m = record {
  in_use = m.in_use;
  is_narrow = d;
  kept = m.kept;
}
handle-Remembers p (background_chosen b) l d m = record {
  in_use = m.in_use;
  is_narrow = m.is_narrow;
  kept = m.kept;
}
handle-Remembers p left_toggled l d m = record {
  in_use = m.in_use;
  is_narrow = m.is_narrow;
  kept = m.kept;
}
handle-Remembers p right_toggled l d m = record {
  in_use = m.in_use;
  is_narrow = m.is_narrow;
  kept = m.kept;
}
handle-Remembers p maximized l d m = record {
  in_use = m.in_use;
  is_narrow = m.is_narrow;
  kept = m.kept;
}
handle-Remembers p layout_reset l d m = record {
  in_use = m.in_use;
  is_narrow = m.is_narrow;
  kept = m.kept;
}
handle-Remembers p all_reset l d m = absurd d

drawers-Remembers :
    (p : PanelState) (acts : List LayoutAction) (l : Layout)
    → All IsDrawerAction acts
    → Remembers p l
    → Remembers p (foldl (λ k a. layout_step a k) l acts)
unfolding layout_step
drawers-Remembers p [] l d m = m
drawers-Remembers p (a ∷ acts) l (i, d) m =
    drawers-Remembers p acts (layout_step a l) d
      (run_effects-Remembers p (handle a l) (handle-Remembers p a l i m))

wide-panels :
    (p : PanelState) (l : Layout) → Remembers p l → (layout_step (width_changed false) l).panels ≡ p
unfolding layout_step handle run_effects
wide-panels p l m =
    ap (λ b. if b then panels_or_default l.stored_panels else default_panels) m.in_use
    ∙ ap panels_or_default m.kept

-- A wide arrangement that is stored comes back when the layout is wide again, whatever is opened,
-- closed and chosen in between while it is narrow, short of a reset of everything.
pub layout_step-wide_again :
    (acts : List LayoutAction) (l : Layout)
    → l.storage ≡ true
    → l.stored_panels ≡ stored l.panels
    → All IsDrawerAction acts
    → (layout_step
        (width_changed false)
        (foldl (λ k a. layout_step a k) (layout_step (width_changed true) l) acts)).panels
      ≡ l.panels
unfolding layout_step handle
layout_step-wide_again acts l in_use kept d = wide-panels l.panels _ (
    drawers-Remembers l.panels acts (layout_step (width_changed true) l) d (
      run_effects-Remembers l.panels (handle (width_changed true) l)
        (record { in_use = in_use; is_narrow = refl; kept = kept })))
