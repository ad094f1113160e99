-- ===== src/View/Parser/Available.antt =====
-- The color map of a view that parseViewState of frontend/src/lib/viewState.ts returns, and the
-- values of its parts.
pub mod Readers
pub mod Valid
use my_paraview_web.Common.{
  ◌≡◌, ◌≢◌, refl, sym, ap, ◌∙◌, subst, Bool, true, false, not, ◌||◌, Option, none, some, List, [],
  ◌∷◌, ◌++◌, any, some_injective, not_eq_false, Bool-cases, inl, inr,
}
use my_paraview_web.Common.Eq.{◌===◌, Units_eq, beq_refl, same_units_eq}
use my_paraview_web.Common.Result.{Result, ok, err, ok-injective}
use my_paraview_web.Json.{Value, JsNumbers, property}
use my_paraview_web.ColorMap.{Name, CustomColorMap, Stop}
use my_paraview_web.ColorMap.Definition.{
  Maps, is_custom, has_color_map, custom_color_map_definition,
}
use my_paraview_web.ColorMap.Definition.Laws.{IsDefinition, register_custom-IsDefinition}
use my_paraview_web.ColorMap.Registry.{register}
use my_paraview_web.ColorMap.Registry.Known.{register-stored}
use my_paraview_web.Display.History.{ViewState}
use my_paraview_web.View.Parser.{
  is_conflict, is_refused, read_fields, after_registration, register_embedded, restore_fields,
  parse_view_state,
}
use my_paraview_web.View.Parser.Reading.{IsRead, read_fields-IsRead}
use my_paraview_web.View.Parser.Safety.{embedded-IsDefinition}

module _ {N : Type 0} (js : JsNumbers N) where
  after_registration-known :
      (s t : ViewState N) (r : Maps N) (d : CustomColorMap N) {r' : Maps N}
      → (stored : Option (Maps N × Bool)) → register d.id d.label d.stops r ≡ stored
      → after_registration js s (ok stored) ≡ ok (some (r', some t))
      → (s ≡ t) × (has_color_map d.id r' ≡ true)
  unfolding has_color_map
  after_registration-known s t r d none e h = cc
  after_registration-known s t r d (some (k, true)) e h =
      let same = some_injective (ok-injective h) in
      (
        some_injective (ap (λ p. p.1) same),
        subst (λ (m : Maps N). any (λ c. c.name === d.id) m.maps ≡ true) (ap (λ p. p.0) same)
            (register-stored d.id d.label d.stops r e),
      )
  after_registration-known s t r d (some (k, false)) e h =
      let bad = ap (λ p. p.1) (some_injective (ok-injective h)) in cc

  refused-id :
      (d : CustomColorMap N) (id : Name) (r : Maps N)
      → is_refused js (some d) id r ≡ false
      → d.id ≡ id
  refused-id d id r h = same_units_eq d.id id (accepted (is_custom id) (d.id === id) _ h)
    where
      accepted : (a b c : Bool) → ((not a || not b) || c) ≡ false → b ≡ true
      accepted a true c h = refl
      accepted true false c h = cc
      accepted false false c h = cc

  register_embedded-known :
      (o : Option (CustomColorMap N)) (s t : ViewState N) (r : Maps N) {r' : Maps N}
      → ((d : CustomColorMap N) → o ≡ some d → IsDefinition js d)
      → is_refused js o s.color_map r ≡ false
      → register_embedded js o s r ≡ ok (some (r', some t))
      → (s ≡ t) × (has_color_map s.color_map r' ≡ true)
  register_embedded-known none s t r given accepted h =
      let same = some_injective (ok-injective h) in
      (
        some_injective (ap (λ p. p.1) same),
        subst (λ (m : Maps N). has_color_map s.color_map m ≡ true) (ap (λ p. p.0) same)
            (not_eq_false _ accepted),
      )
  register_embedded-known (some d) s t r {r'} given accepted h =
      let (same, known) = after_registration-known s t r d (register d.id d.label d.stops r) refl (
        ap (after_registration js s) (sym (register_custom-IsDefinition js d r (given d refl)))
        ∙ h) in
      (same, subst (λ id. has_color_map id r' ≡ true) (refused-id d s.color_map r accepted) known)

  restore_fields-known :
      (v : Value N) (r : Maps N) (o : Option (ViewState N)) (t : ViewState N) {r' : Maps N}
      → read_fields js v r ≡ o
      → restore_fields js o r ≡ ok (some (r', some t))
      → (read_fields js v r ≡ some t) × (has_color_map t.color_map r' ≡ true)
  restore_fields-known v r none t e h =
      let bad = ap (λ p. p.1) (some_injective (ok-injective h)) in cc
  restore_fields-known v r (some s) t {r'} e h =
      let i = read_fields-IsRead js v r s e in
      let (same, known) =
        register_embedded-known s.custom_color_map s t r
          (λ d present. embedded-IsDefinition js _ d (i.embedded ∙ ap some present)) i.accepted h in
      (
        e ∙ ap some same,
        subst (λ (k : ViewState N). has_color_map k.color_map r' ≡ true) same known,
      )

  pub parse_view_state-known :
      (v : Value N) (r : Maps N) (t : ViewState N) {r' : Maps N}
      → parse_view_state js v r ≡ ok (some (r', some t))
      → (read_fields js v r ≡ some t) × (has_color_map t.color_map r' ≡ true)
  unfolding parse_view_state
  parse_view_state-known v r t h = restore_fields-known v r (read_fields js v r) t refl h
