-- ===== src/View/Parser/Safety.antt =====
-- The outcomes of parseViewState, frontend/src/lib/viewState.ts: what it leaves of the registry, and
-- what holds of a view that it returns.
use my_paraview_web.Common.{
  ◌≡◌, ◌≢◌, refl, sym, ap, ◌∙◌, Bool, true, false, Option, none, some, some_injective,
}
use my_paraview_web.Common.Result.{ok, ok-injective}
use my_paraview_web.Json.{Value, undefined, null, object, array, boolean, number, text, JsNumbers}
use my_paraview_web.Json.Steps.{◌>>=◌}
use my_paraview_web.ColorMap.{CustomColorMap}
use my_paraview_web.ColorMap.Definition.{Maps}
use my_paraview_web.ColorMap.Definition.Laws.{
  IsDefinition, parse_definition-IsDefinition, register_custom-IsDefinition,
}
use my_paraview_web.ColorMap.Registry.{register}
use my_paraview_web.ColorMap.Registry.Room.{IsBounded}
use my_paraview_web.ColorMap.Registry.Laws.{register_ends, register-IsBounded, register-refused}
use my_paraview_web.Display.History.{ViewState}
use my_paraview_web.View.Parser.{
  embedded_of, read_fields, Outcome, after_registration, register_embedded, restore_fields,
  parse_view_state,
}
use my_paraview_web.View.Parser.Reading.{read_fields-IsRead}

module _ {N : Type 0} (js : JsNumbers N) where
  wrapped-some :
      (m : Option (CustomColorMap N)) (d : CustomColorMap N)
      → (m >>= λ a. some (some a)) ≡ some (some d)
      → m ≡ some d
  wrapped-some none d h = cc
  wrapped-some (some a) d h = some_injective h

  pub embedded-IsDefinition :
      (v : Value N) (d : CustomColorMap N) → embedded_of js v ≡ some (some d) → IsDefinition js d
  embedded-IsDefinition undefined d h = cc
  embedded-IsDefinition null d h = cc
  embedded-IsDefinition (boolean b) d h =
      parse_definition-IsDefinition js (boolean b) d (wrapped-some _ d h)
  embedded-IsDefinition (number n) d h =
      parse_definition-IsDefinition js (number n) d (wrapped-some _ d h)
  embedded-IsDefinition (text t) d h =
      parse_definition-IsDefinition js (text t) d (wrapped-some _ d h)
  embedded-IsDefinition (array vs) d h =
      parse_definition-IsDefinition js (array vs) d (wrapped-some _ d h)
  embedded-IsDefinition (object m) d h =
      parse_definition-IsDefinition js (object m) d (wrapped-some _ d h)

  -- An embedded definition, or none, whose registration throws nothing.
  register_embedded-eq :
      (d : CustomColorMap N) (s : ViewState N) (r : Maps N)
      → IsDefinition js d
      → register_embedded js (some d) s r
        ≡ after_registration js s (ok (register d.id d.label d.stops r))
  register_embedded-eq d s r i =
      ap (after_registration js s) (register_custom-IsDefinition js d r i)

  abbrev Returns : Maps N → Outcome js → Type 0
  Returns r o =
      (r' : Maps N) × (found : Option (ViewState N)) × (o ≡ ok (some (r', found))) × IsBounded r'

  after_registration-Returns :
      (s : ViewState N) (r : Maps N) (stored : Option (Maps N × Bool))
      → stored ≢ none
      → ((r' : Maps N) (b : Bool) → stored ≡ some (r', b) → IsBounded r')
      → Returns r (after_registration js s (ok stored))
  after_registration-Returns s r none h bounded = absurd (h refl)
  after_registration-Returns s r (some (r', true)) h bounded =
      (r', some s, refl, bounded r' true refl)
  after_registration-Returns s r (some (r', false)) h bounded =
      (r', none, refl, bounded r' false refl)

  register_embedded-Returns :
      (o : Option (CustomColorMap N)) (s : ViewState N) (r : Maps N)
      → ((d : CustomColorMap N) → o ≡ some d → IsDefinition js d)
      → IsBounded r
      → Returns r (register_embedded js o s r)
  register_embedded-Returns none s r given b = (r, some s, refl, b)
  register_embedded-Returns (some d) s r given b = rw (register_embedded-eq d s r (given d refl)) (
      after_registration-Returns s r (register d.id d.label d.stops r)
        (register_ends d.id d.label d.stops r)
        (λ r' stored h. register-IsBounded d.id d.label d.stops r b h))

  restore_fields-Returns :
      (v : Value N) (r : Maps N) (o : Option (ViewState N))
      → read_fields js v r ≡ o
      → IsBounded r
      → Returns r (restore_fields js o r)
  restore_fields-Returns v r none e b = (r, none, refl, b)
  restore_fields-Returns v r (some s) e b =
      let i = read_fields-IsRead js v r s e in
      register_embedded-Returns s.custom_color_map s r
        (λ d present. embedded-IsDefinition _ d (i.embedded ∙ ap some present)) b

  -- Reading a stored view throws nothing and ends, whatever the value is, and leaves at most 64
  -- custom color maps where there were at most 64.
  pub parse_view_state-returns :
      (v : Value N) (r : Maps N)
      → IsBounded r
      → (r' : Maps N) × (found : Option (ViewState N)) × (parse_view_state js v r
          ≡ ok (some (r', found)))
        × IsBounded r'
  unfolding parse_view_state
  parse_view_state-returns v r b = restore_fields-Returns v r (read_fields js v r) refl b

  after_registration-refused :
      (s : ViewState N) (r : Maps N) (stored : Option (Maps N × Bool)) {r' : Maps N}
      → ((k : Maps N) → stored ≡ some (k, false) → k ≡ r)
      → after_registration js s (ok stored) ≡ ok (some (r', none))
      → r' ≡ r
  after_registration-refused s r none kept h = cc
  after_registration-refused s r (some (k, true)) kept h =
      let bad = ap (λ p. p.1) (some_injective (ok-injective h)) in cc
  after_registration-refused s r (some (k, false)) kept h =
      sym (ap (λ p. p.0) (some_injective (ok-injective h))) ∙ kept k refl

  register_embedded-refused :
      (o : Option (CustomColorMap N)) (s : ViewState N) (r : Maps N) {r' : Maps N}
      → ((d : CustomColorMap N) → o ≡ some d → IsDefinition js d)
      → IsBounded r
      → register_embedded js o s r ≡ ok (some (r', none))
      → r' ≡ r
  register_embedded-refused none s r given b h =
      let bad = ap (λ p. p.1) (some_injective (ok-injective h)) in cc
  register_embedded-refused (some d) s r given b h =
      after_registration-refused s r (register d.id d.label d.stops r)
        (λ k e. register-refused d.id d.label d.stops r b e)
        (sym (register_embedded-eq d s r (given d refl)) ∙ h)

  restore_fields-refused :
      (v : Value N) (r : Maps N) (o : Option (ViewState N)) {r' : Maps N}
      → read_fields js v r ≡ o
      → IsBounded r
      → restore_fields js o r ≡ ok (some (r', none))
      → r' ≡ r
  restore_fields-refused v r none e b h = sym (ap (λ p. p.0) (some_injective (ok-injective h)))
  restore_fields-refused v r (some s) e b h =
      let i = read_fields-IsRead js v r s e in
      register_embedded-refused s.custom_color_map s r
        (λ d present. embedded-IsDefinition _ d (i.embedded ∙ ap some present)) b h

  -- A stored view that is refused leaves a registry of at most 64 custom color maps as it was.
  pub parse_view_state-refused :
      (v : Value N) (r : Maps N) {r' : Maps N}
      → IsBounded r
      → parse_view_state js v r ≡ ok (some (r', none))
      → r' ≡ r
  unfolding parse_view_state
  parse_view_state-refused v r b h = restore_fields-refused v r (read_fields js v r) refl b h
