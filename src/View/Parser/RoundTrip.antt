-- ===== src/View/Parser/RoundTrip.antt =====
-- Reading back the object of a view with parseViewState of frontend/src/lib/viewState.ts. `Parts`
-- and `Embedded` do so with the parts of a view.
pub mod Parts
pub mod Embedded
use Prim.Native.Nat.{◌^◌}
use my_paraview_web.Common.{
  ℕ, ◌+◌, ◌<◌, ◌≡◌, refl, sym, ap, ◌∙◌, subst, Bool, true, false, Option, none, some, List, map,
}
use my_paraview_web.Common.Int.{ℤ, pos, pos_part, neg_part}
use my_paraview_web.Common.Result.{ok}
use my_paraview_web.Json.{
  Value, JsNumbers, undefined, null, object, is_undefined, is_null, as_values, boolean, number,
  text, array,
}
use my_paraview_web.Json.Steps.{◌>>=◌}
use my_paraview_web.ColorMap.{CustomColorMap}
use my_paraview_web.ColorMap.Definition.{Maps}
use my_paraview_web.ColorMap.Definition.Laws.{IsDefinition, register_custom-IsDefinition}
use my_paraview_web.ColorMap.Registry.{register}
use my_paraview_web.Display.Snapshot.{
  DisplayStyle, ScalarSelection, CameraState, TableCoordinates, VolumeOpacityPoint, ImageMode,
  SliceAxis,
}
use my_paraview_web.Display.History.{ViewState}
use my_paraview_web.View.Fields.{
  optional, nullable, named, image_mode_named, slice_axis_named, read_style, read_selection,
  read_range, read_camera, read_coordinates, integer_in, read_opacity_points, are_distinct,
}
use my_paraview_web.View.Parser.{
  embedded_of, is_refused, timestep_in, read_fields, restore_fields, register_embedded,
  after_registration, parse_view_state,
}
use my_paraview_web.View.Parser.Reading.{IsRead, IsRead-read_fields}
use my_paraview_web.View.Parser.Source.{
  or_undefined, or_null, image_mode_name, slice_axis_name, definition_value, style_value,
  selection_value, range_value, camera_value, coordinates_value, opacity_point_value, view_value,
  is_style, is_range, is_camera, are_opacity_points, IsEach, IsView,
}
use my_paraview_web.View.Parser.RoundTrip.Parts.{
  representation_named-name, image_mode_named-name, slice_axis_named-name, number_within-number,
  read_style-value, read_selection-value, read_range-value, read_camera-value,
  read_coordinates-value, read_opacity_points-value,
}
use my_paraview_web.View.Parser.RoundTrip.Embedded.{parse_definition-value}

optional-defined {ℓ} :
    {N : Type 0} {A : Type ℓ} (read : Value N → Option A) (v : Value N)
    → is_undefined v ≡ false
    → optional read v ≡ (read v >>= λ a. some (some a))
optional-defined read undefined h = cc
optional-defined read null h = refl
optional-defined read (boolean b) h = refl
optional-defined read (number n) h = refl
optional-defined read (text t) h = refl
optional-defined read (array vs) h = refl
optional-defined read (object m) h = refl

nullable-defined {ℓ} :
    {N : Type 0} {A : Type ℓ} (read : Value N → Option A) (v : Value N)
    → is_null v ≡ false
    → nullable read v ≡ (read v >>= λ a. some (some a))
nullable-defined read undefined h = refl
nullable-defined read null h = cc
nullable-defined read (boolean b) h = refl
nullable-defined read (number n) h = refl
nullable-defined read (text t) h = refl
nullable-defined read (array vs) h = refl
nullable-defined read (object m) h = refl

module _ {ℓ} {N : Type 0} {A : Type ℓ} (read : Value N → Option A) (write : A → Value N)
    (P : A → Type 0) (reads : (a : A) → P a → read (write a) ≡ some a) where
  -- A part that is left out, or that its reader reads back, is read back.
  optional-written :
      ((a : A) → is_undefined (write a) ≡ false)
      → (o : Option A) → IsEach P o
      → optional read (or_undefined write o) ≡ some o
  optional-written defined none h = refl
  optional-written defined (some a) h =
      optional-defined read (write a) (defined a) ∙ (rw (reads a h) refl)

  nullable-written :
      ((a : A) → is_null (write a) ≡ false)
      → (o : Option A) → IsEach P o
      → nullable read (or_null write o) ≡ some o
  nullable-written defined none h = refl
  nullable-written defined (some a) h =
      nullable-defined read (write a) (defined a) ∙ (rw (reads a h) refl)

-- the registry after the registration of an embedded color map, if there is one
abbrev pub Registers : {N : Type 0} → Option (CustomColorMap N) → Maps N → Maps N → Type 0
Registers none r r' = r' ≡ r
Registers (some d) r r' = register d.id d.label d.stops r ≡ some (r', true)

IsEach-Unit {ℓ} : {A : Type ℓ} (o : Option A) → IsEach (λ a. Unit {0}) o
IsEach-Unit none = tt
IsEach-Unit (some a) = tt

-- `Number.isSafeInteger`: a number of the language is exactly this integer.
abbrev pub IsSafeInteger : ℤ → Type 0
IsSafeInteger z = pos_part z + neg_part z < 2 ^ 53

pub record HasSafeIndices {N : Type 0} (s : ViewState N) : Type 0 where
  pub slice_index : IsEach IsSafeInteger s.slice_index
  pub timestep_index : IsEach (λ n. IsSafeInteger (pos n)) s.timestep_index

module _ {N : Type 0} (js : JsNumbers N) where
  embedded_of-value :
      (o : Option (CustomColorMap N))
      → IsEach (IsDefinition js) o
      → embedded_of js (or_undefined definition_value o) ≡ some o
  embedded_of-value none h = refl
  embedded_of-value (some d) h = rw (parse_definition-value js d h) refl

  nullable_coordinates :
      (o : Option TableCoordinates)
      → IsEach (λ c. are_distinct c ≡ true) o
      → nullable {N = N} read_coordinates (or_null coordinates_value o) ≡ some o
  nullable_coordinates =
      nullable-written read_coordinates coordinates_value (λ c. are_distinct c ≡ true)
        (read_coordinates-value N) (λ c. refl)

  or_null-defined :
      (o : Option TableCoordinates) → is_undefined {N = N} (or_null coordinates_value o) ≡ false
  or_null-defined none = refl
  or_null-defined (some c) = refl

  module _ (integer : ℤ → N) (one_is_one : js.equal (js.literal 1) (js.literal 1) ≡ true)
      (integer_law : (z : ℤ) → IsSafeInteger z → js.integer_of (integer z) ≡ some z) where
    view_value-IsRead :
        (s : ViewState N) (r : Maps N)
        → IsView js s
        → HasSafeIndices s
        → is_refused js s.custom_color_map s.color_map r ≡ false
        → IsRead js (view_value js integer s) r s
    view_value-IsRead s r i safe accepted = record {
      object = refl;
      version = rw one_is_one refl;
      representation = representation_named-name s.representation;
      color_map = refl;
      embedded = embedded_of-value s.custom_color_map i.embedded;
      accepted = accepted;
      opacity = number_within-number js 0 1 s.opacity i.opacity;
      legend = refl;
      style =
          optional-written (read_style js) style_value (λ a. is_style js a ≡ true)
            (read_style-value js) (λ a. refl) s.display_style i.style;
      color_by =
          nullable-written read_selection selection_value (λ a. Unit {0})
            (λ a u. read_selection-value N a) (λ a. refl) s.color_by (IsEach-Unit s.color_by);
      range =
          nullable-written (read_range js) range_value (λ a. is_range js a ≡ true)
            (read_range-value js) (λ a. refl) s.color_range i.range;
      camera =
          nullable-written (read_camera js) camera_value (λ a. is_camera js a ≡ true)
            (read_camera-value js) (λ a. refl) s.camera i.camera;
      coordinates =
          optional-written (nullable read_coordinates) (or_null coordinates_value)
            (IsEach (λ c. are_distinct c ≡ true)) nullable_coordinates or_null-defined
            s.table_coordinates i.coordinates;
      mode =
          optional-written (named image_mode_named) (λ m. text (image_mode_name m)) (λ a. Unit {0})
            (λ a u. image_mode_named-name a) (λ a. refl) s.image_mode (IsEach-Unit s.image_mode);
      axis =
          optional-written (named slice_axis_named) (λ a. text (slice_axis_name a)) (λ a. Unit {0})
            (λ a u. slice_axis_named-name a) (λ a. refl) s.slice_axis (IsEach-Unit s.slice_axis);
      index =
          optional-written (integer_in js) (λ z. number (integer z)) IsSafeInteger integer_law
            (λ a. refl) s.slice_index safe.slice_index;
      timestep =
          optional-written (timestep_in js) (λ n. number (integer (pos n)))
            (λ n. IsSafeInteger (pos n)) (λ a u. rw (integer_law (pos a) u) refl) (λ a. refl)
            s.timestep_index safe.timestep_index;
      points =
          optional-written (read_opacity_points js)
            (λ ps. array (as_values (map opacity_point_value ps)))
            (λ a. are_opacity_points js a ≡ true) (read_opacity_points-value js) (λ a. refl)
            s.volume_opacity_points i.points;
    }

    register_embedded-Registers :
        (o : Option (CustomColorMap N)) (s : ViewState N) (r : Maps N) {r' : Maps N}
        → IsEach (IsDefinition js) o
        → Registers o r r'
        → register_embedded js o s r ≡ ok (some (r', some s))
    register_embedded-Registers none s r i h = rw h refl
    register_embedded-Registers (some d) s r i h =
        rw (register_custom-IsDefinition js d r i, h) refl

    -- A valid view is read back from its object as it was, where its color map is known or brings
    -- its definition, which no registered map contradicts and the registry takes; the registry is
    -- then the one after that registration. `1 === 1` holds, the indices of the view are safe
    -- integers, and of those the number is one.
    pub parse_view_state-view_value :
        (s : ViewState N) (r : Maps N) {r' : Maps N}
        → IsView js s
        → HasSafeIndices s
        → is_refused js s.custom_color_map s.color_map r ≡ false
        → Registers s.custom_color_map r r'
        → parse_view_state js (view_value js integer s) r ≡ ok (some (r', some s))
    unfolding parse_view_state
    parse_view_state-view_value s r i safe accepted registers =
        ap (λ o. restore_fields js o r)
          (IsRead-read_fields js (view_value js integer s) r s
            (view_value-IsRead s r i safe accepted))
        ∙ register_embedded-Registers s.custom_color_map s r i.embedded registers
