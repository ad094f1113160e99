-- ===== src/View/Parser/Available/Readers.antt =====
-- What the parts of a view that the readers of frontend/src/lib/viewState.ts return satisfy.
use mathlib.Core.Bool.{and-eq-true_iff}
use my_paraview_web.Common.{
  not_eq_false, ℕ, suc, ◌≡◌, refl, ap, subst, true, not, ◌&&◌, ◌||◌, Option, none, some, List, [],
  ◌∷◌, length, leb, ltb, all, arith, some_injective,
}
use my_paraview_web.Json.{
  Value, undefined, null, boolean, number, text, array, object, JsNumbers, property, is_object,
  number_of, text_of, array_of, boolean_of,
}
use my_paraview_web.Json.Steps.{◌>>=◌, each, >>=-eq-some, refuse_if-passed}
use my_paraview_web.Display.Snapshot.{
  DisplayStyle, CameraState, TableCoordinates, VolumeOpacityPoint,
}
use my_paraview_web.View.Fields.{
  optional, nullable, is_color, are_distinct, in_unit, color_of, finite_of, number_within,
  read_style, read_range, read_vector, read_camera, read_coordinates, read_opacity_point,
  read_opacity_points, pair_of, triple_of, finite_items,
}
use my_paraview_web.View.Parser.Source.{
  is_within, is_style, is_range, is_vector, is_camera, are_opacity_points, IsEach,
}

wrapped-IsEach {ℓ} :
    {A : Type ℓ} (P : A → Type 0) (m : Option A) (o : Option A)
    → ((a : A) → m ≡ some a → P a)
    → (m >>= λ a. some (some a)) ≡ some o
    → IsEach P o
wrapped-IsEach P none o h e = cc
wrapped-IsEach P (some a) o h e = subst (IsEach P) (some_injective e) (h a refl)

module _ {ℓ} {N : Type 0} {A : Type ℓ} (read : Value N → Option A) (P : A → Type 0)
    (valid : (v : Value N) (a : A) → read v ≡ some a → P a) where
  pub optional-IsEach : (v : Value N) (o : Option A) → optional read v ≡ some o → IsEach P o
  optional-IsEach undefined o e = subst (IsEach P) (some_injective e) tt
  optional-IsEach null o e = wrapped-IsEach P (read null) o (valid null) e
  optional-IsEach (boolean b) o e = wrapped-IsEach P _ o (valid (boolean b)) e
  optional-IsEach (number n) o e = wrapped-IsEach P _ o (valid (number n)) e
  optional-IsEach (text t) o e = wrapped-IsEach P _ o (valid (text t)) e
  optional-IsEach (array vs) o e = wrapped-IsEach P _ o (valid (array vs)) e
  optional-IsEach (object m) o e = wrapped-IsEach P _ o (valid (object m)) e

  pub nullable-IsEach : (v : Value N) (o : Option A) → nullable read v ≡ some o → IsEach P o
  nullable-IsEach null o e = subst (IsEach P) (some_injective e) tt
  nullable-IsEach undefined o e = wrapped-IsEach P _ o (valid undefined) e
  nullable-IsEach (boolean b) o e = wrapped-IsEach P _ o (valid (boolean b)) e
  nullable-IsEach (number n) o e = wrapped-IsEach P _ o (valid (number n)) e
  nullable-IsEach (text t) o e = wrapped-IsEach P _ o (valid (text t)) e
  nullable-IsEach (array vs) o e = wrapped-IsEach P _ o (valid (array vs)) e
  nullable-IsEach (object m) o e = wrapped-IsEach P _ o (valid (object m)) e

pub read_coordinates-distinct :
    (N : Type 0) (v : Value N) (c : TableCoordinates)
    → read_coordinates v ≡ some c
    → are_distinct c ≡ true
read_coordinates-distinct N v c h =
    let (_, h1) = refuse_if-passed (not (is_object v)) _ h in
    let (x, _, h2) = >>=-eq-some (text_of (property v "x")) _ h1 in
    let (y, _, h3) = >>=-eq-some (text_of (property v "y")) _ h2 in
    let (z, _, h4) = >>=-eq-some (text_of (property v "z")) _ h3 in
    let (distinct, h5) =
      refuse_if-passed (not (are_distinct (record { x = x; y = y; z = z }))) _ h4 in
    subst (λ k. are_distinct k ≡ true) (some_injective h5) (not_eq_false _ distinct)

module _ {N : Type 0} (js : JsNumbers N) where
  finite_of-finite : (v : Value N) (n : N) → finite_of js v ≡ some n → js.is_finite n ≡ true
  finite_of-finite v n h =
      let (m, _, h1) = >>=-eq-some (number_of v) _ h in
      let (finite, h2) = refuse_if-passed (not (js.is_finite m)) _ h1 in
      subst (λ k. js.is_finite k ≡ true) (some_injective h2) (not_eq_false _ finite)

  pub number_within-within :
      (low high : ℕ) (v : Value N) (n : N)
      → number_within js low high v ≡ some n
      → is_within js low high n ≡ true
  number_within-within low high v n h =
      let (m, finite, h1) = >>=-eq-some (finite_of js v) _ h in
      let (inside, h2) =
        refuse_if-passed (js.less m (js.literal low) || js.less (js.literal high) m) _ h1 in
      subst (λ k. is_within js low high k ≡ true) (some_injective h2)
        (rw (finite_of-finite v m finite, inside) refl)

  color_of-color : (v : Value N) (t : List ℕ) → color_of js v ≡ some t → is_color t ≡ true
  color_of-color v t h =
      let (u, _, h1) = >>=-eq-some (text_of v) _ h in
      let (good, h2) = refuse_if-passed (not (is_color u)) _ h1 in
      subst (λ k. is_color k ≡ true) (some_injective h2) (not_eq_false _ good)

  pub read_style-style :
      (v : Value N) (s : DisplayStyle N) → read_style js v ≡ some s → is_style js s ≡ true
  read_style-style v s h =
      let (_, h1) = refuse_if-passed (not (is_object v)) _ h in
      let (solid, solid_color, h2) = >>=-eq-some (color_of js (property v "solid_color")) _ h1 in
      let (edge, edge_color, h3) = >>=-eq-some (color_of js (property v "edge_color")) _ h2 in
      let (size, point_size, h4) =
        >>=-eq-some (number_within js 1 30 (property v "point_size")) _ h3 in
      let (width, line_width, h5) =
        >>=-eq-some (number_within js 1 10 (property v "line_width")) _ h4 in
      subst (λ k. is_style js k ≡ true) (some_injective h5)
        (rw
          (
            color_of-color (property v "solid_color") solid solid_color,
            color_of-color (property v "edge_color") edge edge_color,
            number_within-within 1 30 (property v "point_size") size point_size,
            number_within-within 1 10 (property v "line_width") width line_width,
          )
          refl)

  each_finite :
      (vs : List (Value N)) (ns : List N)
      → each (finite_of js) vs ≡ some ns
      → all js.is_finite ns ≡ true
  each_finite [] ns h = subst (λ k. all js.is_finite k ≡ true) (some_injective h) refl
  each_finite (v ∷ vs) ns h =
      let (m, first, h1) = >>=-eq-some (finite_of js v) _ h in
      let (ms, rest, h2) = >>=-eq-some (each (finite_of js) vs) _ h1 in
      subst (λ k. all js.is_finite k ≡ true) (some_injective h2)
        (rw (finite_of-finite v m first, each_finite vs ms rest) refl)

  items_finite :
      (v : Value N) (ns : List N) → finite_items js v ≡ some ns → all js.is_finite ns ≡ true
  items_finite v ns h = let (vs, _, read) = >>=-eq-some (array_of v) _ h in each_finite vs ns read

  pair_finite :
      (ns : List N) (r : N × N)
      → all js.is_finite ns ≡ true
      → pair_of ns ≡ some r
      → (js.is_finite r.0 && js.is_finite r.1) ≡ true
  pair_finite [] r h e = cc
  pair_finite (a ∷ []) r h e = cc
  pair_finite (a ∷ b ∷ []) r h e =
      let (first, rest) = (and-eq-true_iff (js.is_finite a) _).0 h in
      let (second, _) = (and-eq-true_iff (js.is_finite b) _).0 rest in
      subst (λ (k : N × N). (js.is_finite k.0 && js.is_finite k.1) ≡ true) (some_injective e)
        (rw (first, second) refl)
  pair_finite (a ∷ b ∷ c ∷ ns) r h e = cc

  triple_finite :
      (ns : List N) (t : N × N × N)
      → all js.is_finite ns ≡ true
      → triple_of ns ≡ some t
      → is_vector js t ≡ true
  triple_finite [] t h e = cc
  triple_finite (a ∷ []) t h e = cc
  triple_finite (a ∷ b ∷ []) t h e = cc
  triple_finite (a ∷ b ∷ c ∷ []) t h e =
      let (first, rest) = (and-eq-true_iff (js.is_finite a) _).0 h in
      let (second, last) = (and-eq-true_iff (js.is_finite b) _).0 rest in
      let (third, _) = (and-eq-true_iff (js.is_finite c) _).0 last in
      subst (λ (k : N × N × N). is_vector js k ≡ true) (some_injective e)
        (rw (first, second, third) refl)
  triple_finite (a ∷ b ∷ c ∷ d ∷ ns) t h e = cc

  read_vector-vector :
      (v : Value N) (t : N × N × N) → read_vector js v ≡ some t → is_vector js t ≡ true
  read_vector-vector v t h =
      let (ns, finite, triple) = >>=-eq-some (finite_items js v) _ h in
      triple_finite ns t (items_finite v ns finite) triple

  pub read_range-range : (v : Value N) (r : N × N) → read_range js v ≡ some r → is_range js r ≡ true
  read_range-range v r h =
      let (ns, finite, h1) = >>=-eq-some (finite_items js v) _ h in
      let (q, pair, h2) = >>=-eq-some (pair_of ns) _ h1 in
      let (order, h3) = refuse_if-passed (js.at_most q.1 q.0) _ h2 in
      subst (λ (k : N × N). is_range js k ≡ true) (some_injective h3)
        (rw (pair_finite ns q (items_finite v ns finite) pair, order) refl)

  pub read_camera-camera :
      (v : Value N) (c : CameraState N) → read_camera js v ≡ some c → is_camera js c ≡ true
  read_camera-camera v c h =
      let (_, h1) = refuse_if-passed (not (is_object v)) _ h in
      let (position, p, h2) = >>=-eq-some (read_vector js (property v "position")) _ h1 in
      let (focal, f, h3) = >>=-eq-some (read_vector js (property v "focal_point")) _ h2 in
      let (up, u, h4) = >>=-eq-some (read_vector js (property v "view_up")) _ h3 in
      let (scale, s, h5) = >>=-eq-some (finite_of js (property v "parallel_scale")) _ h4 in
      let (positive, h6) = refuse_if-passed (js.at_most scale (js.literal 0)) _ h5 in
      let (parallel, _, h7) =
        >>=-eq-some (optional boolean_of (property v "parallel_projection")) _ h6 in
      subst (λ k. is_camera js k ≡ true) (some_injective h7)
        (rw
          (
            read_vector-vector (property v "position") position p,
            read_vector-vector (property v "focal_point") focal f,
            read_vector-vector (property v "view_up") up u,
            finite_of-finite (property v "parallel_scale") scale s,
            positive,
          )
          refl)

  read_opacity_point-in_unit :
      (v : Value N) (p : VolumeOpacityPoint N)
      → read_opacity_point js v ≡ some p
      → (in_unit js p.value && in_unit js p.alpha) ≡ true
  read_opacity_point-in_unit v p h =
      let (_, h1) = refuse_if-passed (not (is_object v)) _ h in
      let (value, _, h2) = >>=-eq-some (number_of (property v "value")) _ h1 in
      let (alpha, _, h3) = >>=-eq-some (number_of (property v "alpha")) _ h2 in
      let (inside, h4) = refuse_if-passed (not (in_unit js value && in_unit js alpha)) _ h3 in
      subst (λ k. (in_unit js k.value && in_unit js k.alpha) ≡ true) (some_injective h4)
        (not_eq_false _ inside)

  each-in_unit :
      (vs : List (Value N)) (ps : List (VolumeOpacityPoint N))
      → each (read_opacity_point js) vs ≡ some ps
      → (length ps ≡ length vs) × (all (λ p. in_unit js p.value && in_unit js p.alpha) ps ≡ true)
  each-in_unit [] ps h =
      subst
        (λ (k : List (VolumeOpacityPoint N)).
          (length k ≡ 0) × (all (λ p. in_unit js p.value && in_unit js p.alpha) k ≡ true))
        (some_injective h) (refl, refl)
  each-in_unit (v ∷ vs) ps h =
      let (q, first, h1) = >>=-eq-some (read_opacity_point js v) _ h in
      let (qs, rest, h2) = >>=-eq-some (each (read_opacity_point js) vs) _ h1 in
      let (same, inside) = each-in_unit vs qs rest in
      subst
        (λ (k : List (VolumeOpacityPoint N)).
          (length k ≡ suc (length vs))
          × (all (λ p. in_unit js p.value && in_unit js p.alpha) k ≡ true))
        (some_injective h2) (ap suc same, rw (read_opacity_point-in_unit v q first, inside) refl)

  pub read_opacity_points-valid :
      (v : Value N) (ps : List (VolumeOpacityPoint N))
      → read_opacity_points js v ≡ some ps
      → are_opacity_points js ps ≡ true
  read_opacity_points-valid v ps h =
      let (vs, _, h1) = >>=-eq-some (array_of v) _ h in
      let (count, h2) = refuse_if-passed (ltb (length vs) 2 || ltb 4 (length vs)) _ h1 in
      let (same, inside) = each-in_unit vs ps h2 in
      let fits : (leb 2 (length ps) && leb (length ps) 4) ≡ true = rw same (ground arith) in
      rw (fits, inside) refl
