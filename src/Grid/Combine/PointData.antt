-- ===== src/Grid/Combine/PointData.antt =====
-- Lemmas on the point arrays of `combinePieces`, frontend/src/lib/structuredGrid.ts.
use Prim.Native.String.{String}
use my_paraview_web.Common.{
  ℕ, ◌+◌, ◌*◌, ◌≡◌, inl, inr, some_injective, refl, sym, subst, ap, true, Option, none, some, List,
  [], ◌∷◌, ◌++◌, map, length, replicate, write_at-filled, concat_map, all, All, All-weaken,
  All-filter, length-append, append_assoc, arith, Option-cases, Bool-cases, ==_iff,
}
use mathlib.Core.Bool.{and-eq-true_iff}
use my_paraview_web.Common.Eq.{◌===◌, String_eq, beq_refl}
use my_paraview_web.Common.Result.{ok}
use my_paraview_web.Grid.Arrays.{SurfaceArray, get_array}
use my_paraview_web.Grid.Arrays.Points.{IsSized}
use my_paraview_web.Grid.Combine.{
  PieceSurface, components_in, total_of, components_of, same_components, compatible_array_names,
  components_or_one, first_components, concat_values, merge_point_arrays,
}
use my_paraview_web.Grid.Combine.Laws.{total_points}

same_components-eq : (a : Option ℕ) (n : ℕ) → same_components a (some n) ≡ true → a ≡ some n
same_components-eq none n h = cc
same_components-eq (some a) n h = ground arith

module _ {V : Type 0} where
  -- The piece has the array `name`, with `n` values for each of its points.
  abbrev pub HasArray : String → ℕ → PieceSurface V → Type 0
  HasArray name n p =
      (a : SurfaceArray V) × (get_array p.point_arrays name ≡ some a)
      × (length a.values ≡ p.number_of_points * n)

  abbrev pub values_or_none : Option (SurfaceArray V) → List V
  values_or_none none = []
  values_or_none (some a) = a.values

  abbrev pub array_values : String → PieceSurface V → List V
  array_values name p = values_or_none (get_array p.point_arrays name)

  concat_values_lem :
      (name : String) (n : ℕ) (zero_value : V) (filled : List V) (offset : ℕ)
      (ps : List (PieceSurface V))
      → All (HasArray name n) ps
      → offset ≡ length filled
      → concat_values name (filled ++ replicate (total_points ps * n) zero_value) offset ps
        ≡ ok (filled ++ concat_map (array_values name) ps)
  unfolding concat_values total_of
  concat_values_lem name n z filled offset [] h e = let empty : 0 * n ≡ 0 = omega arith in rw empty
  concat_values_lem name n z filled offset (p ∷ ps) ((a, found, sized), h) e =
      let rest = total_points ps * n in
      let split : (p.number_of_points + total_points ps) * n ≡ p.number_of_points * n + rest =
        omega arith in
      let longer : offset + length a.values ≡ length (filled ++ a.values) =
        omega (arith, length-append filled a.values) in
      rw
        (
          split,
          found,
          write_at-filled filled a.values offset (p.number_of_points * n + rest) rest z e
              (omega arith),
        )
        (simp (← append_assoc) (concat_values_lem name n z (filled ++ a.values) _ ps h longer))

  find-IsSized :
      (m : List (SurfaceArray V)) (name : String) (tuples : ℕ) {a : SurfaceArray V}
      → All (IsSized tuples) m
      → get_array m name ≡ some a
      → IsSized tuples a
  find-IsSized [] name tuples h e = cc
  find-IsSized (b ∷ m) name tuples (p, h) e = elim (Bool-cases (b.name === name)) [
    | inl here ↦ let same = rw here at e in let q = some_injective same in rw q at p
    | inr later ↦ find-IsSized m name tuples h (rw later at e)
  ]

  -- `all` over the pieces, read piece by piece.
  HasArray-of_same :
      (name : String) (n : ℕ) (ps : List (PieceSurface V))
      → All (λ (p : PieceSurface V). All (IsSized p.number_of_points) p.point_arrays) ps
      → all
          (λ (p : PieceSurface V). same_components (components_of p.point_arrays name) (some n))
          ps
        ≡ true
      → All (HasArray name n) ps
  HasArray-of_same name n [] h e = tt
  HasArray-of_same name n (p ∷ ps) (h, hs) e = elim (Option-cases (get_array p.point_arrays name)) [
    | inl missing ↦ let bad = rw missing at e in cc
    | inr (a, found) ↦
        let (here, later) = (and-eq-true_iff _ _).0 (rw found at e) in
        let sized = find-IsSized p.point_arrays name p.number_of_points h found in
        let same : a.components ≡ n = (==_iff _ _).0 here in
        ((a, found, rw same at sized.sized), HasArray-of_same name n ps hs later)
  ]

  abbrev Found : List (SurfaceArray V) → String → Type 0
  Found m name = (a : SurfaceArray V) × (get_array m name ≡ some a)

  Found-cons :
      (b : SurfaceArray V) (m : List (SurfaceArray V)) (name : String)
      → Found m name
      → Found (b ∷ m) name
  Found-cons b m name (a, found) = elim (Bool-cases (b.name === name)) [
    | inl here ↦ (b, rw here)
    | inr later ↦ (a, rw later found)
  ]

  names-Found : (m : List (SurfaceArray V)) → All (Found m) (map (λ a. a.name) m)
  names-Found [] = tt
  names-Found (b ∷ m) = (
    (b, rw (beq_refl b.name)),
    All-weaken (Found m) _ (λ name h. Found-cons b m name h) (names-Found m),
  )

  abbrev AllSame : String → Option ℕ → List (PieceSurface V) → Type 0
  AllSame name c ps =
      all (λ (p : PieceSurface V). same_components (components_of p.point_arrays name) c) ps ≡ true

  -- Every name that is kept names an array of each piece, of the same components in all.
  pub compatible-HasArray :
      (ps : List (PieceSurface V))
      → All (λ (p : PieceSurface V). All (IsSized p.number_of_points) p.point_arrays) ps
      → All
          (λ name. All (HasArray name (first_components (λ p. p.point_arrays) ps name)) ps)
          (compatible_array_names (λ p. p.point_arrays) ps)
  unfolding compatible_array_names
  compatible-HasArray [] h = tt
  compatible-HasArray (p ∷ ps) h =
      All-weaken _ _
        (λ name ((a, found), same).
          let first : components_of p.point_arrays name ≡ some a.components =
            ap components_in found in
          subst (λ (n : ℕ). All (HasArray name n) (p ∷ ps)) (sym (ap components_or_one first))
            (HasArray-of_same name a.components (p ∷ ps) h
              (subst (λ (c : Option ℕ). AllSame name c (p ∷ ps)) first same)))
        (All-filter _ _ _ (names-Found p.point_arrays))

  -- The array `name` of all pieces, one after another.
  abbrev pub merged_array : List (PieceSurface V) → String → SurfaceArray V
  merged_array ps name = record {
    name = name;
    components = first_components (λ p. p.point_arrays) ps name;
    values = concat_map (array_values name) ps;
  }

  pub merge_point_arrays_lem :
      (z : V) (ps : List (PieceSurface V)) (names : List String)
      → All (λ name. All (HasArray name (first_components (λ p. p.point_arrays) ps name)) ps) names
      → merge_point_arrays z (total_points ps) ps names ≡ ok (map (merged_array ps) names)
  unfolding merge_point_arrays
  merge_point_arrays_lem z ps [] h = refl
  merge_point_arrays_lem z ps (name ∷ names) (h, hs) = rw (
    concat_values_lem name (first_components (λ p. p.point_arrays) ps name) z [] 0 ps h refl,
    merge_point_arrays_lem z ps names hs,
  )
