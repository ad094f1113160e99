-- ===== src/Vtu/Surface/Components.antt =====
-- The number of components of the cell arrays of the surface: which piece declares it.
use my_paraview_web.Common.{
  ℕ, zero, suc, ◌<◌, ◌≡◌, refl, subst, Bool, true, false, ◌||◌, Option, none, some, List, [], ◌∷◌,
  ◌++◌, any, get_elem?, if◌then◌else◌, All, All-append, All-weaken, either, arith, some_injective,
}
use my_paraview_web.Common.Eq.{Text, ◌===◌, Units_eq, contains, same_units_refl}
use my_paraview_web.Common.Result.{ok, >>=-eq-ok, ok-injective}
use my_paraview_web.Vtu.Surface.Listed.{is_there}
use my_paraview_web.Common.Dict.{dict_get, dict_set, dict_get-dict_set}
use my_paraview_web.Vtu.Cells.{cells_from, emit_piece}
use my_paraview_web.Vtu.Surface.{
  Attribute, CellData, Parsing, PieceElement, read, points_of, read_cells, topology_of,
  read_point_data, read_cell_data, no_cell_data, parse_piece, parse_pieces, add_name, add_names,
  cell_array_names, components_or, components_of,
}

is_there-if :
    {A : Type 0} (b : Bool) (a : A) (o : Option A)
    → is_there o ≡ true
    → is_there (if b then some a else o) ≡ true
is_there-if true a o h = refl
is_there-if false a o h = h

is_there_at :
    {A : Type 0} (b : Bool) (a : A) (o : Option A)
    → b ≡ true
    → is_there (if b then some a else o) ≡ true
is_there_at true a o h = refl
is_there_at false a o h = cc

or_true : (b : Bool) (b' : Bool) → b' ≡ true → (b || b') ≡ true
or_true true b' h = refl
or_true false b' h = h

or_first : (b b' : Bool) → b ≡ true → (b || b') ≡ true
or_first true b' h = refl
or_first false b' h = cc

module _ {V : Type 0} where
  -- `piece.components.has(name)`
  abbrev declares : Text → CellData V → Bool
  declares name d = is_there (dict_get d.components name)

  -- The first piece that declares an array gives it this number of components.
  abbrev pub IsDeclared : List (CellData V) → Text → ℕ → Type 0
  IsDeclared per_piece name n =
      (index : ℕ) × (d : CellData V) × (get_elem? per_piece index ≡ some d)
      × (dict_get d.components name ≡ some n)
      × ((j : ℕ) (e : CellData V)
          → j < index
          → get_elem? per_piece j ≡ some e
          → dict_get e.components name ≡ none)

  IsDeclared-cons :
      (d : CellData V) (rest : List (CellData V)) (name : Text) (o : Option ℕ)
      → dict_get d.components name ≡ o
      → (is_there o || any (declares name) rest) ≡ true
      → (any (declares name) rest ≡ true → IsDeclared rest name (components_of rest name))
      → IsDeclared (d ∷ rest) name (components_or o (components_of rest name))
  IsDeclared-cons d rest name (some n) e h later =
      (0, d, refl, e, λ j f lt there. absurd (omega arith))
  IsDeclared-cons d rest name none e h later =
      let (index, f, there, size, before) = later h in
      (suc index, f, there, size, earlier index before)
    where
      earlier :
          (index : ℕ)
          → ((j : ℕ) (f : CellData V)
              → j < index
              → get_elem? rest j ≡ some f
              → dict_get f.components name ≡ none)
          → (j : ℕ) (f : CellData V) → j < suc index
          → get_elem? (d ∷ rest) j ≡ some f
          → dict_get f.components name ≡ none
      earlier index before zero f lt there =
          subst (λ (x : CellData V). dict_get x.components name ≡ none) (some_injective there) e
      earlier index before (suc j) f lt there = before j f (omega arith) there

  pub components_of-IsDeclared :
      (per_piece : List (CellData V)) (name : Text)
      → any (declares name) per_piece ≡ true
      → IsDeclared per_piece name (components_of per_piece name)
  unfolding components_of
  components_of-IsDeclared [] name h = cc
  components_of-IsDeclared (d ∷ rest) name h =
      IsDeclared-cons d rest name (dict_get d.components name) refl h
        (components_of-IsDeclared rest name)

  -- Every array of a piece has its number of components.
  abbrev pub IsComplete : CellData V → Type 0
  IsComplete d = All (λ entry. declares entry.0 d ≡ true) d.arrays

  All-dict_set :
      (P : Text × List V → Type 0) (entries : List (Text × List V)) (name : Text) (values : List V)
      → ((key : Text) (old new : List V) → P (key, old) → P (key, new))
      → P (name, values)
      → All P entries
      → All P (dict_set entries name values)
  All-dict_set P [] name values same new h = (new, tt)
  All-dict_set P ((key, old) ∷ rest) name values same new (p, h) =
      either (All P) (key === name) ((key, values) ∷ rest) ((key, old) ∷ dict_set rest name values)
        (λ e. (same key old values p, h)) (λ e. (p, All-dict_set P rest name values same new h))

  read_cell_data-IsComplete :
      (attributes : List (Attribute V)) (d : CellData V) {out : CellData V}
      → IsComplete d
      → read_cell_data d attributes ≡ ok out
      → IsComplete out
  unfolding read_cell_data
  read_cell_data-IsComplete [] d inv h = subst IsComplete (ok-injective h) inv
  read_cell_data-IsComplete (a ∷ rest) d inv h =
      let (values, _, later) = >>=-eq-ok (read a.values) _ h in
      let components = dict_set d.components a.name a.components in
      let known : (name : Text)
          → is_there (dict_get d.components name) ≡ true
          → is_there (dict_get components name) ≡ true =
        λ name there.
          rw (dict_get-dict_set d.components a.name a.components name)
            (is_there-if (a.name === name) a.components _ there) in
      let new : is_there (dict_get components a.name) ≡ true =
        rw (dict_get-dict_set d.components a.name a.components a.name)
          (is_there_at (a.name === a.name) a.components _ (same_units_refl a.name)) in
      read_cell_data-IsComplete rest
        (record { arrays = dict_set d.arrays a.name values; components = components })
        (All-dict_set (λ entry. is_there (dict_get components entry.0) ≡ true) d.arrays a.name
          values (λ key old fresh p. p) new
          (All-weaken (λ entry. declares entry.0 d ≡ true) d.arrays (λ entry p. known entry.0 p)
            inv))
        later

  parse_piece-IsComplete :
      (s : Parsing V) (piece : PieceElement V) {next : Parsing V}
      → All IsComplete s.cell_data
      → parse_piece s piece ≡ ok next
      → All IsComplete next.cell_data
  unfolding parse_piece
  parse_piece-IsComplete s piece inv h =
      let (points, _, h1) = >>=-eq-ok (points_of piece.points) _ h in
      let (arrays, _, h3) = >>=-eq-ok (read_cells [] piece.cells) _ h1 in
      let (topology, _, h5) = >>=-eq-ok (topology_of arrays) _ h3 in
      let (point_arrays, _, h7) =
        >>=-eq-ok (read_point_data s.point_arrays piece.point_data) _ h5 in
      let (cell_data, h8, h9) = >>=-eq-ok (read_cell_data no_cell_data piece.cell_data) _ h7 in
      let (emitted, _, h11) =
        >>=-eq-ok
          (emit_piece s.emitted
            (cells_from topology.0 topology.1 s.point_offset s.total_cells 0 (some 0) topology.2))
          _ h9 in
      subst (λ (x : Parsing V). All IsComplete x.cell_data) (ok-injective h11)
        (All-append IsComplete s.cell_data (cell_data ∷ []) inv
          (read_cell_data-IsComplete piece.cell_data no_cell_data tt h8, tt))

  pub parse_pieces-IsComplete :
      (pieces : List (PieceElement V)) (s : Parsing V) {out : Parsing V}
      → All IsComplete s.cell_data
      → parse_pieces s pieces ≡ ok out
      → All IsComplete out.cell_data
  unfolding parse_pieces
  parse_pieces-IsComplete [] s inv h =
      subst (λ (x : Parsing V). All IsComplete x.cell_data) (ok-injective h) inv
  parse_pieces-IsComplete (piece ∷ rest) s inv h =
      let (next, one, later) = >>=-eq-ok (parse_piece s piece) _ h in
      parse_pieces-IsComplete rest next (parse_piece-IsComplete s piece inv one) later

  add_names-All :
      (P : Text → Type 0) (names : List Text) (entries : List (Text × List V))
      → All P names
      → All (λ entry. P entry.0) entries
      → All P (add_names names entries)
  unfolding add_names
  add_names-All P names [] h k = h
  add_names-All P names ((name, values) ∷ rest) h (p, k) =
      add_names-All P (add_name names name) rest
        (either (All P) (contains names name) names (names ++ name ∷ []) (λ e. h)
          (λ e. All-append P names (name ∷ []) h (p, tt)))
        k

  cell_array_names-All :
      (P : Text → Type 0) (names : List Text) (per_piece : List (CellData V))
      → All P names
      → All (λ (d : CellData V). All (λ entry. P entry.0) d.arrays) per_piece
      → All P (cell_array_names names per_piece)
  unfolding cell_array_names
  cell_array_names-All P names [] h k = h
  cell_array_names-All P names (d ∷ rest) h (p, k) =
      cell_array_names-All P (add_names names d.arrays) rest (add_names-All P names d.arrays h p) k

  all_declared :
      (per_piece : List (CellData V))
      → All IsComplete per_piece
      → All
          (λ (d : CellData V). All (λ entry. any (declares entry.0) per_piece ≡ true) d.arrays)
          per_piece
  all_declared [] h = tt
  all_declared (d ∷ rest) (p, h) = (
    All-weaken (λ entry. declares entry.0 d ≡ true) d.arrays
        (λ entry q. or_first (declares entry.0 d) (any (declares entry.0) rest) q) p,
    All-weaken (λ (e : CellData V). All (λ entry. any (declares entry.0) rest ≡ true) e.arrays) rest
        (λ e k.
          All-weaken (λ entry. any (declares entry.0) rest ≡ true) e.arrays
            (λ entry q. or_true (declares entry.0 d) (any (declares entry.0) rest) q) k)
        (all_declared rest h),
  )

  -- Of complete pieces every array that is listed has the number of components that the first piece
  -- with it declares.
  pub cell_array_names-IsDeclared :
      (per_piece : List (CellData V))
      → All IsComplete per_piece
      → All
          (λ name. IsDeclared per_piece name (components_of per_piece name))
          (cell_array_names [] per_piece)
  cell_array_names-IsDeclared per_piece h =
      All-weaken (λ name. any (declares name) per_piece ≡ true) (cell_array_names [] per_piece)
        (λ name q. components_of-IsDeclared per_piece name q)
        (cell_array_names-All (λ name. any (declares name) per_piece ≡ true) [] per_piece tt
          (all_declared per_piece h))
