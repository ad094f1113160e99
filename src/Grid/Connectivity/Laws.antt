-- ===== src/Grid/Connectivity/Laws.antt =====
-- Theorems on `appendConnectivity` of frontend/src/lib/structuredGrid.ts.
use my_paraview_web.Common.{
  ℕ, zero, suc, ◌+◌, ◌≤◌, ◌<◌, ◌≡◌, ◌≢◌, refl, sym, ap, List, [], ◌∷◌, ◌++◌, map, length, take,
  drop, All, concat_map, arith, append_assoc, append-nil, length-append, length-drop, length-map,
}
use my_paraview_web.Grid.Extent.{max_safe_integer}
use my_paraview_web.Grid.Connectivity.{done, out_of_fuel, append_from, append_connectivity}

append_from_ends :
    (fuel : ℕ) (target rest : List ℕ) (offset : ℕ)
    → length rest < fuel
    → append_from fuel target rest offset ≢ out_of_fuel
unfolding append_from
append_from_ends zero target rest offset h = absurd (omega arith)
append_from_ends (suc fuel) target [] offset h = cc
append_from_ends (suc fuel) target (size ∷ rest) offset h = ground (
  arith,
  append_from_ends fuel (target ++ (size ∷ map (λ id. id + offset) (take size rest)))
      (drop size rest) offset,
  length-drop size rest,
)

-- Whatever array is given, the loop ends: with a result, or with the error.
pub append_connectivity_ends :
    (target source : List ℕ) (offset : ℕ) → append_connectivity target source offset ≢ out_of_fuel
unfolding append_connectivity
append_connectivity_ends target source offset =
    append_from_ends (length source + 1) target source offset (omega arith)

-- The array of a list of cells: each cell's size, then its ids.
abbrev pub cell_array : List (List ℕ) → List ℕ
cell_array = concat_map (λ ids. length ids ∷ ids)

abbrev pub IsCellIds : List ℕ → Type 0
IsCellIds ids = (0 < length ids) × (length ids ≤ max_safe_integer)

abbrev pub shift : ℕ → List ℕ → List ℕ
shift offset = map (λ id. id + offset)

take-length-append : (xs ys : List ℕ) → take (length xs) (xs ++ ys) ≡ xs
take-length-append [] ys = refl
take-length-append (x ∷ xs) ys = ap (x ∷◌) (take-length-append xs ys)

drop-length-append : (xs ys : List ℕ) → drop (length xs) (xs ++ ys) ≡ ys
drop-length-append [] ys = refl
drop-length-append (x ∷ xs) ys = drop-length-append xs ys

append_from-cell_array :
    (fuel : ℕ) (target : List ℕ) (cells : List (List ℕ)) (offset : ℕ)
    → All IsCellIds cells
    → length (cell_array cells) < fuel
    → append_from fuel target (cell_array cells) offset
      ≡ done (target ++ cell_array (map (shift offset) cells))
unfolding append_from
append_from-cell_array zero target cells offset h k = absurd (omega arith)
append_from-cell_array (suc fuel) target [] offset h k = ap done (sym (append-nil target))
append_from-cell_array (suc fuel) target (ids ∷ cells) offset (h, hs) k =
    let rest = cell_array cells in
    let longer = target ++ (length ids ∷ shift offset ids) in
    ground (
      arith,
      length-append ids rest,
      take-length-append ids rest,
      drop-length-append ids rest,
      append_from-cell_array fuel longer cells offset hs,
      length-map (λ id. id + offset) ids,
      append_assoc target (length ids ∷ shift offset ids) (cell_array (map (shift offset) cells)),
    )

-- Onto what is there already, the array of a list of cells, none of them empty, is appended with
-- the offset added to each id and to no size.
pub append_connectivity-cell_array :
    (target : List ℕ) (cells : List (List ℕ)) (offset : ℕ)
    → All IsCellIds cells
    → append_connectivity target (cell_array cells) offset
      ≡ done (target ++ cell_array (map (shift offset) cells))
unfolding append_connectivity
append_connectivity-cell_array target cells offset h =
    append_from-cell_array (length (cell_array cells) + 1) target cells offset h (omega arith)
