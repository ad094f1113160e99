-- ===== src/Grid/Connectivity.antt =====
-- `appendConnectivity` of frontend/src/lib/structuredGrid.ts.
-- The cursor is the list of the values that are not read yet. The loop takes fuel, one for each
-- round, and `append_connectivity` gives it one more than there are values.
pub mod Laws
use my_paraview_web.Common.{
  ℕ, zero, suc, ◌+◌, ◌≤◌, ◌≡◌, Bool, ◌||◌, not, List, [], ◌∷◌, ◌++◌, map, ltb, leb, if◌then◌else◌,
  length, take, drop,
}
use my_paraview_web.Grid.Extent.{max_safe_integer}

pub data Appended : Type 0 where
  done : List ℕ → Appended
  invalid : Appended
  out_of_fuel : Appended

pub append_from : ℕ → List ℕ → List ℕ → ℕ → Appended
append_from zero target rest offset = out_of_fuel
append_from (suc fuel) target [] offset = done target
append_from (suc fuel) target (size ∷ rest) offset =
    let next =
      append_from fuel (target ++ (size ∷ map (λ id. id + offset) (take size rest)))
        (drop size rest) offset in
    if not (leb size max_safe_integer) || ltb size 1 || leb (suc (length rest)) size
    then invalid
    else next

unfoldable pub append_connectivity : List ℕ → List ℕ → ℕ → Appended
unfolding append_from
append_connectivity target source offset = append_from (length source + 1) target source offset
