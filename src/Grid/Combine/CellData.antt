-- ===== src/Grid/Combine/CellData.antt =====
-- Theorems on the cell arrays of `combinePieces`, frontend/src/lib/structuredGrid.ts.
use Prim.Native.String.{String}
use my_paraview_web.Common.{
  ℕ, zero, suc, ◌+◌, ◌*◌, ◌<◌, ◌≡◌, refl, some_injective, sym, ◌∙◌, Option, none, some, List, [],
  ◌∷◌, length, length-replicate, get_elem?, get_or, get_elem?-loop, get_elem?-get_or,
  get_elem?-append_left, get_elem?-append_right, length-append, length-for_from, arith,
}
use my_paraview_web.Grid.Combine.{
  PieceSurface, EmittedCell, cell_source, copy_tuple, cell_tuple, cell_values,
}

module _ {V : Type 0} (zero_value nan : V) where
  length-copy_tuple :
      (n start : ℕ) (source : Option (List V))
      → length (copy_tuple zero_value nan n start source) ≡ n
  length-copy_tuple n start none = length-replicate n zero_value
  length-copy_tuple n start (some source) =
      omega (arith, length-for_from n 0 1 (λ c. get_or source (start + c) nan ∷ []) (λ c. refl))

  get_elem?-copy_tuple :
      (n start c : ℕ) (source : List V)
      → c < n
      → start + c < length source
      → get_elem? (copy_tuple zero_value nan n start (some source)) c ≡ get_elem? source (start + c)
  get_elem?-copy_tuple n start c source p q =
      get_elem?-loop n 1 _ (λ c. refl) c c 0 (omega arith) p (omega arith)
      ∙ sym (get_elem?-get_or source (start + c) nan q)

  module _ (ps : List (PieceSurface V)) (name : String) (n : ℕ) where
    pub length-cell_values :
        (es : List EmittedCell) → length (cell_values zero_value nan ps name n es) ≡ length es * n
    unfolding cell_values
    length-cell_values [] = omega arith
    length-cell_values (e ∷ es) = omega (
      arith,
      length-append (cell_tuple zero_value nan ps name n e)
          (cell_values zero_value nan ps name n es),
      length-copy_tuple n (e.cell * n) (cell_source ps name e.piece_index),
      length-cell_values es,
    )

    -- Component `c` of the tuple of the emitted cell number `o`, in the merged cell array, is that
    -- component of the source cell, in the array of the piece that the cell comes from.
    pub get_elem?-cell_values :
        (es : List EmittedCell) (o c : ℕ) {e : EmittedCell} {source : List V}
        → get_elem? es o ≡ some e
        → cell_source ps name e.piece_index ≡ some source
        → c < n
        → e.cell * n + c < length source
        → get_elem? (cell_values zero_value nan ps name n es) (o * n + c)
          ≡ get_elem? source (e.cell * n + c)
    unfolding cell_values
    get_elem?-cell_values [] o c h f p q = cc
    get_elem?-cell_values (e ∷ es) zero c {e = e'} {source} h f p q =
        let same : e' ≡ e = sym (some_injective h) in
        let found = rw same at f in
        let first : 0 * n + c ≡ c = omega arith in
        let here : length (copy_tuple zero_value nan n (e.cell * n) (some source)) ≡ n =
          length-copy_tuple n (e.cell * n) (some source) in
        rw (first, same, found)
          (get_elem?-append_left (copy_tuple zero_value nan n (e.cell * n) (some source)) _ c
              (omega arith)
            ∙ get_elem?-copy_tuple n (e.cell * n) c source p (rw same at q))
    get_elem?-cell_values (e ∷ es) (suc o) c h f p q =
        get_elem?-append_right (cell_tuple zero_value nan ps name n e) _ _ (o * n + c)
          (omega (arith, length-copy_tuple n (e.cell * n) (cell_source ps name e.piece_index)))
        ∙ get_elem?-cell_values es o c h f p q
