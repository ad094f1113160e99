-- ===== src/Vtu/Surface/Attributes.antt =====
-- The cell arrays of the surface: which source values they hold.
use my_paraview_web.Common.{
  ℕ, zero, suc, ◌+◌, ◌-◌, ◌*◌, ◌≤◌, ◌<◌, Option, none, some, List, [], ◌∷◌, ◌++◌, ◌≡◌, refl, sym,
  ap, length, get_elem?, get_or, for_from, length-append, length-for_from, get_elem?-loop,
  get_elem?-append_left, get_elem?-append_right, some_injective, All, arith,
}
use my_paraview_web.Common.Eq.{Text}
use my_paraview_web.Vtu.Surface.{
  CellData, array_in, starts_from, piece_for_cell, tuple_of, cell_tuple, cell_values, joined,
}
use my_paraview_web.Vtu.Surface.Owner.{sum, piece_for_cell-Holds}

module _ {V : Type 0} where
  -- `value` is the one `c` after `n` times the number of the cell `global` in its own piece, in the
  -- array of that piece.
  abbrev pub IsSourceValue : V → List (CellData V) → List ℕ → Text → ℕ → ℕ → ℕ → Option V → Type 0
  IsSourceValue not_a_number per_piece counts name n global c value =
      (index : ℕ) × (start : ℕ) × (count : ℕ) × (source : List V) × (get_elem?
          (starts_from 0 counts) index
        ≡ some start)
      × (get_elem? counts index ≡ some count)
      × (start ≤ global)
      × (global < start + count)
      × (array_in (get_elem? per_piece index) name ≡ some source)
      × (value ≡ some (get_or source ((global - start) * n + c) not_a_number))

  -- A property of component `c` of the tuple of each item of a list, in tuples of `n` values.
  abbrev pub Tuples : (ℕ → ℕ → Option V → Type 0) → ℕ → List ℕ → List V → Type 0
  Tuples P n items values =
      (i item c k : ℕ)
      → get_elem? items i ≡ some item
      → c < n
      → k ≡ i * n + c
      → P item c (get_elem? values k)

  Tuples-cons :
      (P : ℕ → ℕ → Option V → Type 0) (n item : ℕ) (items : List ℕ) (a b : List V)
      → length a ≡ n
      → ((c : ℕ) → c < n → P item c (get_elem? a c))
      → Tuples P n items b
      → Tuples P n (item ∷ items) (a ++ b)
  Tuples-cons P n item items a b width now later zero other c k e h q =
      let same : other ≡ item = cc in
      let place : k ≡ c = omega arith in
      rw (same, place, get_elem?-append_left a b c (omega arith)) (now c h)
  Tuples-cons P n item items a b width now later (suc i) other c k e h q =
      rw (get_elem?-append_right a b k (i * n + c) (omega arith)) (later i other c _ e h refl)

  joined_lem :
      (first rest : Option (List V)) {values : List V}
      → joined first rest ≡ some values
      → (a : List V) × (b : List V) × (first ≡ some a) × (rest ≡ some b) × (values ≡ a ++ b)
  joined_lem (some a) (some b) h = (a, b, refl, refl, sym (some_injective h))
  joined_lem (some a) none h = cc
  joined_lem none (some b) h = cc
  joined_lem none none h = cc

  module _ (not_a_number : V) where
    tuple_of_lem :
        (n local : ℕ) (o : Option (List V)) {tuple : List V}
        → tuple_of not_a_number n local o ≡ some tuple
        → (source : List V) × (o ≡ some source)
          × (tuple ≡ for_from n 0 (λ c. get_or source (local * n + c) not_a_number ∷ []))
    tuple_of_lem n local none h = cc
    tuple_of_lem n local (some source) h = (source, refl, sym (some_injective h))

    length-tuple :
        (n local : ℕ) (source : List V)
        → length (for_from n 0 (λ c. get_or source (local * n + c) not_a_number ∷ [])) ≡ n
    length-tuple n local source =
        let l =
          length-for_from n 0 1 (λ c. get_or source (local * n + c) not_a_number ∷ [])
            (λ i. omega arith) in
        omega arith

    get_elem?-tuple :
        (n local c : ℕ) (source : List V)
        → c < n
        → get_elem? (for_from n 0 (λ c. get_or source (local * n + c) not_a_number ∷ [])) c
          ≡ some (get_or source (local * n + c) not_a_number)
    get_elem?-tuple n local c source h =
        get_elem?-loop n 1 (λ c. get_or source (local * n + c) not_a_number ∷ []) (λ i. omega arith)
          c c 0 (omega arith) h (omega arith)

    tuple_value :
        (per_piece : List (CellData V)) (counts : List ℕ) (name : Text) (n global : ℕ)
        {tuple : List V}
        → global < sum counts
        → cell_tuple not_a_number per_piece (starts_from 0 counts) name n global ≡ some tuple
        → (length tuple ≡ n)
          × ((c : ℕ)
              → c < n
              → IsSourceValue not_a_number per_piece counts name n global c (get_elem? tuple c))
    tuple_value per_piece counts name n global inside e =
        let (start, count, first, size, low, high) = piece_for_cell-Holds counts global inside in
        let index = piece_for_cell (starts_from 0 counts) global in
        let (source, there, tuple_eq) =
          tuple_of_lem n (global - start) (array_in (get_elem? per_piece index) name)
            (rw first at e) in
        rw tuple_eq (
          length-tuple n (global - start) source,
          λ c h. (
            index,
            start,
            count,
            source,
            first,
            size,
            low,
            high,
            there,
            get_elem?-tuple n (global - start) c source h,
          ),
        )

    -- In a cell array that is kept, with `n` components, value `c` for an emitted cell is the one `c`
    -- after `n` times the cell's number in its own piece, in the array of that piece; the array has
    -- `n` values for each emitted cell. The emitted cells are cells of the file.
    pub cell_values-IsSourceValue :
        (per_piece : List (CellData V)) (counts : List ℕ) (name : Text) (n : ℕ) (emitted : List ℕ)
        {values : List V}
        → All (λ global. global < sum counts) emitted
        → cell_values not_a_number per_piece (starts_from 0 counts) name n emitted ≡ some values
        → (length values ≡ length emitted * n)
          × Tuples (IsSourceValue not_a_number per_piece counts name n) n emitted values
    unfolding cell_values
    cell_values-IsSourceValue per_piece counts name n [] inside h =
        let none_left = ap length (some_injective h) in
        (let e = sym none_left in omega arith, λ i global c k e. cc)
    cell_values-IsSourceValue per_piece counts name n (g ∷ gs) {values} (here, inside) h =
        let (a, b, first, rest, both) =
          joined_lem (cell_tuple not_a_number per_piece (starts_from 0 counts) name n g)
            (cell_values not_a_number per_piece (starts_from 0 counts) name n gs) h in
        let (size, later) = cell_values-IsSourceValue per_piece counts name n gs inside rest in
        let (width, now) = tuple_value per_piece counts name n g here first in
        rw both (
          omega (arith, length-append a b, size, width),
          Tuples-cons (IsSourceValue not_a_number per_piece counts name n) n g gs a b width now
              later,
        )
