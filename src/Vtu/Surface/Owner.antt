-- ===== src/Vtu/Surface/Owner.antt =====
-- pieceForCell: the piece that a cell of the file stands in.
use my_paraview_web.Common.{
  ℕ, zero, suc, ◌+◌, ◌≤◌, ◌<◌, some, List, [], ◌∷◌, leb, leb→le, le→leb, ◌≡◌, refl, sym, ap, length,
  get_elem?, take, Bool-cases, inl, inr, arith,
}
use my_paraview_web.Vtu.Surface.{starts_from, piece_below, piece_for_cell}

abbrev pub sum : List ℕ → ℕ
sum [] = 0
sum (x ∷ xs) = x + sum xs

-- The piece at an index, where it starts and how many cells it has.
abbrev pub Holds : List ℕ → ℕ → ℕ → Type 0
Holds counts global index =
    (start : ℕ) × (count : ℕ) × (get_elem? (starts_from 0 counts) index ≡ some start)
    × (get_elem? counts index ≡ some count)
    × (start ≤ global)
    × (global < start + count)

-- A piece starts where the ones in front of it end.
starts_from_lem :
    (counts : List ℕ) (first n : ℕ)
    → n < length counts
    → (count : ℕ) × (get_elem? counts n ≡ some count)
      × (get_elem? (starts_from first counts) n ≡ some (first + sum (take n counts)))
      × (sum (take (suc n) counts) ≡ sum (take n counts) + count)
unfolding starts_from
starts_from_lem [] first n h = absurd (omega arith)
starts_from_lem (c ∷ cs) first zero h =
    let same : first ≡ first + 0 = omega arith in (c, refl, rw (← same) refl, omega arith)
starts_from_lem (c ∷ cs) first (suc n) h =
    let (count, there, start, total) = starts_from_lem cs (first + c) n (omega arith) in
    let same : first + c + sum (take n cs) ≡ first + (c + sum (take n cs)) = omega arith in
    (count, there, rw same at start, omega arith)

length-starts_from :
    (counts : List ℕ) (first : ℕ) → length (starts_from first counts) ≡ length counts
unfolding starts_from
length-starts_from [] first = refl
length-starts_from (c ∷ cs) first = ap suc (length-starts_from cs (first + c))

piece_below-Holds :
    (counts : List ℕ) (global n : ℕ)
    → n ≤ length counts
    → global < sum (take n counts)
    → Holds counts global (piece_below (starts_from 0 counts) global n)
unfolding piece_below
piece_below-Holds counts global zero h k = absurd (omega arith)
piece_below-Holds counts global (suc n) h k =
    let (count, there, start, total) = starts_from_lem counts 0 n (omega arith) in
    elim (Bool-cases (leb (0 + sum (take n counts)) global)) [
      | inl t ↦
          let below = leb→le (0 + sum (take n counts)) global t in
          rw (start, t) (0 + sum (take n counts), count, start, there, below, omega arith)
      | inr f ↦
          let above : global < sum (take n counts) =
            let w = le→leb (0 + sum (take n counts)) global in ground arith in
          rw (start, f) (piece_below-Holds counts global n (omega arith) above)
    ]

take-length : (xs : List ℕ) → take (length xs) xs ≡ xs
take-length [] = refl
take-length (x ∷ xs) = ap (x ∷◌) (take-length xs)

-- For a cell of the file `piece_for_cell` gives a piece, and the cell is one of that piece: its number
-- is not smaller than the piece's first and smaller than that number plus the piece's cells.
pub piece_for_cell-Holds :
    (counts : List ℕ) (global : ℕ)
    → global < sum counts
    → Holds counts global (piece_for_cell (starts_from 0 counts) global)
unfolding piece_for_cell
piece_for_cell-Holds counts global h =
    let all : sum counts ≡ sum (take (length counts) counts) = ap sum (sym (take-length counts)) in
    rw (length-starts_from counts 0)
      (piece_below-Holds counts global (length counts) (omega arith) (omega arith))
