-- ===== src/VtkXml/Typed/Laws.antt =====
-- Integers are read back from their bytes by bytesToTyped of frontend/src/lib/vtkXml.ts.
use my_paraview_web.Common.{
  ℕ, zero, suc, ◌+◌, ◌-◌, ◌*◌, ◌/◌, ◌%◌, ◌<◌, ◌≤◌, ◌≡◌, refl, sym, ap, ◌∙◌, subst, true, false,
  some, List, [], ◌∷◌, ◌++◌, map, length, length-append, ltb, ◌==◌, arith, All, concat_map,
  take-append_left, drop-append_left,
}
use my_paraview_web.Common.Eq.{Text}
use my_paraview_web.Common.Int.{ℤ, pos, negsuc}
use my_paraview_web.Common.Result.{ok}
use my_paraview_web.VtkXml.Bytes.{le_value, le_bytes, capacity, length-le_bytes, le_value-le_bytes}
use my_paraview_web.VtkXml.Typed.{
  DataType, int8_type, uint8_type, int16_type, uint16_type, int32_type, uint32_type, int64_type,
  uint64_type, float32_type, float64_type, byte_width, type_named, Conversions, signed,
  elements_from, typed_value, typed_of, bytes_to_typed,
}

abbrev pub concat_bytes : List (List ℕ) → List ℕ
concat_bytes bs = concat_map (λ b. b) bs

elements-later :
    (w : ℕ) (b rest : List ℕ) (n i : ℕ)
    → length b ≡ w
    → elements_from w (b ++ rest) n (i + 1) ≡ elements_from w rest n i
unfolding elements_from
elements-later w b rest zero i h = refl
elements-later w b rest (suc n) i h =
    rw
      (
        drop-append_left b rest ((i + 1) * w) (i * w)
            (subst (λ k. (i + 1) * k ≡ length b + i * k) h (omega arith)),
        elements-later w b rest n (i + 1) h,
      )
      refl

-- The elements of a buffer that is filled with elements are these.
elements-concat :
    (w : ℕ) (bs : List (List ℕ))
    → All (λ b. length b ≡ w) bs
    → elements_from w (concat_bytes bs) (length bs) 0 ≡ bs
unfolding elements_from
elements-concat w [] h = refl
elements-concat w (b ∷ bs) (e, h) =
    let start : 0 * w ≡ 0 = omega arith in
    rw
      (
        start,
        take-append_left b (concat_bytes bs) w (sym e),
        elements-later w b (concat_bytes bs) (length bs) 0 e,
        elements-concat w bs h,
      )
      refl

length-concat_bytes :
    (w : ℕ) (bs : List (List ℕ))
    → All (λ b. length b ≡ w) bs
    → length (concat_bytes bs) ≡ length bs * w
length-concat_bytes w [] h = omega arith
length-concat_bytes w (b ∷ bs) (e, h) =
    omega (arith, length-append b (concat_bytes bs), length-concat_bytes w bs h)

-- The bits of an integer, and the integers that the elements of a type hold.
abbrev pub bits : ℕ → ℤ → ℕ
bits w (pos n) = n
bits w (negsuc n) = capacity w - n - 1

abbrev pub FitsSigned : ℕ → ℤ → Type 0
FitsSigned w (pos n) = n + n < capacity w
FitsSigned w (negsuc n) = n + n + 2 ≤ capacity w

abbrev pub FitsUnsigned : ℕ → ℤ → Type 0
FitsUnsigned w (pos n) = n < capacity w
FitsUnsigned w (negsuc n) = ⊥

abbrev pub IsValue : DataType → ℤ → Type 0
IsValue int8_type z = FitsSigned 1 z
IsValue uint8_type z = FitsUnsigned 1 z
IsValue int16_type z = FitsSigned 2 z
IsValue uint16_type z = FitsUnsigned 2 z
IsValue int32_type z = FitsSigned 4 z
IsValue uint32_type z = FitsUnsigned 4 z
IsValue int64_type z = FitsSigned 8 z
IsValue uint64_type z = FitsUnsigned 8 z
IsValue float32_type z = ⊥
IsValue float64_type z = ⊥

abbrev pub value_bytes : DataType → ℤ → List ℕ
value_bytes type z = le_bytes (byte_width type) (bits (byte_width type) z)

signed-bits : (w : ℕ) (z : ℤ) → FitsSigned w z → signed w (le_value (le_bytes w (bits w z))) ≡ z
signed-bits w (pos n) h =
    let small : ltb (n + n) (capacity w) ≡ true = ground arith in
    rw (le_value-le_bytes w n (omega arith), small) refl
signed-bits w (negsuc n) h =
    let m = capacity w - n - 1 in
    let large : ltb (m + m) (capacity w) ≡ false = ground arith in
    let back : capacity w - m - 1 ≡ n = omega arith in
    rw (le_value-le_bytes w m (omega arith), large, back) refl

unsigned-bits : (w : ℕ) (z : ℤ) → FitsUnsigned w z → pos (le_value (le_bytes w (bits w z))) ≡ z
unsigned-bits w (pos n) h = ap pos (le_value-le_bytes w n h)
unsigned-bits w (negsuc n) h = absurd h

-- A number of bytes that is so many times the width of an element
width-divides :
    (type : DataType) (n m : ℕ)
    → m ≡ n * byte_width type
    → ((m % byte_width type == 0) ≡ true) × (m / byte_width type ≡ n)
width-divides int8_type n m h = (ground arith, omega arith)
width-divides uint8_type n m h = (ground arith, omega arith)
width-divides int16_type n m h = (ground arith, omega arith)
width-divides uint16_type n m h = (ground arith, omega arith)
width-divides int32_type n m h = (ground arith, omega arith)
width-divides uint32_type n m h = (ground arith, omega arith)
width-divides int64_type n m h = (ground arith, omega arith)
width-divides uint64_type n m h = (ground arith, omega arith)
width-divides float32_type n m h = (ground arith, omega arith)
width-divides float64_type n m h = (ground arith, omega arith)

module _ {N : Type 0} (c : Conversions N) where
  value-bytes :
      (type : DataType) (z : ℤ)
      → IsValue type z
      → typed_value c type (value_bytes type z) ≡ c.of_integer z
  value-bytes int8_type z h = ap c.of_integer (signed-bits 1 z h)
  value-bytes uint8_type z h = ap c.of_integer (unsigned-bits 1 z h)
  value-bytes int16_type z h = ap c.of_integer (signed-bits 2 z h)
  value-bytes uint16_type z h = ap c.of_integer (unsigned-bits 2 z h)
  value-bytes int32_type z h = ap c.of_integer (signed-bits 4 z h)
  value-bytes uint32_type z h = ap c.of_integer (unsigned-bits 4 z h)
  value-bytes int64_type z h = ap c.of_integer (signed-bits 8 z h)
  value-bytes uint64_type z h = ap c.of_integer (unsigned-bits 8 z h)
  value-bytes float32_type z h = absurd h
  value-bytes float64_type z h = absurd h

  values-bytes :
      (type : DataType) (zs : List ℤ)
      → All (IsValue type) zs
      → map (typed_value c type) (map (value_bytes type) zs) ≡ map c.of_integer zs
  values-bytes type [] h = refl
  values-bytes type (z ∷ zs) (p, h) = rw (value-bytes type z p, values-bytes type zs h) refl

  widths :
      (type : DataType) (zs : List ℤ)
      → All (λ b. length b ≡ byte_width type) (map (value_bytes type) zs)
  widths type [] = tt
  widths type (z ∷ zs) =
      (length-le_bytes (byte_width type) (bits (byte_width type) z), widths type zs)

  -- Integers of a type, each written as its bytes with the lowest first, are read back as they
  -- were, the signed ones in two's complement.
  pub bytes_to_typed-value_bytes :
      (name : Text) (type : DataType) (zs : List ℤ)
      → type_named name ≡ some type
      → All (IsValue type) zs
      → bytes_to_typed c (concat_bytes (map (value_bytes type) zs)) name ≡ ok (map c.of_integer zs)
  unfolding bytes_to_typed
  bytes_to_typed-value_bytes name type zs e h =
      let bs = map (value_bytes type) zs in
      let size = length-concat_bytes (byte_width type) bs (widths type zs) in
      let (aligned, count) = width-divides type (length bs) (length (concat_bytes bs)) size in
      let elements = elements-concat (byte_width type) bs (widths type zs) in
      ap (λ o. typed_of c o (concat_bytes bs)) e
      ∙ (rw (aligned, count, elements, values-bytes type zs h) refl)
