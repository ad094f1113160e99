-- ===== src/VtkXml/Typed.antt =====
-- bytesToTyped of frontend/src/lib/vtkXml.ts, on a platform whose typed arrays are little-endian. The
-- numbers of the browser are of a type `N`, of which the conversions are parameters.
pub mod Laws
use my_paraview_web.Common.{
  ℕ, zero, suc, ◌+◌, ◌-◌, ◌*◌, ◌/◌, ◌%◌, Bool, true, false, not, Option, none, some, List, [], ◌∷◌,
  map, length, take, drop, ltb, ◌==◌, if◌then◌else◌,
}
use my_paraview_web.Common.Eq.{Text, codes, ◌===◌, Units_eq}
use my_paraview_web.Common.Int.{ℤ, pos, negsuc}
use my_paraview_web.Common.Result.{Result, ok, err, ◌>>=◌, ◌>>◌, throw_if}
use my_paraview_web.VtkXml.Bytes.{VtkError, unsupported_type, misaligned, le_value, capacity}

-- `VTK_TYPE_BYTES`
pub data DataType : Type 0 where
  int8_type uint8_type int16_type uint16_type int32_type uint32_type : DataType
  int64_type uint64_type float32_type float64_type : DataType

abbrev pub byte_width : DataType → ℕ
byte_width int8_type = 1
byte_width uint8_type = 1
byte_width int16_type = 2
byte_width uint16_type = 2
byte_width int32_type = 4
byte_width uint32_type = 4
byte_width int64_type = 8
byte_width uint64_type = 8
byte_width float32_type = 4
byte_width float64_type = 8

unfoldable pub type_named : Text → Option DataType
type_named t =
    if t === codes "Int8"
    then some int8_type
    else if t === codes "UInt8"
    then some uint8_type
    else if t === codes "Int16"
    then some int16_type
    else if t === codes "UInt16"
    then some uint16_type
    else if t === codes "Int32"
    then some int32_type
    else if t === codes "UInt32"
    then some uint32_type
    else if t === codes "Int64"
    then some int64_type
    else if t === codes "UInt64"
    then some uint64_type
    else if t === codes "Float32"
    then some float32_type
    else if t === codes "Float64"
    then some float64_type
    else none

-- The numbers of an integer, rounded where need be, and of the bytes of a float.
pub record Conversions (N : Type 0) : Type 0 where
  pub of_integer : ℤ → N
  pub of_float32 : List ℕ → N
  pub of_float64 : List ℕ → N

-- two's complement
abbrev pub signed : ℕ → ℕ → ℤ
signed w n = if ltb (n + n) (capacity w) then pos n else negsuc (capacity w - n - 1)

-- the elements of a view on a buffer, from one on
pub elements_from : ℕ → List ℕ → ℕ → ℕ → List (List ℕ)
elements_from w bytes zero start = []
elements_from w bytes (suc n) start =
    take w (drop (start * w) bytes) ∷ elements_from w bytes n (start + 1)

module _ {N : Type 0} (c : Conversions N) where
  abbrev pub typed_value : DataType → List ℕ → N
  typed_value int8_type bs = c.of_integer (signed 1 (le_value bs))
  typed_value uint8_type bs = c.of_integer (pos (le_value bs))
  typed_value int16_type bs = c.of_integer (signed 2 (le_value bs))
  typed_value uint16_type bs = c.of_integer (pos (le_value bs))
  typed_value int32_type bs = c.of_integer (signed 4 (le_value bs))
  typed_value uint32_type bs = c.of_integer (pos (le_value bs))
  typed_value int64_type bs = c.of_integer (signed 8 (le_value bs))
  typed_value uint64_type bs = c.of_integer (pos (le_value bs))
  typed_value float32_type bs = c.of_float32 bs
  typed_value float64_type bs = c.of_float64 bs

  abbrev pub typed_of : Option DataType → List ℕ → Result VtkError (List N)
  typed_of none bytes = err unsupported_type
  typed_of (some type) bytes = do
    throw_if (not (length bytes % byte_width type == 0)) misaligned
    ok (
        map (typed_value type)
          (elements_from (byte_width type) bytes (length bytes / byte_width type) 0))

  -- `bytesToTyped`, with the values as `Float64Array.from` takes them
  unfoldable pub bytes_to_typed : List ℕ → Text → Result VtkError (List N)
  unfolding elements_from type_named
  bytes_to_typed bytes type = typed_of (type_named type) bytes
