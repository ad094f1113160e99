-- ===== src/VtkXml/Bytes.antt =====
-- Little-endian integers and the header of a block, frontend/src/lib/vtkXml.ts.
pub mod Laws
use my_paraview_web.Common.{
  ℕ, zero, suc, ◌+◌, ◌-◌, ◌*◌, ◌/◌, ◌%◌, ◌<◌, ◌≤◌, ◌≡◌, refl, sym, ap, ◌∙◌, Bool, true, false,
  Option, none, some, List, [], ◌∷◌, ◌++◌, length, length-append, take, drop, ltb, arith, All,
  concat_map, take-append_left, drop-append_left, if◌then◌else◌, append_assoc,
}
use my_paraview_web.Common.Result.{Result, ok, err, ◌>>=◌, ◌>>◌, throw_if}

pub data HeaderType : Type 0 where
  uint32 uint64 : HeaderType

pub data VtkError : Type 0 where
  truncated_header truncated_payload bad_block_count truncated_compressed not_inflated : VtkError
  out_of_range empty_array bad_base64 unsupported_type misaligned no_appended_data : VtkError
  bad_offset unsupported_format base64_appended malformed_appended malformed_document : VtkError
  wrong_type big_endian unsupported_compressor unsupported_header_type : VtkError

-- `VTK_TYPE_BYTES[headerType]`
abbrev pub header_bytes : HeaderType → ℕ
header_bytes uint32 = 4
header_bytes uint64 = 8

-- The integer of bytes of which the first is the lowest.
abbrev pub le_value : List ℕ → ℕ
le_value [] = 0
le_value (b ∷ bs) = b + 256 * le_value bs

-- `Number(big)` of a header value of eight bytes
abbrev pub header_value : HeaderType → (ℕ → ℕ) → ℕ → ℕ
header_value uint32 number_of_big n = n
header_value uint64 number_of_big n = number_of_big n

module _ (number_of_big : ℕ → ℕ) where
  abbrev pub header_int : HeaderType → List ℕ → ℕ → ℕ
  header_int ht bytes index =
      header_value ht number_of_big
        (le_value (take (header_bytes ht) (drop (index * header_bytes ht) bytes)))

  -- `for (let index = start; index < start + n; index += 1) values.push(…)`
  pub header_ints_from : HeaderType → List ℕ → ℕ → ℕ → List ℕ
  header_ints_from ht bytes zero start = []
  header_ints_from ht bytes (suc n) start =
      header_int ht bytes start ∷ header_ints_from ht bytes n (start + 1)

  unfoldable pub read_header_ints : HeaderType → List ℕ → ℕ → Result VtkError (List ℕ)
  unfolding header_ints_from
  read_header_ints ht bytes count = do
    throw_if (ltb (length bytes) (count * header_bytes ht)) truncated_header
    ok (header_ints_from ht bytes count 0)

-- The bytes of an integer, and the number of integers of that many bytes.
unfoldable pub le_bytes : ℕ → ℕ → List ℕ
le_bytes zero n = []
le_bytes (suc w) n = n % 256 ∷ le_bytes w (n / 256)

abbrev pub capacity : ℕ → ℕ
capacity zero = 1
capacity (suc w) = 256 * capacity w

pub length-le_bytes : (w n : ℕ) → length (le_bytes w n) ≡ w
unfolding le_bytes
length-le_bytes zero n = refl
length-le_bytes (suc w) n = ap suc (length-le_bytes w (n / 256))

pub le_value-le_bytes : (w n : ℕ) → n < capacity w → le_value (le_bytes w n) ≡ n
unfolding le_bytes
le_value-le_bytes zero n h = omega arith
le_value-le_bytes (suc w) n h =
    let rest = le_value-le_bytes w (n / 256) (omega arith) in omega arith
