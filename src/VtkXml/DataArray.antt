-- ===== src/VtkXml/DataArray.antt =====
-- readVtkDataArray and decodeInline of frontend/src/lib/vtkXml.ts. The decoding of base64, `atob`, is
-- a parameter, with `none` where it throws, and so is what Number makes of a text.
pub mod Laws
use my_paraview_web.Common.{
  ℕ, zero, suc, ◌+◌, ◌-◌, ◌*◌, ◌/◌, Bool, true, false, not, ◌||◌, Option, none, some, List, [], ◌∷◌,
  ◌++◌, map, filter, is_empty, length, take, drop, leb, if◌then◌else◌,
}
use my_paraview_web.Common.Eq.{Text, codes, ◌===◌, Units_eq}
use my_paraview_web.Common.Int.{ℤ, pos, negsuc}
use my_paraview_web.Common.Result.{Result, ok, err, ◌>>=◌, ◌>>◌, throw_if}
use my_paraview_web.Csv.Points.{is_space}
use my_paraview_web.Grid.Extent.{JsNumber, integer, other, is_safe_integer}
use my_paraview_web.VtkXml.Bytes.{
  HeaderType, header_bytes, VtkError, empty_array, bad_base64, no_appended_data, bad_offset,
  unsupported_format, read_header_ints,
}
use my_paraview_web.VtkXml.Block.{element_or_zero, or_throw, decode_block}
use my_paraview_web.VtkXml.Typed.{Conversions, bytes_to_typed}
use my_paraview_web.VtkXml.Document.{Context, text_or}

-- The attributes and the text of a DataArray element.
pub record DataElement : Type 0 where
  pub data_type : Option Text
  pub format : Option Text
  pub offset : Option Text
  pub content : Text

-- `.trim().split(/\s+/).filter(Boolean)`: `word` is the word that has begun
abbrev pub with_word : Text → List Text → List Text
with_word [] words = words
with_word (c ∷ cs) words = (c ∷ cs) ∷ words

pub words_from : Text → Text → List Text
words_from word [] = with_word word []
words_from word (c ∷ cs) =
    let behind = words_from [] cs in
    let longer = words_from (word ++ c ∷ []) cs in
    if is_space c then with_word word behind else longer

-- `4 * Math.ceil(bytes / 3)`
abbrev pub base64_chars : ℕ → ℕ
base64_chars bytes = 4 * ((bytes + 2) / 3)

-- An offset that is a safe integer, not negative and inside of the data
abbrev pub valid_offset : JsNumber → List ℕ → Option ℕ
valid_offset other appended = none
valid_offset (integer (negsuc n)) appended = none
valid_offset (integer (pos n)) appended =
    if not (is_safe_integer (integer (pos n))) || leb (length appended) n then none else some n

module _ (number_of_big : ℕ → ℕ) (inflate : List ℕ → Option (List ℕ))
    (atob : Text → Option (List ℕ)) where
  -- `base64ToBytes`, which takes white space out first
  abbrev pub base64_to_bytes : Text → Result VtkError (List ℕ)
  base64_to_bytes t = or_throw bad_base64 (atob (filter (λ c. not (is_space c)) t))

  pub inline_compressed : Text → HeaderType → Result VtkError (List ℕ)
  inline_compressed cleaned ht = do
    start ← base64_to_bytes (take (base64_chars (header_bytes ht)) cleaned)
    first ← read_header_ints number_of_big ht start 1
    let chars = base64_chars (header_bytes ht * (3 + element_or_zero first 0))
    header ← base64_to_bytes (take chars cleaned)
    payload ← base64_to_bytes (drop chars cleaned)
    decode_block number_of_big inflate ht true (header ++ payload)

  abbrev pub inline_of : Text → HeaderType → Bool → Result VtkError (List ℕ)
  inline_of cleaned ht true = inline_compressed cleaned ht
  inline_of cleaned ht false =
      base64_to_bytes cleaned >>= λ bytes. decode_block number_of_big inflate ht false bytes

  -- `decodeInline`
  unfoldable pub decode_inline : Text → HeaderType → Bool → Result VtkError (List ℕ)
  unfolding inline_compressed
  decode_inline t ht compressed = do
    let cleaned = filter (λ c. not (is_space c)) t
    throw_if (is_empty cleaned) empty_array
    inline_of cleaned ht compressed

  abbrev pub appended_at : Option ℕ → List ℕ → Context → Result VtkError (List ℕ)
  appended_at none appended context = err bad_offset
  appended_at (some n) appended context =
      decode_block number_of_big inflate context.header_type context.compressed (drop n appended)

  abbrev pub appended_bytes : Option (List ℕ) → JsNumber → Context → Result VtkError (List ℕ)
  appended_bytes none offset context = err no_appended_data
  appended_bytes (some appended) offset context =
      appended_at (valid_offset offset appended) appended context

  module _ (number_of : Text → JsNumber) where
    -- The bytes of an array that is not ASCII.
    unfoldable pub array_bytes : DataElement → Context → Text → Result VtkError (List ℕ)
    unfolding decode_inline
    array_bytes e context format =
        if format === codes "binary"
        then decode_inline e.content context.header_type context.compressed
        else if format === codes "appended"
        then appended_bytes context.appended (number_of (text_or e.offset (codes "0"))) context
        else err unsupported_format

    -- `readVtkDataArray`
    unfoldable pub read_vtk_data_array :
        {N : Type 0}
        → (c : Conversions N) → (number_of_word : Text → N) → DataElement
        → Context
        → Result VtkError (List N)
    unfolding array_bytes words_from
    read_vtk_data_array c number_of_word e context =
        let format = text_or e.format (codes "ascii") in
        if format === codes "ascii"
        then ok (map number_of_word (words_from [] e.content))
        else (array_bytes e context format >>= λ raw.
            bytes_to_typed c raw (text_or e.data_type (codes "Float64")))
