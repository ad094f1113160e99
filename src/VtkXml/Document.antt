-- ===== src/VtkXml/Document.antt =====
-- parseVtkXmlDocument of frontend/src/lib/vtkXml.ts, on bytes: the characters that it looks for are
-- ASCII, whose text is their bytes. The XML parser of the browser is a parameter, which gives the
-- document with the attributes of its VTKFile element.
pub mod Search
use Prim.Native.String.{String}
use my_paraview_web.Common.{
  ℕ, zero, suc, ◌+◌, Bool, true, false, not, ◌&&◌, ◌||◌, Option, none, some, List, [], ◌∷◌, ◌++◌,
  any, is_empty, take, drop, ◌==◌, if◌then◌else◌,
}
use my_paraview_web.Common.Eq.{Text, codes, ◌===◌, Units_eq}
use my_paraview_web.Common.Result.{Result, ok, err, ◌>>=◌, ◌>>◌, throw_if}
use my_paraview_web.VtkXml.Bytes.{
  HeaderType, uint32, uint64, VtkError, base64_appended, malformed_appended, malformed_document,
  wrong_type, big_endian, unsupported_compressor, unsupported_header_type,
}

pub starts_with : List ℕ → List ℕ → Bool
starts_with [] bytes = true
starts_with (t ∷ ts) [] = false
starts_with (t ∷ ts) (b ∷ bs) = b == t && starts_with ts bs

-- the loop of indexOfSequence, of which the bytes from `index` on are left
pub index_from : List ℕ → List ℕ → ℕ → Option ℕ
index_from target [] index = if starts_with target [] then some index else none
index_from target (b ∷ bs) index =
    let later = index_from target bs (index + 1) in
    if starts_with target (b ∷ bs) then some index else later

-- `indexOfSequence`, with `none` for -1
unfoldable pub index_of_sequence : List ℕ → List ℕ → ℕ → Option ℕ
unfolding index_from starts_with
index_of_sequence bytes target from = index_from target (drop from bytes) from

-- `[^"]+"` at the beginning
pub until_quote : List ℕ → Option (List ℕ)
until_quote [] = none
until_quote (c ∷ cs) =
    let rest = until_quote cs in
    if c == b'"' then some [] else elim rest [ none ↦ none | some value ↦ some (c ∷ value) ]

abbrev pub quoted : Option (List ℕ) → Option (List ℕ)
quoted none = none
quoted (some value) = if is_empty value then none else some value

abbrev pub or_later : Option (List ℕ) → Option (List ℕ) → Option (List ℕ)
or_later none later = later
or_later (some value) later = some value

-- `/encoding="([^"]+)"/.exec(window)?.[1]`
pub encoding_in : List ℕ → Option (List ℕ)
encoding_in [] = none
encoding_in (c ∷ cs) =
    let later = encoding_in cs in
    if starts_with (codes "encoding=\"") (c ∷ cs)
    then or_later (quoted (until_quote (drop 10 (c ∷ cs)))) later
    else later

-- `?? value`
abbrev pub text_or : Option Text → Text → Text
text_or none value = value
text_or (some t) value = t

-- The bytes of the XML text, and the appended data.
pub record Envelope : Type 0 where
  pub xml : List ℕ
  pub appended : Option (List ℕ)

abbrev pub after_underscore : ℕ → Option ℕ → List ℕ → Result VtkError Envelope
after_underscore tag none bytes = err malformed_appended
after_underscore tag (some underscore) bytes = ok (record {
  xml = take tag bytes ++ codes "</VTKFile>";
  appended = some (drop (underscore + 1) bytes);
})

abbrev pub split_at : Option ℕ → List ℕ → Result VtkError Envelope
split_at none bytes = ok (record { xml = bytes; appended = none })
split_at (some tag) bytes = do
  let encoding = text_or (encoding_in (take 200 (drop tag bytes))) (codes "raw")
  throw_if (not (encoding === codes "raw")) base64_appended
  after_underscore tag (index_of_sequence bytes (codes "_") tag) bytes

-- The first half of parseVtkXmlDocument.
unfoldable pub split_envelope : List ℕ → Result VtkError Envelope
unfolding index_of_sequence encoding_in until_quote starts_with
split_envelope bytes = split_at (index_of_sequence bytes (codes "<AppendedData") 0) bytes

-- The attributes of the VTKFile element.
pub record VtkFile : Type 0 where
  pub file_type : Option Text
  pub byte_order : Option Text
  pub compressor : Option Text
  pub header_type : Option Text

-- `VtkXmlParserContext`
pub record Context : Type 0 where
  pub file_type : Text
  pub header_type : HeaderType
  pub compressed : Bool
  pub appended : Option (List ℕ)

abbrev pub header_type_named : Text → Result VtkError HeaderType
header_type_named t =
    if t === codes "UInt32"
    then ok uint32
    else if t === codes "UInt64"
    then ok uint64
    else err unsupported_header_type

abbrev pub context_of : Option VtkFile → List Text → Option (List ℕ) → Result VtkError Context
context_of none accepted appended = err wrong_type
context_of (some f) accepted appended = do
  let file_type = text_or f.file_type []
  let compressor = text_or f.compressor []
  throw_if (not (any (λ t. t === file_type) accepted)) wrong_type
  throw_if (not (text_or f.byte_order (codes "LittleEndian") === codes "LittleEndian")) big_endian
  throw_if (not (is_empty compressor) && not (compressor === codes "vtkZLibDataCompressor"))
      unsupported_compressor
  header ← header_type_named (text_or f.header_type (codes "UInt32"))
  ok (record {
    file_type = file_type;
    header_type = header;
    compressed = not (is_empty compressor);
    appended = appended;
  })

-- What the parser gives: `none` is a parsererror, else a document and its VTKFile element, if any.
abbrev pub parsed_context :
    {D : Type 0}
    → Option (D × Option VtkFile)
    → List Text
    → Option (List ℕ)
    → Result VtkError (D × Context)
parsed_context none accepted appended = err malformed_document
parsed_context (some (document, file)) accepted appended = do
  context ← context_of file accepted appended
  ok (document, context)

-- `parseVtkXmlDocument`
unfoldable pub parse_vtk_xml_document :
    {D : Type 0}
    → (List ℕ → Option (D × Option VtkFile))
    → List ℕ
    → List Text
    → Result VtkError (D × Context)
unfolding split_envelope
parse_vtk_xml_document parse_xml bytes accepted = do
  envelope ← split_envelope bytes
  parsed_context (parse_xml envelope.xml) accepted envelope.appended
