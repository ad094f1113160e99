-- ===== src/VtkXml/DataArray/Laws.antt =====
-- readVtkDataArray of frontend/src/lib/vtkXml.ts on an array of integers that stands in the appended
-- data of a file.
use my_paraview_web.Common.{
  ℕ, ◌≤◌, ◌<◌, ◌≡◌, ap, ◌∙◌, true, false, Option, some, List, [], ◌∷◌, ◌++◌, map, length,
  length-append, drop, drop-append_left, leb, arith, All,
}
use my_paraview_web.Common.Eq.{Text, codes}
use my_paraview_web.Common.Int.{ℤ, pos}
use my_paraview_web.Common.Result.{ok, ◌>>=◌}
use my_paraview_web.Grid.Extent.{JsNumber, integer, is_safe_integer}
use my_paraview_web.VtkXml.Bytes.{HeaderType, uint32, uint64, header_bytes}
use my_paraview_web.VtkXml.Bytes.Laws.{int_bytes, Fits, length-int_bytes}
use my_paraview_web.VtkXml.Block.Laws.{raw_bytes, decode_block-raw_bytes}
use my_paraview_web.VtkXml.Typed.{DataType, type_named, Conversions, bytes_to_typed}
use my_paraview_web.VtkXml.Typed.Laws.{
  concat_bytes, IsValue, value_bytes, bytes_to_typed-value_bytes,
}
use my_paraview_web.VtkXml.Document.{Context}
use my_paraview_web.VtkXml.DataArray.{
  DataElement, valid_offset, appended_at, array_bytes, read_vtk_data_array,
}

-- An array of a type, at an offset of the appended data of a file that is not compressed.
abbrev pub appended_element : Text → Text → DataElement
appended_element name offset = record {
  data_type = some name;
  format = some (codes "appended");
  offset = some offset;
  content = [];
}

abbrev pub raw_context : HeaderType → List ℕ → Context
raw_context ht data_bytes = record {
  file_type = [];
  header_type = ht;
  compressed = false;
  appended = some data_bytes;
}

header_positive : (ht : HeaderType) → 1 ≤ header_bytes ht
header_positive uint32 = omega arith
header_positive uint64 = omega arith

module _ (number_of_big : ℕ → ℕ) (exact : (n : ℕ) → n < 9007199254740992 → number_of_big n ≡ n)
    (inflate : List ℕ → Option (List ℕ)) (atob : Text → Option (List ℕ))
    (number_of : Text → JsNumber) where
  -- Integers of a type that are written into the appended data, with their size before them, are
  -- read back from the offset where they stand, whatever else the data holds.
  pub read_vtk_data_array-appended :
      {N : Type 0} (c : Conversions N) (number_of_word : Text → N) (ht : HeaderType)
      (name offset : Text) (type : DataType) (zs : List ℤ) (front rest : List ℕ)
      → type_named name ≡ some type
      → All (IsValue type) zs
      → Fits ht (length (concat_bytes (map (value_bytes type) zs)))
      → number_of offset ≡ integer (pos (length front))
      → is_safe_integer (integer (pos (length front))) ≡ true
      → read_vtk_data_array number_of_big inflate atob number_of c number_of_word
          (appended_element name offset)
          (raw_context ht
            (front ++ (raw_bytes ht (concat_bytes (map (value_bytes type) zs)) ++ rest)))
        ≡ ok (map c.of_integer zs)
  unfolding read_vtk_data_array array_bytes
  read_vtk_data_array-appended c number_of_word ht name offset type zs front rest e h f at safe =
      let payload = concat_bytes (map (value_bytes type) zs) in
      let block = raw_bytes ht payload ++ rest in
      let head_positive = header_positive ht in
      let head_size = length-int_bytes ht (length payload ∷ []) in
      let size = length-append front block in
      let block_size = length-append (raw_bytes ht payload) rest in
      let raw_size = length-append (int_bytes ht (length payload ∷ [])) payload in
      let inside : leb (length (front ++ block)) (length front) ≡ false = ground arith in
      let behind : drop (length front) (front ++ block) ≡ block =
        drop-append_left front block (length front) 0 (omega arith) in
      let whole = front ++ block in
      let context = raw_context ht whole in
      let typed = λ (bytes : List ℕ). bytes_to_typed c bytes name in
      let found : appended_at number_of_big inflate atob
            (valid_offset (integer (pos (length front))) whole) whole context
          ≡ ok payload =
        rw (safe, inside, behind)
          (decode_block-raw_bytes number_of_big exact inflate ht payload rest f) in
      ap
        (λ o. appended_at number_of_big inflate atob (valid_offset o whole) whole context >>= typed)
        at
      ∙ ap (◌>>= typed) found
      ∙ bytes_to_typed-value_bytes c name type zs e h
