-- ===== src/VtkXml/Tests.antt =====
-- Blocks and arrays at concrete bytes. A stream inflates to its bytes without the first.
use my_paraview_web.Common.{
  ℕ, ◌≡◌, ◌⊎◌, refl, true, false, Option, none, some, List, [], ◌∷◌, ◌++◌, map, take, arith,
}
use my_paraview_web.Common.Eq.{Text, codes}
use my_paraview_web.Common.Int.{ℤ, pos, negsuc}
use my_paraview_web.Common.Result.{ok, err}
use my_paraview_web.Grid.Extent.{JsNumber, integer}
use my_paraview_web.VtkXml.Bytes.{
  uint32, uint64, le_bytes, truncated_header, truncated_payload, base64_appended,
}
use my_paraview_web.VtkXml.Block.{decode_block}
use my_paraview_web.VtkXml.Block.Laws.{
  Chunk, raw_bytes, compressed_bytes, decode_block-compressed_bytes,
}
use my_paraview_web.VtkXml.Block.Truncated.{decode_block-truncated}
use my_paraview_web.VtkXml.Typed.{Conversions, int16_type, type_named}
use my_paraview_web.VtkXml.Typed.Laws.{concat_bytes, value_bytes}
use my_paraview_web.VtkXml.Document.{index_of_sequence, split_envelope}
use my_paraview_web.VtkXml.DataArray.{read_vtk_data_array}
use my_paraview_web.VtkXml.DataArray.Laws.{
  appended_element, raw_context, read_vtk_data_array-appended,
}

abbrev same_number : ℕ → ℕ
same_number n = n

abbrev without_first : List ℕ → Option (List ℕ)
without_first [] = none
without_first (b ∷ bs) = some bs

abbrev two_chunks : List Chunk
two_chunks =
    record { packed = 9 ∷ 1 ∷ 2 ∷ 3 ∷ []; plain = 1 ∷ 2 ∷ 3 ∷ [] }
    ∷ record { packed = 9 ∷ 4 ∷ []; plain = 4 ∷ [] }
    ∷ []

decode_block-compressed_bytes_example :
    decode_block same_number without_first uint64 true
      (compressed_bytes uint64 3 1 two_chunks ++ 7 ∷ [])
    ≡ ok (1 ∷ 2 ∷ 3 ∷ 4 ∷ [])
decode_block-compressed_bytes_example =
    decode_block-compressed_bytes same_number (λ n h. refl) without_first uint64 3 1 two_chunks
      (7 ∷ [])
      (
        record { in_bytes = omega arith; exact = omega arith },
        (
          record { in_bytes = omega arith; exact = omega arith },
          (
            record { in_bytes = omega arith; exact = omega arith },
            (
              record { in_bytes = omega arith; exact = omega arith },
              (record { in_bytes = omega arith; exact = omega arith }, tt),
            ),
          ),
        ),
      )
      (refl, (refl, tt)) (omega arith) (omega arith)

decode_block-truncated_example :
    (decode_block same_number without_first uint32 false
        (take 6 (raw_bytes uint32 (5 ∷ 6 ∷ 7 ∷ [])))
      ≡ err truncated_header)
    ⊎ (decode_block same_number without_first uint32 false
          (take 6 (raw_bytes uint32 (5 ∷ 6 ∷ 7 ∷ [])))
        ≡ err truncated_payload)
unfolding le_bytes
decode_block-truncated_example =
    decode_block-truncated same_number (λ n h. refl) without_first uint32 (5 ∷ 6 ∷ 7 ∷ []) 6
      (record { in_bytes = omega arith; exact = omega arith }) (omega arith)

abbrev to_integers : Conversions ℤ
to_integers = record { of_integer = λ z. z; of_float32 = λ bs. pos 0; of_float64 = λ bs. pos 0 }

abbrev offset_two : Text → JsNumber
offset_two t = integer (pos 2)

read_vtk_data_array-appended_example :
    read_vtk_data_array same_number without_first
      (λ t. none)
      offset_two
      to_integers
      (λ t. pos 0)
      (appended_element (codes "Int16") (codes "2"))
      (raw_context uint32 (
        8 ∷ 8 ∷ []
        ++ (raw_bytes uint32 (concat_bytes (map (value_bytes int16_type) (pos 300 ∷ negsuc 4 ∷ [])))
            ++ 9 ∷ [])))
    ≡ ok (pos 300 ∷ negsuc 4 ∷ [])
unfolding type_named le_bytes
read_vtk_data_array-appended_example =
    read_vtk_data_array-appended same_number (λ n h. refl) without_first (λ t. none) offset_two
      to_integers (λ t. pos 0) uint32 (codes "Int16") (codes "2") int16_type
      (pos 300 ∷ negsuc 4 ∷ []) (8 ∷ 8 ∷ []) (9 ∷ []) refl (omega arith, (omega arith, tt))
      (record { in_bytes = omega arith; exact = omega arith }) refl refl

index_found : index_of_sequence (codes "a_b_") (codes "_") 2 ≡ some 3
unfolding index_of_sequence
index_found = refl

base64_appended_refused :
    split_envelope (codes "<AppendedData encoding=\"base64\">_x") ≡ err base64_appended
unfolding split_envelope
base64_appended_refused = refl

raw_appended_split :
    split_envelope (codes "<V><AppendedData encoding=\"raw\">_xy")
    ≡ ok (record { xml = codes "<V></VTKFile>"; appended = some (codes "xy") })
unfolding split_envelope
raw_appended_split = refl
