-- ===== src/VtkXml/Block.antt =====
-- decodeBlock of frontend/src/lib/vtkXml.ts: a header and a payload, of several zlib blocks where the
-- file is compressed. `inflate` gives the bytes of a zlib stream, or `none` where it rejects; memory
-- has no bound, so that the arrays that are allocated always are.
pub mod Laws
pub mod Truncated
use my_paraview_web.Common.{
  ℕ, zero, suc, ◌+◌, ◌-◌, ◌*◌, Bool, true, false, Option, none, some, List, [], ◌∷◌, length, take,
  drop, replicate, write_at, ltb, ◌==◌, if◌then◌else◌,
}
use my_paraview_web.Common.Result.{Result, ok, err, ◌>>=◌, ◌>>◌, throw_if}
use my_paraview_web.VtkXml.Bytes.{
  HeaderType, header_bytes, VtkError, truncated_payload, bad_block_count, truncated_compressed,
  not_inflated, out_of_range, read_header_ints,
}

-- An element of an array, and `undefined` where there is none, which the checks before exclude.
abbrev pub element_or_zero : List ℕ → ℕ → ℕ
element_or_zero [] i = 0
element_or_zero (x ∷ xs) zero = x
element_or_zero (x ∷ xs) (suc i) = element_or_zero xs i

-- A RangeError of `output.set`, and of a stream that does not inflate
abbrev pub or_throw : {A : Type 0} → VtkError → Option A → Result VtkError A
or_throw e none = err e
or_throw e (some a) = ok a

-- `lastBlockSize || blockSize`
abbrev pub last_or : ℕ → ℕ → ℕ
last_or last size = if last == 0 then size else last

module _ (number_of_big : ℕ → ℕ) (inflate : List ℕ → Option (List ℕ)) where
  -- the loop over the blocks, from the one with these sizes on
  pub decode_blocks : List ℕ → List ℕ → ℕ → List ℕ → ℕ → Result VtkError (List ℕ)
  decode_blocks bytes [] cursor output written = ok (take written output)
  decode_blocks bytes (size ∷ sizes) cursor output written = do
    throw_if (ltb (length bytes) (cursor + size)) truncated_compressed
    chunk ← or_throw not_inflated (inflate (take size (drop cursor bytes)))
    filled ← or_throw out_of_range (write_at output written chunk)
    decode_blocks bytes sizes (cursor + size) filled (written + length chunk)

  pub decode_compressed : HeaderType → List ℕ → Result VtkError (List ℕ)
  decode_compressed ht bytes = do
    first ← read_header_ints number_of_big ht bytes 1
    let count = element_or_zero first 0
    throw_if (ltb count 1) bad_block_count
    header ← read_header_ints number_of_big ht bytes (3 + count)
    let size = element_or_zero header 1
    decode_blocks bytes (drop 3 header) (header_bytes ht * (3 + count))
        (replicate (size * (count - 1) + last_or (element_or_zero header 2) size) 0) 0

  pub decode_raw : HeaderType → List ℕ → Result VtkError (List ℕ)
  decode_raw ht bytes = do
    first ← read_header_ints number_of_big ht bytes 1
    let count = element_or_zero first 0
    throw_if (ltb (length bytes) (header_bytes ht + count)) truncated_payload
    ok (take count (drop (header_bytes ht) bytes))

  -- `decodeBlock`
  unfoldable pub decode_block : HeaderType → Bool → List ℕ → Result VtkError (List ℕ)
  unfolding decode_raw decode_compressed decode_blocks
  decode_block ht false bytes = decode_raw ht bytes
  decode_block ht true bytes = decode_compressed ht bytes
