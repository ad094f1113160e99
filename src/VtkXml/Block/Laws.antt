-- ===== src/VtkXml/Block/Laws.antt =====
-- decodeBlock of frontend/src/lib/vtkXml.ts on the bytes that a writer of these files writes.
use my_paraview_web.Common.{
  ℕ, zero, suc, ◌+◌, ◌-◌, ◌*◌, ◌≤◌, ◌<◌, ◌≡◌, refl, sym, ap, ◌∙◌, subst, true, false, Option, some,
  List, [], ◌∷◌, ◌++◌, map, length, length-append, length-map, length-drop, take, drop, replicate,
  write_at-filled, ltb, arith, All, concat_map, take-append_left, drop-append_left, append_assoc,
  append-nil,
}
use my_paraview_web.Common.Result.{ok}
use my_paraview_web.VtkXml.Bytes.{
  HeaderType, uint32, uint64, le_bytes, header_bytes, read_header_ints,
}
use my_paraview_web.VtkXml.Bytes.Laws.{
  int_bytes, Fits, length-int_bytes, read_header_ints-int_bytes,
}
use my_paraview_web.VtkXml.Block.{decode_blocks, decode_block, last_or}

-- A block of data, and its zlib stream.
pub record Chunk : Type 0 where
  pub packed : List ℕ
  pub plain : List ℕ

abbrev pub packed_of : List Chunk → List ℕ
packed_of cs = concat_map (λ c. c.packed) cs

abbrev pub plain_of : List Chunk → List ℕ
plain_of cs = concat_map (λ c. c.plain) cs

abbrev pub packed_sizes : List Chunk → List ℕ
packed_sizes cs = map (λ c. length c.packed) cs

-- What a writer writes: the size and the bytes, or the sizes of the blocks and their streams.
abbrev pub raw_bytes : HeaderType → List ℕ → List ℕ
raw_bytes ht payload = int_bytes ht (length payload ∷ []) ++ payload

abbrev pub compressed_header : ℕ → ℕ → List Chunk → List ℕ
compressed_header size last cs = length cs ∷ size ∷ last ∷ packed_sizes cs

abbrev pub compressed_bytes : HeaderType → ℕ → ℕ → List Chunk → List ℕ
compressed_bytes ht size last cs = int_bytes ht (compressed_header size last cs) ++ packed_of cs

drop-nil {ℓ} : {A : Type ℓ} (n : ℕ) → drop {A = A} n [] ≡ []
drop-nil zero = refl
drop-nil (suc n) = refl

drop-drop {ℓ} : {A : Type ℓ} (a b : ℕ) (xs : List A) → drop (a + b) xs ≡ drop b (drop a xs)
drop-drop zero b xs = let e : 0 + b ≡ b = omega arith in rw e
drop-drop (suc a) b [] = drop-nil (suc a + b) ∙ sym (drop-nil b)
drop-drop (suc a) b (x ∷ xs) =
    let e : suc a + b ≡ suc (a + b) = omega arith in rw e (drop-drop a b xs)

module _ (number_of_big : ℕ → ℕ) (exact : (n : ℕ) → n < 9007199254740992 → number_of_big n ≡ n)
    (inflate : List ℕ → Option (List ℕ)) where
  -- The bytes of a block that is not compressed are read back from what its writer wrote, whatever
  -- follows them in the file.
  pub decode_block-raw_bytes :
      (ht : HeaderType) (payload rest : List ℕ)
      → Fits ht (length payload)
      → decode_block number_of_big inflate ht false (raw_bytes ht payload ++ rest) ≡ ok payload
  unfolding decode_block
  decode_block-raw_bytes ht payload rest f =
      let n = length payload in
      let whole : raw_bytes ht payload ++ rest ≡ int_bytes ht (n ∷ []) ++ (payload ++ rest) =
        append_assoc (int_bytes ht (n ∷ [])) payload rest in
      let header =
        read_header_ints-int_bytes number_of_big exact ht (n ∷ []) (payload ++ rest) (f, tt) in
      let head_size = length-int_bytes ht (n ∷ []) in
      let size = length-append (int_bytes ht (n ∷ [])) (payload ++ rest) in
      let tail_size = length-append payload rest in
      let enough : ltb (length (int_bytes ht (n ∷ []) ++ (payload ++ rest))) (header_bytes ht + n)
          ≡ false =
        ground arith in
      let behind : drop (header_bytes ht) (int_bytes ht (n ∷ []) ++ (payload ++ rest))
          ≡ payload ++ rest =
        drop-append_left (int_bytes ht (n ∷ [])) (payload ++ rest) (header_bytes ht) 0
          (omega arith) in
      rw (whole, header, enough, behind, take-append_left payload rest n refl) refl

  decode_blocks-written :
      (cs : List Chunk) (bytes rest done : List ℕ) (cursor k : ℕ)
      → All (λ c. inflate c.packed ≡ some c.plain) cs
      → drop cursor bytes ≡ packed_of cs ++ rest
      → cursor ≤ length bytes
      → length (plain_of cs) ≤ k
      → decode_blocks number_of_big inflate bytes
          (packed_sizes cs)
          cursor
          (done ++ replicate k 0)
          (length done)
        ≡ ok (done ++ plain_of cs)
  unfolding decode_blocks
  decode_blocks-written [] bytes rest done cursor k h here start room =
      ap ok (take-append_left done (replicate k 0) (length done) refl ∙ sym (append-nil done))
  decode_blocks-written (c ∷ cs) bytes rest done cursor k (i, h) here start room =
      let later = packed_of cs ++ rest in
      let whole : drop cursor bytes ≡ c.packed ++ later =
        here ∙ append_assoc c.packed (packed_of cs) rest in
      let size : length bytes - cursor ≡ length c.packed + length later =
        sym (length-drop cursor bytes) ∙ ap length whole ∙ length-append c.packed later in
      let plain_size = length-append c.plain (plain_of cs) in
      let fits : ltb (length bytes) (cursor + length c.packed) ≡ false = ground arith in
      let taken : take (length c.packed) (drop cursor bytes) ≡ c.packed =
        ap (take (length c.packed)) whole ∙ take-append_left c.packed later _ refl in
      let filled =
        write_at-filled done c.plain (length done) k (k - length c.plain) 0 refl (omega arith) in
      let next : drop (cursor + length c.packed) bytes ≡ later =
        drop-drop cursor (length c.packed) bytes
        ∙ ap (drop (length c.packed)) whole
        ∙ drop-append_left c.packed later (length c.packed) 0 (omega arith) in
      let rest_decoded =
        decode_blocks-written cs bytes rest (done ++ c.plain) (cursor + length c.packed)
          (k - length c.plain) h next (omega arith) (omega arith) in
      rw (fits, taken, i, filled, ← length-append done c.plain)
        (rest_decoded ∙ ap ok (append_assoc done c.plain (plain_of cs)))

  header_size :
      (ht : HeaderType) (size last : ℕ) (cs : List Chunk)
      → header_bytes ht * (3 + length cs)
        ≡ length (compressed_header size last cs) * header_bytes ht
  header_size uint32 size last cs = omega (arith, length-map (λ (c : Chunk). length c.packed) cs)
  header_size uint64 size last cs = omega (arith, length-map (λ (c : Chunk). length c.packed) cs)

  header_count :
      (size last : ℕ) (cs : List Chunk) → length (compressed_header size last cs) ≡ 3 + length cs
  header_count size last cs = omega (arith, length-map (λ (c : Chunk). length c.packed) cs)

  first_int :
      (ht : HeaderType) (v : ℕ) (vs rest : List ℕ)
      → Fits ht v
      → read_header_ints number_of_big ht (int_bytes ht (v ∷ vs) ++ rest) 1 ≡ ok (v ∷ [])
  first_int ht v vs rest f =
      let front = int_bytes ht (v ∷ []) in
      let split : int_bytes ht (v ∷ vs) ++ rest ≡ front ++ (int_bytes ht vs ++ rest) =
        append_assoc (le_bytes (header_bytes ht) v) (int_bytes ht vs) rest
        ∙ ap (◌++ (int_bytes ht vs ++ rest)) (sym (append-nil (le_bytes (header_bytes ht) v))) in
      rw split (
        read_header_ints-int_bytes number_of_big exact ht (v ∷ []) (int_bytes ht vs ++ rest)
          (f, tt))

  -- The blocks of compressed data are read back in their order from what their writer wrote, where
  -- every stream inflates to its block, the header's numbers fit, there is a block, and the blocks
  -- together are no longer than the sizes in the header say.
  pub decode_block-compressed_bytes :
      (ht : HeaderType) (size last : ℕ) (cs : List Chunk) (rest : List ℕ)
      → All (Fits ht) (compressed_header size last cs)
      → All (λ c. inflate c.packed ≡ some c.plain) cs
      → 1 ≤ length cs
      → length (plain_of cs) ≤ size * (length cs - 1) + last_or last size
      → decode_block number_of_big inflate ht true (compressed_bytes ht size last cs ++ rest)
        ≡ ok (plain_of cs)
  unfolding decode_block
  decode_block-compressed_bytes ht size last cs rest (f, fs) h one room =
      let header = compressed_header size last cs in
      let bytes = int_bytes ht header ++ (packed_of cs ++ rest) in
      let whole : compressed_bytes ht size last cs ++ rest ≡ bytes =
        append_assoc (int_bytes ht header) (packed_of cs) rest in
      let first =
        first_int ht (length cs) (size ∷ last ∷ packed_sizes cs) (packed_of cs ++ rest) f in
      let all_ints : read_header_ints number_of_big ht bytes (3 + length cs) ≡ ok header =
        subst (λ n. read_header_ints number_of_big ht bytes n ≡ ok header)
          (header_count size last cs)
          (read_header_ints-int_bytes number_of_big exact ht header (packed_of cs ++ rest)
            (f, fs)) in
      let some_blocks : ltb (length cs) 1 ≡ false = ground arith in
      let cursor = header_bytes ht * (3 + length cs) in
      let front : cursor ≡ length (int_bytes ht header) =
        header_size ht size last cs ∙ sym (length-int_bytes ht header) in
      let here : drop cursor bytes ≡ packed_of cs ++ rest =
        drop-append_left (int_bytes ht header) (packed_of cs ++ rest) cursor 0 (omega arith) in
      let total = length-append (int_bytes ht header) (packed_of cs ++ rest) in
      rw (whole, first, some_blocks, all_ints)
        (decode_blocks-written cs bytes rest [] cursor (size * (length cs - 1) + last_or last size)
          h here (omega arith) room)
