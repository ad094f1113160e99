-- ===== src/VtkXml/Block/Truncated.antt =====
-- decodeBlock of frontend/src/lib/vtkXml.ts on a block whose end is missing.
use my_paraview_web.Common.{
  ℕ, zero, suc, ◌+◌, ◌-◌, ◌≤◌, ◌<◌, ◌≡◌, ◌⊎◌, inl, inr, refl, sym, ap, ◌∙◌, true, false, Option,
  List, [], ◌∷◌, ◌++◌, length, length-append, take, ltb, arith, Bool-cases, ltb→lt,
}
use my_paraview_web.Common.Result.{err}
use my_paraview_web.VtkXml.Bytes.{HeaderType, header_bytes, truncated_header, truncated_payload}
use my_paraview_web.VtkXml.Bytes.Laws.{
  int_bytes, Fits, length-int_bytes, read_header_ints-int_bytes, read_header_ints-short,
}
use my_paraview_web.VtkXml.Block.{decode_block}
use my_paraview_web.VtkXml.Block.Laws.{raw_bytes}

length-take {ℓ} : {A : Type ℓ} (n : ℕ) (xs : List A) → n ≤ length xs → length (take n xs) ≡ n
length-take zero xs h = refl
length-take (suc n) [] h = absurd (omega arith)
length-take (suc n) (x ∷ xs) h = ap suc (length-take n xs (omega arith))

take-append {ℓ} :
    {A : Type ℓ} (xs ys : List A) (n k : ℕ)
    → n ≡ length xs + k
    → take n (xs ++ ys) ≡ xs ++ take k ys
take-append [] ys n k h = let e : n ≡ k = omega arith in rw e
take-append (x ∷ xs) ys zero k h = absurd (omega arith)
take-append (x ∷ xs) ys (suc n) k h = ap (x ∷◌) (take-append xs ys n k (omega arith))

module _ (number_of_big : ℕ → ℕ) (exact : (n : ℕ) → n < 9007199254740992 → number_of_big n ≡ n)
    (inflate : List ℕ → Option (List ℕ)) where
  -- Every block that is not compressed and whose end is missing is refused, for its header or for
  -- its payload, wherever it is cut.
  pub decode_block-truncated :
      (ht : HeaderType) (payload : List ℕ) (m : ℕ)
      → Fits ht (length payload)
      → m < length (raw_bytes ht payload)
      → (decode_block number_of_big inflate ht false (take m (raw_bytes ht payload))
          ≡ err truncated_header)
        ⊎ (decode_block number_of_big inflate ht false (take m (raw_bytes ht payload))
            ≡ err truncated_payload)
  unfolding decode_block
  decode_block-truncated ht payload m f h =
      let n = length payload in
      let head = int_bytes ht (n ∷ []) in
      let cut = take m (raw_bytes ht payload) in
      let head_size = length-int_bytes ht (n ∷ []) in
      let size = length-append head payload in
      let length_cut = length-take m (raw_bytes ht payload) (omega arith) in
      elim (Bool-cases (ltb m (header_bytes ht))) [
        | inl short ↦
            let few = ltb→lt m (header_bytes ht) short in
            let refused = read_header_ints-short number_of_big exact ht cut 1 (omega arith) in
            inl (rw refused refl)
        | inr enough ↦
            let k = m - header_bytes ht in
            let split : cut ≡ head ++ take k payload =
              take-append head payload m k (ground arith) in
            let header =
              read_header_ints-int_bytes number_of_big exact ht (n ∷ []) (take k payload) (f, tt) in
            let length_split : length (head ++ take k payload) ≡ m =
              sym (ap length split) ∙ length_cut in
            let missing : ltb (length (head ++ take k payload)) (header_bytes ht + n) ≡ true =
              ground arith in
            inr (rw (split, header, missing) refl)
      ]
