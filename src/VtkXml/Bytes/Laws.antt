-- ===== src/VtkXml/Bytes/Laws.antt =====
-- Reading back the integers of a header, frontend/src/lib/vtkXml.ts.
use my_paraview_web.Common.{
  ℕ, zero, suc, ◌+◌, ◌*◌, ◌<◌, ◌≡◌, refl, sym, subst, true, false, List, [], ◌∷◌, ◌++◌, length,
  length-append, ltb, arith, All, concat_map, take-append_left, drop-append_left, append_assoc,
}
use my_paraview_web.Common.Result.{ok, err}
use my_paraview_web.VtkXml.Bytes.{
  HeaderType, uint32, uint64, header_bytes, header_value, header_int, header_ints_from,
  read_header_ints, le_bytes, capacity, length-le_bytes, le_value-le_bytes, truncated_header,
}

-- The bytes of integers, one after the other.
abbrev pub int_bytes : HeaderType → List ℕ → List ℕ
int_bytes ht vs = concat_map (le_bytes (header_bytes ht)) vs

-- An integer that has its bytes, and that a number of the browser holds exactly.
pub record Fits (ht : HeaderType) (v : ℕ) : Type 0 where
  pub in_bytes : v < capacity (header_bytes ht)
  pub exact : v < 9007199254740992

pub length-int_bytes :
    (ht : HeaderType) (vs : List ℕ) → length (int_bytes ht vs) ≡ length vs * header_bytes ht
length-int_bytes ht [] = omega arith
length-int_bytes ht (v ∷ vs) = omega (
  arith,
  length-append (le_bytes (header_bytes ht) v) (int_bytes ht vs),
  length-le_bytes (header_bytes ht) v,
  length-int_bytes ht vs,
)

module _ (number_of_big : ℕ → ℕ)
    (exact : (n : ℕ) → n < 9007199254740992 → number_of_big n ≡ n) where
  header_value-exact : (ht : HeaderType) (v : ℕ) → Fits ht v → header_value ht number_of_big v ≡ v
  header_value-exact uint32 v f = refl
  header_value-exact uint64 v f = exact v f.exact

  header_int-first :
      (ht : HeaderType) (v : ℕ) (rest : List ℕ)
      → Fits ht v
      → header_int number_of_big ht (le_bytes (header_bytes ht) v ++ rest) 0 ≡ v
  header_int-first ht v rest f =
      let start : 0 * header_bytes ht ≡ 0 = omega arith in
      rw
        (
          start,
          take-append_left (le_bytes (header_bytes ht) v) rest (header_bytes ht)
              (sym (length-le_bytes (header_bytes ht) v)),
          le_value-le_bytes (header_bytes ht) v f.in_bytes,
        )
        (header_value-exact ht v f)

  header_int-later :
      (ht : HeaderType) (v : ℕ) (rest : List ℕ) (i : ℕ)
      → header_int number_of_big ht (le_bytes (header_bytes ht) v ++ rest) (i + 1)
        ≡ header_int number_of_big ht rest i
  header_int-later ht v rest i =
      rw
        (drop-append_left (le_bytes (header_bytes ht) v) rest ((i + 1) * header_bytes ht)
          (i * header_bytes ht) (omega (arith, length-le_bytes (header_bytes ht) v)))
        refl

  header_ints_from-later :
      (ht : HeaderType) (v : ℕ) (rest : List ℕ) (n i : ℕ)
      → header_ints_from number_of_big ht (le_bytes (header_bytes ht) v ++ rest) n (i + 1)
        ≡ header_ints_from number_of_big ht rest n i
  unfolding header_ints_from
  header_ints_from-later ht v rest zero i = refl
  header_ints_from-later ht v rest (suc n) i =
      rw (header_int-later ht v rest i, header_ints_from-later ht v rest n (i + 1)) refl

  pub header_ints-int_bytes :
      (ht : HeaderType) (vs rest : List ℕ)
      → All (Fits ht) vs
      → header_ints_from number_of_big ht (int_bytes ht vs ++ rest) (length vs) 0 ≡ vs
  unfolding header_ints_from
  header_ints-int_bytes ht [] rest f = refl
  header_ints-int_bytes ht (v ∷ vs) rest (f, fs) =
      let front = le_bytes (header_bytes ht) v in
      subst (λ bs. header_ints_from number_of_big ht bs (suc (length vs)) 0 ≡ v ∷ vs)
        (sym (append_assoc front (int_bytes ht vs) rest))
        (rw
          (
            header_int-first ht v (int_bytes ht vs ++ rest) f,
            header_ints_from-later ht v (int_bytes ht vs ++ rest) (length vs) 0,
            header_ints-int_bytes ht vs rest fs,
          )
          refl)

  -- The integers of a header are read back from its bytes, whatever follows them.
  pub read_header_ints-int_bytes :
      (ht : HeaderType) (vs rest : List ℕ)
      → All (Fits ht) vs
      → read_header_ints number_of_big ht (int_bytes ht vs ++ rest) (length vs) ≡ ok vs
  unfolding read_header_ints
  read_header_ints-int_bytes ht vs rest f =
      let size = length-int_bytes ht vs in
      let total = length-append (int_bytes ht vs) rest in
      let enough : ltb (length (int_bytes ht vs ++ rest)) (length vs * header_bytes ht) ≡ false =
        ground arith in
      rw (enough, header_ints-int_bytes ht vs rest f) refl

  -- A header that is too short is refused.
  pub read_header_ints-short :
      (ht : HeaderType) (bytes : List ℕ) (count : ℕ)
      → length bytes < count * header_bytes ht
      → read_header_ints number_of_big ht bytes count ≡ err truncated_header
  unfolding read_header_ints
  read_header_ints-short ht bytes count h =
      let short : ltb (length bytes) (count * header_bytes ht) ≡ true = ground arith in
      rw short refl
