-- ===== src/Preset/Ids/Form.antt =====
-- The id of a preset is one that the registry takes.
use my_paraview_web.Common.{
  ℕ, ◌*◌, ◌/◌, ◌%◌, ◌≤◌, ◌<◌, Bool, true, false, not, ◌&&◌, ◌||◌, List, [], ◌∷◌, ◌++◌, all, length,
  length-append, take, leb, ◌==◌, ◌≡◌, refl, arith, either, All, concat_map, is_empty,
}
use mathlib.Core.Bool.{and-eq-true_iff}
use my_paraview_web.Common.Eq.{Text, Units_eq}
use my_paraview_web.ColorMap.{
  Stop, is_lower_digit, is_id_char, is_id_suffix, is_id_rest, is_custom_id,
}
use my_paraview_web.Preset.Ids.{
  characters, join, hex_digit, is_plain, encoded_byte, encoded_id_prefix, has_unpaired_surrogate,
  fnv1a32, fnv1a64, preset_hash, preset_id,
}
use my_paraview_web.Preset.Ids.Surrogates.{length-characters-join_le, first_unit}
use my_paraview_web.Preset.Ids.Digits.{all-append, suffix-fnv1a32, suffix-fnv1a64}

-- What is known of TextEncoder: it gives bytes, at most four for each character, and some for a text
-- that is not empty.
pub record IsEncoder (encode : Text → List ℕ) : Type 0 where
  pub bytes : (t : Text) → All (λ b. b < 256) (encode t)
  pub at_most_four : (t : Text) → length (encode t) ≤ 4 * length (characters t)
  pub not_empty : (t : Text) → 1 ≤ length t → 1 ≤ length (encode t)

is_id_char-not_colon : (c : ℕ) → is_id_char c ≡ true → (c == b':') ≡ false
unfolding is_id_char is_lower_digit
is_id_char-not_colon c h = ground arith

is_id_char-hex_digit : (n : ℕ) → n < 16 → is_id_char (hex_digit n) ≡ true
unfolding is_id_char is_lower_digit
is_id_char-hex_digit n h = ground arith

all-encoded_byte : (b : ℕ) → b < 256 → all is_id_char (encoded_byte b) ≡ true
unfolding is_id_char is_lower_digit
all-encoded_byte b h =
    either (λ t. all is_id_char t ≡ true) (is_plain b) _ _
      (λ e. (and-eq-true_iff _ _).1 (((and-eq-true_iff _ _).0 e).0, refl))
      (λ e. (and-eq-true_iff _ _).1 (
        refl,
        (and-eq-true_iff _ _).1 (
          is_id_char-hex_digit (b / 16) (omega arith),
          (and-eq-true_iff _ _).1 (is_id_char-hex_digit (b % 16) (omega arith), refl),
        ),
      ))

length-encoded_byte : (b : ℕ) → (1 ≤ length (encoded_byte b)) × (length (encoded_byte b) ≤ 3)
length-encoded_byte b =
    either (λ t. (1 ≤ length t) × (length t ≤ 3)) (is_plain b) (b ∷ [])
      (b'%' ∷ (hex_digit (b / 16) ∷ (hex_digit (b % 16) ∷ []))) (λ e. (omega arith, omega arith))
      (λ e. (omega arith, omega arith))

abbrev encoded : List ℕ → Text
encoded = concat_map encoded_byte

all-encoded : (bs : List ℕ) → All (λ b. b < 256) bs → all is_id_char (encoded bs) ≡ true
all-encoded [] h = refl
all-encoded (b ∷ bs) (p, h) =
    all-append is_id_char (encoded_byte b) (encoded bs) (all-encoded_byte b p) (all-encoded bs h)

length-encoded :
    (bs : List ℕ) → (length bs ≤ length (encoded bs)) × (length (encoded bs) ≤ 3 * length bs)
length-encoded [] = (omega arith, omega arith)
length-encoded (b ∷ bs) =
    let (low, high) = length-encoded bs in
    let (one, three) = length-encoded_byte b in
    let total = length-append (encoded_byte b) (encoded bs) in (omega arith, omega arith)

-- Inner characters, a colon and a suffix make the rest of an id.
is_id_rest-append :
    (seen : Bool) (t suffix : Text)
    → all is_id_char t ≡ true
    → (seen || not (is_empty t)) ≡ true
    → is_id_suffix suffix ≡ true
    → is_id_rest seen (t ++ b':' ∷ suffix) ≡ true
unfolding is_id_rest
is_id_rest-append true [] suffix h k q = q
is_id_rest-append false [] suffix h k q = cc
is_id_rest-append seen (c ∷ cs) suffix h k q =
    let (here, rest) = (and-eq-true_iff (is_id_char c) (all is_id_char cs)).0 h in
    rw (is_id_char-not_colon c here, here) (is_id_rest-append true cs suffix rest refl q)

-- The first characters of a text that is not empty are not empty.
join_first : (t : Text) → is_empty t ≡ false → 1 ≤ length (join (take 80 (characters t)))
join_first [] h = cc
join_first (c ∷ rest) h =
    let (tail, e) = first_unit 79 c rest in
    let e' : join (take 80 (characters (c ∷ rest))) ≡ c ∷ tail = e in rw e' (omega arith)

some_encoded : (t : Text) → 1 ≤ length t → (false || not (is_empty t)) ≡ true
some_encoded [] h = absurd (omega arith)
some_encoded (c ∷ cs) h = refl

module _ {N : Type 0} (encode : Text → List ℕ) (stringify : List (Stop N) → Text)
    (stringify_with : Text → List (Stop N) → Text) where
  hash_fits :
      (label : Text) (stops : List (Stop N))
      → let hash = preset_hash encode stringify stringify_with label stops in
        (length hash ≤ 13) × (is_id_suffix hash ≡ true)
  unfolding preset_hash
  hash_fits label stops =
      either (λ t. (length t ≤ 13) × (is_id_suffix t ≡ true))
        (leb (length label) 80 && not (has_unpaired_surrogate label)) (fnv1a32 (stringify stops))
        (fnv1a64 (stringify_with label stops)) (λ e. suffix-fnv1a32 (stringify stops))
        (λ e. suffix-fnv1a64 (stringify_with label stops))

  -- The id of a label that is not empty has the form that the registry tests, and fits its limit.
  pub preset_id-IsCustomId :
      IsEncoder encode
      → (label : Text) (stops : List (Stop N)) → is_empty label ≡ false
      → let id = preset_id encode stringify stringify_with label stops in
        (length id ≤ 1024) × (is_custom_id id ≡ true)
  unfolding preset_id encoded_id_prefix is_custom_id
  preset_id-IsCustomId enc label stops given =
      let prefix = join (take 80 (characters label)) in
      let middle = encoded (encode prefix) in
      let hash = preset_hash encode stringify stringify_with label stops in
      let (short, suffix) = hash_fits label stops in
      let bytes = enc.bytes prefix in
      let characters_le = length-characters-join_le 80 label in
      let bytes_le = enc.at_most_four prefix in
      let bytes_pos = enc.not_empty prefix (join_first label given) in
      let (low, high) = length-encoded (encode prefix) in
      let total = length-append middle (b':' ∷ hash) in
      (
        omega arith,
        is_id_rest-append false middle hash (all-encoded (encode prefix) bytes)
            (some_encoded middle (omega arith)) suffix,
      )
