-- ===== src/Preset/Ids.antt =====
-- presetId of frontend/src/lib/paraviewPreset.ts with its hashes. An int32 stands as its residue
-- modulo 2^32, and a BigInt that asUintN cuts as its residue modulo 2^64.
pub mod Surrogates
pub mod Digits
pub mod Form
use Prim.Native.Nat.{◌^◌, bit_xor}
use my_paraview_web.Common.{
  ℕ, zero, suc, ◌+◌, ◌-◌, ◌*◌, ◌/◌, ◌%◌, Bool, true, false, not, ◌&&◌, ◌||◌, List, [], ◌∷◌, ◌++◌,
  any, length, take, ltb, leb, ◌==◌, if◌then◌else◌, concat_map,
}
use my_paraview_web.Common.Eq.{Text, codes}
use my_paraview_web.ColorMap.{Stop, between, is_lower_digit, is_id_char, custom_prefix}

abbrev pub is_high : ℕ → Bool
is_high c = between 0xd800 0xdbff c

abbrev pub is_low : ℕ → Bool
is_low c = between 0xdc00 0xdfff c

-- `hasUnpairedSurrogate`; behind the end `next` is NaN, which is neither less nor greater
unfoldable pub has_unpaired_surrogate : Text → Bool
has_unpaired_surrogate [] = false
has_unpaired_surrogate (c ∷ []) = if is_high c then false else is_low c
has_unpaired_surrogate (c ∷ (d ∷ rest)) =
    let behind = has_unpaired_surrogate rest in
    let next = has_unpaired_surrogate (d ∷ rest) in
    if is_high c then (ltb d 0xdc00 || ltb 0xdfff d) || behind else is_low c || next

-- `Array.from(label)`: a pair of surrogates is one character
unfoldable pub characters : Text → List Text
characters [] = []
characters (c ∷ []) = (c ∷ []) ∷ []
characters (c ∷ (d ∷ rest)) =
    let behind = characters rest in
    let next = characters (d ∷ rest) in
    if is_high c && is_low d then (c ∷ (d ∷ [])) ∷ behind else (c ∷ []) ∷ next

abbrev pub join : List Text → Text
join = concat_map (λ t. t)

-- `toString(16).toUpperCase()` of a digit
abbrev pub hex_digit : ℕ → ℕ
hex_digit n = if ltb n 10 then b'0' + n else b'A' + n - 10

-- `/^[A-Za-z0-9_.!~*'()-]$/`
abbrev pub is_plain : ℕ → Bool
is_plain c = is_id_char c && not (c == b'%')

abbrev pub encoded_byte : ℕ → Text
encoded_byte byte =
    if is_plain byte
    then byte ∷ []
    else b'%' ∷ (hex_digit (byte / 16) ∷ (hex_digit (byte % 16) ∷ []))

-- `toString(36)` of a number below `36 ^ fuel`
abbrev pub digit36 : ℕ → ℕ
digit36 n = if ltb n 10 then b'0' + n else b'a' + n - 10

unfoldable pub to_base36 : ℕ → ℕ → Text
to_base36 zero n = []
to_base36 (suc fuel) n =
    let more = to_base36 fuel (n / 36) in
    if ltb n 36 then digit36 n ∷ [] else more ++ digit36 (n % 36) ∷ []

-- The loops of the two hashes.
unfoldable pub fnv1a_from : ℕ → ℕ → ℕ → Text → ℕ
fnv1a_from modulus prime hash [] = hash
fnv1a_from modulus prime hash (c ∷ cs) =
    fnv1a_from modulus prime ((bit_xor hash c * prime) % modulus) cs

unfoldable pub fnv1a32 : Text → Text
unfolding fnv1a_from to_base36
fnv1a32 source = to_base36 7 (fnv1a_from (2 ^ 32) 0x01000193 0x811c9dc5 source)

unfoldable pub fnv1a64 : Text → Text
unfolding fnv1a_from to_base36
fnv1a64 source = to_base36 13 (fnv1a_from (2 ^ 64) 0x100000001b3 0xcbf29ce484222325 source)

module _ (encode : Text → List ℕ) where
  unfoldable pub encoded_id_prefix : Text → Text
  unfolding characters is_id_char is_lower_digit
  encoded_id_prefix label = concat_map encoded_byte (encode (join (take 80 (characters label))))

  module _ {N : Type 0} (stringify : List (Stop N) → Text)
      (stringify_with : Text → List (Stop N) → Text) where
    unfoldable pub preset_hash : Text → List (Stop N) → Text
    unfolding has_unpaired_surrogate fnv1a32 fnv1a64
    preset_hash label stops =
        if leb (length label) 80 && not (has_unpaired_surrogate label)
        then fnv1a32 (stringify stops)
        else fnv1a64 (stringify_with label stops)

    unfoldable pub preset_id : Text → List (Stop N) → Text
    unfolding encoded_id_prefix preset_hash
    preset_id label stops =
        custom_prefix ++ (encoded_id_prefix label ++ b':' ∷ preset_hash label stops)
