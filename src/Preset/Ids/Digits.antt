-- ===== src/Preset/Ids/Digits.antt =====
-- The digits of a hash.
use Prim.Native.Nat.{◌^◌}
use native.Mathlib.Numerals.{unary_clauses}
use my_paraview_web.Common.{
  ℕ, zero, suc, ◌+◌, ◌-◌, ◌*◌, ◌/◌, ◌%◌, ◌≤◌, ◌<◌, Bool, true, [], ◌∷◌, ◌++◌, all, length,
  length-append, ltb, leb, ◌≡◌, refl, ◌∙◌, if◌then◌else◌, arith, either,
}
use mathlib.Core.Bool.{and-eq-true_iff}
use my_paraview_web.Common.Eq.{Text}
use my_paraview_web.ColorMap.{is_lower_digit, is_id_suffix}
use my_paraview_web.Preset.Ids.{digit36, to_base36, fnv1a_from, fnv1a32, fnv1a64}

pub all-append :
    (p : ℕ → Bool) (xs ys : Text) → all p xs ≡ true → all p ys ≡ true → all p (xs ++ ys) ≡ true
all-append p [] ys h k = k
all-append p (x ∷ xs) ys h k =
    let (a, b) = (and-eq-true_iff (p x) (all p xs)).0 h in
    (and-eq-true_iff _ _).1 (a, all-append p xs ys b k)

is_lower_digit-digit36 : (n : ℕ) → n < 36 → is_lower_digit (digit36 n) ≡ true
unfolding is_lower_digit
is_lower_digit-digit36 n h = ground arith

all-to_base36 : (fuel n : ℕ) → all is_lower_digit (to_base36 fuel n) ≡ true
unfolding to_base36
all-to_base36 zero n = refl
all-to_base36 (suc fuel) n =
    either (λ t. all is_lower_digit t ≡ true) (ltb n 36) (digit36 n ∷ [])
      (to_base36 fuel (n / 36) ++ digit36 (n % 36) ∷ [])
      (λ e. (and-eq-true_iff _ _).1 (is_lower_digit-digit36 n (ground arith), refl))
      (λ e.
        all-append is_lower_digit (to_base36 fuel (n / 36)) _ (all-to_base36 fuel (n / 36))
          ((and-eq-true_iff _ _).1 (is_lower_digit-digit36 (n % 36) (omega arith), refl)))

pub length-to_base36_le : (fuel n : ℕ) → length (to_base36 fuel n) ≤ fuel
unfolding to_base36
length-to_base36_le zero n = omega arith
length-to_base36_le (suc fuel) n =
    either (λ t. length t ≤ suc fuel) (ltb n 36) (digit36 n ∷ [])
      (to_base36 fuel (n / 36) ++ digit36 (n % 36) ∷ []) (λ e. omega arith)
      (λ e. omega (
        arith,
        length-append (to_base36 fuel (n / 36)) (digit36 (n % 36) ∷ []),
        length-to_base36_le fuel (n / 36),
      ))

length-to_base36_pos : (fuel n : ℕ) → 1 ≤ length (to_base36 (suc fuel) n)
unfolding to_base36
length-to_base36_pos fuel n =
    either (λ t. 1 ≤ length t) (ltb n 36) (digit36 n ∷ [])
      (to_base36 fuel (n / 36) ++ digit36 (n % 36) ∷ []) (λ e. omega arith)
      (λ e. omega (arith, length-append (to_base36 fuel (n / 36)) (digit36 (n % 36) ∷ [])))

-- The value of digits.
abbrev pub value36 : Text → ℕ → ℕ
value36 [] sum = sum
value36 (c ∷ cs) sum = value36 cs (sum * 36 + (if leb c b'9' then c - b'0' else c + 10 - b'a'))

value36-append : (xs ys : Text) (sum : ℕ) → value36 (xs ++ ys) sum ≡ value36 ys (value36 xs sum)
value36-append [] ys sum = refl
value36-append (x ∷ xs) ys sum = value36-append xs ys _

digit36_value : (n sum : ℕ) → n < 36 → value36 (digit36 n ∷ []) sum ≡ sum * 36 + n
digit36_value n sum h = ground arith

-- A number that is small enough for the fuel is printed whole.
pub value36-to_base36 : (fuel n : ℕ) → n < 36 ^ fuel → value36 (to_base36 fuel n) 0 ≡ n
unfolding to_base36
value36-to_base36 zero n h = ground arith
value36-to_base36 (suc fuel) n h =
    let more : 36 ^ suc fuel ≡ 36 * 36 ^ fuel = simp unary_clauses (omega arith) in
    let quotient : n / 36 < 36 ^ fuel = omega arith in
    either (λ t. value36 t 0 ≡ n) (ltb n 36) (digit36 n ∷ [])
      (to_base36 fuel (n / 36) ++ digit36 (n % 36) ∷ [])
      (λ e. let small : n < 36 = ground arith in let v = digit36_value n 0 small in omega arith)
      (λ e.
        let v = digit36_value (n % 36) (value36 (to_base36 fuel (n / 36)) 0) (omega arith) in
        let ih = value36-to_base36 fuel (n / 36) quotient in
        value36-append (to_base36 fuel (n / 36)) (digit36 (n % 36) ∷ []) 0 ∙ (omega arith))

pub is_id_suffix-to_base36 :
    (fuel n : ℕ) → suc fuel ≤ 16 → is_id_suffix (to_base36 (suc fuel) n) ≡ true
unfolding is_id_suffix
is_id_suffix-to_base36 fuel n h =
    let few = length-to_base36_le (suc fuel) n in
    let some_digits = length-to_base36_pos fuel n in
    let digits = all-to_base36 (suc fuel) n in ground arith

-- A hash is a suffix of an id, and has thirteen characters at most.
pub suffix-fnv1a32 : (t : Text) → (length (fnv1a32 t) ≤ 13) × (is_id_suffix (fnv1a32 t) ≡ true)
unfolding fnv1a32
suffix-fnv1a32 t =
    let hash = fnv1a_from (2 ^ 32) 0x01000193 0x811c9dc5 t in
    let few = length-to_base36_le 7 hash in
    (omega arith, is_id_suffix-to_base36 6 hash (omega arith))

pub suffix-fnv1a64 : (t : Text) → (length (fnv1a64 t) ≤ 13) × (is_id_suffix (fnv1a64 t) ≡ true)
unfolding fnv1a64
suffix-fnv1a64 t =
    let hash = fnv1a_from (2 ^ 64) 0x100000001b3 0xcbf29ce484222325 t in
    (length-to_base36_le 13 hash, is_id_suffix-to_base36 12 hash (omega arith))
