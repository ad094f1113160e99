-- ===== src/Common/Lists.antt =====
-- Lists measured and indexed by the native numbers, under the library's names, and the loop that
-- pushes onto an output list.
use Prim.Native.Nat.{◌<◌, ℕ, zero, suc, ◌+◌, ◌-◌, ◌*◌, ◌≤◌}
use mathlib.Core.Path.{◌≡◌, refl, sym, ◌∙◌, ap}
use mathlib.Core.Bool.{Bool, true, false, ◌&&◌, ◌||◌}
use mathlib.Core.List.{List, [], ◌∷◌, ◌++◌, map, reverse, reverse-cons, append_assoc}
use mathlib.Core.Option.{Option, none, some}
use native.Mathlib.Omega.{arith}
use my_paraview_web.Common.Tests.{if◌then◌else◌, leb, le→leb}

module _ {ℓ} {A : Type ℓ} where
  abbrev pub length : List A → ℕ
  length [] = 0
  length (x ∷ xs) = suc (length xs)

  abbrev pub get_elem? : List A → ℕ → Option A
  get_elem? [] i = none
  get_elem? (x ∷ xs) zero = some x
  get_elem? (x ∷ xs) (suc i) = get_elem? xs i

  abbrev pub get_or : List A → ℕ → A → A
  get_or [] i d = d
  get_or (x ∷ xs) zero d = x
  get_or (x ∷ xs) (suc i) d = get_or xs i d

  -- A write out of bounds changes nothing.
  abbrev pub set : List A → ℕ → A → List A
  set [] i v = []
  set (x ∷ xs) zero v = v ∷ xs
  set (x ∷ xs) (suc i) v = x ∷ set xs i v

  abbrev pub take : ℕ → List A → List A
  take zero xs = []
  take (suc n) [] = []
  take (suc n) (x ∷ xs) = x ∷ take n xs

  abbrev pub drop : ℕ → List A → List A
  drop zero xs = xs
  drop (suc n) [] = []
  drop (suc n) (x ∷ xs) = drop n xs

  abbrev pub find? : (A → Bool) → List A → Option A
  find? p [] = none
  find? p (x ∷ xs) = if p x then some x else find? p xs

  abbrev pub filter : (A → Bool) → List A → List A
  filter p [] = []
  filter p (x ∷ xs) = if p x then x ∷ filter p xs else filter p xs

  abbrev pub any : (A → Bool) → List A → Bool
  any p [] = false
  any p (x ∷ xs) = p x || any p xs

  abbrev pub all : (A → Bool) → List A → Bool
  all p [] = true
  all p (x ∷ xs) = p x && all p xs

  abbrev pub is_empty : List A → Bool
  is_empty [] = true
  is_empty (x ∷ xs) = false

  -- `for (let i = start; i < start + n; i += 1) out.push(...body(i))`
  unfoldable pub for_from : ℕ → ℕ → (ℕ → List A) → List A
  for_from zero start body = []
  for_from (suc n) start body = body start ++ for_from n (start + 1) body

  abbrev pub concat_map {κ} : {B : Type κ} → (B → List A) → List B → List A
  concat_map f [] = []
  concat_map f (x ∷ xs) = f x ++ concat_map f xs

module _ {ℓ} {A : Type ℓ} where
  pub length-append : (xs ys : List A) → length (xs ++ ys) ≡ length xs + length ys
  length-append [] ys = omega arith
  length-append (x ∷ xs) ys = omega (arith, length-append xs ys)

  pub length-reverse : (xs : List A) → length (reverse xs) ≡ length xs
  length-reverse [] = refl
  length-reverse (x ∷ xs) =
      let step : length (reverse xs ++ x ∷ []) ≡ suc (length xs) =
        omega (arith, length-append (reverse xs) (x ∷ []), length-reverse xs) in
      simp (reverse-cons x xs) step

  pub length-map {κ} : {B : Type κ} (f : B → A) (xs : List B) → length (map f xs) ≡ length xs
  length-map f [] = refl
  length-map f (x ∷ xs) = ap suc (length-map f xs)

  pub length-drop : (n : ℕ) (xs : List A) → length (drop n xs) ≡ length xs - n
  length-drop zero xs = omega arith
  length-drop (suc n) [] = omega arith
  length-drop (suc n) (x ∷ xs) = omega (arith, length-drop n xs)

  pub length-set : (xs : List A) (i : ℕ) (v : A) → length (set xs i v) ≡ length xs
  length-set [] i v = refl
  length-set (x ∷ xs) zero v = refl
  length-set (x ∷ xs) (suc i) v = ap suc (length-set xs i v)

  pub length-filter_le : (p : A → Bool) (xs : List A) → length (filter p xs) ≤ length xs
  length-filter_le p [] = omega arith
  length-filter_le p (x ∷ xs) = ground (arith, length-filter_le p xs)

  -- A loop whose every round pushes `c` items pushes `n * c` items.
  pub length-for_from :
      (n start c : ℕ) (body : ℕ → List A)
      → ((i : ℕ) → length (body i) ≡ c)
      → length (for_from n start body) ≡ n * c
  unfolding for_from
  length-for_from zero start c body h = omega arith
  length-for_from (suc n) start c body h = omega (
    arith,
    length-append (body start) (for_from n (start + 1) body),
    h start,
    length-for_from n (start + 1) c body h,
  )

module _ {ℓ} {A : Type ℓ} where
  pub get_elem?-append_left :
      (xs ys : List A) (i : ℕ) → i < length xs → get_elem? (xs ++ ys) i ≡ get_elem? xs i
  get_elem?-append_left [] ys i h = absurd (omega arith)
  get_elem?-append_left (x ∷ xs) ys zero h = refl
  get_elem?-append_left (x ∷ xs) ys (suc i) h = get_elem?-append_left xs ys i (omega arith)

  pub get_elem?-append_right :
      (xs ys : List A) (i k : ℕ) → i ≡ length xs + k → get_elem? (xs ++ ys) i ≡ get_elem? ys k
  get_elem?-append_right [] ys i k h = let e : i ≡ k = omega arith in rw e
  get_elem?-append_right (x ∷ xs) ys zero k h = absurd (omega arith)
  get_elem?-append_right (x ∷ xs) ys (suc i) k h = get_elem?-append_right xs ys i k (omega arith)

  -- Where every round of a loop pushes `c` items, item `q * c + r` is item `r` of round `q`.
  pub get_elem?-for_from :
      (n start c : ℕ) (body : ℕ → List A)
      → ((i : ℕ) → length (body i) ≡ c)
      → (i q r : ℕ) → i ≡ q * c + r
      → q < n
      → r < c
      → get_elem? (for_from n start body) i ≡ get_elem? (body (start + q)) r
  unfolding for_from
  get_elem?-for_from zero start c body h i q r e p s = absurd (omega arith)
  get_elem?-for_from (suc n) start c body h i zero r e p s =
      let same : i ≡ r = omega arith in
      let here : start ≡ start + 0 = omega arith in
      rw (same, ← here) (get_elem?-append_left (body start) _ r (let k = h start in omega arith))
  get_elem?-for_from (suc n) start c body h i (suc q) r e p s =
      let later : start + 1 + q ≡ start + suc q = omega arith in
      rw (← later) (
        rw
          (get_elem?-append_right (body start) (for_from n (start + 1) body) i (q * c + r)
            (omega (arith, h start)))
          (get_elem?-for_from n (start + 1) c body h (q * c + r) q r refl (omega arith) s))

  pub get_elem?-loop :
      (n c : ℕ) (body : ℕ → List A)
      → ((i : ℕ) → length (body i) ≡ c)
      → (i q r : ℕ) → i ≡ q * c + r
      → q < n
      → r < c
      → get_elem? (for_from n 0 body) i ≡ get_elem? (body q) r
  get_elem?-loop n c body h i q r e p s =
      let start : 0 + q ≡ q = omega arith in
      rw start at (get_elem?-for_from n 0 c body h i q r e p s)

  pub get_elem?-get_or :
      (xs : List A) (i : ℕ) (v : A) → i < length xs → get_elem? xs i ≡ some (get_or xs i v)
  get_elem?-get_or [] i v h = absurd (omega arith)
  get_elem?-get_or (x ∷ xs) zero v h = refl
  get_elem?-get_or (x ∷ xs) (suc i) v h = get_elem?-get_or xs i v (omega arith)

module _ {ℓ} {A : Type ℓ} where
  abbrev pub replicate : ℕ → A → List A
  replicate zero a = []
  replicate (suc n) a = a ∷ replicate n a

  -- `target.set(values, offset)` on a typed array; `none` is its RangeError.
  unfoldable pub write_at : List A → ℕ → List A → Option (List A)
  write_at xs offset vs =
      if leb (offset + length vs) (length xs)
      then some (take offset xs ++ (vs ++ drop (offset + length vs) xs))
      else none

  pub length-replicate : (n : ℕ) (a : A) → length (replicate n a) ≡ n
  length-replicate zero a = refl
  length-replicate (suc n) a = ap suc (length-replicate n a)

  pub drop-length : (xs : List A) → drop (length xs) xs ≡ []
  drop-length [] = refl
  drop-length (x ∷ xs) = drop-length xs

  pub take-append_left : (xs ys : List A) (n : ℕ) → n ≡ length xs → take n (xs ++ ys) ≡ xs
  take-append_left [] ys zero h = refl
  take-append_left [] ys (suc n) h = absurd (omega arith)
  take-append_left (x ∷ xs) ys zero h = absurd (omega arith)
  take-append_left (x ∷ xs) ys (suc n) h = ap (x ∷◌) (take-append_left xs ys n (omega arith))

  pub drop-append_left :
      (xs ys : List A) (n k : ℕ) → n ≡ length xs + k → drop n (xs ++ ys) ≡ drop k ys
  drop-append_left [] ys n k h = let e : n ≡ k = omega arith in rw e
  drop-append_left (x ∷ xs) ys zero k h = absurd (omega arith)
  drop-append_left (x ∷ xs) ys (suc n) k h = drop-append_left xs ys n k (omega arith)

  pub drop-replicate : (n k : ℕ) (a : A) → drop n (replicate (n + k) a) ≡ replicate k a
  drop-replicate zero k a = let e : 0 + k ≡ k = omega arith in rw e
  drop-replicate (suc n) k a =
      let e : suc n + k ≡ suc (n + k) = omega arith in rw e (drop-replicate n k a)

  -- Writing behind what is filled already, into an array whose other values are as allocated.
  pub write_at-filled :
      (filled vs : List A) (offset n k : ℕ) (a : A)
      → offset ≡ length filled
      → n ≡ length vs + k
      → write_at (filled ++ replicate n a) offset vs ≡ some ((filled ++ vs) ++ replicate k a)
  unfolding write_at
  write_at-filled filled vs offset n k a e h =
      let room : leb (offset + length vs) (length (filled ++ replicate n a)) ≡ true =
        le→leb _ _ (omega (arith, length-append filled (replicate n a), length-replicate n a)) in
      let later : drop (offset + length vs) (filled ++ replicate n a) ≡ replicate k a =
        drop-append_left filled (replicate n a) (offset + length vs) (length vs) (omega arith)
        ∙ (rw h (drop-replicate (length vs) k a)) in
      rw (room, take-append_left filled (replicate n a) offset e, later)
        (ap some (sym (append_assoc filled vs (replicate k a))))
