-- ===== src/Vtu/Faces/Order.antt =====
-- When two faces have one key, in terms of the bag of their points, which forgets the order.
use mathlib.Core.Quot
use mathlib.Core.Quot.{Quot, Quot-set}
use my_paraview_web.Common.{
  ℕ, suc, ◌+◌, ◌≤◌, List, [], ◌∷◌, ◌==◌, ltb, if◌then◌else◌, ◌≡◌, refl, sym, ◌∙◌, ap, ◌↔◌, map, All,
  All-weaken, Bool-cases, inl, inr, arith, ==_refl, ltb→lt,
}
use my_paraview_web.Vtu.Faces.{face_key, insert_corner}
use my_paraview_web.Vtu.Faces.Corners.{Corner, number}

-- How often a point stands in a list of points.
abbrev pub count : ℕ → List ℕ → ℕ
count n [] = 0
count n (x ∷ xs) = (if x == n then 1 else 0) + count n xs

abbrev pub SameItems : List ℕ → List ℕ → Type 0
SameItems xs ys = (n : ℕ) → count n xs ≡ count n ys

abbrev pub Bag : Type 0
Bag = Quot SameItems

insert : ℕ → List ℕ → List ℕ
insert a [] = a ∷ []
insert a (x ∷ xs) = let later = insert a xs in if ltb x a then x ∷ later else a ∷ (x ∷ xs)

sort : List ℕ → List ℕ
sort [] = []
sort (x ∷ xs) = insert x (sort xs)

abbrev IsSorted : List ℕ → Type 0
IsSorted [] = Unit
IsSorted (x ∷ xs) = All (λ y. x ≤ y) xs × IsSorted xs

insert_corner-map :
    (a : ℕ) (xs : List ℕ) → insert_corner (number a) (map number xs) ≡ map number (insert a xs)
unfolding insert_corner insert
insert_corner-map a [] = refl
insert_corner-map a (x ∷ xs) = elim (Bool-cases (ltb x a)) [
  | inl t ↦ rw t (ap (number x ∷◌) (insert_corner-map a xs))
  | inr f ↦ rw f refl
]

face_key-map : (xs : List ℕ) → face_key (map number xs) ≡ map number (sort xs)
unfolding face_key sort
face_key-map [] = refl
face_key-map (x ∷ xs) =
    ap (insert_corner (number x)) (face_key-map xs) ∙ insert_corner-map x (sort xs)

count-insert :
    (n a : ℕ) (xs : List ℕ) → count n (insert a xs) ≡ (if a == n then 1 else 0) + count n xs
unfolding insert
count-insert n a [] = refl
count-insert n a (x ∷ xs) = ground (arith, count-insert n a xs)

count-sort : (n : ℕ) (xs : List ℕ) → count n (sort xs) ≡ count n xs
unfolding sort
count-sort n [] = refl
count-sort n (x ∷ xs) = omega (arith, count-insert n x (sort xs), count-sort n xs)

All-insert : (b a : ℕ) (xs : List ℕ) → b ≤ a → All (λ y. b ≤ y) xs → All (λ y. b ≤ y) (insert a xs)
unfolding insert
All-insert b a [] h k = (h, tt)
All-insert b a (x ∷ xs) h (p, k) = elim (Bool-cases (ltb x a)) [
  | inl t ↦ rw t (p, All-insert b a xs h k)
  | inr f ↦ rw f (h, (p, k))
]

insert-IsSorted : (a : ℕ) (xs : List ℕ) → IsSorted xs → IsSorted (insert a xs)
unfolding insert
insert-IsSorted a [] h = (tt, tt)
insert-IsSorted a (x ∷ xs) (p, h) = elim (Bool-cases (ltb x a)) [
  | inl t ↦ rw t (All-insert x a xs (ground arith) p, insert-IsSorted a xs h)
  | inr f ↦
      let below : a ≤ x = ground arith in
      rw f ((below, All-weaken (λ y. x ≤ y) xs (λ y q. omega arith) p), (p, h))
]

sort-IsSorted : (xs : List ℕ) → IsSorted (sort xs)
unfolding sort
sort-IsSorted [] = tt
sort-IsSorted (x ∷ xs) = insert-IsSorted x (sort xs) (sort-IsSorted xs)

count_absent : (n : ℕ) (xs : List ℕ) → All (λ y. suc n ≤ y) xs → count n xs ≡ 0
count_absent n [] h = refl
count_absent n (x ∷ xs) (p, h) = ground (arith, count_absent n xs h)

-- A head that is smaller than all of the other list does not occur there.
head_le :
    (x y : ℕ) (xs ys : List ℕ) → All (λ z. y ≤ z) ys → count x (x ∷ xs) ≡ count x (y ∷ ys) → y ≤ x
head_le x y xs ys h e = elim (Bool-cases (ltb x y)) [
  | inl t ↦
      let later : All (λ z. suc x ≤ z) ys =
        All-weaken (λ z. y ≤ z) ys (λ z q. let lt = ltb→lt x y t in omega arith) h in
      let zero_count = count_absent x ys later in let one = ==_refl x in ground arith
  | inr f ↦ ground arith
]

sorted_unique : (xs ys : List ℕ) → IsSorted xs → IsSorted ys → SameItems xs ys → xs ≡ ys
sorted_unique [] [] p q h = refl
sorted_unique [] (y ∷ ys) p q h = absurd (let e = h y in let s = ==_refl y in ground arith)
sorted_unique (x ∷ xs) [] p q h = absurd (let e = h x in let s = ==_refl x in ground arith)
sorted_unique (x ∷ xs) (y ∷ ys) (a, p) (b, q) h =
    let first : x ≡ y = omega (arith, head_le x y xs ys b (h x), head_le y x ys xs a (sym (h y))) in
    let rest : SameItems xs ys = λ n. let e = h n in ground arith in
    let tail : xs ≡ ys = sorted_unique xs ys p q rest in cc

sort-SameItems : (xs ys : List ℕ) → SameItems xs ys → sort xs ≡ sort ys
sort-SameItems xs ys h =
    sorted_unique (sort xs) (sort ys) (sort-IsSorted xs) (sort-IsSorted ys)
      (λ n. count-sort n xs ∙ h n ∙ sym (count-sort n ys))

map-number_injective : (xs ys : List ℕ) → map number xs ≡ map number ys → xs ≡ ys
map-number_injective [] [] h = refl
map-number_injective [] (y ∷ ys) h = cc
map-number_injective (x ∷ xs) [] h = cc
map-number_injective (x ∷ xs) (y ∷ ys) h =
    let tails : map number xs ≡ map number ys = cc in
    let heads : x ≡ y = cc in let rest : xs ≡ ys = map-number_injective xs ys tails in cc

SameItems-face_key :
    (xs ys : List ℕ) → face_key (map number xs) ≡ face_key (map number ys) → SameItems xs ys
SameItems-face_key xs ys h n =
    let same : sort xs ≡ sort ys =
      map-number_injective (sort xs) (sort ys) (sym (face_key-map xs) ∙ h ∙ face_key-map ys) in
    sym (count-sort n xs) ∙ ap (count n) same ∙ count-sort n ys

-- How often a point stands in a bag.
pub in_bag : ℕ → Bag → ℕ
in_bag n = Quot.lift (hlevel) (count n) λ xs ys h. h n

-- The key of a bag: the code's key of any list that it stands for.
pub bag_key : Bag → List Corner
bag_key =
    Quot.lift (hlevel) (λ xs. face_key (map number xs))
      λ xs ys h. face_key-map xs ∙ ap (map number) (sort-SameItems xs ys h) ∙ sym (face_key-map ys)

exact : (xs ys : List ℕ) → ◌≡◌ {A = Bag} (Quot.mk xs) (Quot.mk ys) → SameItems xs ys
unfolding in_bag
exact xs ys e n = ap (in_bag n) e

-- Two faces whose corners are points have one key exactly when they are the same points, each as
-- often, in whatever order the cells name them.
pub face_key-Bag :
    (xs ys : List ℕ)
    → (face_key (map number xs) ≡ face_key (map number ys))
      ↔ (◌≡◌ {A = Bag} (Quot.mk xs) (Quot.mk ys))
unfolding bag_key
face_key-Bag xs ys = (λ h. Quot.sound (SameItems-face_key xs ys h), λ e. ap bag_key e)
