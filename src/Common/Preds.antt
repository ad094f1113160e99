-- ===== src/Common/Preds.antt =====
-- Predicates on lists, by recursion, and how they pass through the list functions.
use Prim.Native.Nat.{ℕ, zero, suc, ◌+◌, ◌<◌, ◌≤◌}
use mathlib.Core.Path.{◌≡◌}
use mathlib.Core.List.{List, [], ◌∷◌, ◌++◌, map}
use mathlib.Core.Option.{some}
use native.Mathlib.Omega.{arith}
use my_paraview_web.Common.Tests.{Bool-cases}
use mathlib.Core.Bool.{Bool, true}
use mathlib.Core.Logic.{inl, inr}
use my_paraview_web.Common.Lists.{filter, get_elem?, for_from, drop}

module _ {ℓ κ} {A : Type ℓ} where
  abbrev pub All : (A → Type κ) → List A → Type κ
  All P [] = Unit
  All P (x ∷ xs) = P x × All P xs

module _ {ℓ κ} {A : Type ℓ} (P : A → Type κ) where
  pub All-append : (xs ys : List A) → All P xs → All P ys → All P (xs ++ ys)
  All-append [] ys h k = k
  All-append (x ∷ xs) ys (p, h) k = (p, All-append xs ys h k)

  pub All-drop : (n : ℕ) (xs : List A) → All P xs → All P (drop n xs)
  All-drop zero xs h = h
  All-drop (suc n) [] h = h
  All-drop (suc n) (x ∷ xs) (_, h) = All-drop n xs h

  pub All-map {μ} : {B : Type μ} (f : B → A) (xs : List B) → ((b : B) → P (f b)) → All P (map f xs)
  All-map f [] h = tt
  All-map f (x ∷ xs) h = (h x, All-map f xs h)

  pub All-weaken {μ} : {Q : A → Type μ} (xs : List A) → ((a : A) → P a → Q a) → All P xs → All Q xs
  All-weaken [] f h = tt
  All-weaken (x ∷ xs) f (p, h) = (f x p, All-weaken xs f h)

  -- The rounds of a loop are numbered `start` up to `start + n - 1`.
  pub All-for_from :
      (n start : ℕ) (body : ℕ → List A)
      → ((i : ℕ) → start ≤ i → i < start + n → All P (body i))
      → All P (for_from n start body)
  unfolding for_from
  All-for_from zero start body h = tt
  All-for_from (suc n) start body h =
      All-append (body start) (for_from n (start + 1) body) (h start (omega arith) (omega arith))
        (All-for_from n (start + 1) body (λ i p q. h i (omega arith) (omega arith)))

  pub All-get_elem? : (xs : List A) (i : ℕ) {x : A} → All P xs → get_elem? xs i ≡ some x → P x
  All-get_elem? [] i h e = cc
  All-get_elem? (y ∷ xs) zero {x} (p, h) e = rw (some_injective e) at p
    where
      some_injective : some y ≡ some x → y ≡ x
      some_injective q = cc
  All-get_elem? (y ∷ xs) (suc i) (p, h) e = All-get_elem? xs i h e

  pub All-map_of {ι μ} :
      {B : Type ι} {Q : B → Type μ} (f : B → A) (xs : List B)
      → ((b : B) → Q b → P (f b))
      → All Q xs
      → All P (map f xs)
  All-map_of f [] k h = tt
  All-map_of f (x ∷ xs) k (q, h) = (k x q, All-map_of f xs k h)

  pub All-filter :
      (p : A → Bool) (xs : List A) → All P xs → All (λ a. P a × (p a ≡ true)) (filter p xs)
  All-filter p [] h = tt
  All-filter p (x ∷ xs) (q, h) = elim (Bool-cases (p x)) [
    | inl t ↦ rw t ((q, t), All-filter p xs h)
    | inr f ↦ rw f (All-filter p xs h)
  ]

  pub All-append_split : (xs ys : List A) → All P (xs ++ ys) → All P xs × All P ys
  All-append_split [] ys h = (tt, h)
  All-append_split (x ∷ xs) ys (p, h) = let (k, l) = All-append_split xs ys h in ((p, k), l)
