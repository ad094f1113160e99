-- ===== src/Vtu/Faces/Corners.antt =====
-- A corner of a cell in vtu.ts: a point's number, NaN where the connectivity ends too early, and
-- undefined where a cell has fewer corners than its type.
use my_paraview_web.Common.{
  ℕ, Bool, true, false, ◌&&◌, List, [], ◌∷◌, ◌==◌, ==_iff, ==_refl, ◌≡◌, refl, subst,
}
use mathlib.Core.Bool.{and-eq-true_iff}
use my_paraview_web.Common.Eq.{Eq}

pub data Corner : Type 0 where
  number : ℕ → Corner
  nan : Corner
  undefined : Corner

abbrev pub same_corner : Corner → Corner → Bool
same_corner (number a) (number b) = a == b
same_corner nan nan = true
same_corner undefined undefined = true
same_corner _ _ = false

pub same_corner_refl : (c : Corner) → same_corner c c ≡ true
same_corner_refl (number a) = ==_refl a
same_corner_refl nan = refl
same_corner_refl undefined = refl

pub same_corner_eq : (c d : Corner) → same_corner c d ≡ true → c ≡ d
same_corner_eq (number a) (number b) h = let e : a ≡ b = (==_iff a b).0 h in cc
same_corner_eq (number a) nan h = cc
same_corner_eq (number a) undefined h = cc
same_corner_eq nan (number b) h = cc
same_corner_eq nan nan h = refl
same_corner_eq nan undefined h = cc
same_corner_eq undefined (number b) h = cc
same_corner_eq undefined nan h = cc
same_corner_eq undefined undefined h = refl

abbrev pub same_corners : List Corner → List Corner → Bool
same_corners [] [] = true
same_corners (c ∷ cs) (d ∷ ds) = same_corner c d && same_corners cs ds
same_corners _ _ = false

pub same_corners_refl : (cs : List Corner) → same_corners cs cs ≡ true
same_corners_refl [] = refl
same_corners_refl (c ∷ cs) = (and-eq-true_iff _ _).1 (same_corner_refl c, same_corners_refl cs)

pub same_corners_eq : (cs ds : List Corner) → same_corners cs ds ≡ true → cs ≡ ds
same_corners_eq [] [] h = refl
same_corners_eq [] (d ∷ ds) h = cc
same_corners_eq (c ∷ cs) [] h = cc
same_corners_eq (c ∷ cs) (d ∷ ds) h =
    let (first, rest) = (and-eq-true_iff (same_corner c d) (same_corners cs ds)).0 h in
    let head : c ≡ d = same_corner_eq c d first in
    let tail : cs ≡ ds = same_corners_eq cs ds rest in cc

instance abbrev pub Corner_eq : Eq Corner
Corner_eq = record {
  beq = same_corner;
  beq_iff =
      λ c d. (same_corner_eq c d, λ e. subst (λ x. same_corner c x ≡ true) e (same_corner_refl c));
}

instance abbrev pub Corners_eq : Eq (List Corner)
Corners_eq = record {
  beq = same_corners;
  beq_iff = λ cs ds.
      (same_corners_eq cs ds, λ e. subst (λ x. same_corners cs x ≡ true) e (same_corners_refl cs));
}
