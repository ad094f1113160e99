-- ===== src/Vtu/Faces.antt =====
-- CELL_FACES, faceKey and the counting of faces in parseVtuSurface.
pub mod Corners
pub mod Order
pub mod Once
use my_paraview_web.Common.{
  ℕ, ◌+◌, Bool, true, false, ◌&&◌, Option, none, some, List, [], ◌∷◌, map, ◌==◌, ltb, if◌then◌else◌,
  get_or, ◌≡◌, refl, ◌↔◌, subst,
}
use my_paraview_web.Common.Eq.{Eq}
use my_paraview_web.Common.Dict.{dict_get, dict_set}
use my_paraview_web.Vtu.Faces.Corners.{Corner, number, nan, undefined, Corners_eq}

-- What an entry of `faceUse` holds.
pub record Use : Type 0 where
  pub ids : List Corner
  pub cell : ℕ
  pub count : ℕ

-- A face of a cell: `ids` with the cell's number in the file.
pub record Face : Type 0 where
  pub ids : List Corner
  pub cell : ℕ

-- Where `sort` has to put `a` behind `b`: `a - b > 0`, and what is undefined stands last.
abbrev pub is_behind : Corner → Corner → Bool
is_behind undefined undefined = false
is_behind undefined _ = true
is_behind (number a) (number b) = ltb b a
is_behind _ _ = false

unfoldable pub insert_corner : Corner → List Corner → List Corner
insert_corner c [] = c ∷ []
insert_corner c (x ∷ xs) =
    let later = insert_corner c xs in if is_behind c x then x ∷ later else c ∷ (x ∷ xs)

-- `faceKey`; two keys are one text exactly when these lists are equal
unfoldable pub face_key : List Corner → List Corner
unfolding insert_corner
face_key [] = []
face_key (c ∷ cs) = insert_corner c (face_key cs)

-- `CELL_FACES[type]`
abbrev pub tetra_faces : List (List ℕ)
tetra_faces = (0 ∷ 1 ∷ 3 ∷ []) ∷ (1 ∷ 2 ∷ 3 ∷ []) ∷ (2 ∷ 0 ∷ 3 ∷ []) ∷ (0 ∷ 2 ∷ 1 ∷ []) ∷ []

abbrev pub hexahedron_faces : List (List ℕ)
hexahedron_faces =
    (0 ∷ 4 ∷ 7 ∷ 3 ∷ [])
    ∷ (1 ∷ 2 ∷ 6 ∷ 5 ∷ [])
    ∷ (0 ∷ 1 ∷ 5 ∷ 4 ∷ [])
    ∷ (3 ∷ 7 ∷ 6 ∷ 2 ∷ [])
    ∷ (0 ∷ 3 ∷ 2 ∷ 1 ∷ [])
    ∷ (4 ∷ 5 ∷ 6 ∷ 7 ∷ [])
    ∷ []

abbrev pub wedge_faces : List (List ℕ)
wedge_faces =
    (0 ∷ 1 ∷ 2 ∷ [])
    ∷ (3 ∷ 5 ∷ 4 ∷ [])
    ∷ (0 ∷ 3 ∷ 4 ∷ 1 ∷ [])
    ∷ (1 ∷ 4 ∷ 5 ∷ 2 ∷ [])
    ∷ (2 ∷ 5 ∷ 3 ∷ 0 ∷ [])
    ∷ []

abbrev pub pyramid_faces : List (List ℕ)
pyramid_faces =
    (0 ∷ 3 ∷ 2 ∷ 1 ∷ [])
    ∷ (0 ∷ 1 ∷ 4 ∷ [])
    ∷ (1 ∷ 2 ∷ 4 ∷ [])
    ∷ (2 ∷ 3 ∷ 4 ∷ [])
    ∷ (3 ∷ 0 ∷ 4 ∷ [])
    ∷ []

unfoldable pub cell_faces : ℕ → Option (List (List ℕ))
cell_faces type =
    if type == 10
    then some tetra_faces
    else (if type == 12
        then some hexahedron_faces
        else (if type == 13
            then some wedge_faces
            else (if type == 14 then some pyramid_faces else none)))

-- `face.map((cornerIndex) => cellPointIds[cornerIndex])`
abbrev pub face_ids : List Corner → List ℕ → List Corner
face_ids ids face = map (λ corner. get_or ids corner undefined) face

abbrev pub counted : Option Use → Face → Use
counted none f = record { ids = f.ids; cell = f.cell; count = 1 }
counted (some use_) f = record use_ { count = use_.count + 1 }

-- one round of the loop over the faces of a cell; `existing.count += 1` changes the entry in place
unfoldable pub use_face : List (List Corner × Use) → Face → List (List Corner × Use)
unfolding face_key
use_face uses f = let key = face_key f.ids in dict_set uses key (counted (dict_get uses key) f)

unfoldable pub use_faces : List (List Corner × Use) → List Face → List (List Corner × Use)
unfolding use_face
use_faces uses [] = uses
use_faces uses (f ∷ fs) = use_faces (use_face uses f) fs

-- `for (const { ids, cell, count } of faceUse.values()) if (count === 1) …`
unfoldable pub used_once : List (List Corner × Use) → List Face
used_once [] = []
used_once ((key, u) ∷ rest) =
    let others = used_once rest in
    if u.count == 1 then record { ids = u.ids; cell = u.cell } ∷ others else others
