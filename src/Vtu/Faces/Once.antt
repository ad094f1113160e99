-- ===== src/Vtu/Faces/Once.antt =====
-- The faces that are left over, against a count of all faces.
use my_paraview_web.Common.{
  ℕ, ◌+◌, ◌≤◌, Bool, true, false, ◌&&◌, Option, none, some, List, [], ◌∷◌, ◌++◌, ◌==◌,
  if◌then◌else◌, ◌≡◌, refl, sym, ◌∙◌, ap, filter, All, All-weaken, Bool-cases, Option-cases, inl,
  inr, arith, append-nil, append_assoc,
}
use my_paraview_web.Common.Eq.{beq_refl}
use my_paraview_web.Common.Dict.{dict_get, dict_set, dict_get-dict_set}
use my_paraview_web.Vtu.Faces.{Use, Face, face_key, counted, use_face, use_faces, used_once}
use my_paraview_web.Vtu.Faces.Corners.{Corner, Corners_eq, same_corners}

abbrev pub hits : List Corner → Face → ℕ
hits key f = if same_corners (face_key f.ids) key then 1 else 0

-- How many faces have a key.
abbrev pub occurrences : List Corner → List Face → ℕ
occurrences key [] = 0
occurrences key (f ∷ fs) = hits key f + occurrences key fs

abbrev is_absent : Option Use → Bool
is_absent none = true
is_absent (some u) = false

abbrev face_of : Use → Face
face_of u = record { ids = u.ids; cell = u.cell }

-- The entries that are counted once when the faces `fs` follow.
abbrev once_with : List Face → List (List Corner × Use) → List Face
once_with fs [] = []
once_with fs ((key, u) ∷ rest) =
    let others = once_with fs rest in
    if u.count + occurrences key fs == 1 then face_of u ∷ others else others

abbrev IsDistinct : List (List Corner × Use) → Type 0
IsDistinct [] = Unit
IsDistinct ((key, u) ∷ rest) = (dict_get rest key ≡ none) × IsDistinct rest

if_same {ℓ} : {A : Type ℓ} (b : Bool) (x : A) → (if b then x else x) ≡ x
if_same true x = refl
if_same false x = refl

IsDistinct-dict_set :
    (uses : List (List Corner × Use)) (k : List Corner) (u : Use)
    → IsDistinct uses
    → IsDistinct (dict_set uses k u)
IsDistinct-dict_set [] k u d = (refl, tt)
IsDistinct-dict_set ((key, old) ∷ rest) k u (a, d) = elim (Bool-cases (same_corners key k)) [
  | inl t ↦ rw t (a, d)
  | inr f ↦ rw f (
    (dict_get-dict_set rest k u key ∙ (elim (Bool-cases (same_corners k key)) [
      | inl t ↦
          let same : k ≡ key = (Corners_eq.beq_iff k key).0 t in
          let again : key ≡ k = sym same in
          absurd (let w : same_corners key k ≡ true = (Corners_eq.beq_iff key k).1 again in cc)
      | inr t ↦ rw t a
    ])),
    IsDistinct-dict_set rest k u d,
  )
]

swapped : (a b : List Corner) → same_corners a b ≡ false → same_corners b a ≡ false
swapped a b h = elim (Bool-cases (same_corners b a)) [
  | inl t ↦
      let same : b ≡ a = (Corners_eq.beq_iff b a).0 t in
      let again : a ≡ b = sym same in
      absurd (let w : same_corners a b ≡ true = (Corners_eq.beq_iff a b).1 again in cc)
  | inr f ↦ f
]

-- A face with another key does not change what an entry counts to.
hits_other :
    (key : List Corner) (f : Face) (n : ℕ)
    → same_corners key (face_key f.ids) ≡ false
    → hits key f + n ≡ n
hits_other key f n h = rw (swapped key (face_key f.ids) h) (omega arith)

tail_or :
    (b : Bool) (x : Face) (xs ys zs : List Face)
    → ys ≡ xs ++ zs
    → (if b then x ∷ ys else ys) ≡ (if b then x ∷ xs else xs) ++ zs
tail_or true x xs ys zs h = ap (x ∷◌) h
tail_or false x xs ys zs h = h

-- An entry that is new goes behind the others.
once_with-dict_set_new :
    (fs : List Face) (f : Face) (uses : List (List Corner × Use))
    → dict_get uses (face_key f.ids) ≡ none
    → once_with fs (dict_set uses (face_key f.ids) (counted none f))
      ≡ once_with (f ∷ fs) uses ++ (if occurrences (face_key f.ids) fs == 0 then f ∷ [] else [])
once_with-dict_set_new fs f [] h = ground arith
once_with-dict_set_new fs f ((key, u) ∷ rest) h =
    elim (Bool-cases (same_corners key (face_key f.ids))) [
      | inl t ↦ absurd (let w : some u ≡ none = rw t at h in cc)
      | inr n ↦
          let none_later : dict_get rest (face_key f.ids) ≡ none = rw n at h in
          rw (n, hits_other key f (occurrences key fs) n)
            (tail_or (u.count + occurrences key fs == 1) (face_of u) (once_with (f ∷ fs) rest) _ _
              (once_with-dict_set_new fs f rest none_later))
    ]

-- Entries with other keys do not see a face.
once_with-other :
    (fs : List Face) (f : Face) (uses : List (List Corner × Use))
    → dict_get uses (face_key f.ids) ≡ none
    → once_with fs uses ≡ once_with (f ∷ fs) uses
once_with-other fs f [] h = refl
once_with-other fs f ((key, u) ∷ rest) h = elim (Bool-cases (same_corners key (face_key f.ids))) [
  | inl t ↦ absurd (let w : some u ≡ none = rw t at h in cc)
  | inr n ↦
      let none_later : dict_get rest (face_key f.ids) ≡ none = rw n at h in
      rw (hits_other key f (occurrences key fs) n, once_with-other fs f rest none_later) refl
]

-- An entry that is there counts one more.
once_with-dict_set_old :
    (fs : List Face) (f : Face) (uses : List (List Corner × Use)) (old : Use)
    → dict_get uses (face_key f.ids) ≡ some old
    → IsDistinct uses
    → once_with fs (dict_set uses (face_key f.ids) (counted (some old) f)) ≡ once_with (f ∷ fs) uses
once_with-dict_set_old fs f [] old h d = cc
once_with-dict_set_old fs f ((key, u) ∷ rest) old h (a, d) =
    elim (Bool-cases (same_corners key (face_key f.ids))) [
      | inl t ↦
          let same : key ≡ face_key f.ids = (Corners_eq.beq_iff key (face_key f.ids)).0 t in
          let absent : dict_get rest (face_key f.ids) ≡ none = rw same at a in
          let first : old ≡ u = let e : some u ≡ some old = rw t at h in cc in
          let one : hits key f ≡ 1 =
            rw ((Corners_eq.beq_iff (face_key f.ids) key).1 (sym same)) refl in
          let count_eq : old.count + 1 + occurrences key fs
              ≡ u.count + (hits key f + occurrences key fs) =
            rw (first, one) (omega arith) in
          rw (t, count_eq, first, once_with-other fs f rest absent) refl
      | inr n ↦
          let later : dict_get rest (face_key f.ids) ≡ some old = rw n at h in
          rw
            (
              n,
              hits_other key f (occurrences key fs) n,
              once_with-dict_set_old fs f rest old later d,
            )
            refl
    ]

-- The faces of a list that are new and occur once in it.
abbrev is_single : List (List Corner × Use) → List Face → Face → Bool
is_single uses fs f =
    is_absent (dict_get uses (face_key f.ids)) && occurrences (face_key f.ids) fs == 1

occurs : (fs : List Face) → All (λ g. 1 ≤ occurrences (face_key g.ids) fs) fs
occurs [] = tt
occurs (f ∷ fs) = (
  rw (beq_refl (face_key f.ids)) (omega arith),
  All-weaken (λ g. 1 ≤ occurrences (face_key g.ids) fs) fs (λ g h. omega arith) (occurs fs),
)

filter_congr :
    {A : Type 0} (p q : A → Bool) (xs : List A)
    → All (λ x. p x ≡ q x) xs
    → filter p xs ≡ filter q xs
filter_congr p q [] h = refl
filter_congr p q (x ∷ xs) (e, h) = rw (e, filter_congr p q xs h) refl

and-false : (b : Bool) → (b && false) ≡ false
and-false true = refl
and-false false = refl

-- A face that came first hides the later ones with its key.
is_single-use_face :
    (uses : List (List Corner × Use)) (f : Face) (fs : List Face) (g : Face)
    → 1 ≤ occurrences (face_key g.ids) fs
    → is_single (use_face uses f) fs g ≡ is_single uses (f ∷ fs) g
unfolding use_face
is_single-use_face uses f fs g h =
    let k = face_key f.ids in
    let new = counted (dict_get uses k) f in
    rw (dict_get-dict_set uses k new (face_key g.ids))
      (elim (Bool-cases (same_corners k (face_key g.ids))) [
        | inl t ↦
            let more : (1 + occurrences (face_key g.ids) fs == 1) ≡ false = ground arith in
            rw (t, more) (sym (and-false (is_absent (dict_get uses (face_key g.ids)))))
        | inr n ↦
            let none_more : 0 + occurrences (face_key g.ids) fs ≡ occurrences (face_key g.ids) fs =
              omega arith in
            rw (n, none_more) refl
      ])

used_once-eq-once_with : (uses : List (List Corner × Use)) → used_once uses ≡ once_with [] uses
unfolding used_once
used_once-eq-once_with [] = refl
used_once-eq-once_with ((key, u) ∷ rest) =
    let e : u.count + 0 ≡ u.count = omega arith in rw (e, used_once-eq-once_with rest) refl

IsDistinct-use_face :
    (uses : List (List Corner × Use)) (f : Face) → IsDistinct uses → IsDistinct (use_face uses f)
unfolding use_face
IsDistinct-use_face uses f d = IsDistinct-dict_set uses _ _ d

-- What a face adds to the entries that stay single.
next_single :
    (uses : List (List Corner × Use)) (f : Face) (fs later : List Face)
    → IsDistinct uses
    → once_with fs (use_face uses f) ++ later
      ≡ once_with (f ∷ fs) uses ++ (if is_single uses (f ∷ fs) f then f ∷ later else later)
unfolding use_face
next_single uses f fs later d = elim (Option-cases (dict_get uses (face_key f.ids))) [
  | inl e ↦
      let same : same_corners (face_key f.ids) (face_key f.ids) ≡ true =
        beq_refl (face_key f.ids) in
      let one : (1 + occurrences (face_key f.ids) fs == 1)
          ≡ (occurrences (face_key f.ids) fs == 0) =
        ground arith in
      rw (e, same, one, once_with-dict_set_new fs f uses e)
        (append_assoc (once_with (f ∷ fs) uses) _ later
          ∙ ap (once_with (f ∷ fs) uses ++◌)
              (push_if (occurrences (face_key f.ids) fs == 0) f later))
  | inr (old, e) ↦ rw (e, once_with-dict_set_old fs f uses old e d) refl
]
  where
    push_if :
        (b : Bool) (x : Face) (xs : List Face)
        → (if b then x ∷ [] else []) ++ xs ≡ (if b then x ∷ xs else xs)
    push_if true x xs = refl
    push_if false x xs = refl

used_once-use_faces :
    (fs : List Face) (uses : List (List Corner × Use))
    → IsDistinct uses
    → used_once (use_faces uses fs) ≡ once_with fs uses ++ filter (is_single uses fs) fs
unfolding use_faces
used_once-use_faces [] uses d = used_once-eq-once_with uses ∙ sym (append-nil (once_with [] uses))
used_once-use_faces (f ∷ fs) uses d =
    used_once-use_faces fs (use_face uses f) (IsDistinct-use_face uses f d)
    ∙ next_single uses f fs _ d
    ∙ ap (λ rest. once_with (f ∷ fs) uses ++ (if is_single uses (f ∷ fs) f then f ∷ rest else rest))
        (filter_congr (is_single (use_face uses f) fs) (is_single uses (f ∷ fs)) fs (
          All-weaken (λ g. 1 ≤ occurrences (face_key g.ids) fs) fs
            (λ g h. is_single-use_face uses f fs g h) (occurs fs)))

-- The faces that the loop leaves are those whose key occurs once, in the order of the cells.
pub used_once-new :
    (fs : List Face)
    → used_once (use_faces [] fs) ≡ filter (λ f. occurrences (face_key f.ids) fs == 1) fs
used_once-new fs = used_once-use_faces fs [] tt
