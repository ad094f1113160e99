-- ===== src/ColorMap/Registry/Room.antt =====
-- Lemmas on the labels and on the eviction loop of `registerCustomColorMap`,
-- frontend/src/lib/colormap.ts.
use my_paraview_web.Common.{
  ℕ, zero, suc, ◌≤◌, ◌<◌, ◌≡◌, ◌≢◌, refl, sym, ◌∙◌, subst, Bool, true, false, not, Option, none,
  some, List, [], ◌∷◌, ◌++◌, find?, length, leb, arith, length-filter_le, Bool-cases,
  some_injective, inl, inr,
}
use my_paraview_web.Common.Eq.{◌===◌, Units_eq, beq_refl, same_units_eq}
use my_paraview_web.ColorMap.{Name, max_registered_custom_color_maps}
use my_paraview_web.ColorMap.Registry.{
  Label, Stored, Retained, Registry, is_retained, Eviction, done, full, out_of_fuel, has_label,
  delete_label, delete_map, oldest_unused, evict_one, evict,
}
use my_paraview_web.ColorMap.Registry.Keyed.{label_of, map_of, find?-deleted, find?-deleted_none}

module _ {L : Type 0} where
  pub length-delete_label :
      (labels : List (Label L)) (id : Name)
      → has_label labels id ≡ true
      → length (delete_label labels id) < length labels
  length-delete_label [] id h = cc
  length-delete_label (l ∷ labels) id h = elim (Bool-cases (l.id === id)) [
    | inl same ↦ rw same (omega (arith, length-filter_le (λ l. not (l.id === id)) labels))
    | inr differs ↦ rw differs (omega (arith, length-delete_label labels id (rw differs at h)))
  ]

  has_label-find :
      (p : Label L → Bool) (labels : List (Label L)) {l : Label L}
      → find? p labels ≡ some l
      → (has_label labels l.id ≡ true) × (p l ≡ true)
  has_label-find p [] h = cc
  has_label-find p (k ∷ labels) {l} h = elim (Bool-cases (p k)) [
    | inl here ↦
        let same : k ≡ l = some_injective (rw here at h) in
        subst (λ x. (has_label (k ∷ labels) x.id ≡ true) × (p x ≡ true)) same
          (rw (beq_refl k.id) refl, here)
    | inr later ↦
        let (found, holds) = has_label-find p labels (rw later at h) in
        elim (Bool-cases (k.id === l.id)) [
          | inl same ↦ (rw same refl, holds)
          | inr differs ↦ (rw differs found, holds)
        ]
  ]

  -- Deleting another id keeps a label.
  pub has_label-delete_label :
      (labels : List (Label L)) (id k : Name)
      → (id === k) ≡ false
      → has_label labels k ≡ true
      → has_label (delete_label labels id) k ≡ true
  has_label-delete_label [] id k other h = h
  has_label-delete_label (l ∷ labels) id k other h = elim (Bool-cases (l.id === id)) [
    | inl same ↦
        let is : l.id ≡ id = same_units_eq l.id id same in
        let differs : (l.id === k) ≡ false = rw is other in
        rw same (has_label-delete_label labels id k other (rw differs at h))
    | inr kept ↦ elim (Bool-cases (l.id === k)) [
      | inl here ↦ rw (kept, here) refl
      | inr later ↦ rw (kept, later) (has_label-delete_label labels id k other (rw later at h))
    ]
  ]

  pub has_label-append :
      (labels : List (Label L)) (l : Label L) (k : Name)
      → has_label labels k ≡ true
      → has_label (labels ++ l ∷ []) k ≡ true
  has_label-append [] l k h = cc
  has_label-append (m ∷ labels) l k h = elim (Bool-cases (m.id === k)) [
    | inl here ↦ rw here refl
    | inr later ↦ rw later (has_label-append labels l k (rw later at h))
  ]

  pub has_label-last :
      (labels : List (Label L)) (l : Label L) → has_label (labels ++ l ∷ []) l.id ≡ true
  has_label-last [] l = rw (beq_refl l.id) refl
  has_label-last (m ∷ labels) l = elim (Bool-cases (m.id === l.id)) [
    | inl here ↦ rw here refl
    | inr later ↦ rw later (has_label-last labels l)
  ]

module _ {L S : Type 0} where
  pub record IsBounded (r : Registry L S) : Type 0 where
    pub labels_le : length r.labels ≤ max_registered_custom_color_maps

  abbrev removed : Label L → Registry L S → Registry L S
  removed l r = record r { labels = delete_label r.labels l.id; maps = delete_map r.maps l.id }

  -- A round evicts a label that is there and that no viewer retains, or stops at a full registry.
  evict_one_cases :
      (P : Eviction L S → Type 0) (rest : Registry L S → Eviction L S) (o : Option (Label L))
      (r : Registry L S)
      → oldest_unused r ≡ o
      → P (full r)
      → ((l : Label L)
          → has_label r.labels l.id ≡ true
          → is_retained r.retained l.id ≡ false
          → P (rest (removed l r)))
      → P (evict_one rest o r)
  unfolding evict_one
  evict_one_cases P rest none r e stops goes = stops
  evict_one_cases P rest (some l) r e stops goes =
      let (found, unused) = has_label-find (λ k. not (is_retained r.retained k.id)) r.labels e in
      goes l found (elim (Bool-cases (is_retained r.retained l.id)) [
        | inl used ↦ let bad = rw used at unused in cc
        | inr free ↦ free
      ])

  evict_cases :
      (P : Eviction L S → Type 0) (fuel : ℕ) (r : Registry L S)
      → (length r.labels < max_registered_custom_color_maps → P (done r))
      → P (full r)
      → ((l : Label L)
          → has_label r.labels l.id ≡ true
          → is_retained r.retained l.id ≡ false
          → P (evict fuel (removed l r)))
      → P (evict (suc fuel) r)
  unfolding evict
  evict_cases P fuel r ends stops goes =
      elim (Bool-cases (leb max_registered_custom_color_maps (length r.labels))) [
        | inl crowded ↦
            rw crowded (evict_one_cases P (evict fuel) (oldest_unused r) r refl stops goes)
        | inr room ↦ rw room (ends (ground arith))
      ]

  pub evict_ends :
      (fuel : ℕ) (r : Registry L S) → length r.labels < fuel → evict fuel r ≢ out_of_fuel
  evict_ends zero r h = absurd (omega arith)
  evict_ends (suc fuel) r h =
      evict_cases (λ v. v ≢ out_of_fuel) fuel r (λ _ e. cc) (λ e. cc)
        (λ l found _.
          evict_ends fuel (removed l r) (omega (arith, length-delete_label r.labels l.id found)))

  -- What the loop leaves when it makes room.
  pub record MakesRoom (r r' : Registry L S) : Type 0 where
    pub room : length r'.labels < max_registered_custom_color_maps
    pub same_retained : r'.retained ≡ r.retained
    pub keeps :
        (k : Name)
        → is_retained r.retained k ≡ true
        → has_label r.labels k ≡ true
        → has_label r'.labels k ≡ true
    -- Nothing changes under a retained name, and no label comes.
    pub same_label :
        (k : Name) → is_retained r.retained k ≡ true → label_of r'.labels k ≡ label_of r.labels k
    pub same_map : (k : Name) → is_retained r.retained k ≡ true → map_of r'.maps k ≡ map_of r.maps k
    pub none_new : (k : Name) → label_of r.labels k ≡ none → label_of r'.labels k ≡ none

  done_injective : {r r' : Registry L S} → done r ≡ done r' → r ≡ r'
  done_injective h = cc

  full_injective : {r r' : Registry L S} → full r ≡ full r' → r ≡ r'
  full_injective h = cc

  pub evict-MakesRoom :
      (fuel : ℕ) (r : Registry L S) {r' : Registry L S} → evict fuel r ≡ done r' → MakesRoom r r'
  unfolding evict
  evict-MakesRoom zero r h = cc
  evict-MakesRoom (suc fuel) r {r'} h =
      evict_cases (λ v. v ≡ done r' → MakesRoom r r') fuel r
        (λ small e. subst (MakesRoom r) (done_injective e) (record {
          room = small;
          same_retained = refl;
          keeps = λ k used there. there;
          same_label = λ k used. refl;
          same_map = λ k used. refl;
          none_new = λ k h. h;
        }))
        (λ e. cc)
        (λ l found free e.
          let later = evict-MakesRoom fuel (removed l r) e in
          record {
            room = later.room;
            same_retained = later.same_retained;
            keeps = λ k used there. later.keeps k used (
                has_label-delete_label r.labels l.id k (not_same l.id k r.retained free used)
                  there);
            same_label = λ k used.
                later.same_label k used
                ∙ find?-deleted (λ (x : Label L). x.id) r.labels l.id k
                    (not_same l.id k r.retained free used);
            same_map = λ k used.
                later.same_map k used
                ∙ find?-deleted (λ (x : Stored S). x.name) r.maps l.id k
                    (not_same l.id k r.retained free used);
            none_new = λ k absent.
                later.none_new k
                  (find?-deleted_none (λ (x : Label L). x.id) r.labels l.id k absent);
          })
        h
    where
      not_same :
          (id k : Name) (retained : List Retained)
          → is_retained retained id ≡ false
          → is_retained retained k ≡ true
          → (id === k) ≡ false
      not_same id k retained free used = elim (Bool-cases (id === k)) [
        | inr differs ↦ differs
        | inl same ↦ let is : id ≡ k = same_units_eq id k same in let bad = rw is at free in cc
      ]

  pub evict-room :
      (fuel : ℕ) (r : Registry L S)
      → length r.labels < max_registered_custom_color_maps
      → evict (suc fuel) r ≡ done r
  unfolding evict
  evict-room fuel r h = ground arith

  not_full_of_room :
      (fuel : ℕ) (r : Registry L S) {r' : Registry L S}
      → length r.labels < max_registered_custom_color_maps
      → evict fuel r ≢ full r'
  unfolding evict
  not_full_of_room zero r h = λ e. cc
  not_full_of_room (suc fuel) r {r'} h = ground arith

  pub evict-full :
      (fuel : ℕ) (r : Registry L S) {r' : Registry L S}
      → IsBounded r
      → evict (suc fuel) r ≡ full r'
      → r' ≡ r
  evict-full fuel r {r'} b h =
      evict_cases (λ v. v ≡ full r' → r' ≡ r) fuel r (λ small e. cc) (λ e. sym (full_injective e))
        (λ l found free e. absurd (
          not_full_of_room fuel (removed l r)
            (let m = b.labels_le in omega (arith, length-delete_label r.labels l.id found)) e))
        h
