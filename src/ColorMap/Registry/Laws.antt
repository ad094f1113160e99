-- ===== src/ColorMap/Registry/Laws.antt =====
-- Theorems on `registerCustomColorMap` of frontend/src/lib/colormap.ts.
use my_paraview_web.Common.{
  ℕ, suc, ◌≤◌, ◌<◌, ◌≡◌, ◌≢◌, ◌⊎◌, refl, sym, ap, ◌∙◌, subst, Bool, true, false, not, none, some,
  [], ◌∷◌, ◌++◌, length, if◌then◌else◌, ◌+◌, arith, length-append, length-filter_le, Bool-cases,
  some_injective, inl, inr,
}
use my_paraview_web.Common.Eq.{◌===◌, Units_eq, same_units_eq}
use my_paraview_web.ColorMap.{Name, max_registered_custom_color_maps}
use my_paraview_web.ColorMap.Registry.{
  Label, Stored, Registry, is_retained, delete_map, Eviction, done, full, out_of_fuel, has_label,
  evict, without_label, store, register,
}
use my_paraview_web.ColorMap.Registry.Keyed.{
  label_of, map_of, find?-deleted, find?-deleted_self, find?-absent, find?-last, find?-replaced,
}
use my_paraview_web.ColorMap.Registry.Room.{
  MakesRoom, IsBounded, length-delete_label, has_label-delete_label, has_label-append,
  has_label-last, evict_ends, evict-MakesRoom, evict-room, evict-full,
}

module _ {L S : Type 0} where
  length-without_label :
      (id : Name) (r : Registry L S) → length (without_label id r).labels ≤ length r.labels
  length-without_label id r = elim (Bool-cases (has_label r.labels id)) [
    | inl has ↦ rw has (length-filter_le (λ l. not (l.id === id)) r.labels)
    | inr has_not ↦ rw has_not (omega arith)
  ]

  without_label-IsBounded :
      (id : Name) (r : Registry L S) → IsBounded r → IsBounded (without_label id r)
  without_label-IsBounded id r b = record {
    labels_le = let m = b.labels_le in omega (arith, length-without_label id r);
  }

  module _ (id : Name) (label : L) (stops : S) where
    store_ends : (v : Eviction L S) → v ≢ out_of_fuel → store id label stops v ≢ none
    unfolding store
    store_ends (done r) h = λ e. cc
    store_ends (full r) h = λ e. cc
    store_ends out_of_fuel h = absurd (h refl)

    -- The loop of a registration ends, whatever the registry holds.
    pub register_ends : (r : Registry L S) → register id label stops r ≢ none
    unfolding register
    register_ends r = store_ends (evict (suc (length r.labels)) (without_label id r)) (
        evict_ends (suc (length r.labels)) (without_label id r)
          (omega (arith, length-without_label id r)))

    store-IsBounded :
        (fuel : ℕ) (base : Registry L S) (v : Eviction L S) {r' : Registry L S} {stored : Bool}
        → evict (suc fuel) base ≡ v
        → IsBounded base
        → store id label stops v ≡ some (r', stored)
        → IsBounded r'
    unfolding store
    store-IsBounded fuel base (done q) e b h =
        let made = evict-MakesRoom (suc fuel) base e in
        subst IsBounded (ap (λ p. p.0) (some_injective h)) (record {
          labels_le =
              let m = made.room in
              omega (arith, length-append q.labels (record { id = id; label = label } ∷ []));
        })
    store-IsBounded fuel base (full q) e b h =
        subst IsBounded (sym (evict-full fuel base b e) ∙ ap (λ p. p.0) (some_injective h)) b
    store-IsBounded fuel base out_of_fuel e b h = cc

    -- A registry of 64 custom maps at most has 64 at most after a registration, refused or not.
    pub register-IsBounded :
        (r : Registry L S) {r' : Registry L S} {stored : Bool}
        → IsBounded r
        → register id label stops r ≡ some (r', stored)
        → IsBounded r'
    unfolding register
    register-IsBounded r b h =
        store-IsBounded (length r.labels) (without_label id r) _ refl
          (without_label-IsBounded id r b) h

    -- A map that is registered already can always be registered again.
    pub register-refresh :
        (r : Registry L S)
        → IsBounded r
        → has_label r.labels id ≡ true
        → (r' : Registry L S) × (register id label stops r ≡ some (r', true))
    unfolding register store
    register-refresh r b has =
        let smaller : length (without_label id r).labels < max_registered_custom_color_maps =
          rw has (let m = b.labels_le in omega (arith, length-delete_label r.labels id has)) in
        (_, ap (store id label stops) (evict-room (length r.labels) (without_label id r) smaller))

    store-full :
        (fuel : ℕ) (r : Registry L S) (v : Eviction L S) {r' : Registry L S}
        → evict (suc fuel) r ≡ v
        → IsBounded r
        → store id label stops v ≡ some (r', false)
        → r' ≡ r
    unfolding store
    store-full fuel r (done q) e b h = let bad = ap (λ p. p.1) (some_injective h) in cc
    store-full fuel r (full q) e b h =
        sym (ap (λ p. p.0) (some_injective h)) ∙ evict-full fuel r b e
    store-full fuel r out_of_fuel e b h = cc

    -- A registration that is refused, for all maps are retained, changes nothing.
    pub register-refused :
        (r : Registry L S) {r' : Registry L S}
        → IsBounded r
        → register id label stops r ≡ some (r', false)
        → r' ≡ r
    unfolding register
    register-refused r {r'} b h = elim (Bool-cases (has_label r.labels id)) [
      | inl has ↦
          let (q, stored) = register-refresh r b has in
          let differs = ap (λ p. p.1) (some_injective (sym stored ∙ h)) in cc
      | inr has_not ↦
          let same : without_label id r ≡ r = rw has_not refl in
          store-full (length r.labels) r _ refl b (rw has_not at h)
    ]

    store_keeps :
        (fuel : ℕ) (base : Registry L S) (v : Eviction L S) (k : Name) {r' : Registry L S}
        → evict fuel base ≡ v
        → is_retained base.retained k ≡ true
        → (id ≡ k) ⊎ (has_label base.labels k ≡ true)
        → store id label stops v ≡ some (r', true)
        → has_label r'.labels k ≡ true
    unfolding store
    store_keeps fuel base (done q) k e used (inl same) h =
        subst (λ (r : Registry L S). has_label r.labels k ≡ true) (ap (λ p. p.0) (some_injective h))
          (subst (λ n. has_label (q.labels ++ record { id = id; label = label } ∷ []) n ≡ true) same
            (has_label-last q.labels (record { id = id; label = label })))
    store_keeps fuel base (done q) k e used (inr there) h =
        let made = evict-MakesRoom fuel base e in
        subst (λ (r : Registry L S). has_label r.labels k ≡ true) (ap (λ p. p.0) (some_injective h))
          (has_label-append q.labels (record { id = id; label = label }) k
            (made.keeps k used there))
    store_keeps fuel base (full q) k e used there h =
        let bad = ap (λ p. p.1) (some_injective h) in cc
    store_keeps fuel base out_of_fuel k e used there h = cc

    has_label-without :
        (r : Registry L S) (k : Name)
        → has_label r.labels k ≡ true
        → (id ≡ k) ⊎ (has_label (without_label id r).labels k ≡ true)
    has_label-without r k there = elim (Bool-cases (id === k)) [
      | inl same ↦ inl (same_units_eq id k same)
      | inr differs ↦ elim (Bool-cases (has_label r.labels id)) [
        | inl has ↦ inr (rw has (has_label-delete_label r.labels id k differs there))
        | inr has_not ↦ inr (rw has_not there)
      ]
    ]

    retained-without : (r : Registry L S) → (without_label id r).retained ≡ r.retained
    retained-without r = elim (Bool-cases (has_label r.labels id)) [
      | inl has ↦ rw has refl
      | inr has_not ↦ rw has_not refl
    ]

    label_of-without :
        (r : Registry L S) (k : Name)
        → label_of (without_label id r).labels k ≡ (if id === k then none else label_of r.labels k)
    label_of-without r k = elim (Bool-cases (id === k)) [
      | inl same ↦
          let is : id ≡ k = same_units_eq id k same in
          rw same (elim (Bool-cases (has_label r.labels id)) [
            | inl has ↦ rw (has, is) (find?-deleted_self (λ (x : Label L). x.id) r.labels k)
            | inr has_not ↦
                rw has_not (find?-absent (λ (x : Label L). x.id) r.labels k (rw is at has_not))
          ])
      | inr other ↦ rw other (elim (Bool-cases (has_label r.labels id)) [
        | inl has ↦ rw has (find?-deleted (λ (x : Label L). x.id) r.labels id k other)
        | inr has_not ↦ rw has_not refl
      ])
    ]

    maps-without : (r : Registry L S) → (without_label id r).maps ≡ r.maps
    maps-without r = elim (Bool-cases (has_label r.labels id)) [
      | inl has ↦ rw has refl
      | inr has_not ↦ rw has_not refl
    ]

    -- Under `k` stands what is new where `k` is the registered name, and else what stood there.
    abbrev pub KeepsUnder : Name → Registry L S → Registry L S → Type 0
    KeepsUnder k r r' =
        (label_of r'.labels k
          ≡ (if id === k then some (record { id = id; label = label }) else label_of r.labels k))
        × (map_of r'.maps k
            ≡ (if id === k then some (record { name = id; stops = stops }) else map_of r.maps k))

    stored-KeepsUnder :
        (r q : Registry L S) (k : Name)
        → MakesRoom (without_label id r) q
        → is_retained (without_label id r).retained k ≡ true
        → KeepsUnder k r (record q {
          labels = q.labels ++ record { id = id; label = label } ∷ [];
          maps = delete_map q.maps id ++ record { name = id; stops = stops } ∷ [];
          version = q.version + 1;
        })
    stored-KeepsUnder r q k made used =
        let before = label_of-without r k in
        let labels =
          find?-last (λ (x : Label L). x.id) q.labels (record { id = id; label = label }) k
            (λ same. made.none_new k (rw same at before)) in
        let maps =
          find?-replaced (λ (x : Stored S). x.name) q.maps (record { name = id; stops = stops })
            k in
        elim (Bool-cases (id === k)) [
          | inl same ↦ rw same (rw same at labels, rw same at maps)
          | inr other ↦ rw other (
            (rw other at labels) ∙ (made.same_label k used ∙ (rw other at before)),
            (rw other at maps) ∙ (made.same_map k used ∙ ap (λ m. map_of m k) (maps-without r)),
          )
        ]

    store-KeepsUnder :
        (fuel : ℕ) (r : Registry L S) (v : Eviction L S) (k : Name) {r' : Registry L S}
        → evict fuel (without_label id r) ≡ v
        → is_retained (without_label id r).retained k ≡ true
        → store id label stops v ≡ some (r', true)
        → KeepsUnder k r r'
    unfolding store
    store-KeepsUnder fuel r (done q) k e used h =
        subst (KeepsUnder k r) (ap (λ p. p.0) (some_injective h))
          (stored-KeepsUnder r q k (evict-MakesRoom fuel (without_label id r) e) used)
    store-KeepsUnder fuel r (full q) k e used h = let bad = ap (λ p. p.1) (some_injective h) in cc
    store-KeepsUnder fuel r out_of_fuel k e used h = cc

    -- A map that some viewer retains is never evicted by a registration that succeeds: its label
    -- and its stops stay what they were, or are the registered ones where its own name is
    -- registered again.
    pub register-retained :
        (r : Registry L S) (k : Name) {r' : Registry L S}
        → is_retained r.retained k ≡ true
        → has_label r.labels k ≡ true
        → register id label stops r ≡ some (r', true)
        → (has_label r'.labels k ≡ true) × KeepsUnder k r r'
    unfolding register
    register-retained r k used there h =
        let still = subst (λ s. is_retained s k ≡ true) (sym (retained-without r)) used in
        (
          store_keeps (suc (length r.labels)) (without_label id r) _ k refl still
              (has_label-without r k there) h,
          store-KeepsUnder (suc (length r.labels)) r _ k refl still h,
        )
