-- ===== src/ColorMap/Registry/Known.antt =====
-- The map that a registration of frontend/src/lib/colormap.ts has stored.
use my_paraview_web.Common.{
  ◌≡◌, refl, ap, subst, true, some, List, [], ◌∷◌, ◌++◌, any, some_injective, Bool-cases, inl, inr,
}
use my_paraview_web.Common.Eq.{◌===◌, Units_eq, beq_refl}
use my_paraview_web.ColorMap.{Name}
use my_paraview_web.ColorMap.Registry.{
  Registry, Stored, Eviction, done, full, out_of_fuel, delete_map, store, register,
}

any-last :
    {S : Type 0} (ms : List (Stored S)) (m : Stored S)
    → any (λ k. k.name === m.name) (ms ++ m ∷ []) ≡ true
any-last [] m = rw (beq_refl m.name) refl
any-last (k ∷ ms) m = elim (Bool-cases (k.name === m.name)) [
  | inl same ↦ rw same refl
  | inr differs ↦ rw differs (any-last ms m)
]

module _ {L S : Type 0} where
  store-stored :
      (id : Name) (label : L) (stops : S) (v : Eviction L S) {r' : Registry L S}
      → store id label stops v ≡ some (r', true)
      → any (λ m. m.name === id) r'.maps ≡ true
  unfolding store
  store-stored id label stops (done r) h =
      subst (λ (k : Registry L S). any (λ m. m.name === id) k.maps ≡ true)
        (ap (λ p. p.0) (some_injective h))
        (any-last (delete_map r.maps id) (record { name = id; stops = stops }))
  store-stored id label stops (full r) h = let bad = ap (λ p. p.1) (some_injective h) in cc
  store-stored id label stops out_of_fuel h = cc

  -- A registration that succeeds has stored the map under its name.
  pub register-stored :
      (id : Name) (label : L) (stops : S) (r : Registry L S) {r' : Registry L S}
      → register id label stops r ≡ some (r', true)
      → any (λ m. m.name === id) r'.maps ≡ true
  unfolding register
  register-stored id label stops r h = store-stored id label stops _ h
