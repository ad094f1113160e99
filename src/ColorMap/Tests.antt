-- ===== src/ColorMap/Tests.antt =====
-- Runs of the registry of color maps, with numbers as labels and stops.
use my_paraview_web.Common.{
  ℕ, zero, suc, ◌≡◌, refl, true, false, some, List, [], ◌∷◌, ◌++◌, arith, map,
}
use my_paraview_web.ColorMap.{Name}
use my_paraview_web.ColorMap.Registry.{Registry, has_label, register}
use my_paraview_web.ColorMap.Registry.Room.{IsBounded}
use my_paraview_web.ColorMap.Registry.Laws.{KeepsUnder, register-retained}

abbrev small_registry : Registry ℕ ℕ
small_registry = record {
  labels = record { id = 1 ∷ []; label = 10 } ∷ record { id = 2 ∷ []; label = 20 } ∷ [];
  maps = record { name = 1 ∷ []; stops = 0 } ∷ record { name = 2 ∷ []; stops = 0 } ∷ [];
  retained = record { id = 1 ∷ []; count = 1 } ∷ [];
  version = 2;
}

abbrev larger_registry : Registry ℕ ℕ
larger_registry = record {
  labels =
      record { id = 1 ∷ []; label = 10 }
      ∷ record { id = 2 ∷ []; label = 20 }
      ∷ record { id = 3 ∷ []; label = 30 }
      ∷ [];
  maps =
      record { name = 1 ∷ []; stops = 0 }
      ∷ record { name = 2 ∷ []; stops = 0 }
      ∷ record { name = 3 ∷ []; stops = 7 }
      ∷ [];
  retained = record { id = 1 ∷ []; count = 1 } ∷ [];
  version = 3;
}

small-IsBounded : IsBounded small_registry
small-IsBounded = record { labels_le = omega arith }

registered : register (3 ∷ []) 30 7 small_registry ≡ some (larger_registry, true)
unfolding register
registered = refl

-- 64 maps, each retained.
abbrev ids_below : ℕ → List Name
ids_below zero = []
ids_below (suc n) = (n ∷ []) ∷ ids_below n

abbrev full_registry : Registry ℕ ℕ
full_registry = record {
  labels = map (λ id. record { id = id; label = 0 }) (ids_below 64);
  maps = [];
  retained = map (λ id. record { id = id; count = 1 }) (ids_below 64);
  version = 64;
}

refused : register (99 ∷ []) 30 7 full_registry ≡ some (full_registry, false)
unfolding register
refused = refl

-- 64 maps, of which only the oldest is retained: the second oldest is evicted.
abbrev crowded_registry : Registry ℕ ℕ
crowded_registry = record {
  labels = map (λ id. record { id = id; label = 0 }) (ids_below 64);
  maps = map (λ id. record { name = id; stops = 5 }) (ids_below 64);
  retained = record { id = 63 ∷ []; count = 1 } ∷ [];
  version = 64;
}

abbrev after_eviction : Registry ℕ ℕ
after_eviction = record {
  labels =
      record { id = 63 ∷ []; label = 0 } ∷ map (λ id. record { id = id; label = 0 }) (ids_below 62)
      ++ record { id = 99 ∷ []; label = 30 } ∷ [];
  maps =
      record { name = 63 ∷ []; stops = 5 }
        ∷ map (λ id. record { name = id; stops = 5 }) (ids_below 62)
      ++ record { name = 99 ∷ []; stops = 7 } ∷ [];
  retained = record { id = 63 ∷ []; count = 1 } ∷ [];
  version = 65;
}

evicted : register (99 ∷ []) 30 7 crowded_registry ≡ some (after_eviction, true)
unfolding register
evicted = refl

register-retained_example :
    (has_label after_eviction.labels (63 ∷ []) ≡ true)
    × KeepsUnder (99 ∷ []) 30 7 (63 ∷ []) crowded_registry after_eviction
register-retained_example =
    register-retained (99 ∷ []) 30 7 crowded_registry (63 ∷ []) refl refl evicted
