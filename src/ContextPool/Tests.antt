-- ===== src/ContextPool/Tests.antt =====
-- Runs of the pool of two contexts.
use mathlib.Core.List.{foldl}
use my_paraview_web.Common.{◌≡◌, refl, false, some, [], ◌∷◌, arith}
use my_paraview_web.Common.Int.{pos}
use my_paraview_web.ContextPool.{Pool, create, try_acquire, release, acquire_for, release_of, act}
use my_paraview_web.ContextPool.Leases.{IsValid, create-act-IsValid, try_acquire-release}

abbrev empty_pool : Pool
empty_pool = record { maximum = 2; active = []; leases = [] }

created : create (pos 2) ≡ some empty_pool
unfolding create
created = refl

abbrev full_pool : Pool
full_pool = record {
  maximum = 2;
  active = 0 ∷ 1 ∷ [];
  leases =
      record { owner = "left"; released = false }
      ∷ record { owner = "right"; released = false }
      ∷ [];
}

full_pool-IsValid : IsValid full_pool
full_pool-IsValid = record { live = refl; within = omega arith }

create-act-IsValid_example : IsValid (
    foldl act empty_pool
      (acquire_for "left" ∷ acquire_for "right" ∷ release_of 0 ∷ acquire_for "left" ∷ []))
create-act-IsValid_example =
    create-act-IsValid (pos 2) empty_pool
      (acquire_for "left" ∷ acquire_for "right" ∷ release_of 0 ∷ acquire_for "left" ∷ []) created

try_acquire-release_example : (try_acquire "third" (release 0 full_pool)).1 ≡ some 2
try_acquire-release_example = try_acquire-release "third" 0 full_pool full_pool-IsValid refl refl
