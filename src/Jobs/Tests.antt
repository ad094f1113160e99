-- ===== src/Jobs/Tests.antt =====
-- A run of a merge, with natural numbers as texts and times.
use my_paraview_web.Common.{ℕ, ◌≡◌, refl, Bool, false, [], ◌∷◌, ltb, arith}
use my_paraview_web.Common.Eq.{ℕ_eq}
use my_paraview_web.Jobs.{Job, running, merge_all}
use my_paraview_web.Jobs.Merge.{IsNotBehind, merge_all_keeps_newest}

abbrev seen_at : ℕ → Job ℕ ℕ
seen_at t = record { id = 7; status = running; progress = t; log = 0; result = 0; updated_at = t }

abbrev after : ℕ → ℕ → Bool
after a b = ltb b a

after_irreflexive : (t : ℕ) → after t t ≡ false
after_irreflexive t = ground arith

after_transitive : (a b c : ℕ) → after a b ≡ false → after b c ≡ false → after a c ≡ false
after_transitive a b c h k = ground arith

merge_all_keeps_newest_example :
    IsNotBehind after after_irreflexive after_transitive
      (merge_all after (seen_at 5 ∷ []) (seen_at 8 ∷ seen_at 6 ∷ []))
      7
      (seen_at 5)
merge_all_keeps_newest_example =
    merge_all_keeps_newest after after_irreflexive after_transitive (seen_at 5 ∷ [])
      (seen_at 8 ∷ seen_at 6 ∷ []) 7 refl
