-- ===== src/Slice/Bounds.antt =====
-- Theorems on the clamps of frontend/src/lib/comparison.ts.
use my_paraview_web.Common.{ℕ, ◌<◌, ◌≢◌, true, some, arith}
use my_paraview_web.Common.Int.{ℤ, pos, negsuc}
use my_paraview_web.Slice.{clamp_comparison_timestep, next_comparison_timestep}

-- For a collection of two timesteps or more, the timestep that is proposed for comparison is one of
-- its timesteps, and not the one that is shown, whatever index is asked for.
pub next_comparison_timestep_lem :
    (n : ℕ) (primary : ℤ)
    → 1 < n
    → (next_comparison_timestep true (some n) primary < n)
      × (next_comparison_timestep true (some n) primary
          ≢ clamp_comparison_timestep (some n) primary)
unfolding next_comparison_timestep clamp_comparison_timestep
next_comparison_timestep_lem n (pos k) h = (ground arith, ground arith)
next_comparison_timestep_lem n (negsuc k) h = (ground arith, ground arith)
