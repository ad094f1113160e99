-- ===== src/ContextPool.antt =====
-- The budget of WebGL contexts, frontend/src/lib/viewer/contextPool.ts.
-- The closures of the leases share the pool's set: the store holds the pool and all leases that were
-- handed out. A token is the number of its lease, which makes it as fresh as a `Symbol`.
pub mod Leases
mod Tests
use Prim.Native.String.{String}
use my_paraview_web.Common.{
  ℕ, suc, ◌+◌, ◌≡◌, Bool, true, false, not, Option, none, some, List, [], ◌∷◌, ◌++◌, leb,
  if◌then◌else◌, length, get_elem?, set, filter, ◌==◌,
}
use my_paraview_web.Common.Int.{ℤ, pos, negsuc}

pub record Lease : Type 0 where
  pub owner : String
  pub released : Bool

pub record Pool : Type 0 where
  pub maximum : ℕ
  -- the set `active`, in the order of insertion
  pub active : List ℕ
  pub leases : List Lease

-- `createViewerContextPool`; `none` is the RangeError. An integer is given: a fraction is refused too.
unfoldable pub create : ℤ → Option Pool
create (pos (suc n)) = some (record { maximum = suc n; active = []; leases = [] })
create _ = none

abbrev pub active_count : Pool → ℕ
active_count p = length p.active

unfoldable pub try_acquire : String → Pool → Pool × Option ℕ
try_acquire owner p =
    if leb p.maximum (active_count p)
    then (p, none)
    else let token = length p.leases in
      (
        record p {
          active = p.active ++ token ∷ [];
          leases = p.leases ++ record { owner = owner; released = false } ∷ [];
        },
        some token,
      )

-- `released` of a lease, once it is looked up; there is no lease to a token that was not handed out.
pub release_lease : ℕ → Option Lease → Pool → Pool
release_lease token none p = p
release_lease token (some lease) p = if lease.released then p else record p {
  active = filter (λ t. not (t == token)) p.active;
  leases = set p.leases token (record lease { released = true });
}

unfoldable pub release : ℕ → Pool → Pool
unfolding release_lease
release token p = release_lease token (get_elem? p.leases token) p

pub data PoolAction : Type 0 where
  acquire_for : String → PoolAction
  release_of : ℕ → PoolAction

unfoldable pub act : Pool → PoolAction → Pool
act p (acquire_for owner) = (try_acquire owner p).0
act p (release_of token) = release token p

-- `viewerContextPool`
abbrev pub viewer_context_limit : ℕ
viewer_context_limit = 2
