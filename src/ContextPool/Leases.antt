-- ===== src/ContextPool/Leases.antt =====
-- Theorems on the leases of frontend/src/lib/viewer/contextPool.ts.
use Prim.Native.String.{String}
use mathlib.Core.List.{foldl}
use my_paraview_web.Common.{
  ℕ, zero, suc, ◌+◌, ◌≤◌, ◌<◌, ◌≡◌, ◌↔◌, refl, sym, ◌∙◌, ap, true, false, not, Option, none, some,
  List, [], ◌∷◌, ◌++◌, leb, if◌then◌else◌, length, get_elem?, set, filter, ◌==◌, arith,
  length-append, length-filter_le, length-set, Bool-cases, Option-cases, inl, inr,
}
use my_paraview_web.Common.Int.{ℤ, pos}
use my_paraview_web.ContextPool.{
  Lease, Pool, create, active_count, try_acquire, release_lease, release, PoolAction, acquire_for,
  release_of, act,
}

-- The numbers of the leases that are not released, from number `i` on.
abbrev pub live_from : ℕ → List Lease → List ℕ
live_from i [] = []
live_from i (l ∷ ls) = if l.released then live_from (i + 1) ls else i ∷ live_from (i + 1) ls

pub record IsValid (p : Pool) : Type 0 where
  pub live : p.active ≡ live_from 0 p.leases
  pub within : active_count p ≤ p.maximum

live_from-append :
    (i : ℕ) (ls : List Lease) (l : Lease)
    → l.released ≡ false
    → live_from i (ls ++ l ∷ []) ≡ live_from i ls ++ (i + length ls) ∷ []
live_from-append i [] l h = let e : i + 0 ≡ i = omega arith in rw (h, e)
live_from-append i (k ∷ ls) l h =
    let e : i + 1 + length ls ≡ i + suc (length ls) = omega arith in
    elim (Bool-cases k.released) [
      | inl r ↦ rw (r, ← e) (live_from-append (i + 1) ls l h)
      | inr r ↦ rw (r, ← e) (ap (i ∷◌) (live_from-append (i + 1) ls l h))
    ]

-- Removing a number below all of them changes nothing.
filter-live_from :
    (i token : ℕ) (ls : List Lease)
    → token < i
    → filter (λ t. not (t == token)) (live_from i ls) ≡ live_from i ls
filter-live_from i token [] h = refl
filter-live_from i token (l ∷ ls) h = ground (arith, filter-live_from (i + 1) token ls)

abbrev freed : Lease → Lease
freed l = record l { released = true }

live_from-set :
    (i n token : ℕ) (ls : List Lease) {l : Lease}
    → token ≡ i + n
    → get_elem? ls n ≡ some l
    → filter (λ t. not (t == token)) (live_from i ls) ≡ live_from i (set ls n (freed l))
live_from-set i n token [] e h = cc
live_from-set i zero token (k ∷ ls) e h = ground (arith, filter-live_from (i + 1) token ls)
live_from-set i (suc n) token (k ∷ ls) {l} e h =
    ground (arith, live_from-set (i + 1) n token ls {l = l})

create-IsValid : (n : ℤ) {p : Pool} → create n ≡ some p → IsValid p
unfolding create
create-IsValid (pos (suc n)) h = ground arith
create-IsValid _ h = cc

try_acquire-IsValid : (owner : String) (p : Pool) → IsValid p → IsValid (try_acquire owner p).0
unfolding try_acquire
try_acquire-IsValid owner p h = elim (Bool-cases (leb p.maximum (active_count p))) [
  | inl full ↦ rw full h
  | inr room ↦
      let start : 0 + length p.leases ≡ length p.leases = omega arith in
      let next = live_from-append 0 p.leases (record { owner = owner; released = false }) refl in
      rw room (record {
        live = ap (λ a. a ++ length p.leases ∷ []) h.live ∙ sym (rw start at next);
        within = ground (arith, length-append p.active (length p.leases ∷ []));
      })
]

release_lease-IsValid :
    (token : ℕ) (o : Option Lease) (p : Pool)
    → get_elem? p.leases token ≡ o
    → IsValid p
    → IsValid (release_lease token o p)
unfolding release_lease
release_lease-IsValid token none p e h = h
release_lease-IsValid token (some l) p e h = elim (Bool-cases l.released) [
  | inl again ↦ rw again h
  | inr first ↦
      let start : token ≡ 0 + token = omega arith in
      rw first (record {
        live =
            ap (filter (λ t. not (t == token))) h.live
            ∙ live_from-set 0 token token p.leases start e;
        within = omega (arith, length-filter_le (λ t. not (t == token)) p.active, h.within);
      })
]

act-IsValid : (p : Pool) (a : PoolAction) → IsValid p → IsValid (act p a)
unfolding act release
act-IsValid p (acquire_for owner) h = try_acquire-IsValid owner p h
act-IsValid p (release_of token) h = release_lease-IsValid token _ p refl h

foldl-act-IsValid :
    (actions : List PoolAction) (p : Pool) → IsValid p → IsValid (foldl act p actions)
foldl-act-IsValid [] p h = h
foldl-act-IsValid (a ∷ actions) p h = foldl-act-IsValid actions (act p a) (act-IsValid p a h)

-- After any sequence of acquisitions and releases of a new pool, its active tokens are those of the
-- leases that are not released, and there are no more of them than the maximum.
pub create-act-IsValid :
    (n : ℤ) (p : Pool) (actions : List PoolAction)
    → create n ≡ some p
    → IsValid (foldl act p actions)
create-act-IsValid n p actions h = foldl-act-IsValid actions p (create-IsValid n h)

-- A lease is refused exactly when as many leases as the maximum are not released.
pub try_acquire-none_iff :
    (owner : String) (p : Pool)
    → IsValid p
    → ((try_acquire owner p).1 ≡ none) ↔ (length (live_from 0 p.leases) ≡ p.maximum)
unfolding try_acquire
try_acquire-none_iff owner p h =
    let same : length p.active ≡ length (live_from 0 p.leases) = ap length h.live in ground arith

get_elem?-set_self :
    (ls : List Lease) (n : ℕ) (l : Lease) {k : Lease}
    → get_elem? ls n ≡ some k
    → get_elem? (set ls n l) n ≡ some l
get_elem?-set_self [] n l h = cc
get_elem?-set_self (x ∷ ls) zero l h = refl
get_elem?-set_self (x ∷ ls) (suc n) l h = get_elem?-set_self ls n l h

-- Releasing a lease a second time changes nothing.
pub release_idempotent : (token : ℕ) (p : Pool) → release token (release token p) ≡ release token p
unfolding release release_lease
release_idempotent token p = elim (Option-cases (get_elem? p.leases token)) [
  | inl missing ↦ rw (missing, missing)
  | inr (l, found) ↦ elim (Bool-cases l.released) [
    | inl again ↦ rw (found, again, found, again)
    | inr first ↦ rw (found, first, get_elem?-set_self p.leases token (freed l) found)
  ]
]

filter_lt :
    (token : ℕ) (xs : List ℕ) (n : ℕ)
    → get_elem? xs n ≡ some token
    → length (filter (λ t. not (t == token)) xs) < length xs
filter_lt token [] n h = cc
filter_lt token (x ∷ xs) zero h = ground (arith, length-filter_le (λ t. not (t == token)) xs)
filter_lt token (x ∷ xs) (suc n) h = ground (arith, filter_lt token xs n h)

live_from-get_elem? :
    (i k : ℕ) (ls : List Lease) {l : Lease}
    → get_elem? ls k ≡ some l
    → l.released ≡ false
    → (n : ℕ) × (get_elem? (live_from i ls) n ≡ some (i + k))
live_from-get_elem? i k [] e h = cc
live_from-get_elem? i zero (x ∷ ls) {l} e h =
    let start : i ≡ i + 0 = omega arith in
    let same : x.released ≡ false = ground arith in (0, rw same (ap some start))
live_from-get_elem? i (suc k) (x ∷ ls) e h =
    let (n, found) = live_from-get_elem? (i + 1) k ls e h in
    let sum : i + 1 + k ≡ i + suc k = omega arith in
    elim (Bool-cases x.released) [
      | inl r ↦ (n, rw (r, ← sum) found)
      | inr r ↦ (suc n, rw (r, ← sum) found)
    ]

-- A lease that was not released makes room when it is released: the next acquisition succeeds.
pub try_acquire-release :
    (owner : String) (token : ℕ) (p : Pool) {l : Lease}
    → IsValid p
    → get_elem? p.leases token ≡ some l
    → l.released ≡ false
    → (try_acquire owner (release token p)).1 ≡ some (length p.leases)
unfolding try_acquire release release_lease
try_acquire-release owner token p {l} h found first =
    let (n, at_n) = live_from-get_elem? 0 token p.leases found first in
    let start : 0 + token ≡ token = omega arith in
    let here : get_elem? p.active n ≡ some token =
      ap (λ a. get_elem? a n) h.live ∙ rw start at at_n in
    let fewer = filter_lt token p.active n here in
    let room : leb p.maximum (length (filter (λ t. not (t == token)) p.active)) ≡ false =
      ground arith in
    rw (found, first, room, length-set p.leases token (freed l))
