-- ===== src/Playback/Frames.antt =====
-- Sequences of steps of the player in frontend/src/hooks/useTimestepPlayback.ts.
use Prim.Native.String.{String}
use mathlib.Core.List.{foldl}
use mathlib.Core.Bool.{and-eq-true_iff}
use native.Mathlib.Nat.{mod-eq_of_lt, mod-add-mod}
use my_paraview_web.Common.{
  ℕ, zero, suc, ◌+◌, ◌-◌, ◌%◌, ◌≤◌, ◌<◌, ◌≡◌, refl, sym, subst, ◌∙◌, ap, Bool, true, false, not,
  ◌&&◌, ◌||◌, Option, none, some, List, [], ◌∷◌, leb, lt→ltb, if◌then◌else◌, arith, Bool-cases, inl,
  inr,
}
use my_paraview_web.Common.Eq.{◌===◌, String_eq, beq_refl}
use my_paraview_web.Common.Int.{ℤ, pos, negsuc}
use my_paraview_web.Playback.{
  ViewerLoadState, loading, ready, error, Player, same_text, can_play, last_index, frame_is,
  is_ready, at_end, is_waiting, is_armed, load_failed, on_load_state_change, dataset_effect,
  playback_effect, tick, seek, toggle_playback, change_speed,
}

-- What happens to the player while the options stay as they are.
pub data PlayerAction : Type 0 where
  loads : String → ViewerLoadState → PlayerAction
  checks_dataset checks_end fires toggles : PlayerAction
  seeks : Option ℤ → PlayerAction
  changes_speed : ℕ → PlayerAction
  sets_loop : Bool → PlayerAction

pub act : Player → PlayerAction → Player
act p (loads url state) = on_load_state_change url state p
act p checks_dataset = dataset_effect p
act p checks_end = playback_effect p
act p fires = tick p
act p toggles = toggle_playback p
act p (seeks index) = seek index p
act p (changes_speed value) = change_speed value p
act p (sets_loop value) = record p { loop = value }

pub record InRange (p : Player) : Type 0 where
  pub index_lt : p.timestep_index < p.timestep_count

toggle_playback-InRange : (p : Player) → InRange p → InRange (toggle_playback p)
unfolding toggle_playback
toggle_playback-InRange p h = elim (Bool-cases (not (can_play p) || load_failed p)) [
  | inl stuck ↦ rw stuck h
  | inr able ↦ elim (Bool-cases (not p.playing && (not p.loop && at_end p))) [
    | inl rewind ↦ rw (able, rewind) (record { index_lt = let k = h.index_lt in omega arith })
    | inr stays ↦ rw (able, stays) (record { index_lt = h.index_lt })
  ]
]

act-InRange : (p : Player) (a : PlayerAction) → InRange p → InRange (act p a)
unfolding act on_load_state_change dataset_effect playback_effect tick seek change_speed
act-InRange p (loads url state) h = ground arith
act-InRange p checks_dataset h = record { index_lt = h.index_lt }
act-InRange p checks_end h = ground arith
act-InRange p fires h = ground arith
act-InRange p toggles h = toggle_playback-InRange p h
act-InRange p (seeks none) h = h
act-InRange p (seeks (some (pos n))) h = ground arith
act-InRange p (seeks (some (negsuc n))) h = ground arith
act-InRange p (changes_speed value) h = ground arith
act-InRange p (sets_loop value) h = record { index_lt = h.index_lt }

-- Whatever the viewer loads, the timer does and the user presses, the index stays one of a timestep.
pub foldl-act-InRange :
    (actions : List PlayerAction) (p : Player) → InRange p → InRange (foldl act p actions)
foldl-act-InRange [] p h = h
foldl-act-InRange (a ∷ actions) p h = foldl-act-InRange actions (act p a) (act-InRange p a h)

same_text_eq : (url : String) (o : Option String) → same_text (some url) o ≡ true → o ≡ some url
same_text_eq url none h = cc
same_text_eq url (some v) h = ap some (sym ((String_eq.beq_iff url v).0 h))

frame_is_ready :
    (url : Option String) (u : String) (state : ViewerLoadState)
    → frame_is is_ready url (some (u, state)) ≡ true
    → (url ≡ some u) × (state ≡ ready)
frame_is_ready url u loading h = ground arith
frame_is_ready url u error h = ground arith
frame_is_ready url u ready h = (same_text_eq u url (ground arith), refl)

frame_of_is_armed :
    (p : Player) → is_armed p ≡ true → frame_is is_ready p.viewer_url p.loaded_frame ≡ true
frame_of_is_armed p h =
    let waiting = ((and-eq-true_iff (is_waiting p) _).0 h).0 in
    let later = ((and-eq-true_iff p.playing _).0 waiting).1 in
    ((and-eq-true_iff (can_play p) _).0 later).1

is_armed-on_load :
    (p : Player) (url : String) (state : ViewerLoadState)
    → p.loaded_frame ≡ none
    → is_armed (on_load_state_change url state p) ≡ true
    → (p.viewer_url ≡ some url) × (state ≡ ready)
unfolding on_load_state_change
is_armed-on_load p url state empty h =
    let frame = frame_of_is_armed (on_load_state_change url state p) h in
    elim (Bool-cases (same_text (some url) p.viewer_url)) [
      | inl same ↦ frame_is_ready p.viewer_url url state (rw same at frame)
      | inr stale ↦ let impossible = rw (stale, not, empty) at frame in cc
    ]

-- After the timer has moved to a frame, what the viewer reports arms the timer again only if it
-- says that the frame that is shown now is ready: no frame is skipped while it loads, and what a
-- replaced frame reports unlocks nothing.
pub is_armed-tick :
    (p : Player) (url : String) (state : ViewerLoadState)
    → is_armed p ≡ true
    → is_armed (on_load_state_change url state (tick p)) ≡ true
    → ((tick p).viewer_url ≡ some url) × (state ≡ ready)
unfolding tick on_load_state_change
is_armed-tick p url state armed again =
    rw armed (is_armed-on_load _ url state refl (rw armed at again))

-- Without a loop the timer moves to the next frame, never beyond the last one and never back.
pub tick-no_loop :
    (p : Player)
    → p.loop ≡ false
    → InRange p
    → is_armed p ≡ true
    → ((tick p).timestep_index ≡ p.timestep_index + 1) × ((tick p).timestep_index ≤ last_index p)
unfolding tick
tick-no_loop p once h armed = rw armed (ground arith)

-- A frame is shown under its url and reported as ready, and the timer fires.
abbrev pub round : (ℕ → String) → Player → Player
round url_at p = tick (
    on_load_state_change (url_at p.timestep_index) ready
      (record p { viewer_url = some (url_at p.timestep_index) }))

abbrev pub rounds : (ℕ → String) → ℕ → Player → Player
rounds url_at zero p = p
rounds url_at (suc n) p = rounds url_at n (round url_at p)

-- A player that loops over a series with a url for each timestep.
pub record IsLooping (url_at : ℕ → String) (p : Player) : Type 0 where
  pub plays : p.playing ≡ true
  pub enabled : p.enabled ≡ true
  pub loops : p.loop ≡ true
  pub several : 1 < p.timestep_count
  pub in_range : p.timestep_index < p.timestep_count
  pub urls : (i : ℕ) → (url_at i === "") ≡ false

next_index : ℕ → ℕ → ℕ
next_index i count = if leb (count - 1) i then 0 else i + 1

abbrev after_round : (ℕ → String) → Player → Player
after_round url_at p = record p {
  viewer_url = some (url_at p.timestep_index);
  loaded_frame = none;
  timestep_index = next_index p.timestep_index p.timestep_count;
}

round_lem :
    (url_at : ℕ → String) (p : Player) → IsLooping url_at p → round url_at p ≡ after_round url_at p
unfolding tick on_load_state_change next_index
round_lem url_at p h = rw (
  beq_refl (url_at p.timestep_index),
  h.plays,
  h.enabled,
  lt→ltb 1 p.timestep_count h.several,
  h.urls p.timestep_index,
  h.loops,
  beq_refl (url_at p.timestep_index),
)

wraps : (count : ℕ) → 0 < count → 0 ≡ count % count
wraps count h = grind arith

next_index-mod : (i count : ℕ) → i < count → next_index i count ≡ (i + 1) % count
unfolding next_index
next_index-mod i count h = elim (Bool-cases (leb (count - 1) i)) [
  | inl last ↦
      let full : i + 1 ≡ count = ground arith in rw (last, full) (wraps count (omega arith))
  | inr inside ↦ rw inside (sym (mod-eq_of_lt (ground arith)))
]

next_index-lt : (i count : ℕ) → i < count → next_index i count < count
unfolding next_index
next_index-lt i count h = ground arith

next_index-rounds :
    (i n count : ℕ) → i < count → (next_index i count + n) % count ≡ (i + suc n) % count
next_index-rounds i n count h =
    let sum : i + 1 + n ≡ i + suc n = omega arith in rw (next_index-mod i count h, mod-add-mod, sum)

-- Looping over a series whose frames all load, the player shows every timestep in turn: after `n`
-- frames it is `n` further, counted modulo the number of timesteps.
pub timestep_index-rounds :
    (url_at : ℕ → String) (n : ℕ) (p : Player)
    → IsLooping url_at p
    → (rounds url_at n p).timestep_index ≡ (p.timestep_index + n) % p.timestep_count
timestep_index-rounds url_at zero p h =
    let here : p.timestep_index + 0 ≡ p.timestep_index = omega arith in
    rw here (sym (mod-eq_of_lt h.in_range))
timestep_index-rounds url_at (suc n) p h =
    subst
      (λ (q : Player).
        (rounds url_at n q).timestep_index ≡ (p.timestep_index + suc n) % p.timestep_count)
      (sym (round_lem url_at p h))
      (timestep_index-rounds url_at n (after_round url_at p) (record {
        plays = h.plays;
        enabled = h.enabled;
        loops = h.loops;
        several = h.several;
        in_range = next_index-lt p.timestep_index p.timestep_count h.in_range;
        urls = h.urls;
      })
        ∙ next_index-rounds p.timestep_index n p.timestep_count h.in_range)
