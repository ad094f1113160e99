-- ===== src/Playback.antt =====
-- The player of time series, frontend/src/hooks/useTimestepPlayback.ts, with the parent's states
-- that it reads and sets. A speed is a number of quarters. The timer's duration is not modelled:
-- `tick` is the timer that fires while it is armed, and does nothing else.
pub mod Frames
mod Tests
use Prim.Native.String.{String}
use my_paraview_web.Common.{
  ℕ, ◌+◌, ◌-◌, ◌≡◌, Bool, true, false, not, ◌&&◌, ◌||◌, Option, none, some, List, [], ◌∷◌, ltb, leb,
  if◌then◌else◌, any, ◌==◌,
}
use my_paraview_web.Common.Eq.{◌===◌, String_eq}
use my_paraview_web.Common.Int.{ℤ, pos, negsuc}

pub data ViewerLoadState : Type 0 where
  loading ready error : ViewerLoadState

pub record Player : Type 0 where
  -- the options
  pub dataset_id : Option String
  pub enabled : Bool
  pub timestep_count : ℕ
  pub timestep_index : ℕ
  pub viewer_url : Option String
  pub playing : Bool
  -- the hook's own states and ref
  pub speed : ℕ
  pub loop : Bool
  pub loaded_frame : Option (String × ViewerLoadState)
  pub previous_dataset : Option String

-- `PLAYBACK_SPEEDS`, in quarters
abbrev pub playback_speeds : List ℕ
playback_speeds = 1 ∷ 2 ∷ 4 ∷ 8 ∷ 16 ∷ []

abbrev pub same_text : Option String → Option String → Bool
same_text none none = true
same_text (some a) (some b) = a === b
same_text _ _ = false

-- `!!viewerUrl`
abbrev pub is_url : Option String → Bool
is_url none = false
is_url (some url) = not (url === "")

abbrev pub can_play : Player → Bool
can_play p = p.enabled && (ltb 1 p.timestep_count && is_url p.viewer_url)

-- `Math.max(0, timestepCount - 1)`
abbrev pub last_index : Player → ℕ
last_index p = p.timestep_count - 1

abbrev pub is_ready : ViewerLoadState → Bool
is_ready ready = true
is_ready _ = false

abbrev pub is_error : ViewerLoadState → Bool
is_error error = true
is_error _ = false

-- `loadedFrame?.url === viewerUrl`, and a test of its state
abbrev pub frame_is :
    (ViewerLoadState → Bool) → Option String → Option (String × ViewerLoadState) → Bool
frame_is test url none = false
frame_is test url (some (u, state)) = same_text (some u) url && test state

abbrev pub load_failed : Player → Bool
load_failed p = frame_is is_error p.viewer_url p.loaded_frame

-- `onLoadStateChange`
unfoldable pub on_load_state_change : String → ViewerLoadState → Player → Player
on_load_state_change url state p = if not (same_text (some url) p.viewer_url) then p else record p {
  loaded_frame = some (url, state);
  playing = if is_error state then false else p.playing;
}

-- the effect on a change of the dataset, or of what can be played
unfoldable pub dataset_effect : Player → Player
dataset_effect p = record p {
  playing =
      if not (same_text p.previous_dataset p.dataset_id) || not (can_play p)
      then false
      else p.playing;
  previous_dataset = p.dataset_id;
}

-- The effect of playback goes past its first guard: the frame that is shown is ready.
abbrev pub is_waiting : Player → Bool
is_waiting p = p.playing && (can_play p && frame_is is_ready p.viewer_url p.loaded_frame)

abbrev pub at_end : Player → Bool
at_end p = leb (last_index p) p.timestep_index

-- its second guard: without a loop it stops at the last frame
unfoldable pub playback_effect : Player → Player
playback_effect p =
    if is_waiting p && (not p.loop && at_end p) then record p { playing = false } else p

-- The timer is set.
abbrev pub is_armed : Player → Bool
is_armed p = is_waiting p && not (not p.loop && at_end p)

unfoldable pub tick : Player → Player
tick p =
    if is_armed p
    then record p {
      loaded_frame = none;
      timestep_index = if at_end p then 0 else p.timestep_index + 1;
    }
    else p

-- `Math.max(0, Math.min(index, lastIndex))`, of an integer
abbrev pub clamp_index : ℤ → ℕ → ℕ
clamp_index (pos n) last = if ltb last n then last else n
clamp_index (negsuc n) last = 0

-- `seek`; `none` is an index that is not finite
unfoldable pub seek : Option ℤ → Player → Player
seek none p = p
seek (some index) p =
    let next = clamp_index index (last_index p) in
    record p {
      playing = false;
      loaded_frame = if next == p.timestep_index then p.loaded_frame else none;
      timestep_index = next;
    }

unfoldable pub toggle_playback : Player → Player
toggle_playback p =
    if not (can_play p) || load_failed p
    then p
    else if not p.playing && (not p.loop && at_end p)
    then record p { loaded_frame = none; timestep_index = 0; playing = not p.playing }
    else record p { playing = not p.playing }

unfoldable pub change_speed : ℕ → Player → Player
change_speed value p =
    if any (λ candidate. candidate == value) playback_speeds then record p { speed = value } else p
