-- ===== src/Playback/Tests.antt =====
-- Runs of the player at concrete inputs.
use my_paraview_web.Common.{◌+◌, ◌%◌, ◌≡◌, refl, false, true, some, arith}
use my_paraview_web.Playback.{Player, ready, is_armed, on_load_state_change, tick}
use my_paraview_web.Playback.Frames.{rounds, timestep_index-rounds}

-- The second of three frames is shown and ready.
abbrev running : Player
running = record {
  dataset_id = some "series";
  enabled = true;
  timestep_count = 3;
  timestep_index = 1;
  viewer_url = some "frame";
  playing = true;
  speed = 4;
  loop = false;
  loaded_frame = some ("frame", ready);
  previous_dataset = some "series";
}

abbrev looping : Player
looping = record running { loop = true }

armed_again : is_armed (on_load_state_change "frame" ready (tick looping)) ≡ true
unfolding tick on_load_state_change
armed_again = refl

timestep_index-rounds_example : (rounds (λ _. "frame") 5 looping).timestep_index ≡ (1 + 5) % 3
timestep_index-rounds_example =
    timestep_index-rounds (λ _. "frame") 5 looping
      (record {
        plays = refl;
        enabled = refl;
        loops = refl;
        several = omega arith;
        in_range = omega arith;
        urls = λ _. refl;
      })
