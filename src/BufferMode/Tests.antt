-- ===== src/BufferMode/Tests.antt =====
-- The buffer mode controller of src/buffer-mode-controller.cpp with a small OBS.
use obs_trigglow_dynamic_del.Prelude.{
  ℕ, ◌+◌, ◌/◌, ◌≡◌, ◌≤◌, ◌*◌, is_empty, refl, true, false, none, some, List, [], ◌∷◌,
}
use obs_trigglow_dynamic_del.Prelude.Milli.{milli}
use obs_trigglow_dynamic_del.Delay.{buffer_restarted}
use obs_trigglow_dynamic_del.BufferMode.{
  Action, Bridge, is_busy, inactive, filling, active, set_current_scene, set_filter_delay,
}
use obs_trigglow_dynamic_del.BufferMode.Texts.{Text}
use obs_trigglow_dynamic_del.BufferMode.Ops.{set_delay_seconds}
use obs_trigglow_dynamic_del.BufferMode.Cycle.{prepare, enable, on_fill_timer_elapsed}
use obs_trigglow_dynamic_del.BufferMode.Host.{Config, Host}
use obs_trigglow_dynamic_del.BufferMode.Track.{audio_seconds, view}
use obs_trigglow_dynamic_del.BufferMode.Invariant.{
  Call, called, after, configures, enables, disables, timer_elapses, ticks, hears,
}
use obs_trigglow_dynamic_del.BufferMode.Calls.{new_host}
use obs_trigglow_dynamic_del.BufferMode.Moves.{IsMove}
use obs_trigglow_dynamic_del.BufferMode.Windows.{restarts, each_call-IsMove}
use obs_trigglow_dynamic_del.BufferMode.Restore.{
  program, told_delay, Runs, scene_at_start, disable_restores,
}
use obs_trigglow_dynamic_del.BufferMode.Refuse.{IsEnabled, enable-IsEnabled, filling_delay_untold}

-- What this OBS knows: the scene on Program, and the delay of the video filter.
record Studio : Type 0 where
  scene : Text
  delay : ℕ

abbrev act : Action → Studio → Studio
act (set_current_scene name) o = record o { scene = name }
act (set_filter_delay live seconds) o = record o { delay = seconds }
act _ o = o

abbrev bridge : Bridge
bridge = record {
  Obs = Studio;
  real = milli;
  llround = λ x. (x + 500) / 1000;
  does = λ a o. act a o;
  ensures_wrapper = λ live o. true;
  acquires = λ live o. true;
  skipped_frames = λ o. 0;
  current_scene = λ o. o.scene;
  scene_names = λ o. o.scene ∷ [];
  video_delay = λ live o. o.delay;
  estimate = λ live seconds height capped ring_class o. record {
    size = record { width = 1280; height = height };
    actual_seconds = seconds * 1000;
    effective_seconds = seconds;
  };
  encoders = λ o. [];
  canvas_geometry = λ o. none;
  raw_output = λ o. false;
  hardware_possible = λ o. true;
  hardware_available = λ o. false;
  now_ns = λ o. 0;
  is_authorized = λ o. true;
  str = λ key. b'?' ∷ [];
}

abbrev studio : Studio
studio = record { scene = 1 ∷ []; delay = 0 }

abbrev config : Config
config = record {
  settings = record {
    delay_seconds = 60;
    min_resolution_height = 720;
    live_scene_name = 1 ∷ [];
    loading_scene_name = 2 ∷ [];
    show_overlay = true;
    overlay_corner = 0;
    output_cap = true;
    codec_workers = true;
    codec_auto = true;
  };
  badge_prefix = [];
  badge_token = 0;
}

-- Configured, enabled, filled, and with a shorter delay set.
abbrev busy_calls : List (Call bridge)
busy_calls =
    configures config
    ∷ enables
    ∷ timer_elapses
    ∷ configures (record config { settings = record config.settings { delay_seconds = 5 } })
    ∷ []

-- The shorter delay started a second window, and a restart of the buffer starts a third one.
IsMove-refill :
    IsMove
      (restarts {b = bridge} (hears buffer_restarted))
      (view (after (new_host bridge studio) busy_calls).world)
      (view (called (after (new_host bridge studio) busy_calls) (hears buffer_restarted)).world)
IsMove-refill = each_call-IsMove bridge studio busy_calls (hears buffer_restarted)

abbrev configured : Host bridge
configured = after (new_host bridge studio) (configures config ∷ [])

second_window : (after (new_host bridge studio) busy_calls).world.ctl.status.fill_generation ≡ 2
unfolding after
second_window = refl

configured_idle : is_busy configured.world.ctl.status.state ≡ false
unfolding after
configured_idle = refl

enabled_fills : (called configured enables).world.ctl.status.state ≡ filling
unfolding after
enabled_fills = refl

filled-Runs : Runs (called configured enables) (timer_elapses ∷ ticks ∷ [])
unfolding after
filled-Runs = (refl, (refl, tt))

scene_found : is_empty (scene_at_start configured.world) ≡ false
unfolding after prepare
scene_found = refl

restored :
    let w =
      (called (after (called configured enables) (timer_elapses ∷ ticks ∷ [])) disables).world in
    (program w.log ≡ some (scene_at_start configured.world)) × (w.ctl.status.state ≡ inactive)
restored =
    disable_restores bridge studio (configures config ∷ []) (timer_elapses ∷ ticks ∷ [])
      configured_idle enabled_fills filled-Runs scene_found

IsEnabled-configured : IsEnabled configured.world (enable configured.world)
IsEnabled-configured = enable-IsEnabled configured.world configured_idle

-- Sixty seconds in the filter, five in the status and for audio.
untold :
    let w = (called configured enables).world in
    let v = on_fill_timer_elapsed (set_delay_seconds w 5) in
    (v.ctl.status.state ≡ active)
    × (v.ctl.status.delay_seconds ≡ 5)
    × (told_delay v.log ≡ told_delay w.log)
    × (audio_seconds v.log ≡ some v.ctl.status.effective_delay_seconds)
    × (v.ctl.status.effective_delay_seconds ≤ 5)
untold = filling_delay_untold bridge (called configured enables).world 5 enabled_fills

told_sixty : told_delay (called configured enables).world.log ≡ some 60
unfolding after
told_sixty = refl
