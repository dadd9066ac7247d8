-- ===== src/Delay/Tests.antt =====
-- The delay controller of src/delay-controller.cpp with a small OBS.
use obs_trigglow_dynamic_del.Prelude.{ℕ, ◌≡◌, refl, Bool, true, false, none, [], ◌∷◌}
use obs_trigglow_dynamic_del.Delay.{
  Text, Bridge, applying, streaming_started, streaming_stopped, Controller, new_controller,
  apply_and_maybe_reconnect, on_apply_timeout,
}
use obs_trigglow_dynamic_del.Delay.Invariant.{
  IsSound, enables, hears, obs_moves, sets_scene, called, after, calls-IsSound,
}
use obs_trigglow_dynamic_del.Delay.Reconnect.{
  IsApplying, IsConfirmed, reconnect_completes, put_back, HasGivenUp, timeout_gives_up,
}

-- What this OBS knows: the delay set, whether it streams, the scene.
record Studio : Type 0 where
  delay : ℕ
  streams : Bool
  scene : Text

abbrev bridge : Bridge
bridge = record {
  Obs = Studio;
  apply_delay = λ seconds safe o. (none, record o { delay = seconds });
  is_streaming = λ o. o.streams;
  active_delay = λ o. o.delay;
  current_scene = λ o. o.scene;
  set_scene = λ name o. (true, record o { scene = name });
  request_start = λ o. record o { streams = true };
  request_stop = λ o. record o { streams = false };
  scene_names = λ o. o.scene ∷ [];
}

abbrev live : Studio
live = record { delay = 0; streams = true; scene = 1 ∷ [] }

-- Enabled, with a placeholder scene.
abbrev placed : Controller
placed = record new_controller {
  enabled = true;
  status = record new_controller.status { reconnect_scene = 2 ∷ [] };
}

-- In the middle of a reconnect.
abbrev waiting : Controller
waiting = record placed {
  pending_reconnect = true;
  scene_before = 1 ∷ [];
  status = record placed.status { state = applying };
}

IsSound-after_enable :
    IsSound
      (after bridge
        (new_controller, live)
        (sets_scene (2 ∷ []) ∷ enables ∷ hears streaming_stopped ∷ hears streaming_started ∷ [])).0
IsSound-after_enable =
    calls-IsSound bridge live
      (sets_scene (2 ∷ []) ∷ enables ∷ hears streaming_stopped ∷ hears streaming_started ∷ [])

completes :
    let asked = apply_and_maybe_reconnect bridge (placed, live) in
    let w = after bridge asked (hears streaming_stopped ∷ obs_moves live ∷ []) in
    IsApplying bridge placed (record live { delay = 10 }) asked
    × (called bridge w (hears streaming_stopped) ≡ (w.0, bridge.request_start w.1))
    × IsConfirmed bridge placed
        (record live { delay = 10 })
        w.1
        (called bridge w (hears streaming_started))
completes =
    reconnect_completes bridge placed live (record live { delay = 10 })
      (hears streaming_stopped ∷ obs_moves live ∷ []) refl refl refl

gives_up :
    let d = on_apply_timeout bridge (waiting, live) in
    let w = after bridge d (hears streaming_stopped ∷ obs_moves live ∷ []) in
    (d.1 ≡ put_back bridge (1 ∷ []) live)
    × HasGivenUp bridge w.0
    × ((called bridge w (hears streaming_started)).1 ≡ w.1)
gives_up =
    timeout_gives_up bridge waiting live (hears streaming_stopped ∷ obs_moves live ∷ [])
      streaming_started refl refl refl
