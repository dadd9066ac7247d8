-- ===== src/Delay.antt =====
-- src/delay-controller.hpp and src/delay-controller.cpp, class DelayController: the state machine of
-- OBS's own stream delay. The bridge to OBS is a record of operations on a state of OBS's; a request
-- returns before OBS acts on it, and what OBS did comes back as a FrontendEvent. A string is the list
-- of its bytes; the texts for the user are named by what they say.
pub mod Invariant
pub mod Reconnect
mod Tests
use obs_trigglow_dynamic_del.Prelude.{
  ℕ, Bool, true, false, not, Option, none, some, List, [], ◌∷◌, ltb, if◌then◌else◌, is_empty,
}

abbrev pub Text : Type 0
Text = List ℕ

-- ObsFrontendBridge, as the controller uses it. `apply_delay` returns the error, if any.
pub record Bridge : Type 1 where
  pub Obs : Type 0
  pub apply_delay : ℕ → Bool → Obs → Option Text × Obs
  pub is_streaming : Obs → Bool
  pub active_delay : Obs → ℕ
  pub current_scene : Obs → Text
  pub set_scene : Text → Obs → Bool × Obs
  pub request_start : Obs → Obs
  pub request_stop : Obs → Obs
  pub scene_names : Obs → List Text

pub data DelayState : Type 0 where
  inactive applying active error : DelayState

pub data Message : Type 0 where
  no_message reconnecting not_confirmed : Message
  bridge_error : Text → Message

pub record DelayStatus : Type 0 where
  pub state : DelayState
  pub configured_seconds : ℕ
  pub active_seconds : ℕ
  pub safe_mode : Bool
  pub reconnect_scene : Text
  pub message : Message

pub data FrontendEvent : Type 0 where
  buffer_restarted streaming_starting streaming_started streaming_stopping streaming_stopped :
      FrontendEvent
  recording_starting recording_started recording_stopped : FrontendEvent
  replay_buffer_starting replay_buffer_started replay_buffer_stopped : FrontendEvent
  virtualcam_started virtualcam_stopped output_encode_error finished_loading : FrontendEvent
  scene_collection_changing scene_collection_changed theme_changed other : FrontendEvent

-- The fields of the class, and in `notified` what onStatusChanged_ was called with, newest first.
pub record Controller : Type 0 where
  pub status : DelayStatus
  pub enabled : Bool
  pub pending_reconnect : Bool
  pub scene_before : Text
  pub notified : List DelayStatus

-- The constructor.
abbrev pub new_controller : Controller
new_controller = record {
  status = record {
    state = inactive;
    configured_seconds = 10;
    active_seconds = 0;
    safe_mode = true;
    reconnect_scene = [];
    message = no_message;
  };
  enabled = false;
  pending_reconnect = false;
  scene_before = [];
  notified = [];
}

-- NotifyStatusChanged.
abbrev pub notify : Controller → Controller
notify c = record c { notified = c.status ∷ c.notified }

-- SetState.
abbrev pub set_state : Controller → DelayState → Message → Controller
set_state c state message =
    notify (record c { status = record c.status { state = state; message = message } })

abbrev pub set_active_seconds : Controller → ℕ → Controller
set_active_seconds c seconds = record c { status = record c.status { active_seconds = seconds } }

-- The state for `enabled_ ? Active : Inactive`.
abbrev pub resting : Controller → DelayState
resting c = if c.enabled then active else inactive

-- The clamp of SetDelaySeconds and LoadSettings.
abbrev pub clamp_seconds : ℕ → ℕ
clamp_seconds seconds = if ltb 1800 seconds then 1800 else seconds

-- SetSafeMode.
pub set_safe_mode : Controller → Bool → Controller
set_safe_mode c on = notify (record c { status = record c.status { safe_mode = on } })

-- SetReconnectScene.
pub set_reconnect_scene : Controller → Text → Controller
set_reconnect_scene c scene =
    notify (record c { status = record c.status { reconnect_scene = scene } })

-- LoadSettings.
pub load_settings : Controller → ℕ → Bool → Bool → Text → Controller
load_settings c seconds safe_mode was_enabled scene =
    let loaded = record c {
      status = record c.status {
        configured_seconds = clamp_seconds seconds;
        safe_mode = safe_mode;
        reconnect_scene = scene;
      };
      enabled = was_enabled;
    } in
    set_state loaded (resting loaded) no_message

pub record Settings : Type 0 where
  pub delay_seconds : ℕ
  pub safe_mode : Bool
  pub enabled : Bool
  pub reconnect_scene : Text

-- SaveSettings.
pub save_settings : Controller → Settings
save_settings c = record {
  delay_seconds = c.status.configured_seconds;
  safe_mode = c.status.safe_mode;
  enabled = c.enabled;
  reconnect_scene = c.status.reconnect_scene;
}

module _ (b : Bridge) where
  open b use {
    Obs, apply_delay, is_streaming, active_delay, current_scene, set_scene, request_start,
    request_stop, scene_names,
  }

  -- The controller and OBS.
  abbrev pub World : Type 0
  World = Controller × Obs

  -- RestoreSceneBeforeReconnect.
  pub restore_scene : World → World
  restore_scene (c, o) =
      if is_empty c.scene_before
      then (c, o)
      else (record c { scene_before = [] }, (set_scene c.scene_before o).1)

  -- The switch to the placeholder scene in ApplyAndMaybeReconnect.
  pub switch_scene : World → World
  switch_scene (c, o) =
      let (found, p) = set_scene c.status.reconnect_scene o in
      if is_empty c.status.reconnect_scene
      then (c, o)
      else (record c { scene_before = if found then current_scene o else [] }, p)

  -- ApplyAndMaybeReconnect, once the bridge took the delay.
  pub reconnect : World → World
  unfolding switch_scene
  reconnect (c, o) =
      let (switched, p) = switch_scene (record c { pending_reconnect = true }, o) in
      if not (is_streaming o)
      then (set_state (set_active_seconds c 0) (resting c) no_message, o)
      else (set_state switched applying reconnecting, request_stop p)

  abbrev pub target_seconds : Controller → ℕ
  target_seconds c = if c.enabled then c.status.configured_seconds else 0

  -- ApplyAndMaybeReconnect.
  pub apply_and_maybe_reconnect : World → World
  unfolding reconnect
  apply_and_maybe_reconnect (c, o) =
      let (failure, p) = apply_delay (target_seconds c) c.status.safe_mode o in
      elim failure [
        | some text ↦ (set_state c error (bridge_error text), p)
        | none ↦ reconnect (c, p)
      ]

  -- Enable.
  pub enable : World → World
  unfolding apply_and_maybe_reconnect
  enable (c, o) = apply_and_maybe_reconnect (record c { enabled = true }, o)

  -- Disable.
  pub disable : World → World
  unfolding apply_and_maybe_reconnect
  disable (c, o) = apply_and_maybe_reconnect (record c { enabled = false }, o)

  -- Toggle.
  pub toggle : World → World
  unfolding enable disable
  toggle (c, o) = if c.enabled then disable (c, o) else enable (c, o)

  -- SetDelaySeconds.
  pub set_delay_seconds : World → ℕ → World
  unfolding apply_and_maybe_reconnect
  set_delay_seconds (c, o) seconds =
      let set =
        notify
          (record c { status = record c.status { configured_seconds = clamp_seconds seconds } }) in
      if c.enabled then apply_and_maybe_reconnect (set, o) else (set, o)

  -- OnApplyTimeout.
  pub on_apply_timeout : World → World
  unfolding restore_scene
  on_apply_timeout (c, o) =
      let (restored, p) = restore_scene (record c { pending_reconnect = false }, o) in
      elim c.status.state [
        | inactive ↦ (c, o)
        | active ↦ (c, o)
        | error ↦ (c, o)
        | applying ↦
            if not c.status.safe_mode then (c, o) else (set_state restored error not_confirmed, p)
      ]

  -- OnFrontendEvent.
  pub on_frontend_event : World → FrontendEvent → World
  unfolding restore_scene
  on_frontend_event (c, o) streaming_started =
      let confirmed =
        set_active_seconds (record c { pending_reconnect = false }) (active_delay o) in
      let (restored, p) = restore_scene (confirmed, o) in
      if c.pending_reconnect then (set_state restored (resting c) no_message, p) else (c, o)
  on_frontend_event (c, o) streaming_stopped =
      if c.pending_reconnect then (c, request_start o) else (set_active_seconds c 0, o)
  on_frontend_event (c, o) _ = (c, o)

  -- ListAvailableScenes.
  pub list_available_scenes : World → List Text
  list_available_scenes (c, o) = scene_names o
