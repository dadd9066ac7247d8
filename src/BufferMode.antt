-- ===== src/BufferMode.antt =====
-- src/buffer-mode-controller.hpp, class BufferModeController: what the state machine of the buffered
-- delay keeps, and the bridge of src/obs-frontend-bridge.hpp that it steers OBS through. A bridge
-- answers questions about the state of OBS and changes it by calls; the log keeps the calls made, the
-- callbacks and the warnings, newest first. Its EstimateBufferFit is the rounding in doubles of
-- src/buffer-fit.cpp.
pub mod Texts
pub mod Encoders
pub mod Ops
pub mod Cycle
pub mod Events
pub mod Host
pub mod Track
pub mod Quiet
pub mod Fill
pub mod Start
pub mod Invariant
pub mod Calls
pub mod Moves
pub mod Windows
pub mod Restore
pub mod Refuse
mod Tests
use obs_trigglow_dynamic_del.Prelude.{ℕ, ◌-◌, Bool, true, false, Option, List, [], ◌∷◌, u32_mod}
use obs_trigglow_dynamic_del.Prelude.Double.{Double}
use obs_trigglow_dynamic_del.EncoderCheck.{Size, VideoSource, Scope}
use obs_trigglow_dynamic_del.BufferMode.Texts.{Text, EncoderFamily}

pub data BufferModeState : Type 0 where
  inactive filling active error : BufferModeState

-- The locale keys of the messages, "Status.LoginRequired" and so on.
pub data MessageKey : Type 0 where
  no_key login_required choose_live_scene wrapper_scene_failed : MessageKey
  filling_key filling_trimmed collection_changed : MessageKey

pub record Status : Type 0 where
  pub state : BufferModeState
  pub delay_seconds : ℕ
  pub effective_delay_seconds : ℕ
  pub fill_generation : ℕ
  pub min_resolution_height : ℕ
  pub live_scene_name : Text
  pub loading_scene_name : Text
  pub show_overlay : Bool
  pub overlay_corner : ℕ
  pub message : Text
  pub message_key : MessageKey

-- bufferfit::RingClass.
pub data RingClass : Type 0 where
  intra intra_with_gop inter : RingClass

pub record ActiveVideoEncoder : Type 0 where
  pub output_name : Text
  pub encoder_name : Text
  pub encoder_id : Text
  pub size : Size
  pub scope : Scope
  pub source : VideoSource

-- What the controller asks of OBS, tells its owner, and warns about. A call for the keep-alive holds
-- its answer.
pub data Action : Type 0 where
  ensure_wrapper ensure_audio_filters release_rendering : Text → Action
  resume_hw_encoder report_encode_error set_current_scene : Text → Action
  acquire_rendering set_filter_enabled set_audio_enabled : Text → Bool → Action
  set_filter_output_cap set_filter_workers set_filter_codec yield_hw_encoder : Text → Bool → Action
  set_filter_delay set_filter_min_height set_audio_delay report_lag : Text → ℕ → Action
  set_filter_class : Text → RingClass → Action
  set_filter_ceiling : Text → Size → Action
  set_filter_encoders : Text → List EncoderFamily → Action
  set_overlay : Bool → ℕ → ℕ → Action
  take_skipped watch_stops show_wrapper migrate_names disable_filters : Action
  notified : Status → Action
  refreshed_scenes changed_theme : Action
  warned_about : Text → Size → Action

-- VideoDelayFilter::BufferFitEstimate.
pub record FitEstimate {ℓ} (Real : Type ℓ) : Type ℓ where
  pub size : Size
  pub actual_seconds : Real
  pub effective_seconds : ℕ

-- ObsFrontendBridge, as the controller uses it: how a call changes OBS, what OBS answers before the
-- call changes it, and the surroundings of the controller (the clock, the locale, the account).
pub record Bridge : Type 1 where
  pub Obs : Type 0
  pub real : Double
  pub llround : real.Real → ℕ
  pub does : Action → Obs → Obs
  pub ensures_wrapper : Text → Obs → Bool
  pub acquires : Text → Obs → Bool
  pub skipped_frames : Obs → ℕ
  pub current_scene : Obs → Text
  pub scene_names : Obs → List Text
  pub video_delay : Text → Obs → ℕ
  pub estimate : Text → ℕ → ℕ → Bool → RingClass → Obs → FitEstimate real.Real
  pub encoders : Obs → List ActiveVideoEncoder
  pub canvas_geometry : Obs → Option (Size × Size)
  pub raw_output : Obs → Bool
  pub hardware_possible : Obs → Bool
  pub hardware_available : Obs → Bool
  pub now_ns : Obs → ℕ
  pub is_authorized : Obs → Bool
  pub str : MessageKey → Text

-- The fields of the class; UINT32_MAX is a ceiling of which nothing was pushed.
pub record Controller : Type 0 where
  pub status : Status
  pub encoder_signature : List Text
  pub last_ceiling : Size
  pub cycle_ring_class : RingClass
  pub codec_auto : Bool
  pub yield_pending : Bool
  pub yield_since_ns : ℕ
  pub output_started_ns : ℕ
  pub output_cap : Bool
  pub codec_workers : Bool
  pub warned_encoders : List (Text × Size)
  pub scene_before : Text
  pub rendering_held : Bool

abbrev pub no_ceiling_yet : Size
no_ceiling_yet = record { width = u32_mod - 1; height = u32_mod - 1 }

abbrev pub new_controller : Controller
new_controller = record {
  status = record {
    state = inactive;
    delay_seconds = 5;
    effective_delay_seconds = 0;
    fill_generation = 0;
    min_resolution_height = 720;
    live_scene_name = [];
    loading_scene_name = [];
    show_overlay = true;
    overlay_corner = 0;
    message = [];
    message_key = no_key;
  };
  encoder_signature = [];
  last_ceiling = no_ceiling_yet;
  cycle_ring_class = intra;
  codec_auto = true;
  yield_pending = false;
  yield_since_ns = 0;
  output_started_ns = 0;
  output_cap = true;
  codec_workers = true;
  warned_encoders = [];
  scene_before = [];
  rendering_held = false;
}

-- Filling or Active.
abbrev pub is_busy : BufferModeState → Bool
is_busy filling = true
is_busy active = true
is_busy _ = false

abbrev pub is_active : BufferModeState → Bool
is_active active = true
is_active _ = false

abbrev pub is_inactive : BufferModeState → Bool
is_inactive inactive = true
is_inactive _ = false

abbrev pub is_filling : BufferModeState → Bool
is_filling filling = true
is_filling _ = false

-- The controller with its bridge.
pub record World (b : Bridge) : Type 0 where
  pub ctl : Controller
  pub obs : b.Obs
  pub log : List Action

module _ {b : Bridge} where
  -- A call of the bridge.
  abbrev pub perform : World b → Action → World b
  perform w a = record w { obs = b.does a w.obs; log = a ∷ w.log }

  abbrev pub performs : World b → List Action → World b
  performs w [] = w
  performs w (a ∷ calls) = performs (perform w a) calls

  -- What OBS does not see.
  abbrev pub note : World b → Action → World b
  note w a = record w { log = a ∷ w.log }

  abbrev pub with_status : World b → Status → World b
  with_status w s = record w { ctl = record w.ctl { status = s } }
