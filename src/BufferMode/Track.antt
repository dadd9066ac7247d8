-- ===== src/BufferMode/Track.antt =====
-- What the log of src/buffer-mode-controller.cpp's calls says of OBS, and the view of the controller
-- that its invariant reads.
use obs_trigglow_dynamic_del.Prelude.{
  ℕ, ◌≤◌, ◌≡◌, min, Bool, true, false, not, ◌&&◌, ◌||◌, Option, none, some, List, [], ◌∷◌, ltb,
  if◌then◌else◌,
}
use obs_trigglow_dynamic_del.BufferMode.{
  BufferModeState, RingClass, Action, Bridge, is_busy, is_active, World, filling, active,
  release_rendering, acquire_rendering, set_filter_enabled, set_audio_enabled, set_audio_delay,
  set_filter_class, set_overlay,
}
use obs_trigglow_dynamic_del.BufferMode.Texts.{Text}

-- Whether the calls, newest first, leave the keep-alive held, and whether each release had an
-- acquisition that succeeded before it, and each acquisition found nothing held.
abbrev pub held_in : List Action → Bool
held_in [] = false
held_in (acquire_rendering live answer ∷ l) = answer || held_in l
held_in (release_rendering live ∷ l) = false
held_in (_ ∷ l) = held_in l

abbrev pub is_paired : List Action → Bool
is_paired [] = true
is_paired (acquire_rendering live answer ∷ l) = not (held_in l) && is_paired l
is_paired (release_rendering live ∷ l) = held_in l && is_paired l
is_paired (_ ∷ l) = is_paired l

-- The scene whose video filter, or whose audio filters, the last call about them switched on.
abbrev pub filter_scene : List Action → Option Text
filter_scene [] = none
filter_scene (set_filter_enabled live on ∷ l) = if on then some live else none
filter_scene (_ ∷ l) = filter_scene l

abbrev pub audio_scene : List Action → Option Text
audio_scene [] = none
audio_scene (set_audio_enabled live on ∷ l) = if on then some live else none
audio_scene (_ ∷ l) = audio_scene l

-- The delay that audio was given last, the ring class that the filter was, and the overlay on screen.
abbrev pub audio_seconds : List Action → Option ℕ
audio_seconds [] = none
audio_seconds (set_audio_delay live seconds ∷ l) = some seconds
audio_seconds (_ ∷ l) = audio_seconds l

abbrev pub pushed_class : List Action → Option RingClass
pushed_class [] = none
pushed_class (set_filter_class live ring_class ∷ l) = some ring_class
pushed_class (_ ∷ l) = pushed_class l

abbrev pub shown_overlay : List Action → Option (ℕ × ℕ)
shown_overlay [] = none
shown_overlay (set_overlay visible seconds corner ∷ l) =
    if visible then some (seconds, corner) else none
shown_overlay (_ ∷ l) = shown_overlay l

pub record View : Type 0 where
  pub state : BufferModeState
  pub generation : ℕ
  pub delay : ℕ
  pub effective : ℕ
  pub live : Text
  pub show : Bool
  pub corner : ℕ
  pub held : Bool
  pub cycle_class : RingClass
  pub before : Text
  pub holding : Bool
  pub paired : Bool
  pub filter : Option Text
  pub audio : Option Text
  pub heard : Option ℕ
  pub class : Option RingClass
  pub overlay : Option (ℕ × ℕ)

abbrev pub view : {b : Bridge} → World b → View
view w = record {
  state = w.ctl.status.state;
  generation = w.ctl.status.fill_generation;
  delay = w.ctl.status.delay_seconds;
  effective = w.ctl.status.effective_delay_seconds;
  live = w.ctl.status.live_scene_name;
  show = w.ctl.status.show_overlay;
  corner = w.ctl.status.overlay_corner;
  held = w.ctl.rendering_held;
  cycle_class = w.ctl.cycle_ring_class;
  before = w.ctl.scene_before;
  holding = held_in w.log;
  paired = is_paired w.log;
  filter = filter_scene w.log;
  audio = audio_scene w.log;
  heard = audio_seconds w.log;
  class = pushed_class w.log;
  overlay = shown_overlay w.log;
}

-- The seconds that viewers get.
abbrev pub applied : ℕ → ℕ → ℕ
applied effective delay = if ltb 0 effective then min effective delay else delay

abbrev pub if_busy {ℓ} : {A : Type ℓ} → View → A → Option A
if_busy v a = if is_busy v.state then some a else none

-- The keep-alive is what the calls to OBS left it, was never released twice or taken twice, and is held
-- in a fill window only. While the delay runs, and only then, the filters of the live scene are on, audio
-- has the delay of the status, and the filter has the class of the cycle; a delay that does not run
-- is of no seconds. The overlay shows what viewers get, and only while Active.
pub record IsSound (v : View) : Type 0 where
  pub holds : v.holding ≡ v.held
  pub pairs : v.paired ≡ true
  pub fills : v.held ≡ true → v.state ≡ filling
  pub filters : v.filter ≡ if_busy v v.live
  pub hears : v.audio ≡ if_busy v v.live
  pub syncs : is_busy v.state ≡ true → v.heard ≡ some v.effective
  pub classes : is_busy v.state ≡ true → v.class ≡ some v.cycle_class
  pub idles : is_busy v.state ≡ false → v.effective ≡ 0
  pub bounds : v.state ≡ active → v.effective ≤ v.delay
  pub overlays :
      v.overlay
      ≡ (if v.show && is_active v.state then some (applied v.effective v.delay, v.corner) else none)
