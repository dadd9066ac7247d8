-- ===== src/BufferMode/Refuse.antt =====
-- The Enable of src/buffer-mode-controller.cpp that is refused, and a delay that is set in a fill
-- window.
use obs_trigglow_dynamic_del.Prelude.{
  ℕ, ◌≡◌, ◌≤◌, refl, ap, Bool, true, false, not, ◌&&◌, List, [], ◌∷◌, arith, is_empty, some,
  if_false,
}
use obs_trigglow_dynamic_del.EncoderCheck.{Size}
use obs_trigglow_dynamic_del.BufferMode.{
  ActiveVideoEncoder, Bridge, is_busy, is_active, World, perform, with_status, filling, active,
  error, no_key, ensure_wrapper, show_wrapper,
}
use obs_trigglow_dynamic_del.BufferMode.Encoders.{
  warn_one, warn_each, buffer_size, warn_about_encoders,
}
use obs_trigglow_dynamic_del.BufferMode.Ops.{
  has_key, notify, set_state, enter_refill, update_overlay, sync_audio, release, set_delay_seconds,
}
use obs_trigglow_dynamic_del.BufferMode.Cycle.{
  prepare, leave_scene, forget_warnings, start, ensure_and_start, enable, on_fill_timer_elapsed,
}
use obs_trigglow_dynamic_del.BufferMode.Track.{
  held_in, filter_scene, audio_scene, audio_seconds, shown_overlay,
}
use obs_trigglow_dynamic_del.BufferMode.Quiet.{warn-Alike}
use obs_trigglow_dynamic_del.BufferMode.Restore.{program, told_delay}

-- The guards of Enable that touch nothing, and the wrapper scene, which OBS may not give.
abbrev pub may_start : {b : Bridge} → World b → Bool
may_start {b} w = b.is_authorized w.obs && not (is_empty w.ctl.status.live_scene_name)

abbrev pub has_wrapper : {b : Bridge} → World b → Bool
has_wrapper {b} w = b.ensures_wrapper w.ctl.status.live_scene_name w.obs

-- Nothing of what viewers get was touched.
pub record IsUntouched {b : Bridge} (w v : World b) : Type 0 where
  pub same_program : program v.log ≡ program w.log
  pub same_filter : filter_scene v.log ≡ filter_scene w.log
  pub same_audio : audio_scene v.log ≡ audio_scene w.log
  pub same_overlay : shown_overlay v.log ≡ shown_overlay w.log
  pub same_holding : held_in v.log ≡ held_in w.log

module _ {b : Bridge} where
  start_fills : (w : World b) → (start w).ctl.status.state ≡ filling
  unfolding start enter_refill leave_scene set_state
  start_fills w =
      let prepared = prepare w in
      let before = b.current_scene prepared.obs in
      let filled = forget_warnings (enter_refill (leave_scene prepared before)) in
      ground (arith, (warn-Alike filled).seen)

  pub record IsEnabled (w v : World b) : Type 0 where
    pub fills : (may_start w && has_wrapper w) ≡ true → v.ctl.status.state ≡ filling
    pub fails :
        (may_start w && has_wrapper w) ≡ false
        → (v.ctl.status.state ≡ error) × (has_key v.ctl.status.message_key ≡ true) × IsUntouched w v
    pub leaves_obs : may_start w ≡ false → v.obs ≡ w.obs

  -- Enable from a state that does not run begins to fill exactly when the account may, a live scene is
  -- chosen and OBS gives the wrapper scene. Else it ends in Error with a message, with Program, the
  -- filters, the overlay and the keep-alive as they were, and without a call to OBS if the account or
  -- the scene is missing.
  pub enable-IsEnabled : (w : World b) → is_busy w.ctl.status.state ≡ false → IsEnabled w (enable w)
  unfolding enable ensure_and_start set_state
  enable-IsEnabled w idle =
      ground (arith, idle, start_fills (perform w (ensure_wrapper w.ctl.status.live_scene_name)))

  told-warn_each :
      (w : World b) (capped uncapped : Size) (encoders : List ActiveVideoEncoder)
      → told_delay (warn_each w capped uncapped encoders).log ≡ told_delay w.log
  unfolding warn_each warn_one
  told-warn_each w capped uncapped [] = refl
  told-warn_each w capped uncapped (e ∷ encoders) =
      ground (arith, told-warn_each (warn_one w capped uncapped e) capped uncapped encoders)

  told-warn : (w : World b) → told_delay (warn_about_encoders w).log ≡ told_delay w.log
  unfolding warn_about_encoders
  told-warn w =
      ground (arith, told-warn_each w (buffer_size w true) (buffer_size w false) (b.encoders w.obs))

  -- The end of a fill window.
  timer_ends :
      (w : World b)
      → w.ctl.status.state ≡ filling
      → let v = on_fill_timer_elapsed w in
        (v.ctl.status.state ≡ active)
        × (v.ctl.status.delay_seconds ≡ w.ctl.status.delay_seconds)
        × (told_delay v.log ≡ told_delay w.log)
        × (audio_seconds v.log ≡ some v.ctl.status.effective_delay_seconds)
        × (v.ctl.status.effective_delay_seconds ≤ w.ctl.status.delay_seconds)
  unfolding on_fill_timer_elapsed release sync_audio set_state update_overlay
  timer_ends w fills =
      let shown = sync_audio (perform (release w) show_wrapper) in
      let running = update_overlay (set_state shown active no_key []) in
      ground (arith, fills, told-warn running, (warn-Alike running).seen)

  -- Outside Active a new delay is only kept.
  delay_kept :
      (w : World b) (seconds : ℕ)
      → w.ctl.status.state ≡ filling
      → set_delay_seconds w seconds
        ≡ notify (with_status w (record w.ctl.status { delay_seconds = seconds }))
  unfolding set_delay_seconds
  delay_kept w seconds fills =
      ap notify (if_false (is_active w.ctl.status.state) _ _ (ap is_active fills))

-- A delay set in a fill window becomes the status's when the window ends, and audio gets no more than
-- it, but the video filter is told of none: it goes on with the delay that it was told before.
pub filling_delay_untold :
    (b : Bridge) (w : World b) (seconds : ℕ)
    → w.ctl.status.state ≡ filling
    → let v = on_fill_timer_elapsed (set_delay_seconds w seconds) in
      (v.ctl.status.state ≡ active)
      × (v.ctl.status.delay_seconds ≡ seconds)
      × (told_delay v.log ≡ told_delay w.log)
      × (audio_seconds v.log ≡ some v.ctl.status.effective_delay_seconds)
      × (v.ctl.status.effective_delay_seconds ≤ seconds)
filling_delay_untold b w seconds fills =
    let set = notify (with_status w (record w.ctl.status { delay_seconds = seconds })) in
    rw (delay_kept w seconds fills) (timer_ends set fills)
