-- ===== src/BufferMode/Fill.antt =====
-- The invariant of src/buffer-mode-controller.cpp over the operations of a cycle.
use obs_trigglow_dynamic_del.Prelude.{
  ℕ, ◌≡◌, refl, Bool, true, false, [], arith, some, Bool-cases, inl, inr,
}
use obs_trigglow_dynamic_del.BufferMode.{
  MessageKey, Action, Bridge, is_busy, is_active, World, perform, with_status, active, error,
  no_key, set_filter_delay, set_filter_min_height, show_wrapper,
}
use obs_trigglow_dynamic_del.BufferMode.Ops.{
  set_state, enter_refill, update_overlay, sync_audio, acquire_with, release, buffer_restarts_with,
  show_loading_scene, resize, set_delay_seconds, set_min_resolution_height, set_show_overlay,
  set_overlay_corner,
}
use obs_trigglow_dynamic_del.BufferMode.Cycle.{
  on_fill_timer_elapsed, on_buffer_restarted, restore_program, switch_off, stop_delay,
}
use obs_trigglow_dynamic_del.BufferMode.Track.{View, view, IsSound}
use obs_trigglow_dynamic_del.BufferMode.Quiet.{Alike, warn-Alike}

-- What a running delay keeps of the invariant while its seconds change.
pub record IsRunning (v : View) : Type 0 where
  pub holds : v.holding ≡ v.held
  pub pairs : v.paired ≡ true
  pub fills : v.held ≡ false
  pub filters : v.filter ≡ some v.live
  pub hears : v.audio ≡ some v.live
  pub classes : v.class ≡ some v.cycle_class
  pub runs : v.state ≡ active

module _ {b : Bridge} where
  pub stop-IsSound :
      (w : World b) (key : MessageKey) (restores : Bool)
      → IsSound (view w)
      → IsSound (view (stop_delay w key restores))
  unfolding stop_delay release switch_off restore_program set_state
  stop-IsSound w key restores v = ground (arith, v)

  -- The answer of a refused Enable.
  pub error-IsSound :
      (w : World b) (key : MessageKey)
      → is_busy w.ctl.status.state ≡ false
      → IsSound (view w)
      → IsSound (view (set_state w error key []))
  unfolding set_state
  error-IsSound w key idle v = ground (arith, v)

  pub timer-IsSound : (w : World b) → IsSound (view w) → IsSound (view (on_fill_timer_elapsed w))
  unfolding on_fill_timer_elapsed release sync_audio set_state update_overlay
  timer-IsSound w v =
      let shown = sync_audio (perform (release w) show_wrapper) in
      let running = update_overlay (set_state shown active no_key []) in
      ground (arith, v, (warn-Alike running).seen)

  pub restarted-IsSound : (w : World b) → IsSound (view w) → IsSound (view (on_buffer_restarted w))
  unfolding on_buffer_restarted show_loading_scene sync_audio enter_refill update_overlay
      acquire_with set_state
  restarted-IsSound w v = ground (arith, v)

  -- What resizing the buffer needs of an active delay, whatever its settings become.
  active-IsRunning :
      (w : World b) (seconds height : ℕ)
      → is_active w.ctl.status.state ≡ true
      → IsSound (view w)
      → let s = w.ctl.status in
        IsRunning (
          view
            (with_status w (record s { delay_seconds = seconds; min_resolution_height = height })))
  active-IsRunning w seconds height on v = ground (arith, v, on)

  -- `push` is a setting of the filter that the invariant does not read.
  resize-IsSound :
      (w : World b) (refill : Bool) (push : Action)
      → ((x : World b) → Alike (perform x push) x)
      → IsRunning (view w)
      → IsSound (view (resize w refill push))
  unfolding resize show_loading_scene sync_audio enter_refill update_overlay acquire_with set_state
  resize-IsSound w true push q v = ground (arith, v, (q (show_loading_scene w)).seen)
  resize-IsSound w false push q v = ground (arith, v, (q w).seen)

  pub delay-IsSound :
      (w : World b) (seconds : ℕ) → IsSound (view w) → IsSound (view (set_delay_seconds w seconds))
  unfolding set_delay_seconds
  delay-IsSound w seconds v =
      let s = w.ctl.status in
      let d : World b = with_status w (record s { delay_seconds = seconds }) in
      let refill = buffer_restarts_with d s.delay_seconds s.min_resolution_height in
      let push = set_filter_delay s.live_scene_name seconds in
      elim (Bool-cases (is_active s.state)) [
        | inl on ↦ ground (
          arith,
          on,
          resize-IsSound d refill push (λ x. record { seen = refl })
              (active-IsRunning w seconds s.min_resolution_height on v),
        )
        | inr off ↦ ground (arith, off, v)
      ]

  pub height-IsSound :
      (w : World b) (height : ℕ)
      → IsSound (view w)
      → IsSound (view (set_min_resolution_height w height))
  unfolding set_min_resolution_height
  height-IsSound w height v =
      let s = w.ctl.status in
      let d : World b = with_status w (record s { min_resolution_height = height }) in
      let refill = buffer_restarts_with d s.delay_seconds s.min_resolution_height in
      let push = set_filter_min_height s.live_scene_name height in
      elim (Bool-cases (is_active s.state)) [
        | inl on ↦ ground (
          arith,
          on,
          resize-IsSound d refill push (λ x. record { seen = refl })
              (active-IsRunning w s.delay_seconds height on v),
        )
        | inr off ↦ ground (arith, off, v)
      ]

  pub overlay-IsSound :
      (w : World b) (show : Bool) → IsSound (view w) → IsSound (view (set_show_overlay w show))
  unfolding set_show_overlay update_overlay
  overlay-IsSound w show v = ground (arith, v)

  pub corner-IsSound :
      (w : World b) (corner : ℕ) → IsSound (view w) → IsSound (view (set_overlay_corner w corner))
  unfolding set_overlay_corner update_overlay
  corner-IsSound w corner v = ground (arith, v)
