-- ===== src/BufferMode/Cycle.antt =====
-- src/buffer-mode-controller.cpp: a cycle of the delay, from Enable over its fill windows to Disable.
use obs_trigglow_dynamic_del.Prelude.{
  Bool, true, false, not, ◌||◌, [], ◌∷◌, if◌then◌else◌, is_empty,
}
use obs_trigglow_dynamic_del.BufferMode.{
  MessageKey, RingClass, Bridge, no_ceiling_yet, is_busy, is_active, is_inactive, is_filling, World,
  perform, performs, inactive, active, error, no_key, login_required, choose_live_scene,
  wrapper_scene_failed, collection_changed, ensure_wrapper, ensure_audio_filters, set_current_scene,
  set_filter_enabled, set_audio_enabled, set_filter_output_cap, set_filter_workers,
  set_filter_codec, set_filter_delay, set_filter_min_height, set_filter_class, set_overlay,
  take_skipped, watch_stops, show_wrapper,
}
use obs_trigglow_dynamic_del.BufferMode.Texts.{Text, is_wrapper_scene_name}
use obs_trigglow_dynamic_del.BufferMode.Encoders.{
  warn_about_encoders, refresh_encoders, next_cycle_ring_class,
}
use obs_trigglow_dynamic_del.BufferMode.Ops.{
  set_state, enter_refill, update_overlay, sync_audio, acquire_with, acquire, release,
  show_loading_scene,
}

module _ {b : Bridge} where
  -- The settings that Enable pushes to the video filter.
  unfoldable pub push_settings : World b → World b
  push_settings w =
      let s = w.ctl.status in
      performs w (
        set_filter_delay s.live_scene_name s.delay_seconds
        ∷ set_filter_min_height s.live_scene_name s.min_resolution_height
        ∷ set_filter_output_cap s.live_scene_name w.ctl.output_cap
        ∷ set_filter_workers s.live_scene_name w.ctl.codec_workers
        ∷ set_filter_codec s.live_scene_name w.ctl.codec_auto
        ∷ [])

  -- The ring class of a cycle, fixed and pushed.
  unfoldable pub fix_class : World b → RingClass → World b
  fix_class w ring_class =
      perform (record w { ctl = record w.ctl { cycle_ring_class = ring_class } })
        (set_filter_class w.ctl.status.live_scene_name ring_class)

  -- Nothing pending of the cycle before.
  unfoldable pub forget_cycle : World b → World b
  forget_cycle w = record w {
    ctl = record w.ctl { yield_pending = false; last_ceiling = no_ceiling_yet };
  }

  -- Enable, from the settings to the keep-alive.
  unfoldable pub prepare : World b → World b
  unfolding push_settings fix_class next_cycle_ring_class sync_audio forget_cycle refresh_encoders
      acquire_with
  prepare w =
      let live = w.ctl.status.live_scene_name in
      let pushed = push_settings w in
      let fixed = fix_class pushed (next_cycle_ring_class pushed) in
      let synced = sync_audio (perform fixed (ensure_audio_filters live)) in
      let heard = perform synced (set_audio_enabled live true) in
      acquire (
        performs (refresh_encoders (forget_cycle heard) true)
          (take_skipped ∷ watch_stops ∷ set_filter_enabled live true ∷ []))

  -- `sceneBeforeEnable_`, and the loading scene on Program.
  unfoldable pub leave_scene : World b → Text → World b
  leave_scene w before =
      let left = record w { ctl = record w.ctl { scene_before = before } } in
      if is_empty w.ctl.status.loading_scene_name
      then left
      else perform left (set_current_scene w.ctl.status.loading_scene_name)

  abbrev pub forget_warnings : World b → World b
  forget_warnings w = record w { ctl = record w.ctl { warned_encoders = [] } }

  -- Enable, once the wrapper scene is there.
  unfoldable pub start : World b → World b
  unfolding prepare leave_scene enter_refill warn_about_encoders
  start w =
      let prepared = prepare w in
      warn_about_encoders
        (forget_warnings (enter_refill (leave_scene prepared (b.current_scene prepared.obs))))

  -- Enable, past the guards that touch nothing of OBS.
  unfoldable pub ensure_and_start : World b → World b
  unfolding set_state start
  ensure_and_start w =
      let ensured = perform w (ensure_wrapper w.ctl.status.live_scene_name) in
      if not (b.ensures_wrapper w.ctl.status.live_scene_name w.obs)
      then set_state ensured error wrapper_scene_failed []
      else start ensured

  -- Enable.
  unfoldable pub enable : World b → World b
  unfolding set_state ensure_and_start
  enable w =
      if is_busy w.ctl.status.state
      then w
      else if not (b.is_authorized w.obs)
      then set_state w error login_required []
      else if is_empty w.ctl.status.live_scene_name
      then set_state w error choose_live_scene []
      else ensure_and_start w

  -- OnFillTimerElapsed.
  unfoldable pub on_fill_timer_elapsed : World b → World b
  unfolding release sync_audio set_state update_overlay warn_about_encoders
  on_fill_timer_elapsed w =
      let shown = sync_audio (perform (release w) show_wrapper) in
      let running = update_overlay (set_state shown active no_key []) in
      if not (is_filling w.ctl.status.state) then w else warn_about_encoders running

  -- OnBufferRestarted.
  unfoldable pub on_buffer_restarted : World b → World b
  unfolding show_loading_scene sync_audio enter_refill update_overlay
  on_buffer_restarted w =
      let shown = if is_active w.ctl.status.state then show_loading_scene w else w in
      if not (is_busy w.ctl.status.state)
      then w
      else update_overlay (enter_refill (sync_audio shown))

  -- The scene that StopDelay puts back on Program.
  unfoldable pub restore_program : World b → World b
  restore_program w =
      if not (is_empty w.ctl.scene_before)
      then perform w (set_current_scene w.ctl.scene_before)
      else if not (is_empty w.ctl.status.live_scene_name)
      then perform w (set_current_scene w.ctl.status.live_scene_name)
      else w

  -- The switching off in StopDelay.
  unfoldable pub switch_off : World b → World b
  switch_off w =
      let live = w.ctl.status.live_scene_name in
      let s = record w.ctl.status { effective_delay_seconds = 0 } in
      let hidden = perform w (set_overlay false 0 0) in
      performs (record hidden { ctl = record w.ctl { status = s; yield_pending = false } })
        (set_filter_enabled live false ∷ set_audio_enabled live false ∷ [])

  -- StopDelay.
  unfoldable pub stop_delay : World b → MessageKey → Bool → World b
  unfolding release switch_off restore_program set_state
  stop_delay w key restores =
      let off = switch_off (release w) in
      let restored = if restores then restore_program off else off in
      set_state (record restored { ctl = record restored.ctl { scene_before = [] } }) inactive key
        []

  -- Disable.
  unfoldable pub disable : World b → World b
  unfolding stop_delay
  disable w = stop_delay w no_key true

  -- Toggle.
  unfoldable pub toggle : World b → World b
  unfolding enable disable
  toggle w = if is_inactive w.ctl.status.state then enable w else disable w

  -- StopForSceneCollectionChange.
  unfoldable pub stop_for_collection : World b → Bool → World b
  unfolding stop_delay is_wrapper_scene_name
  stop_for_collection w old_loaded =
      if not (is_busy w.ctl.status.state)
      then w
      else stop_delay w collection_changed
          (old_loaded || is_wrapper_scene_name (b.current_scene w.obs))
