-- ===== src/BufferMode/Ops.antt =====
-- src/buffer-mode-controller.cpp: the operations of the controller. Every one of them runs on OBS's UI
-- thread, or on the one thread of the host. Log lines are left out.
use obs_trigglow_dynamic_del.Prelude.{
  ℕ, min, Bool, true, false, not, ◌&&◌, ◌||◌, List, [], ◌∷◌, ltb, ◌==◌, if◌then◌else◌, add_u32,
  is_empty,
}
use obs_trigglow_dynamic_del.BufferMode.{
  BufferModeState, MessageKey, Status, Action, Bridge, is_active, World, perform, note, with_status,
  filling, no_key, filling_key, filling_trimmed, release_rendering, set_current_scene,
  acquire_rendering, set_filter_delay, set_filter_min_height, set_audio_delay, set_overlay,
  notified,
}
use obs_trigglow_dynamic_del.BufferMode.Texts.{Text, to_text, format_args, is_wrapper_scene_name}
use obs_trigglow_dynamic_del.BufferMode.Encoders.{same_size}

-- AppliedDelaySeconds.
unfoldable pub applied_delay_seconds : Status → ℕ
applied_delay_seconds s =
    if ltb 0 s.effective_delay_seconds
    then min s.effective_delay_seconds s.delay_seconds
    else s.delay_seconds

-- FillingMessageKey.
unfoldable pub filling_message_key : Status → MessageKey
unfolding applied_delay_seconds
filling_message_key s =
    if ltb (applied_delay_seconds s) s.delay_seconds then filling_trimmed else filling_key

abbrev pub has_key : MessageKey → Bool
has_key no_key = false
has_key _ = true

abbrev pub clamp_corner : ℕ → ℕ
clamp_corner corner = if ltb 3 corner then 0 else corner

-- ListAvailableScenes, from OBS's list.
unfoldable pub available_scenes : List Text → List Text
unfolding is_wrapper_scene_name
available_scenes [] = []
available_scenes (name ∷ names) =
    let rest = available_scenes names in if is_wrapper_scene_name name then rest else name ∷ rest

module _ {b : Bridge} where
  -- NotifyStatusChanged.
  abbrev pub notify : World b → World b
  notify w = note w (notified w.ctl.status)

  -- SetState.
  unfoldable pub set_state : World b → BufferModeState → MessageKey → Text → World b
  set_state w state key message =
      let text = if is_empty message && has_key key then b.str key else message in
      notify
        (with_status w (record w.ctl.status { state = state; message_key = key; message = text }))

  -- FillingMessage.
  unfoldable pub filling_message : World b → Text
  unfolding applied_delay_seconds format_args to_text
  filling_message w =
      let applied = applied_delay_seconds w.ctl.status in
      let requested = w.ctl.status.delay_seconds in
      if ltb applied requested
      then format_args (b.str filling_trimmed) (to_text applied ∷ to_text requested ∷ [])
      else format_args (b.str filling_key) (to_text applied ∷ [])

  -- A new fill window: the end of Enable, and EnterRefill.
  unfoldable pub enter_refill : World b → World b
  unfolding set_state filling_message filling_message_key
  enter_refill w =
      let generation = add_u32 w.ctl.status.fill_generation 1 in
      let counted = with_status w (record w.ctl.status { fill_generation = generation }) in
      set_state counted filling (filling_message_key w.ctl.status) (filling_message w)

  -- UpdateOverlay.
  unfoldable pub update_overlay : World b → World b
  unfolding applied_delay_seconds
  update_overlay w =
      let s = w.ctl.status in
      perform w (
        set_overlay (s.show_overlay && is_active s.state) (applied_delay_seconds s)
          s.overlay_corner)

  -- The seconds that SyncAudioDelayToVideoEffective comes to.
  abbrev pub synced_seconds : World b → ℕ
  synced_seconds w =
      let effective = b.video_delay w.ctl.status.live_scene_name w.obs in
      if ltb 0 effective && ltb effective w.ctl.status.delay_seconds
      then effective
      else w.ctl.status.delay_seconds

  -- SyncAudioDelayToVideoEffective, with those seconds.
  unfoldable pub apply_seconds : World b → ℕ → World b
  apply_seconds w seconds =
      perform (with_status w (record w.ctl.status { effective_delay_seconds = seconds }))
        (set_audio_delay w.ctl.status.live_scene_name seconds)

  unfoldable pub sync_audio : World b → World b
  unfolding apply_seconds
  sync_audio w = apply_seconds w (synced_seconds w)

  -- `liveSceneRenderingHeld_ = bridge_.AcquireLiveSceneRendering(...)`, with the bridge's answer.
  unfoldable pub acquire_with : World b → Bool → World b
  acquire_with w answer =
      perform (record w { ctl = record w.ctl { rendering_held = answer } })
        (acquire_rendering w.ctl.status.live_scene_name answer)

  abbrev pub acquire : World b → World b
  acquire w = acquire_with w (b.acquires w.ctl.status.live_scene_name w.obs)

  -- The release of the keep-alive in OnFillTimerElapsed and StopDelay.
  unfoldable pub release : World b → World b
  release w =
      if w.ctl.rendering_held
      then perform (record w { ctl = record w.ctl { rendering_held = false } })
          (release_rendering w.ctl.status.live_scene_name)
      else w

  -- BufferRestartsWith.
  unfoldable pub buffer_restarts_with : World b → ℕ → ℕ → Bool
  buffer_restarts_with w seconds height =
      let fit = λ (seconds height : ℕ).
        b.estimate w.ctl.status.live_scene_name seconds height w.ctl.output_cap
          w.ctl.cycle_ring_class w.obs in
      let before = fit seconds height in
      let later = fit w.ctl.status.delay_seconds w.ctl.status.min_resolution_height in
      not (same_size before.size later.size)
      || not (b.real.same before.actual_seconds later.actual_seconds)
      || not (before.effective_seconds == later.effective_seconds)

  -- ShowLoadingSceneForRefill.
  unfoldable pub show_loading_scene : World b → World b
  unfolding acquire_with
  show_loading_scene w =
      let held = if w.ctl.rendering_held then w else acquire w in
      if is_empty w.ctl.status.loading_scene_name
      then w
      else perform held (set_current_scene w.ctl.status.loading_scene_name)

  -- What SetDelaySeconds and SetMinResolutionHeight do while Active: the call that pushes the setting,
  -- and a refill where it restarts the buffer.
  unfoldable pub resize : World b → Bool → Action → World b
  unfolding show_loading_scene sync_audio enter_refill update_overlay
  resize w refill push =
      let shown = if refill then show_loading_scene w else w in
      let synced = sync_audio (perform shown push) in
      update_overlay (if refill then enter_refill synced else synced)

  -- SetDelaySeconds.
  unfoldable pub set_delay_seconds : World b → ℕ → World b
  unfolding resize buffer_restarts_with
  set_delay_seconds w seconds =
      let s = w.ctl.status in
      let v = with_status w (record s { delay_seconds = seconds }) in
      let refill = buffer_restarts_with v s.delay_seconds s.min_resolution_height in
      notify (
        if is_active s.state
        then resize v refill (set_filter_delay s.live_scene_name seconds)
        else v)

  -- SetMinResolutionHeight.
  unfoldable pub set_min_resolution_height : World b → ℕ → World b
  unfolding resize buffer_restarts_with
  set_min_resolution_height w height =
      let s = w.ctl.status in
      let v = with_status w (record s { min_resolution_height = height }) in
      let refill = buffer_restarts_with v s.delay_seconds s.min_resolution_height in
      notify (
        if is_active s.state
        then resize v refill (set_filter_min_height s.live_scene_name height)
        else v)

  -- SetLiveScene.
  unfoldable pub set_live_scene : World b → Text → World b
  set_live_scene w name = notify (with_status w (record w.ctl.status { live_scene_name = name }))

  -- SetLoadingScene.
  unfoldable pub set_loading_scene : World b → Text → World b
  set_loading_scene w name =
      notify (with_status w (record w.ctl.status { loading_scene_name = name }))

  -- SetShowOverlay.
  unfoldable pub set_show_overlay : World b → Bool → World b
  unfolding update_overlay
  set_show_overlay w show =
      update_overlay (notify (with_status w (record w.ctl.status { show_overlay = show })))

  -- SetOverlayCorner.
  unfoldable pub set_overlay_corner : World b → ℕ → World b
  unfolding update_overlay
  set_overlay_corner w corner =
      let s = record w.ctl.status { overlay_corner = clamp_corner corner } in
      update_overlay (notify (with_status w s))
