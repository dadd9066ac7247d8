-- ===== src/BufferMode/Events.antt =====
-- src/buffer-mode-controller.cpp: what happens to the controller from outside, OBS's events, the tick of
-- every second and the settings, and the settings of the host in src/core-host.cpp. Times are
-- nanoseconds that a `uint64_t` holds for 584 years, and are added without the wrap-around.
use obs_trigglow_dynamic_del.Prelude.{
  ◌+◌, Bool, true, false, not, ◌&&◌, ◌||◌, [], ◌∷◌, ltb, leb, ◌==◌, if◌then◌else◌,
}
use obs_trigglow_dynamic_del.Delay.{
  FrontendEvent, buffer_restarted, streaming_starting, streaming_started, streaming_stopped,
  recording_starting, recording_started, recording_stopped, replay_buffer_starting,
  replay_buffer_started, replay_buffer_stopped, virtualcam_started, virtualcam_stopped,
  output_encode_error, finished_loading, scene_collection_changing, scene_collection_changed,
  theme_changed,
}
use obs_trigglow_dynamic_del.BufferMode.{
  Bridge, is_busy, is_inactive, World, perform, performs, note, resume_hw_encoder,
  report_encode_error, yield_hw_encoder, report_lag, take_skipped, watch_stops, migrate_names,
  disable_filters, refreshed_scenes, changed_theme,
}
use obs_trigglow_dynamic_del.BufferMode.Encoders.{
  count_nvenc, warn_about_encoders, refresh_encoders,
}
use obs_trigglow_dynamic_del.BufferMode.Cycle.{on_buffer_restarted, stop_for_collection}

abbrev pub is_loaded : FrontendEvent → Bool
is_loaded finished_loading = true
is_loaded scene_collection_changed = true
is_loaded _ = false

abbrev pub is_starting : FrontendEvent → Bool
is_starting streaming_starting = true
is_starting recording_starting = true
is_starting replay_buffer_starting = true
is_starting _ = false

abbrev pub is_started : FrontendEvent → Bool
is_started streaming_started = true
is_started recording_started = true
is_started replay_buffer_started = true
is_started _ = false

abbrev pub is_stopped : FrontendEvent → Bool
is_stopped streaming_stopped = true
is_stopped recording_stopped = true
is_stopped replay_buffer_stopped = true
is_stopped _ = false

abbrev pub is_virtualcam : FrontendEvent → Bool
is_virtualcam virtualcam_started = true
is_virtualcam virtualcam_stopped = true
is_virtualcam _ = false

abbrev pub is_encode_error : FrontendEvent → Bool
is_encode_error output_encode_error = true
is_encode_error _ = false

abbrev pub is_theme_changed : FrontendEvent → Bool
is_theme_changed theme_changed = true
is_theme_changed _ = false

module _ {b : Bridge} where
  -- YieldForOutputStart.
  unfoldable pub yield_for_output_start : World b → World b
  unfolding count_nvenc
  yield_for_output_start w =
      let waits = leb 4 (count_nvenc (b.encoders w.obs) [] 0 + 2) in
      let yielded = perform w (yield_hw_encoder w.ctl.status.live_scene_name waits) in
      if not (is_busy w.ctl.status.state) then w else record yielded {
        ctl = record w.ctl {
          yield_pending = true;
          yield_since_ns = b.now_ns yielded.obs;
          output_started_ns = 0;
        };
      }

  -- Whether the time of a yield is over: kResumeAfterStartNs and kResumeAtMostNs.
  abbrev pub is_resumed : World b → Bool
  is_resumed w =
      let now = b.now_ns w.obs in
      w.ctl.yield_pending
      && ((not (w.ctl.output_started_ns == 0) && leb (w.ctl.output_started_ns + 3000000000) now)
          || leb (w.ctl.yield_since_ns + 10000000000) now)

  -- The end of a yield in Tick.
  unfoldable pub resume : World b → World b
  unfolding refresh_encoders
  resume w =
      let done = record w { ctl = record w.ctl { yield_pending = false } } in
      if is_resumed w
      then perform (refresh_encoders done true) (resume_hw_encoder w.ctl.status.live_scene_name)
      else w

  -- The report of the skipped frames in Tick.
  unfoldable pub report_skipped : World b → World b
  report_skipped w =
      let skipped = b.skipped_frames w.obs in
      let taken = perform w take_skipped in
      if ltb 0 skipped
      then perform taken (report_lag w.ctl.status.live_scene_name skipped)
      else taken

  -- Tick.
  unfoldable pub tick : World b → World b
  unfolding refresh_encoders report_skipped resume
  tick w =
      if not (is_busy w.ctl.status.state)
      then w
      else resume (report_skipped (perform (refresh_encoders w false) watch_stops))

  -- The first part of OnFrontendEvent: a switch of the scene collection.
  unfoldable pub on_collection : World b → FrontendEvent → World b
  unfolding stop_for_collection
  on_collection w scene_collection_changing = stop_for_collection w true
  on_collection w scene_collection_changed = stop_for_collection w false
  on_collection w _ = w

  -- The next part: a collection that was loaded, and the callbacks.
  unfoldable pub on_loaded : World b → FrontendEvent → World b
  on_loaded w event =
      let cleaned =
        if is_inactive w.ctl.status.state
        then performs w (migrate_names ∷ disable_filters ∷ [])
        else w in
      let refreshed = note cleaned refreshed_scenes in
      if is_loaded event
      then refreshed
      else if is_theme_changed event
      then note w changed_theme
      else w

  -- The next part: what an output did.
  unfoldable pub on_output : World b → FrontendEvent → World b
  unfolding yield_for_output_start
  on_output w event =
      if is_encode_error event && is_busy w.ctl.status.state
      then perform w (report_encode_error w.ctl.status.live_scene_name)
      else if is_starting event
      then yield_for_output_start w
      else w

  -- The next part: an output that started or stopped.
  unfoldable pub on_encoders : World b → FrontendEvent → World b
  unfolding refresh_encoders warn_about_encoders
  on_encoders w event =
      let timed =
        if is_started event && w.ctl.yield_pending && w.ctl.output_started_ns == 0
        then record w { ctl = record w.ctl { output_started_ns = b.now_ns w.obs } }
        else w in
      let refreshed =
        if is_busy w.ctl.status.state
          && (is_started event || is_stopped event || is_virtualcam event)
        then refresh_encoders timed true
        else timed in
      if is_started event then warn_about_encoders refreshed else refreshed

  -- The last part: the buffer's own event.
  unfoldable pub on_restarted : World b → FrontendEvent → World b
  unfolding on_buffer_restarted
  on_restarted w buffer_restarted = on_buffer_restarted w
  on_restarted w _ = w

  -- OnFrontendEvent.
  unfoldable pub on_frontend_event : World b → FrontendEvent → World b
  unfolding on_collection on_loaded on_output on_encoders on_restarted
  on_frontend_event w event =
      on_restarted (on_encoders (on_output (on_loaded (on_collection w event) event) event) event)
        event
