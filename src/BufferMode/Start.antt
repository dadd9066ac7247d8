-- ===== src/BufferMode/Start.antt =====
-- The invariant of src/buffer-mode-controller.cpp over Enable.
use obs_trigglow_dynamic_del.Prelude.{
  ◌≡◌, true, false, not, [], if◌then◌else◌, arith, is_empty, some, none,
}
use obs_trigglow_dynamic_del.BufferMode.{
  Bridge, is_busy, World, perform, error, login_required, choose_live_scene, wrapper_scene_failed,
  ensure_wrapper, ensure_audio_filters, set_audio_enabled,
}
use obs_trigglow_dynamic_del.BufferMode.Texts.{Text}
use obs_trigglow_dynamic_del.BufferMode.Encoders.{next_cycle_ring_class}
use obs_trigglow_dynamic_del.BufferMode.Ops.{set_state, enter_refill, sync_audio, acquire_with}
use obs_trigglow_dynamic_del.BufferMode.Cycle.{
  push_settings, fix_class, forget_cycle, prepare, leave_scene, forget_warnings, start,
  ensure_and_start, enable,
}
use obs_trigglow_dynamic_del.BufferMode.Track.{View, view, IsSound}
use obs_trigglow_dynamic_del.BufferMode.Quiet.{warn-Alike, refresh-Alike, Alike-subst, view-if}
use obs_trigglow_dynamic_del.BufferMode.Fill.{error-IsSound}

-- The view of Enable's world once OBS was asked for everything, before the fill window: the state is
-- still the one before.
pub record IsPrepared (v : View) : Type 0 where
  pub holds : v.holding ≡ v.held
  pub pairs : v.paired ≡ true
  pub filters : v.filter ≡ some v.live
  pub hears : v.audio ≡ some v.live
  pub syncs : v.heard ≡ some v.effective
  pub classes : v.class ≡ some v.cycle_class
  pub overlays : v.overlay ≡ none

module _ {b : Bridge} where
  prepare-IsPrepared :
      (w : World b)
      → is_busy w.ctl.status.state ≡ false
      → IsSound (view w)
      → IsPrepared (view (prepare w))
  unfolding prepare push_settings fix_class sync_audio forget_cycle acquire_with
  prepare-IsPrepared w idle v =
      let live = w.ctl.status.live_scene_name in
      let pushed = push_settings w in
      let fixed = fix_class pushed (next_cycle_ring_class pushed) in
      let synced = sync_audio (perform fixed (ensure_audio_filters live)) in
      let heard = perform synced (set_audio_enabled live true) in
      ground (arith, v, idle, (refresh-Alike (forget_cycle heard) true).seen)

  filled-IsSound :
      (w : World b) (before : Text)
      → IsPrepared (view w)
      → IsSound (view (forget_warnings (enter_refill (leave_scene w before))))
  unfolding enter_refill leave_scene set_state
  filled-IsSound w before p = ground (arith, p)

  start-IsSound :
      (w : World b)
      → is_busy w.ctl.status.state ≡ false
      → IsSound (view w)
      → IsSound (view (start w))
  unfolding start
  start-IsSound w idle v =
      let prepared = prepare w in
      let before = b.current_scene prepared.obs in
      Alike-subst IsSound _ _
        (warn-Alike (forget_warnings (enter_refill (leave_scene prepared before))))
        (filled-IsSound prepared before (prepare-IsPrepared w idle v))

  ensured-IsSound :
      (w : World b)
      → is_busy w.ctl.status.state ≡ false
      → IsSound (view w)
      → IsSound (view (ensure_and_start w))
  unfolding ensure_and_start
  ensured-IsSound w idle v =
      let ensured = perform w (ensure_wrapper w.ctl.status.live_scene_name) in
      let same : IsSound (view ensured) = ground (arith, v) in
      ground (
        arith,
        start-IsSound ensured idle same,
        error-IsSound ensured wrapper_scene_failed idle same,
      )

  pub enable-IsSound : (w : World b) → IsSound (view w) → IsSound (view (enable w))
  unfolding enable
  enable-IsSound w v =
      let denied = set_state w error login_required [] in
      let nameless = set_state w error choose_live_scene [] in
      let nonempty : World b =
        if is_empty w.ctl.status.live_scene_name then nameless else ensure_and_start w in
      view-if IsSound (is_busy w.ctl.status.state) w
        (if not (b.is_authorized w.obs) then denied else nonempty) (λ busy. v)
        λ idle.
          view-if IsSound (not (b.is_authorized w.obs)) denied nonempty
            (λ e. error-IsSound w login_required idle v)
            λ e.
              view-if IsSound (is_empty w.ctl.status.live_scene_name) nameless (ensure_and_start w)
                (λ e. error-IsSound w choose_live_scene idle v) λ e. ensured-IsSound w idle v
