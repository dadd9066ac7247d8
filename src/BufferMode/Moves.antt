-- ===== src/BufferMode/Moves.antt =====
-- What one call of the host, or one event, changes of a running delay in
-- src/buffer-mode-controller.cpp: its scenes, its ring class (invariant I9 of src/storage-codec.hpp),
-- and the count of its fill windows.
use obs_trigglow_dynamic_del.Prelude.{
  ◌≡◌, refl, ◌⊎◌, Bool, true, false, not, ◌&&◌, ◌||◌, [], add_u32, if◌then◌else◌, arith, is_empty,
}
use obs_trigglow_dynamic_del.BufferMode.{
  MessageKey, Bridge, is_busy, is_filling, World, perform, filling, active, error, no_key,
  login_required, choose_live_scene, wrapper_scene_failed, ensure_wrapper, ensure_audio_filters,
  set_audio_enabled, show_wrapper,
}
use obs_trigglow_dynamic_del.BufferMode.Encoders.{next_cycle_ring_class}
use obs_trigglow_dynamic_del.BufferMode.Ops.{
  set_state, enter_refill, update_overlay, sync_audio, acquire_with, release, show_loading_scene,
}
use obs_trigglow_dynamic_del.BufferMode.Cycle.{
  push_settings, fix_class, forget_cycle, prepare, leave_scene, forget_warnings, start,
  ensure_and_start, enable, on_fill_timer_elapsed, on_buffer_restarted, restore_program, switch_off,
  stop_delay,
}
use obs_trigglow_dynamic_del.BufferMode.Track.{View, view}
use obs_trigglow_dynamic_del.BufferMode.Quiet.{warn-Alike, refresh-Alike, view-if}

-- A delay that runs before and after keeps its class, its live scene and the scene to go back to; the
-- count of the fill windows goes up by one exactly when one starts: it fills then, and did not before or
-- its buffer has restarted, which a delay that runs fills anew.
pub record IsMove (restarted : Bool) (v u : View) : Type 0 where
  pub keeps_class : is_busy v.state ≡ true → is_busy u.state ≡ true → u.cycle_class ≡ v.cycle_class
  pub keeps_live : is_busy v.state ≡ true → is_busy u.state ≡ true → u.live ≡ v.live
  pub keeps_before : is_busy v.state ≡ true → is_busy u.state ≡ true → u.before ≡ v.before
  pub counts : u.generation ≡ (
      if is_filling u.state && (not (is_filling v.state) || restarted)
      then add_u32 v.generation 1
      else v.generation)
  pub refills : restarted ≡ true → is_busy v.state ≡ true → u.state ≡ filling

-- What a setting changes: nothing of the cycle, and Active becomes Filling in a new window at most.
pub record IsTuned (v u : View) : Type 0 where
  pub same_class : u.cycle_class ≡ v.cycle_class
  pub same_live : u.live ≡ v.live
  pub same_before : u.before ≡ v.before
  pub refills :
      ((u.generation ≡ v.generation) × (u.state ≡ v.state))
      ⊎ ((u.generation ≡ add_u32 v.generation 1) × (v.state ≡ active) × (u.state ≡ filling))

pub IsTuned-refl : (v : View) → IsTuned v v
IsTuned-refl v = ground arith

pub IsTuned-trans : {v u t : View} → IsTuned v u → IsTuned u t → IsTuned v t
IsTuned-trans p q = ground (arith, p, q)

pub IsMove-IsTuned : {v u : View} → IsTuned v u → IsMove false v u
IsMove-IsTuned p = ground (arith, p)

-- A start from a state that does not run.
IsMove-idle :
    {v u : View}
    → is_busy v.state ≡ false
    → u.generation ≡ v.generation
    → is_busy u.state ≡ false
    → IsMove false v u
IsMove-idle idle same rests = ground (arith, idle, same, rests)

module _ {b : Bridge} where
  -- The start of a fill window leaves the count to the window.
  prepare_counts : (w : World b) → (view (prepare w)).generation ≡ (view w).generation
  unfolding prepare push_settings fix_class sync_audio forget_cycle acquire_with
  prepare_counts w =
      let live = w.ctl.status.live_scene_name in
      let pushed = push_settings w in
      let fixed = fix_class pushed (next_cycle_ring_class pushed) in
      let synced = sync_audio (perform fixed (ensure_audio_filters live)) in
      let heard = perform synced (set_audio_enabled live true) in
      ground (arith, (refresh-Alike (forget_cycle heard) true).seen)

  start-IsMove :
      (w : World b) → is_busy w.ctl.status.state ≡ false → IsMove false (view w) (view (start w))
  unfolding start enter_refill leave_scene set_state
  start-IsMove w idle =
      let prepared = prepare w in
      let before = b.current_scene prepared.obs in
      let filled = forget_warnings (enter_refill (leave_scene prepared before)) in
      ground (arith, idle, (warn-Alike filled).seen, prepare_counts w)

  ensured-IsMove :
      (w : World b)
      → is_busy w.ctl.status.state ≡ false
      → IsMove false (view w) (view (ensure_and_start w))
  unfolding ensure_and_start set_state
  ensured-IsMove w idle =
      let ensured = perform w (ensure_wrapper w.ctl.status.live_scene_name) in
      view-if (IsMove false (view w)) (not (b.ensures_wrapper w.ctl.status.live_scene_name w.obs))
        (set_state ensured error wrapper_scene_failed []) (start ensured)
        (λ e. IsMove-idle idle refl refl) λ e. start-IsMove ensured idle

  pub enable-IsMove : (w : World b) → IsMove false (view w) (view (enable w))
  unfolding enable set_state
  enable-IsMove w =
      let denied = set_state w error login_required [] in
      let nameless = set_state w error choose_live_scene [] in
      let nonempty : World b =
        if is_empty w.ctl.status.live_scene_name then nameless else ensure_and_start w in
      view-if (IsMove false (view w)) (is_busy w.ctl.status.state) w
        (if not (b.is_authorized w.obs) then denied else nonempty)
        (λ busy. IsMove-IsTuned (IsTuned-refl (view w)))
        λ idle.
          view-if (IsMove false (view w)) (not (b.is_authorized w.obs)) denied nonempty
            (λ e. IsMove-idle idle refl refl)
            λ e.
              view-if (IsMove false (view w)) (is_empty w.ctl.status.live_scene_name) nameless
                (ensure_and_start w) (λ e. IsMove-idle idle refl refl) λ e. ensured-IsMove w idle

  pub stop-IsMove :
      (w : World b) (key : MessageKey) (restores : Bool)
      → IsMove false (view w) (view (stop_delay w key restores))
  unfolding stop_delay release switch_off restore_program set_state
  stop-IsMove w key restores = ground arith

  pub timer-IsMove : (w : World b) → IsMove false (view w) (view (on_fill_timer_elapsed w))
  unfolding on_fill_timer_elapsed release sync_audio set_state update_overlay
  timer-IsMove w =
      let shown = sync_audio (perform (release w) show_wrapper) in
      let running = update_overlay (set_state shown active no_key []) in
      ground (arith, (warn-Alike running).seen)

  pub restarted-IsMove : (w : World b) → IsMove true (view w) (view (on_buffer_restarted w))
  unfolding on_buffer_restarted show_loading_scene sync_audio enter_refill update_overlay
      acquire_with set_state
  restarted-IsMove w = ground arith
