-- ===== src/BufferMode/Restore.antt =====
-- What src/buffer-mode-controller.cpp shows on Program: the scene from before Enable comes back, a
-- refused Enable touches nothing, and a delay set in a fill window does not reach the video filter.
use obs_trigglow_dynamic_del.Prelude.{
  ℕ, ◌≡◌, refl, ap, ◌∙◌, true, false, List, [], ◌∷◌, Option, arith, is_empty, some, none,
}
use obs_trigglow_dynamic_del.BufferMode.{
  MessageKey, Action, Bridge, is_busy, World, perform, inactive, filling, no_key, ensure_wrapper,
  set_current_scene, set_filter_delay, show_wrapper,
}
use obs_trigglow_dynamic_del.BufferMode.Texts.{Text, wrapper_scene}
use obs_trigglow_dynamic_del.BufferMode.Ops.{set_state, enter_refill, release}
use obs_trigglow_dynamic_del.BufferMode.Cycle.{
  prepare, leave_scene, forget_warnings, start, ensure_and_start, enable, restore_program,
  switch_off, stop_delay, disable,
}
use obs_trigglow_dynamic_del.BufferMode.Host.{Host}
use obs_trigglow_dynamic_del.BufferMode.Quiet.{warn-Alike}
use obs_trigglow_dynamic_del.BufferMode.Invariant.{Call, on_world, called, after, enables, disables}
use obs_trigglow_dynamic_del.BufferMode.Calls.{
  IsReady, called-IsReady, after-IsReady, new_host, new-IsReady,
}
use obs_trigglow_dynamic_del.BufferMode.Windows.{called-IsMove}

-- The scene that the calls, newest first, put on Program, and the delay that the video filter was told.
abbrev pub program : List Action → Option Text
program [] = none
program (set_current_scene name ∷ l) = some name
program (show_wrapper ∷ l) = some wrapper_scene
program (_ ∷ l) = program l

abbrev pub told_delay : List Action → Option ℕ
told_delay [] = none
told_delay (set_filter_delay live seconds ∷ l) = some seconds
told_delay (_ ∷ l) = told_delay l

module _ {b : Bridge} where
  -- The delay runs after each of these calls.
  abbrev pub Runs : Host b → List (Call b) → Type 0
  Runs h [] = Unit
  Runs h (x ∷ calls) =
      (is_busy (called h x).world.ctl.status.state ≡ true) × Runs (called h x) calls

  -- Where Enable finds Program, once OBS was asked for everything.
  abbrev pub scene_at_start : World b → Text
  scene_at_start w =
      b.current_scene (prepare (perform w (ensure_wrapper w.ctl.status.live_scene_name))).obs

  start-before : (w : World b) → (start w).ctl.scene_before ≡ b.current_scene (prepare w).obs
  unfolding start enter_refill leave_scene set_state
  start-before w =
      let prepared = prepare w in
      let before = b.current_scene prepared.obs in
      let filled = forget_warnings (enter_refill (leave_scene prepared before)) in
      ground (arith, (warn-Alike filled).seen)

  enable-before :
      (w : World b)
      → is_busy w.ctl.status.state ≡ false
      → (enable w).ctl.status.state ≡ filling
      → (enable w).ctl.scene_before ≡ scene_at_start w
  unfolding enable ensure_and_start set_state
  enable-before w idle fills =
      ground
        (arith, idle, fills, start-before (perform w (ensure_wrapper w.ctl.status.live_scene_name)))

  stop-program :
      (w : World b) (key : MessageKey)
      → is_empty w.ctl.scene_before ≡ false
      → (program (stop_delay w key true).log ≡ some w.ctl.scene_before)
        × ((stop_delay w key true).ctl.status.state ≡ inactive)
  unfolding stop_delay release switch_off restore_program set_state
  stop-program w key e = ground (arith, e)

  scene_before_kept :
      (h : Host b) (calls : List (Call b))
      → IsReady h
      → is_busy h.world.ctl.status.state ≡ true
      → Runs h calls
      → (after h calls).world.ctl.scene_before ≡ h.world.ctl.scene_before
  unfolding after
  scene_before_kept h [] v busy r = refl
  scene_before_kept h (x ∷ calls) v busy r =
      scene_before_kept (called h x) calls (called-IsReady h x v) r.0 r.1
      ∙ (called-IsMove h x v).keeps_before busy r.0

-- After an Enable that began to fill, and any calls and events in which the delay goes on, Disable makes
-- the controller Inactive with Program on the scene that Enable found there, if it found any.
pub disable_restores :
    (b : Bridge) (o : b.Obs) (calls more : List (Call b))
    → let h = after (new_host b o) calls in
      let enabled = called h enables in
      is_busy h.world.ctl.status.state ≡ false
      → enabled.world.ctl.status.state ≡ filling
      → Runs enabled more
      → is_empty (scene_at_start h.world) ≡ false
      → let w = (called (after enabled more) disables).world in
        (program w.log ≡ some (scene_at_start h.world)) × (w.ctl.status.state ≡ inactive)
unfolding called disable
disable_restores b o calls more idle fills runs found =
    let h = after (new_host b o) calls in
    let enabled = on_world h (enable h.world) in
    let w = (after enabled more).world in
    let ready = called-IsReady h enables (after-IsReady (new_host b o) calls (new-IsReady b o)) in
    let kept : w.ctl.scene_before ≡ scene_at_start h.world =
      scene_before_kept enabled more ready (ground (arith, fills)) runs
      ∙ enable-before h.world idle fills in
    let restored = stop-program w no_key (ap is_empty kept ∙ found) in
    (restored.0 ∙ ap some kept, restored.1)
