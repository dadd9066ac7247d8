-- ===== src/BufferMode/Windows.antt =====
-- The fill windows of src/buffer-mode-controller.cpp over the calls of its host and OBS's events.
use obs_trigglow_dynamic_del.Prelude.{
  ℕ, ◌≡◌, refl, sym, subst, ◌⊎◌, if_true, Bool, true, false, not, List, if◌then◌else◌, arith,
  Bool-cases, inl, inr, ◌==◌,
}
use obs_trigglow_dynamic_del.Delay.{
  FrontendEvent, buffer_restarted, scene_collection_changing, scene_collection_changed,
}
use obs_trigglow_dynamic_del.BufferMode.{
  Status, Bridge, is_busy, is_inactive, World, inactive, no_key, collection_changed,
}
use obs_trigglow_dynamic_del.BufferMode.Texts.{is_wrapper_scene_name}
use obs_trigglow_dynamic_del.BufferMode.Ops.{
  set_state, enter_refill, update_overlay, sync_audio, acquire_with, show_loading_scene, resize,
  set_delay_seconds, set_min_resolution_height, set_live_scene, set_loading_scene, set_show_overlay,
  set_overlay_corner,
}
use obs_trigglow_dynamic_del.BufferMode.Cycle.{
  enable, on_buffer_restarted, disable, toggle, stop_for_collection,
}
use obs_trigglow_dynamic_del.BufferMode.Events.{
  tick, on_collection, on_loaded, on_output, on_encoders, on_restarted, on_frontend_event,
}
use obs_trigglow_dynamic_del.BufferMode.Host.{
  Settings, Config, Host, load_settings, apply_scenes, apply_settings, apply_config,
}
use obs_trigglow_dynamic_del.BufferMode.Track.{View, view}
use obs_trigglow_dynamic_del.BufferMode.Quiet.{tick-Alike, Alike-subst, view-if}
use obs_trigglow_dynamic_del.BufferMode.Invariant.{
  Call, called, after, outputs-Alike, configures, enables, disables, toggles, timer_elapses, ticks,
  hears, obs_moves,
}
use obs_trigglow_dynamic_del.BufferMode.Calls.{IsReady, after-IsReady, new_host, new-IsReady}
use obs_trigglow_dynamic_del.BufferMode.Moves.{
  IsMove, IsTuned, IsTuned-refl, IsTuned-trans, IsMove-IsTuned, enable-IsMove, stop-IsMove,
  timer-IsMove, restarted-IsMove,
}

-- The settings were loaded before, or are now, while nothing runs.
abbrev IsLoaded : View → View → Type 0
IsLoaded v u =
    (u ≡ v) ⊎ ((is_busy v.state ≡ false) × (u.state ≡ inactive) × (u.generation ≡ v.generation))

IsMove-IsLoaded : {v u t : View} → IsLoaded v u → IsMove false u t → IsMove false v t
IsMove-IsLoaded (inl e) m = rw (sym e) m
IsMove-IsLoaded (inr (idle, rests, same)) m = ground (arith, idle, rests, same, m)

abbrev is_restart : FrontendEvent → Bool
is_restart buffer_restarted = true
is_restart _ = false

-- The call is the event that the buffer has restarted.
abbrev pub restarts : {b : Bridge} → Call b → Bool
restarts (hears event) = is_restart event
restarts _ = false

module _ {b : Bridge} where
  delay-IsTuned :
      (w : World b) (seconds : ℕ) → IsTuned (view w) (view (set_delay_seconds w seconds))
  unfolding set_delay_seconds resize show_loading_scene sync_audio enter_refill update_overlay
      acquire_with set_state
  delay-IsTuned w seconds = ground arith

  height-IsTuned :
      (w : World b) (height : ℕ) → IsTuned (view w) (view (set_min_resolution_height w height))
  unfolding set_min_resolution_height resize show_loading_scene sync_audio enter_refill
      update_overlay acquire_with set_state
  height-IsTuned w height = ground arith

  settings-IsTuned :
      (w : World b) (old : Status) (s : Settings) (badges_changed : Bool)
      → IsTuned (view w) (view (apply_settings w old s badges_changed))
  unfolding apply_settings set_show_overlay set_overlay_corner update_overlay
  settings-IsTuned w old s badges_changed =
      let delayed : World b =
        if s.delay_seconds == old.delay_seconds then w else set_delay_seconds w s.delay_seconds in
      let raised : World b =
        if s.min_resolution_height == old.min_resolution_height
        then delayed
        else set_min_resolution_height delayed s.min_resolution_height in
      let one : IsTuned (view w) (view delayed) =
        view-if (IsTuned (view w)) _ w _ (λ e. IsTuned-refl (view w))
          λ e. delay-IsTuned w s.delay_seconds in
      let two : IsTuned (view w) (view raised) =
        view-if (IsTuned (view w)) _ delayed _ (λ e. one)
          λ e. IsTuned-trans one (height-IsTuned delayed s.min_resolution_height) in
      ground (arith, two)

  -- ApplyConfig: the scenes are changed, and the settings loaded, while the delay does not run.
  scenes_rest :
      (w : World b) (s : Settings)
      → is_busy w.ctl.status.state ≡ false
      → let u = view (apply_scenes w s) in
        (u.generation ≡ (view w).generation) × (u.state ≡ (view w).state)
  unfolding apply_scenes set_live_scene set_loading_scene
  scenes_rest w s idle = ground (arith, idle)

  scenes_locked :
      (w : World b) (s : Settings) → is_busy w.ctl.status.state ≡ true → apply_scenes w s ≡ w
  unfolding apply_scenes
  scenes_locked w s busy = if_true (is_busy w.ctl.status.state) w _ busy

  configured-IsMove :
      (w : World b) (old : Status) (s : Settings) (badges_changed : Bool)
      → IsMove false (view w) (view (apply_settings (apply_scenes w s) old s badges_changed))
  configured-IsMove w old s badges_changed = elim (Bool-cases (is_busy w.ctl.status.state)) [
    | inl busy ↦
        subst (λ x. IsMove false (view w) (view (apply_settings x old s badges_changed)))
          (sym (scenes_locked w s busy)) (IsMove-IsTuned (settings-IsTuned w old s badges_changed))
    | inr idle ↦ ground (
      arith,
      idle,
      scenes_rest w s idle,
      settings-IsTuned (apply_scenes w s) old s badges_changed,
    )
  ]

  loaded-IsLoaded :
      (h : Host b) (c : Config)
      → IsReady h
      → IsLoaded
          (view h.world)
          (view (if h.loaded then h.world else load_settings h.world c.settings))
  unfolding load_settings set_state
  loaded-IsLoaded h c v =
      view-if (IsLoaded (view h.world)) h.loaded h.world _ (λ e. inl refl)
        λ e. inr ((v.blank e).0, refl, refl)

  config-IsMove :
      (h : Host b) (c : Config)
      → IsReady h
      → IsMove false (view h.world) (view (apply_config h c).world)
  unfolding apply_config
  config-IsMove h c v =
      let w : World b = if h.loaded then h.world else load_settings h.world c.settings in
      IsMove-IsLoaded (loaded-IsLoaded h c v) (configured-IsMove w w.ctl.status c.settings _)

  collection-IsMove :
      (w : World b) (event : FrontendEvent) → IsMove false (view w) (view (on_collection w event))
  unfolding on_collection stop_for_collection
  collection-IsMove w scene_collection_changing =
      view-if (IsMove false (view w)) (not (is_busy w.ctl.status.state)) w _
        (λ e. IsMove-IsTuned (IsTuned-refl (view w))) λ e. stop-IsMove w collection_changed true
  collection-IsMove w scene_collection_changed =
      let shows = is_wrapper_scene_name (b.current_scene w.obs) in
      view-if (IsMove false (view w)) (not (is_busy w.ctl.status.state)) w _
        (λ e. IsMove-IsTuned (IsTuned-refl (view w))) λ e. stop-IsMove w collection_changed shows
  collection-IsMove w _ = IsMove-IsTuned (IsTuned-refl (view w))

  event-IsMove :
      (w : World b) (event : FrontendEvent)
      → IsMove (is_restart event) (view w) (view (on_frontend_event w event))
  unfolding on_frontend_event on_restarted
  event-IsMove w buffer_restarted =
      let event = buffer_restarted in
      let heard = on_encoders (on_output (on_loaded w event) event) event in
      subst (λ v. IsMove true v (view (on_buffer_restarted heard))) (outputs-Alike w event).seen
        (restarted-IsMove heard)
  event-IsMove w event =
      let w1 = on_collection w event in
      Alike-subst (IsMove false (view w)) (on_encoders (on_output (on_loaded w1 event) event) event)
        w1 (outputs-Alike w1 event) (collection-IsMove w event)

  pub called-IsMove :
      (h : Host b) (x : Call b)
      → IsReady h
      → IsMove (restarts x) (view h.world) (view (called h x).world)
  unfolding called disable toggle
  called-IsMove h (configures c) v = config-IsMove h c v
  called-IsMove h enables v = enable-IsMove h.world
  called-IsMove h disables v = stop-IsMove h.world no_key true
  called-IsMove h toggles v =
      view-if (IsMove false (view h.world)) (is_inactive h.world.ctl.status.state) (enable h.world)
        _ (λ e. enable-IsMove h.world) λ e. stop-IsMove h.world no_key true
  called-IsMove h timer_elapses v = timer-IsMove h.world
  called-IsMove h ticks v =
      Alike-subst (IsMove false (view h.world)) (tick h.world) h.world (tick-Alike h.world)
        (IsMove-IsTuned (IsTuned-refl (view h.world)))
  called-IsMove h (hears event) v = event-IsMove h.world event
  called-IsMove h (obs_moves o) v = IsMove-IsTuned (IsTuned-refl (view h.world))

-- One call of the host, or one event, in any state that calls lead to: a delay that runs before and
-- after keeps its ring class, its live scene and the scene to go back to, and the count of the fill
-- windows goes up by one exactly when one starts: when the delay fills after the call, and it did not
-- before or the call is the event that the buffer has restarted, after which a delay that runs fills.
pub each_call-IsMove :
    (b : Bridge) (o : b.Obs) (calls : List (Call b)) (x : Call b)
    → let h = after (new_host b o) calls in
      IsMove (restarts x) (view h.world) (view (called h x).world)
each_call-IsMove b o calls x =
    called-IsMove (after (new_host b o) calls) x
      (after-IsReady (new_host b o) calls (new-IsReady b o))
