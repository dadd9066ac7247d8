-- ===== src/BufferMode/Invariant.antt =====
-- The invariant of src/buffer-mode-controller.cpp over any sequence of the host's calls, of OBS's
-- events, and of what OBS does on its own between them.
use obs_trigglow_dynamic_del.Prelude.{
  ◌≡◌, refl, Bool, true, false, not, ◌||◌, List, [], ◌∷◌, if◌then◌else◌, arith, ◌==◌,
}
use obs_trigglow_dynamic_del.Delay.{
  FrontendEvent, buffer_restarted, scene_collection_changing, scene_collection_changed,
}
use obs_trigglow_dynamic_del.BufferMode.{
  Status, Bridge, is_busy, is_inactive, World, no_key, collection_changed,
}
use obs_trigglow_dynamic_del.BufferMode.Texts.{Text, same_text, is_wrapper_scene_name}
use obs_trigglow_dynamic_del.BufferMode.Ops.{
  set_state, set_delay_seconds, set_min_resolution_height, set_live_scene, set_loading_scene,
  set_show_overlay, set_overlay_corner,
}
use obs_trigglow_dynamic_del.BufferMode.Cycle.{
  enable, on_fill_timer_elapsed, disable, toggle, stop_for_collection,
}
use obs_trigglow_dynamic_del.BufferMode.Events.{
  tick, on_collection, on_loaded, on_output, on_encoders, on_restarted, on_frontend_event,
}
use obs_trigglow_dynamic_del.BufferMode.Host.{
  Settings, Config, Host, same_bool, load_settings, apply_scenes, apply_settings, apply_config,
}
use obs_trigglow_dynamic_del.BufferMode.Track.{view, IsSound}
use obs_trigglow_dynamic_del.BufferMode.Quiet.{
  Alike, Alike-trans, loaded-Alike, output-Alike, encoders-Alike, Alike-subst, view-if,
}
use obs_trigglow_dynamic_del.BufferMode.Fill.{
  stop-IsSound, restarted-IsSound, delay-IsSound, height-IsSound, overlay-IsSound, corner-IsSound,
}
use obs_trigglow_dynamic_del.BufferMode.Start.{enable-IsSound}

pub data Call (b : Bridge) : Type 0 where
  configures : Config → Call b
  enables disables toggles timer_elapses ticks : Call b
  hears : FrontendEvent → Call b
  obs_moves : b.Obs → Call b

module _ {b : Bridge} where
  abbrev pub on_world : Host b → World b → Host b
  on_world h w = record h { world = w }

  unfoldable pub called : Host b → Call b → Host b
  unfolding apply_config enable disable toggle on_fill_timer_elapsed tick on_frontend_event
  called h (configures c) = apply_config h c
  called h enables = on_world h (enable h.world)
  called h disables = on_world h (disable h.world)
  called h toggles = on_world h (toggle h.world)
  called h timer_elapses = on_world h (on_fill_timer_elapsed h.world)
  called h ticks = on_world h (tick h.world)
  called h (hears event) = on_world h (on_frontend_event h.world event)
  called h (obs_moves o) = on_world h (record h.world { obs = o })

  unfoldable pub after : Host b → List (Call b) → Host b
  unfolding called
  after h [] = h
  after h (x ∷ calls) = after (called h x) calls

  collection-IsSound :
      (w : World b) (event : FrontendEvent)
      → IsSound (view w)
      → IsSound (view (on_collection w event))
  unfolding on_collection stop_for_collection
  collection-IsSound w scene_collection_changing v =
      view-if IsSound (not (is_busy w.ctl.status.state)) w _ (λ e. v)
        λ e. stop-IsSound w collection_changed true v
  collection-IsSound w scene_collection_changed v =
      let shows = is_wrapper_scene_name (b.current_scene w.obs) in
      view-if IsSound (not (is_busy w.ctl.status.state)) w _ (λ e. v)
        λ e. stop-IsSound w collection_changed shows v
  collection-IsSound w _ v = v

  last-IsSound :
      (w : World b) (event : FrontendEvent)
      → IsSound (view w)
      → IsSound (view (on_restarted w event))
  unfolding on_restarted
  last-IsSound w buffer_restarted v = restarted-IsSound w v
  last-IsSound w _ v = v

  -- The parts of OnFrontendEvent in the middle.
  pub outputs-Alike :
      (w : World b) (event : FrontendEvent)
      → Alike (on_encoders (on_output (on_loaded w event) event) event) w
  outputs-Alike w event =
      let loaded = on_loaded w event in
      let heard = on_output loaded event in
      Alike-trans {x = heard} (encoders-Alike heard event)
        (Alike-trans {x = loaded} (output-Alike loaded event) (loaded-Alike w event))

  pub event-IsSound :
      (w : World b) (event : FrontendEvent)
      → IsSound (view w)
      → IsSound (view (on_frontend_event w event))
  unfolding on_frontend_event
  event-IsSound w event v =
      let w1 = on_collection w event in
      let w4 = on_encoders (on_output (on_loaded w1 event) event) event in
      last-IsSound w4 event
        (Alike-subst IsSound w4 w1 (outputs-Alike w1 event) (collection-IsSound w event v))

  pub toggle-IsSound : (w : World b) → IsSound (view w) → IsSound (view (toggle w))
  unfolding toggle disable
  toggle-IsSound w v =
      view-if IsSound (is_inactive w.ctl.status.state) (enable w) _ (λ e. enable-IsSound w v)
        λ e. stop-IsSound w no_key true v

  -- LoadSettings, and another live or loading scene, while the delay does not run.
  pub load-IsSound :
      (w : World b) (s : Settings)
      → is_busy w.ctl.status.state ≡ false
      → IsSound (view w)
      → IsSound (view (load_settings w s))
  unfolding load_settings set_state
  load-IsSound w s idle v = ground (arith, idle, v)

  live-IsSound :
      (w : World b) (name : Text)
      → is_busy w.ctl.status.state ≡ false
      → IsSound (view w)
      → IsSound (view (set_live_scene w name))
  unfolding set_live_scene
  live-IsSound w name idle v = ground (arith, idle, v)

  scene-Alike : (w : World b) (name : Text) → Alike (set_loading_scene w name) w
  unfolding set_loading_scene
  scene-Alike w name = record { seen = refl }

  pub scenes-IsSound :
      (w : World b) (s : Settings) → IsSound (view w) → IsSound (view (apply_scenes w s))
  unfolding apply_scenes
  scenes-IsSound w s v =
      let live : World b =
        if same_text s.live_scene_name w.ctl.status.live_scene_name
        then w
        else set_live_scene w s.live_scene_name in
      let loading : World b =
        if same_text s.loading_scene_name w.ctl.status.loading_scene_name
        then live
        else set_loading_scene live s.loading_scene_name in
      view-if IsSound (is_busy w.ctl.status.state) w loading (λ e. v)
        λ idle.
          let one : IsSound (view live) =
            view-if IsSound _ w (set_live_scene w s.live_scene_name) (λ e. v)
              λ e. live-IsSound w s.live_scene_name idle v in
          view-if IsSound (same_text s.loading_scene_name w.ctl.status.loading_scene_name) live
            (set_loading_scene live s.loading_scene_name) (λ e. one)
            λ e.
              Alike-subst IsSound (set_loading_scene live s.loading_scene_name) live
                (scene-Alike live s.loading_scene_name) one

  pub settings-IsSound :
      (w : World b) (old : Status) (s : Settings) (badges_changed : Bool)
      → IsSound (view w)
      → IsSound (view (apply_settings w old s badges_changed))
  unfolding apply_settings
  settings-IsSound w old s badges_changed v =
      let delayed : World b =
        if s.delay_seconds == old.delay_seconds then w else set_delay_seconds w s.delay_seconds in
      let raised : World b =
        if s.min_resolution_height == old.min_resolution_height
        then delayed
        else set_min_resolution_height delayed s.min_resolution_height in
      let turned : World b =
        if s.overlay_corner == old.overlay_corner
        then raised
        else set_overlay_corner raised s.overlay_corner in
      let one : IsSound (view delayed) =
        view-if IsSound _ w _ (λ e. v) λ e. delay-IsSound w s.delay_seconds v in
      let two : IsSound (view raised) =
        view-if IsSound _ delayed _ (λ e. one)
          λ e. height-IsSound delayed s.min_resolution_height one in
      let three : IsSound (view turned) =
        view-if IsSound _ raised _ (λ e. two) λ e. corner-IsSound raised s.overlay_corner two in
      view-if IsSound (not (same_bool s.show_overlay old.show_overlay) || badges_changed)
        (set_show_overlay turned s.show_overlay) turned
        (λ e. overlay-IsSound turned s.show_overlay three) λ e. three
