-- ===== src/BufferMode/Calls.antt =====
-- The invariant of src/buffer-mode-controller.cpp over the calls of its host, src/core-host.cpp, from
-- its start.
use obs_trigglow_dynamic_del.Prelude.{
  ◌≡◌, refl, Bool, true, false, not, List, [], ◌∷◌, if◌then◌else◌, arith,
}
use obs_trigglow_dynamic_del.Delay.{
  FrontendEvent, buffer_restarted, scene_collection_changing, scene_collection_changed,
}
use obs_trigglow_dynamic_del.BufferMode.{
  MessageKey, Bridge, new_controller, is_busy, is_inactive, is_filling, World, no_key,
}
use obs_trigglow_dynamic_del.BufferMode.Ops.{set_state, release}
use obs_trigglow_dynamic_del.BufferMode.Cycle.{
  enable, on_fill_timer_elapsed, on_buffer_restarted, restore_program, switch_off, stop_delay,
  disable, toggle, stop_for_collection,
}
use obs_trigglow_dynamic_del.BufferMode.Events.{
  tick, on_collection, on_loaded, on_output, on_encoders, on_restarted, on_frontend_event,
}
use obs_trigglow_dynamic_del.BufferMode.Host.{
  Config, Host, load_settings, apply_scenes, apply_config,
}
use obs_trigglow_dynamic_del.BufferMode.Track.{View, view, IsSound}
use obs_trigglow_dynamic_del.BufferMode.Quiet.{tick-Alike, Alike-subst, view-if}
use obs_trigglow_dynamic_del.BufferMode.Fill.{stop-IsSound, timer-IsSound}
use obs_trigglow_dynamic_del.BufferMode.Start.{enable-IsSound}
use obs_trigglow_dynamic_del.BufferMode.Invariant.{
  Call, called, after, outputs-Alike, event-IsSound, toggle-IsSound, load-IsSound, scenes-IsSound,
  settings-IsSound, configures, enables, disables, toggles, timer_elapses, ticks, hears, obs_moves,
}

-- Before its settings were loaded the controller has no live scene, and the delay does not run.
abbrev pub IsBlank : View → Type 0
IsBlank v = (is_busy v.state ≡ false) × (v.live ≡ [])

module _ {b : Bridge} where
  enable-IsBlank : (w : World b) → IsBlank (view w) → IsBlank (view (enable w))
  unfolding enable set_state
  enable-IsBlank w v = ground (arith, v)

  stop-IsBlank :
      (w : World b) (key : MessageKey) (restores : Bool)
      → IsBlank (view w)
      → IsBlank (view (stop_delay w key restores))
  unfolding stop_delay release switch_off restore_program set_state
  stop-IsBlank w key restores v = ground (arith, v)

  toggle-IsBlank : (w : World b) → IsBlank (view w) → IsBlank (view (toggle w))
  unfolding toggle disable
  toggle-IsBlank w v =
      view-if IsBlank (is_inactive w.ctl.status.state) (enable w) _ (λ e. enable-IsBlank w v)
        λ e. stop-IsBlank w no_key true v

  timer-IsBlank : (w : World b) → IsBlank (view w) → IsBlank (view (on_fill_timer_elapsed w))
  unfolding on_fill_timer_elapsed
  timer-IsBlank w v =
      view-if IsBlank (not (is_filling w.ctl.status.state)) w _ (λ e. v)
        λ e. absurd (ground (arith, e, v.0))

  collection-IsBlank :
      (w : World b) (event : FrontendEvent)
      → IsBlank (view w)
      → IsBlank (view (on_collection w event))
  unfolding on_collection stop_for_collection
  collection-IsBlank w scene_collection_changing v =
      view-if IsBlank (not (is_busy w.ctl.status.state)) w _ (λ e. v)
        λ e. absurd (ground (arith, e, v.0))
  collection-IsBlank w scene_collection_changed v =
      view-if IsBlank (not (is_busy w.ctl.status.state)) w _ (λ e. v)
        λ e. absurd (ground (arith, e, v.0))
  collection-IsBlank w _ v = v

  last-IsBlank :
      (w : World b) (event : FrontendEvent)
      → IsBlank (view w)
      → IsBlank (view (on_restarted w event))
  unfolding on_restarted on_buffer_restarted
  last-IsBlank w buffer_restarted v =
      view-if IsBlank (not (is_busy w.ctl.status.state)) w _ (λ e. v)
        λ e. absurd (ground (arith, e, v.0))
  last-IsBlank w _ v = v

  event-IsBlank :
      (w : World b) (event : FrontendEvent)
      → IsBlank (view w)
      → IsBlank (view (on_frontend_event w event))
  unfolding on_frontend_event
  event-IsBlank w event v =
      let w1 = on_collection w event in
      let w2 = on_loaded w1 event in
      let w3 = on_output w2 event in
      let w4 = on_encoders w3 event in
      last-IsBlank w4 event
        (Alike-subst IsBlank w4 w1 (outputs-Alike w1 event) (collection-IsBlank w event v))

  -- What holds between the calls of the host.
  pub record IsReady (h : Host b) : Type 0 where
    pub sound : IsSound (view h.world)
    pub blank : h.loaded ≡ false → IsBlank (view h.world)

  -- ApplyConfig past the loading of the settings.
  config-IsReady : (h : Host b) (c : Config) → IsReady h → IsReady (apply_config h c)
  unfolding apply_config
  config-IsReady h c v =
      let w : World b = if h.loaded then h.world else load_settings h.world c.settings in
      let loaded : IsSound (view w) =
        view-if IsSound h.loaded h.world (load_settings h.world c.settings) (λ e. v.sound)
          λ e. load-IsSound h.world c.settings (v.blank e).0 v.sound in
      record {
        sound =
            settings-IsSound (apply_scenes w c.settings) w.ctl.status c.settings _
              (scenes-IsSound w c.settings loaded);
        blank = λ e. absurd (cc);
      }

  pub called-IsReady : (h : Host b) (x : Call b) → IsReady h → IsReady (called h x)
  unfolding called disable
  called-IsReady h (configures c) v = config-IsReady h c v
  called-IsReady h enables v = record {
    sound = enable-IsSound h.world v.sound;
    blank = λ e. enable-IsBlank h.world (v.blank e);
  }
  called-IsReady h disables v = record {
    sound = stop-IsSound h.world no_key true v.sound;
    blank = λ e. stop-IsBlank h.world no_key true (v.blank e);
  }
  called-IsReady h toggles v = record {
    sound = toggle-IsSound h.world v.sound;
    blank = λ e. toggle-IsBlank h.world (v.blank e);
  }
  called-IsReady h timer_elapses v = record {
    sound = timer-IsSound h.world v.sound;
    blank = λ e. timer-IsBlank h.world (v.blank e);
  }
  called-IsReady h ticks v = record {
    sound = Alike-subst IsSound (tick h.world) h.world (tick-Alike h.world) v.sound;
    blank = λ e. Alike-subst IsBlank (tick h.world) h.world (tick-Alike h.world) (v.blank e);
  }
  called-IsReady h (hears event) v = record {
    sound = event-IsSound h.world event v.sound;
    blank = λ e. event-IsBlank h.world event (v.blank e);
  }
  called-IsReady h (obs_moves o) v = record {
    sound =
        Alike-subst IsSound (record h.world { obs = o }) h.world (record { seen = refl }) v.sound;
    blank = λ e.
        Alike-subst IsBlank (record h.world { obs = o }) h.world (record { seen = refl })
          (v.blank e);
  }

  pub after-IsReady : (h : Host b) (calls : List (Call b)) → IsReady h → IsReady (after h calls)
  unfolding after
  after-IsReady h [] v = v
  after-IsReady h (x ∷ calls) v = after-IsReady (called h x) calls (called-IsReady h x v)

-- A host with a new controller, which made no call yet.
abbrev pub new_host : (b : Bridge) → b.Obs → Host b
new_host b o = record {
  world = record { ctl = new_controller; obs = o; log = [] };
  loaded = false;
  badge_prefix = [];
  badge_token = 0;
}

pub new-IsReady : (b : Bridge) (o : b.Obs) → IsReady (new_host b o)
new-IsReady b o = record { sound = ground arith; blank = λ e. (refl, refl) }
