-- ===== src/Delay/Invariant.antt =====
-- The state of src/delay-controller.cpp's DelayController over its calls, OBS's own moves between
-- them included.
use obs_trigglow_dynamic_del.Prelude.{
  ℕ, ◌≤◌, ◌≡◌, Bool, true, false, List, [], ◌∷◌, Bool-cases, inl, inr, is_empty, arith,
}
use obs_trigglow_dynamic_del.Delay.{
  Text, Bridge, applying, FrontendEvent, streaming_started, streaming_stopped, Controller,
  new_controller, World, set_safe_mode, set_reconnect_scene, load_settings,
  apply_and_maybe_reconnect, enable, disable, toggle, set_delay_seconds, on_apply_timeout,
  on_frontend_event,
}

-- A controller that says Applying, or that keeps a scene to go back to, waits for a reconnect; the
-- delay is at most half an hour.
pub record IsSound (c : Controller) : Type 0 where
  pub waits : c.status.state ≡ applying → c.pending_reconnect ≡ true
  pub keeps_scene : is_empty c.scene_before ≡ false → c.pending_reconnect ≡ true
  pub bounded : c.status.configured_seconds ≤ 1800

pub data Call (b : Bridge) : Type 0 where
  enables disables toggles times_out : Call b
  sets_delay : ℕ → Call b
  sets_safe : Bool → Call b
  sets_scene : Text → Call b
  loads : (seconds : ℕ) (safe_mode was_enabled : Bool) (scene : Text) → Call b
  hears : FrontendEvent → Call b
  obs_moves : b.Obs → Call b

module _ (b : Bridge) where
  unfoldable pub called : World b → Call b → World b
  called w enables = enable b w
  called w disables = disable b w
  called w toggles = toggle b w
  called w times_out = on_apply_timeout b w
  called w (sets_delay seconds) = set_delay_seconds b w seconds
  called (c, o) (sets_safe on) = (set_safe_mode c on, o)
  called (c, o) (sets_scene scene) = (set_reconnect_scene c scene, o)
  called (c, o) (loads seconds safe_mode was_enabled scene) =
      (load_settings c seconds safe_mode was_enabled scene, o)
  called w (hears event) = on_frontend_event b w event
  called (c, o) (obs_moves p) = (c, p)

  unfoldable pub after : World b → List (Call b) → World b
  after w [] = w
  after w (x ∷ xs) = after (called w x) xs

  apply-IsSound :
      (c : Controller) (o : b.Obs) → IsSound c → IsSound (apply_and_maybe_reconnect b (c, o)).0
  unfolding apply_and_maybe_reconnect
  apply-IsSound c o v = ground (arith, v)

  timeout-IsSound : (c : Controller) (o : b.Obs) → IsSound c → IsSound (on_apply_timeout b (c, o)).0
  unfolding on_apply_timeout
  timeout-IsSound c o v = ground (arith, v)

  event-IsSound :
      (c : Controller) (o : b.Obs) (event : FrontendEvent)
      → IsSound c
      → IsSound (on_frontend_event b (c, o) event).0
  unfolding on_frontend_event
  event-IsSound c o streaming_started v = ground (arith, v)
  event-IsSound c o streaming_stopped v = ground (arith, v)
  event-IsSound c o _ v = v

  load-IsSound :
      (c : Controller) (seconds : ℕ) (safe_mode was_enabled : Bool) (scene : Text)
      → IsSound c
      → IsSound (load_settings c seconds safe_mode was_enabled scene)
  unfolding load_settings
  load-IsSound c seconds safe_mode was_enabled scene v = ground (arith, v)

  delay-IsSound :
      (c : Controller) (o : b.Obs) (seconds : ℕ)
      → IsSound c
      → IsSound (set_delay_seconds b (c, o) seconds).0
  unfolding set_delay_seconds
  delay-IsSound c o seconds v = ground (arith, v)

  called-IsSound : (w : World b) (x : Call b) → IsSound w.0 → IsSound (called w x).0
  unfolding called enable disable toggle set_safe_mode set_reconnect_scene
  called-IsSound (c, o) enables v =
      apply-IsSound (record c { enabled = true }) o (ground (arith, v))
  called-IsSound (c, o) disables v =
      apply-IsSound (record c { enabled = false }) o (ground (arith, v))
  called-IsSound (c, o) toggles v = elim (Bool-cases c.enabled) [
    | inl on ↦ rw on (apply-IsSound (record c { enabled = false }) o (ground (arith, v)))
    | inr on ↦ rw on (apply-IsSound (record c { enabled = true }) o (ground (arith, v)))
  ]
  called-IsSound (c, o) times_out v = timeout-IsSound c o v
  called-IsSound (c, o) (sets_delay seconds) v = delay-IsSound c o seconds v
  called-IsSound (c, o) (sets_safe on) v = ground (arith, v)
  called-IsSound (c, o) (sets_scene scene) v = ground (arith, v)
  called-IsSound (c, o) (loads seconds safe_mode was_enabled scene) v =
      load-IsSound c seconds safe_mode was_enabled scene v
  called-IsSound (c, o) (hears event) v = event-IsSound c o event v
  called-IsSound (c, o) (obs_moves p) v = v

  after-IsSound : (w : World b) (xs : List (Call b)) → IsSound w.0 → IsSound (after w xs).0
  unfolding after
  after-IsSound w [] v = v
  after-IsSound w (x ∷ xs) v = after-IsSound (called w x) xs (called-IsSound w x v)

-- From a new controller, after any calls and events and whatever OBS does between them: Applying, or
-- a scene to go back to, means that a reconnect is waited for, and the delay is at most 1800 seconds.
pub calls-IsSound :
    (b : Bridge) (o : b.Obs) (xs : List (Call b)) → IsSound (after b (new_controller, o) xs).0
calls-IsSound b o xs =
    after-IsSound b (new_controller, o) xs
      (record { waits = λ e. absurd (cc); keeps_scene = λ e. absurd (cc); bounded = omega arith })
