-- ===== src/Delay/Reconnect.antt =====
-- A live reconnect of src/delay-controller.cpp: from the request to its confirmation or its end.
use obs_trigglow_dynamic_del.Prelude.{
  ◌≡◌, refl, sym, subst, ap, ◌∙◌, Bool, true, false, ◌&&◌, none, List, [], ◌∷◌, Bool-cases, inl,
  inr, is_empty, if◌then◌else◌, arith,
}
use obs_trigglow_dynamic_del.Delay.{
  Text, Bridge, applying, error, FrontendEvent, streaming_started, streaming_stopped, Controller,
  World, apply_and_maybe_reconnect, on_apply_timeout, on_frontend_event, resting, target_seconds,
}
use obs_trigglow_dynamic_del.Delay.Invariant.{Call, hears, obs_moves, called, after}

-- Where OBS stands after the switch to a placeholder scene, if one is configured.
abbrev pub switched : (b : Bridge) → Controller → b.Obs → b.Obs
switched b c p =
    if is_empty c.status.reconnect_scene then p else (b.set_scene c.status.reconnect_scene p).1

-- From controller `c`, with OBS at `p` once it took the delay: the controller waits, has switched to
-- the placeholder scene, and has asked OBS to stop the stream.
pub record IsApplying (b : Bridge) (c : Controller) (p : b.Obs) (w : World b) : Type 0 where
  pub is_applying : w.0.status.state ≡ applying
  pub is_pending : w.0.pending_reconnect ≡ true
  pub asked : w.1 ≡ b.request_stop (switched b c p)

-- The scene to go back to: the one on air when a placeholder was put there, none when OBS does not
-- find it, and what was kept before when none is configured.
abbrev pub kept_scene : (b : Bridge) → Controller → b.Obs → Text
kept_scene b c p =
    if is_empty c.status.reconnect_scene
    then c.scene_before
    else if (b.set_scene c.status.reconnect_scene p).0
    then b.current_scene p
    else []

-- Where OBS stands once `scene` is put back, if there is one.
abbrev pub put_back : (b : Bridge) → Text → b.Obs → b.Obs
put_back b scene o = if is_empty scene then o else (b.set_scene scene o).1

-- The reconnect that controller `c` asked for with OBS at `p` has come to its end, with OBS at `o`:
-- Active or Inactive by `enabled`, with the delay that OBS reports, and back on the scene that was kept.
pub record IsConfirmed (b : Bridge) (c : Controller) (p o : b.Obs) (w : World b) : Type 0 where
  pub rests : w.0.status.state ≡ resting c
  pub reported : w.0.status.active_seconds ≡ b.active_delay o
  pub over : w.0.pending_reconnect ≡ false
  pub no_scene : is_empty w.0.scene_before ≡ true
  pub scene_back : w.1 ≡ put_back b (kept_scene b c p) o

-- Events and OBS's own moves only; and no StreamingStarted among them.
abbrev pub is_passive : {b : Bridge} → Call b → Bool
is_passive (hears event) = true
is_passive (obs_moves o) = true
is_passive _ = false

abbrev pub all_passive : {b : Bridge} → List (Call b) → Bool
all_passive [] = true
all_passive (x ∷ xs) = is_passive x && all_passive xs

abbrev pub is_unconfirmed : {b : Bridge} → Call b → Bool
is_unconfirmed (hears streaming_started) = false
is_unconfirmed (hears event) = true
is_unconfirmed (obs_moves o) = true
is_unconfirmed _ = false

abbrev pub all_unconfirmed : {b : Bridge} → List (Call b) → Bool
all_unconfirmed [] = true
all_unconfirmed (x ∷ xs) = is_unconfirmed x && all_unconfirmed xs

-- The controller that waits for a reconnect.
record IsWaiting (b : Bridge) (c : Controller) (p : b.Obs) (d : Controller) : Type 0 where
  waits : d.pending_reconnect ≡ true
  same_enabled : d.enabled ≡ c.enabled
  keeps : d.scene_before ≡ kept_scene b c p

module _ (b : Bridge) where
  apply-IsApplying :
      (c : Controller) (o p : b.Obs)
      → b.apply_delay (target_seconds b c) c.status.safe_mode o ≡ (none, p)
      → b.is_streaming p ≡ true
      → IsApplying b c p (apply_and_maybe_reconnect b (c, o))
        × IsWaiting b c p (apply_and_maybe_reconnect b (c, o)).0
  unfolding apply_and_maybe_reconnect
  apply-IsApplying c o p e l = elim (Bool-cases (is_empty c.status.reconnect_scene)) [
    | inl h ↦ ground arith
    | inr h ↦ ground arith
  ]

  -- What OBS does, and says, until the stream starts again changes nothing in the controller.
  unconfirmed_same :
      (w : World b) (x : Call b)
      → is_unconfirmed x ≡ true
      → w.0.pending_reconnect ≡ true
      → (called b w x).0 ≡ w.0
  unfolding called on_frontend_event
  unconfirmed_same w (obs_moves p) q h = refl
  unconfirmed_same w (hears streaming_started) q h = absurd (ground (arith, q))
  unconfirmed_same w (hears streaming_stopped) q h = ground (arith, h)
  unconfirmed_same w (hears _) q h = refl
  unconfirmed_same w _ q h = absurd (ground (arith, q))

  waiting_stays :
      (w : World b) (xs : List (Call b))
      → all_unconfirmed xs ≡ true
      → w.0.pending_reconnect ≡ true
      → (after b w xs).0 ≡ w.0
  unfolding after
  waiting_stays w [] q h = refl
  waiting_stays w (x ∷ xs) q h =
      let same = unconfirmed_same w x (ground (arith, q)) h in
      waiting_stays (called b w x) xs (ground (arith, q)) (ap (λ d. d.pending_reconnect) same ∙ h)
      ∙ same

  started-IsConfirmed :
      (c d : Controller) (p o : b.Obs)
      → IsWaiting b c p d
      → IsConfirmed b c p o (called b (d, o) (hears streaming_started))
  unfolding called on_frontend_event
  started-IsConfirmed c d p o v = elim (Bool-cases (is_empty d.scene_before)) [
    | inl h ↦ ground (arith, v)
    | inr h ↦ ground (arith, v)
  ]

  stopped_restarts :
      (w : World b)
      → w.0.pending_reconnect ≡ true
      → called b w (hears streaming_stopped) ≡ (w.0, b.request_start w.1)
  unfolding called on_frontend_event
  stopped_restarts (c, o) h = ground (arith, h)

  -- A change of the delay on a live stream, when the bridge takes it (Enable, Disable, or a new number
  -- of seconds, also while another reconnect is waited for): the placeholder scene is shown, if one is
  -- configured, and OBS is asked to stop the stream. Whatever OBS does and says then, until the stream
  -- starts again: each StreamingStopped asks OBS to start it, and StreamingStarted ends the reconnect,
  -- Active or Inactive by `enabled`, with the delay that OBS reports, and puts back the scene that was on
  -- air when the change was made, if OBS found the placeholder, or the one kept before, if none is
  -- configured.
  pub reconnect_completes :
      (c : Controller) (o p : b.Obs) (xs : List (Call b))
      → b.apply_delay (target_seconds b c) c.status.safe_mode o ≡ (none, p)
      → b.is_streaming p ≡ true
      → all_unconfirmed xs ≡ true
      → let asked = apply_and_maybe_reconnect b (c, o) in
        let w = after b asked xs in
        IsApplying b c p asked
        × (called b w (hears streaming_stopped) ≡ (w.0, b.request_start w.1))
        × IsConfirmed b c p w.1 (called b w (hears streaming_started))
  reconnect_completes c o p xs e l q =
      let asked = apply_and_maybe_reconnect b (c, o) in
      let (applies, v) = apply-IsApplying c o p e l in
      let same = waiting_stays asked xs q v.waits in
      let u = subst (IsWaiting b c p) (sym same) v in
      (
        applies,
        stopped_restarts (after b asked xs) u.waits,
        started-IsConfirmed c (after b asked xs).0 p (after b asked xs).1 u,
      )

  -- The controller that gave up.
  abbrev pub HasGivenUp : Controller → Type 0
  HasGivenUp c = (c.status.state ≡ error) × (c.pending_reconnect ≡ false)

  passive-HasGivenUp :
      (w : World b) (x : Call b)
      → is_passive x ≡ true
      → HasGivenUp w.0
      → HasGivenUp (called b w x).0
  unfolding called on_frontend_event
  passive-HasGivenUp w (obs_moves p) q h = h
  passive-HasGivenUp w (hears streaming_started) q h = ground (arith, h)
  passive-HasGivenUp w (hears streaming_stopped) q h = ground (arith, h)
  passive-HasGivenUp w (hears _) q h = h
  passive-HasGivenUp w _ q h = absurd (ground (arith, q))

  after-HasGivenUp :
      (w : World b) (xs : List (Call b))
      → all_passive xs ≡ true
      → HasGivenUp w.0
      → HasGivenUp (after b w xs).0
  unfolding after
  after-HasGivenUp w [] q h = h
  after-HasGivenUp w (x ∷ xs) q h =
      after-HasGivenUp (called b w x) xs (ground (arith, q))
        (passive-HasGivenUp w x (ground (arith, q)) h)

  asks_nothing :
      (w : World b) (event : FrontendEvent) → HasGivenUp w.0 → (called b w (hears event)).1 ≡ w.1
  unfolding called on_frontend_event
  asks_nothing w streaming_started h = ground (arith, h)
  asks_nothing w streaming_stopped h = ground (arith, h)
  asks_nothing w _ h = refl

  timeout-HasGivenUp :
      (c : Controller) (o : b.Obs)
      → c.status.state ≡ applying
      → c.status.safe_mode ≡ true
      → HasGivenUp (on_apply_timeout b (c, o)).0
        × ((on_apply_timeout b (c, o)).1 ≡ put_back b c.scene_before o)
  unfolding on_apply_timeout
  timeout-HasGivenUp c o e s = elim (Bool-cases (is_empty c.scene_before)) [
    | inl h ↦ ground arith
    | inr h ↦ ground arith
  ]

  -- The watchdog, which in safe mode finds the controller still Applying, puts back the scene that was
  -- kept and gives the reconnect up. Whatever OBS does and says from then on, the controller stays in
  -- Error and waits for no reconnect, and no event makes it ask anything of OBS.
  pub timeout_gives_up :
      (c : Controller) (o : b.Obs) (xs : List (Call b)) (event : FrontendEvent)
      → c.status.state ≡ applying
      → c.status.safe_mode ≡ true
      → all_passive xs ≡ true
      → let d = on_apply_timeout b (c, o) in
        let w = after b d xs in
        (d.1 ≡ put_back b c.scene_before o) × HasGivenUp w.0 × ((called b w (hears event)).1 ≡ w.1)
  timeout_gives_up c o xs event e s q =
      let d = on_apply_timeout b (c, o) in
      let (gone, back) = timeout-HasGivenUp c o e s in
      let over = after-HasGivenUp d xs q gone in
      (back, over, asks_nothing (after b d xs) event over)
