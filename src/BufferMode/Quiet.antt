-- ===== src/BufferMode/Quiet.antt =====
-- What src/buffer-mode-controller.cpp does about OBS's encoders changes nothing that its invariant
-- reads.
use obs_trigglow_dynamic_del.Prelude.{
  ◌≡◌, refl, sym, subst, ◌∙◌, Bool, true, false, Option, none, some, List, [], ◌∷◌, if◌then◌else◌,
  arith, not, ◌&&◌, ◌||◌, ◌==◌,
}
use obs_trigglow_dynamic_del.EncoderCheck.{Size}
use obs_trigglow_dynamic_del.Delay.{FrontendEvent}
use obs_trigglow_dynamic_del.BufferMode.{
  ActiveVideoEncoder, Bridge, is_busy, World, perform, watch_stops,
}
use obs_trigglow_dynamic_del.BufferMode.Texts.{Text}
use obs_trigglow_dynamic_del.BufferMode.Encoders.{
  same_size, push_encoders, push_size, push_ceiling_in, push_ceiling, warn_one, warn_each,
  buffer_size, warn_about_encoders, refresh_with, refresh_encoders,
}
use obs_trigglow_dynamic_del.BufferMode.Events.{
  is_started, is_stopped, is_virtualcam, yield_for_output_start, resume, report_skipped, tick,
  on_loaded, on_output, on_encoders,
}
use obs_trigglow_dynamic_del.BufferMode.Track.{View, view}

-- Two worlds that the invariant does not tell apart.
pub record Alike {b : Bridge} (w v : World b) : Type 0 where
  pub seen : view w ≡ view v

module _ {b : Bridge} where
  -- Both branches look the same.
  pub Alike-if : (c : Bool) (x y v : World b) → Alike x v → Alike y v → Alike (if c then x else y) v
  Alike-if true x y v p q = p
  Alike-if false x y v p q = q

  pub Alike-refl : (w : World b) → Alike w w
  Alike-refl w = record { seen = refl }

  pub Alike-trans : {w x v : World b} → Alike w x → Alike x v → Alike w v
  Alike-trans p q = record { seen = p.seen ∙ q.seen }

  push_size-Alike : (w : World b) (size : Size) → Alike (push_size w size) w
  unfolding push_size
  push_size-Alike w size =
      Alike-if (same_size size w.ctl.last_ceiling) _ _ _ (Alike-refl w) (record { seen = refl })

  push_ceiling-Alike :
      (w : World b) (encoders : List ActiveVideoEncoder) (geometry : Option (Size × Size))
      → Alike (push_ceiling_in w encoders geometry) w
  unfolding push_ceiling_in
  push_ceiling-Alike w encoders none = Alike-refl w
  push_ceiling-Alike w encoders (some (base, output)) = push_size-Alike w _

  warn_one-Alike :
      (w : World b) (capped uncapped : Size) (e : ActiveVideoEncoder)
      → Alike (warn_one w capped uncapped e) w
  unfolding warn_one
  warn_one-Alike w capped uncapped e = ground arith

  warn_each-Alike :
      (w : World b) (capped uncapped : Size) (encoders : List ActiveVideoEncoder)
      → Alike (warn_each w capped uncapped encoders) w
  unfolding warn_each
  warn_each-Alike w capped uncapped [] = Alike-refl w
  warn_each-Alike w capped uncapped (e ∷ encoders) =
      Alike-trans (warn_each-Alike (warn_one w capped uncapped e) capped uncapped encoders)
        (warn_one-Alike w capped uncapped e)

  pub warn-Alike : (w : World b) → Alike (warn_about_encoders w) w
  unfolding warn_about_encoders
  warn-Alike w = ground (
    arith,
    (warn_each-Alike w (buffer_size w true) (buffer_size w false) (b.encoders w.obs)).seen,
  )

  refresh_with-Alike :
      (w : World b) (force : Bool) (now : List Text) → Alike (refresh_with w force now) w
  unfolding refresh_with push_encoders push_ceiling
  refresh_with-Alike w force now =
      let signed : World b = record w { ctl = record w.ctl { encoder_signature = now } } in
      let pushed = push_encoders signed (b.encoders w.obs) in
      let bounded = push_ceiling pushed (b.encoders w.obs) in
      ground (
        arith,
        (warn-Alike bounded).seen,
        (push_ceiling-Alike pushed (b.encoders w.obs) (b.canvas_geometry pushed.obs)).seen,
      )

  pub refresh-Alike : (w : World b) (force : Bool) → Alike (refresh_encoders w force) w
  unfolding refresh_encoders
  refresh-Alike w force = refresh_with-Alike w force _

  yield-Alike : (w : World b) → Alike (yield_for_output_start w) w
  unfolding yield_for_output_start
  yield-Alike w = ground arith

  skipped-Alike : (w : World b) → Alike (report_skipped w) w
  unfolding report_skipped
  skipped-Alike w = ground arith

  resume-Alike : (w : World b) → Alike (resume w) w
  unfolding resume
  resume-Alike w =
      let done : World b = record w { ctl = record w.ctl { yield_pending = false } } in
      ground (arith, (refresh-Alike done true).seen)

  pub tick-Alike : (w : World b) → Alike (tick w) w
  unfolding tick
  tick-Alike w =
      let refreshed = refresh_encoders w false in
      let watched = perform refreshed watch_stops in
      Alike-if (not (is_busy w.ctl.status.state)) w _ w (Alike-refl w) (
        Alike-trans (resume-Alike (report_skipped watched)) (
          Alike-trans (skipped-Alike watched)
            (Alike-trans {x = refreshed} (record { seen = refl }) (refresh-Alike w false))))

  pub loaded-Alike : (w : World b) (event : FrontendEvent) → Alike (on_loaded w event) w
  unfolding on_loaded
  loaded-Alike w event = ground arith

  pub output-Alike : (w : World b) (event : FrontendEvent) → Alike (on_output w event) w
  unfolding on_output
  output-Alike w event = ground (arith, (yield-Alike w).seen)

  pub encoders-Alike : (w : World b) (event : FrontendEvent) → Alike (on_encoders w event) w
  unfolding on_encoders
  encoders-Alike w event =
      let timed : World b =
        if is_started event && w.ctl.yield_pending && w.ctl.output_started_ns == 0
        then record w { ctl = record w.ctl { output_started_ns = b.now_ns w.obs } }
        else w in
      let refreshed : World b =
        if is_busy w.ctl.status.state
          && (is_started event || is_stopped event || is_virtualcam event)
        then refresh_encoders timed true
        else timed in
      let timed-Alike : Alike timed w = ground arith in
      let refreshed-Alike : Alike refreshed w =
        Alike-if _ (refresh_encoders timed true) timed w
          (Alike-trans (refresh-Alike timed true) timed-Alike) timed-Alike in
      Alike-if (is_started event) _ refreshed w (Alike-trans (warn-Alike refreshed) refreshed-Alike)
        refreshed-Alike

  -- What holds of the view of one holds of the other's.
  pub Alike-subst : (P : View → Type 0) (w v : World b) → Alike w v → P (view v) → P (view w)
  Alike-subst P w v a = subst P (sym a.seen)

  pub view-if :
      (P : View → Type 0) (c : Bool) (x y : World b)
      → (c ≡ true → P (view x))
      → (c ≡ false → P (view y))
      → P (view (if c then x else y))
  view-if P true x y p q = p refl
  view-if P false x y p q = q refl
