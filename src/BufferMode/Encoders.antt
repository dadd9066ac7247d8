-- ===== src/BufferMode/Encoders.antt =====
-- src/buffer-mode-controller.cpp: what the controller makes of OBS's active video encoders. They are
-- pushed to the buffer's filter, bound the size of the buffer, and are warned about where they encode
-- above it.
use obs_trigglow_dynamic_del.Prelude.{
  ℕ, ◌+◌, Bool, true, false, not, ◌&&◌, ◌||◌, Option, none, some, List, [], ◌∷◌, ◌++◌, map, ltb,
  ◌==◌, if◌then◌else◌, length, is_empty,
}
use obs_trigglow_dynamic_del.EncoderCheck.{
  Size, CeilingEncoder, no_size, cap_limits_buffer, should_warn, encoder_ceiling,
}
use obs_trigglow_dynamic_del.BufferMode.{
  ActiveVideoEncoder, set_filter_encoders, set_filter_ceiling, warned_about, Bridge, is_busy, World,
  RingClass, intra, intra_with_gop, inter, perform, note,
}
use obs_trigglow_dynamic_del.BufferMode.Texts.{
  Text, same_text, mem_text, same_texts, sort_texts, to_text, EncoderFamily, family_from_id,
  is_nvenc,
}

-- What tells one encoder from another in RefreshObsEncoders.
unfoldable pub signature : ActiveVideoEncoder → Text
unfolding to_text
signature e =
    e.output_name
    ++ 31 ∷ e.encoder_name
    ++ 31 ∷ e.encoder_id
    ++ 31 ∷ to_text e.size.width
    ++ b'x' ∷ to_text e.size.height

-- The loop of PushObsEncoders: one family for each encoder, and sixteen at most.
unfoldable pub families :
    List ActiveVideoEncoder → List Text → List EncoderFamily → List EncoderFamily
unfolding family_from_id
families [] seen set = set
families (e ∷ encoders) seen set =
    let known = mem_text e.encoder_name seen in
    let added = if ltb (length set) 16 then set ++ family_from_id e.encoder_id ∷ [] else set in
    families encoders (if known then seen else seen ++ e.encoder_name ∷ [])
      (if known then set else added)

-- The loop of YieldForOutputStart: how many encoders are NVENC ones.
unfoldable pub count_nvenc : List ActiveVideoEncoder → List Text → ℕ → ℕ
unfolding family_from_id
count_nvenc [] seen n = n
count_nvenc (e ∷ encoders) seen n =
    let known = mem_text e.encoder_name seen in
    let counted = if is_nvenc (family_from_id e.encoder_id) then n + 1 else n in
    count_nvenc encoders (if known then seen else seen ++ e.encoder_name ∷ [])
      (if known then n else counted)

abbrev pub same_size : Size → Size → Bool
same_size s t = s.width == t.width && s.height == t.height

abbrev pub is_warned : Text → Size → List (Text × Size) → Bool
is_warned name size [] = false
is_warned name size (x ∷ warned) =
    (same_text name x.0 && same_size size x.1) || is_warned name size warned

-- The uint32_t arguments of EncoderCeiling's encoders.
abbrev pub ceiling_encoder : ActiveVideoEncoder → CeilingEncoder
ceiling_encoder e = record { source = e.source; scope = e.scope; size = e.size }

module _ {b : Bridge} where
  -- PushObsEncoders.
  unfoldable pub push_encoders : World b → List ActiveVideoEncoder → World b
  unfolding families
  push_encoders w encoders =
      perform w (set_filter_encoders w.ctl.status.live_scene_name (families encoders [] []))

  -- The end of PushEncoderCeiling: a ceiling that changed is pushed.
  unfoldable pub push_size : World b → Size → World b
  push_size w size =
      if same_size size w.ctl.last_ceiling
      then w
      else perform (record w { ctl = record w.ctl { last_ceiling = size } })
          (set_filter_ceiling w.ctl.status.live_scene_name size)

  -- PushEncoderCeiling, for the sizes of the main canvas and of its output, if there are any.
  unfoldable pub push_ceiling_in :
      World b → List ActiveVideoEncoder → Option (Size × Size) → World b
  unfolding push_size encoder_ceiling
  push_ceiling_in w encoders none = w
  push_ceiling_in w encoders (some (base, output)) =
      let ceiling =
        encoder_ceiling b.real b.llround (map ceiling_encoder encoders) base output w.ctl.output_cap
          (b.raw_output w.obs) in
      push_size w (if ceiling.applies then ceiling.size else no_size)

  -- PushEncoderCeiling.
  unfoldable pub push_ceiling : World b → List ActiveVideoEncoder → World b
  unfolding push_ceiling_in
  push_ceiling w encoders = push_ceiling_in w encoders (b.canvas_geometry w.obs)

  -- One encoder in the loop of WarnAboutEncodersAboveBuffer.
  unfoldable pub warn_one : World b → Size → Size → ActiveVideoEncoder → World b
  unfolding should_warn
  warn_one w capped uncapped e =
      let warned = (e.encoder_name, e.size) ∷ w.ctl.warned_encoders in
      if not (should_warn e.scope e.size capped uncapped w.ctl.output_cap)
        || is_warned e.encoder_name e.size w.ctl.warned_encoders
      then w
      else note (record w { ctl = record w.ctl { warned_encoders = warned } })
          (warned_about e.encoder_name e.size)

  unfoldable pub warn_each : World b → Size → Size → List ActiveVideoEncoder → World b
  unfolding warn_one
  warn_each w capped uncapped [] = w
  warn_each w capped uncapped (e ∷ encoders) =
      warn_each (warn_one w capped uncapped e) capped uncapped encoders

  -- The buffer's size at the settings of now, with the cap on or off.
  abbrev pub buffer_size : World b → Bool → Size
  buffer_size w capped =
      (b.estimate w.ctl.status.live_scene_name w.ctl.status.delay_seconds
        w.ctl.status.min_resolution_height capped w.ctl.cycle_ring_class w.obs).size

  -- WarnAboutEncodersAboveBuffer.
  unfoldable pub warn_about_encoders : World b → World b
  unfolding warn_each cap_limits_buffer
  warn_about_encoders w =
      let capped = buffer_size w true in
      let uncapped = buffer_size w false in
      if not w.ctl.output_cap
        || is_empty w.ctl.status.live_scene_name
        || not (is_busy w.ctl.status.state)
      then w
      else if not (cap_limits_buffer capped uncapped)
      then w
      else warn_each w capped uncapped (b.encoders w.obs)

  -- RefreshObsEncoders, for the signature of now.
  unfoldable pub refresh_with : World b → Bool → List Text → World b
  unfolding push_encoders push_ceiling warn_about_encoders
  refresh_with w force now =
      let listed = b.encoders w.obs in
      let signed = record w { ctl = record w.ctl { encoder_signature = now } } in
      let pushed = push_ceiling (push_encoders signed listed) listed in
      if not force && same_texts now w.ctl.encoder_signature
      then w
      else if force
      then pushed
      else warn_about_encoders pushed

  -- RefreshObsEncoders.
  unfoldable pub refresh_encoders : World b → Bool → World b
  unfolding refresh_with signature sort_texts
  refresh_encoders w force = refresh_with w force (sort_texts (map signature (b.encoders w.obs)))

  -- NextCycleRingClass.
  unfoldable pub next_cycle_ring_class : World b → RingClass
  next_cycle_ring_class w =
      if not w.ctl.codec_auto || not w.ctl.codec_workers || not (b.hardware_possible w.obs)
      then intra
      else if b.hardware_available w.obs
      then inter
      else intra_with_gop

  -- PlannedRingClass.
  unfoldable pub planned_ring_class : World b → RingClass
  unfolding next_cycle_ring_class
  planned_ring_class w =
      if is_busy w.ctl.status.state then w.ctl.cycle_ring_class else next_cycle_ring_class w
