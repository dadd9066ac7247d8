-- ===== src/EncoderCheck/Tests.antt =====
-- src/encoder-check.cpp on two encoders of a 1920x1080 canvas, with doubles in thousandths.
use obs_trigglow_dynamic_del.Prelude.{ℕ, ◌+◌, ◌/◌, true, false, [], ◌∷◌, refl, ◌≡◌}
use obs_trigglow_dynamic_del.Prelude.Milli.{milli}
use obs_trigglow_dynamic_del.EncoderCheck.{
  Size, main_mix, main_canvas, CeilingEncoder, encoder_ceiling,
}
use obs_trigglow_dynamic_del.EncoderCheck.Applies.{IsApplied, encoder_ceiling-IsApplied}

abbrev canvas : Size
canvas = record { width = 1920; height = 1080 }

abbrev half : Size
half = record { width = 960; height = 540 }

abbrev rescaled : CeilingEncoder
rescaled = record { source = main_mix; scope = main_canvas; size = half }

abbrev rounded : ℕ → ℕ
rounded x = (x + 500) / 1000

-- 960x540 is half of the canvas.
half_ceiling :
    (encoder_ceiling milli rounded (rescaled ∷ []) canvas canvas true false).size
    ≡ record { width = 960; height = 540 }
unfolding encoder_ceiling
half_ceiling = refl

IsApplied-half :
    IsApplied
      (rescaled ∷ [])
      canvas
      (encoder_ceiling milli rounded (rescaled ∷ []) canvas canvas true false).size
      true
      false
unfolding encoder_ceiling
IsApplied-half =
    encoder_ceiling-IsApplied milli rounded (rescaled ∷ []) canvas canvas true false refl
