-- ===== src/EncoderCheck/Applies.antt =====
-- What a ceiling of src/encoder-check.cpp that applies says of the encoders and of its size.
use obs_trigglow_dynamic_del.Prelude.{
  ℕ, ◌%◌, ◌≤◌, ◌≡◌, refl, max, Bool, true, false, not, ◌&&◌, ◌||◌, List, [], ◌∷◌, arith,
  if◌then◌else◌,
}
use obs_trigglow_dynamic_del.Prelude.Double.{Double}
use obs_trigglow_dynamic_del.EncoderCheck.{
  Size, CeilingEncoder, is_other_canvas, is_unlisted, is_empty_size, Need, unknown, need, scaled,
  even_dim, aligned_width, gather, ceiling_at, ceiling_for, encoder_ceiling, scale_of,
}

-- No encoder is one of a mix that might be the main canvas, stretched.
abbrev pub IsKnown : List CeilingEncoder → Type 0
IsKnown [] = Unit
IsKnown (e ∷ encoders) =
    ((is_unlisted e.source && is_other_canvas e.scope) ≡ false) × IsKnown encoders

-- Some encoder sees the main canvas and has a size.
abbrev pub sees_canvas : List CeilingEncoder → Bool
sees_canvas [] = false
sees_canvas (e ∷ encoders) =
    not (is_other_canvas e.scope || is_empty_size e.size) || sees_canvas encoders

-- A size for NV12 planes: rows of whole 4-byte words, whole chroma samples, and no larger than
-- the canvas but where the smallest such size is.
pub record IsBufferSize (base size : Size) : Type 0 where
  pub wide : 8 ≤ size.width
  pub aligned : size.width % 8 ≡ 0
  pub tall : 2 ≤ size.height
  pub even : size.height % 2 ≡ 0
  pub narrower : size.width ≤ max 8 base.width
  pub lower : size.height ≤ max 2 base.height

pub record IsApplied (encoders : List CeilingEncoder) (base size : Size) (capped raw : Bool)
    : Type 0 where
  pub caps : capped ≡ true
  pub encoded : raw ≡ false
  pub known : IsKnown encoders
  pub seen : sees_canvas encoders ≡ true
  pub fits : IsBufferSize base size

module _ (d : Double) (llround : d.Real → ℕ) where
  aligned-bounds :
      (orig : ℕ) (s : d.Real)
      → let w = aligned_width d llround orig s in (8 ≤ w) × (w % 8 ≡ 0) × (w ≤ max 8 orig)
  unfolding aligned_width
  aligned-bounds orig s = let v = scaled d llround orig s in ground (arith)

  even-bounds :
      (orig : ℕ) (s : d.Real)
      → let h = even_dim d llround orig s in (2 ≤ h) × (h % 2 ≡ 0) × (h ≤ max 2 orig)
  unfolding even_dim
  even-bounds orig s = ground (arith)

  ceiling_at-fits :
      (base output : Size) (s : d.Real)
      → (ceiling_at d llround base output s).applies ≡ true
      → IsBufferSize base (ceiling_at d llround base output s).size
  unfolding ceiling_at
  ceiling_at-fits base output s h =
      ground (arith, aligned-bounds base.width s, even-bounds base.height s)

  -- What the loop found, when it was no unknown mix.
  gather-need :
      (encoders : List CeilingEncoder) (base : Size) (s t : d.Real) (any found : Bool)
      → gather d llround encoders base s any ≡ need t found
      → IsKnown encoders × (found ≡ (sees_canvas encoders || any))
  unfolding gather
  gather-need [] base s t any found h = (tt, cc)
  gather-need (e ∷ encoders) base s t any found h =
      let counts : Bool = not (is_other_canvas e.scope || is_empty_size e.size) in
      let scale : d.Real = if counts then d.maximum s (scale_of d llround e.size base) else s in
      ground (arith, h, gather-need encoders base scale t (counts || any) found)

  for-applies :
      (encoders : List CeilingEncoder) (base output : Size) (n : Need d llround)
      → gather d llround encoders base (d.of_nat 0) false ≡ n
      → (ceiling_for d llround base output n).applies ≡ true
      → IsKnown encoders
        × (sees_canvas encoders ≡ true)
        × IsBufferSize base (ceiling_for d llround base output n).size
  unfolding ceiling_for
  for-applies encoders base output unknown g h = ground (arith, h)
  for-applies encoders base output (need s true) g h =
      let found = gather-need encoders base (d.of_nat 0) s false true g in
      (found.0, ground (arith, found.1), ceiling_at-fits base output s h)
  for-applies encoders base output (need s false) g h = ground (arith, h)

-- A ceiling applies only with the cap on, no output without an encoder, no encoder of a mix that might
-- be the main canvas, and at least one that sees it; its size is one that NV12 planes can have, no wider
-- than the canvas or 8 pixels, if that is more, and no higher than the canvas or 2.
pub encoder_ceiling-IsApplied :
    (d : Double) (llround : d.Real → ℕ) (encoders : List CeilingEncoder) (base output : Size)
    (capped raw : Bool)
    → (encoder_ceiling d llround encoders base output capped raw).applies ≡ true
    → IsApplied encoders base
        (encoder_ceiling d llround encoders base output capped raw).size
        capped
        raw
unfolding encoder_ceiling
encoder_ceiling-IsApplied d llround encoders base output capped raw h = ground (
  arith,
  h,
  for-applies d llround encoders base output (gather d llround encoders base (d.of_nat 0) false)
      refl,
)
