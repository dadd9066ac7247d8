-- ===== src/EncoderCheck.antt =====
-- src/encoder-check.hpp and src/encoder-check.cpp, namespace encodercheck, with the rounding of sizes
-- in src/buffer-fit.cpp: which of OBS's encoders see the delayed scene, when one is worth a warning,
-- and the ceiling that they put on the delay buffer. The `double` arithmetic and std::llround are
-- parameters. A product of two `uint32_t` fits 64 bits and is written without the wrap-around.
pub mod Applies
mod Tests
use obs_trigglow_dynamic_del.Prelude.{
  ℕ, ◌+◌, ◌-◌, ◌*◌, ◌/◌, ◌%◌, max, Bool, true, false, not, ◌&&◌, ◌||◌, List, [], ◌∷◌, ltb, leb,
  ◌==◌, if◌then◌else◌,
}
use obs_trigglow_dynamic_del.Prelude.Double.{Double}

pub record Size : Type 0 where
  pub width : ℕ
  pub height : ℕ

pub data VideoSource : Type 0 where
  main_mix other_canvas_mix unlisted_mix : VideoSource

pub data Scope : Type 0 where
  main_canvas main_canvas_by_aspect other_canvas : Scope

abbrev pub is_empty_size : Size → Bool
is_empty_size s = (s.width == 0) || (s.height == 0)

-- kAspectTolerancePercent is 2.
pub same_aspect_ratio : Size → Size → Bool
same_aspect_ratio a b =
    let lhs = a.width * b.height in
    let rhs = b.width * a.height in
    let diff = if ltb rhs lhs then lhs - rhs else rhs - lhs in
    if is_empty_size a || is_empty_size b then false else leb diff (max lhs rhs / 100 * 2)

pub classify : VideoSource → Size → Size → Size → Scope
classify main_mix encoder main_base main_output = main_canvas
classify other_canvas_mix encoder main_base main_output = other_canvas
classify unlisted_mix encoder main_base main_output =
    if same_aspect_ratio encoder main_base || same_aspect_ratio encoder main_output
    then main_canvas_by_aspect
    else other_canvas

unfoldable pub cap_limits_buffer : Size → Size → Bool
cap_limits_buffer capped uncapped =
    not (is_empty_size capped)
    && (ltb capped.width uncapped.width || ltb capped.height uncapped.height)

abbrev pub is_other_canvas : Scope → Bool
is_other_canvas other_canvas = true
is_other_canvas _ = false

abbrev pub is_unlisted : VideoSource → Bool
is_unlisted unlisted_mix = true
is_unlisted _ = false

unfoldable pub should_warn : Scope → Size → Size → Size → Bool → Bool
should_warn scope encoder capped uncapped cap_to_output =
    if not cap_to_output || not (cap_limits_buffer capped uncapped)
    then false
    else if is_other_canvas scope
    then false
    else ltb capped.width encoder.width || ltb capped.height encoder.height

pub record CeilingEncoder : Type 0 where
  pub source : VideoSource
  pub scope : Scope
  pub size : Size

pub data CeilingWhy : Type 0 where
  applied no_encoders raw_output unknown_mix cap_off not_below_output : CeilingWhy

pub record Ceiling : Type 0 where
  pub applies : Bool
  pub size : Size
  pub why : CeilingWhy

abbrev pub no_size : Size
no_size = record { width = 0; height = 0 }

-- The default Ceiling, with its reason.
abbrev pub no_ceiling : CeilingWhy → Ceiling
no_ceiling why = record { applies = false; size = no_size; why = why }

module _ (d : Double) (llround : d.Real → ℕ) where
  open d use {Real, of_nat, mul, div, maximum, lt, le}

  -- `std::llround(orig * scale)`, never above `orig`. The scales are not negative.
  abbrev pub scaled : ℕ → Real → ℕ
  scaled orig scale = let v = llround (mul (of_nat orig) scale) in if ltb orig v then orig else v

  -- EvenDim of src/buffer-fit.cpp.
  unfoldable pub even_dim : ℕ → Real → ℕ
  even_dim orig scale =
      let v = scaled orig scale in let raised = if ltb v 2 then 2 else v in raised - raised % 2

  -- AlignedWidth of src/buffer-fit.cpp; kWidthAlignment is 8.
  unfoldable pub aligned_width : ℕ → Real → ℕ
  aligned_width orig scale =
      let near = (scaled orig scale + 4) / 8 * 8 in
      let aligned = if ltb orig near then orig / 8 * 8 else near in
      if ltb aligned 8 then 8 else aligned

  -- The larger of an encoder's two scales of the canvas.
  abbrev pub scale_of : Size → Size → Real
  scale_of size base =
      maximum (div (of_nat size.width) (of_nat base.width))
        (div (of_nat size.height) (of_nat base.height))

  -- What the loop of EncoderCeiling finds: an unknown mix, or the scale needed so far and whether any
  -- encoder counted.
  pub data Need : Type 0 where
    unknown : Need
    need : Real → Bool → Need

  unfoldable pub gather : List CeilingEncoder → Size → Real → Bool → Need
  gather [] base scale any = need scale any
  gather (e ∷ encoders) base scale any =
      let counts = not (is_other_canvas e.scope || is_empty_size e.size) in
      if is_unlisted e.source && is_other_canvas e.scope
      then unknown
      else gather encoders base (if counts then maximum scale (scale_of e.size base) else scale)
          (counts || any)

  -- EncoderCeiling, once the scale is known; `std::min(1.0, x)` is x where `x < 1.0`.
  unfoldable pub ceiling_at : Size → Size → Real → Ceiling
  unfolding aligned_width even_dim
  ceiling_at base output scale =
      let whole = scale_of output base in
      let cap = if lt whole (of_nat 1) then whole else of_nat 1 in
      let width = aligned_width base.width scale in
      let height = even_dim base.height scale in
      if le cap scale
        || (leb (aligned_width base.width cap) width && leb (even_dim base.height cap) height)
      then no_ceiling not_below_output
      else record {
        applies = true;
        size = record { width = width; height = height };
        why = applied;
      }

  unfoldable pub ceiling_for : Size → Size → Need → Ceiling
  unfolding ceiling_at
  ceiling_for base output unknown = no_ceiling unknown_mix
  ceiling_for base output (need scale any) =
      if any then ceiling_at base output scale else no_ceiling no_encoders

  -- EncoderCeiling.
  unfoldable pub encoder_ceiling : List CeilingEncoder → Size → Size → Bool → Bool → Ceiling
  unfolding gather ceiling_for
  encoder_ceiling encoders base output cap_to_output raw_on_main =
      if not cap_to_output
      then no_ceiling cap_off
      else if raw_on_main
      then no_ceiling raw_output
      else if is_empty_size base || is_empty_size output
      then no_ceiling no_encoders
      else ceiling_for base output (gather encoders base (of_nat 0) false)
