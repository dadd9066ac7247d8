-- ===== src/Degradation.antt =====
-- src/degradation-policy.hpp and src/degradation-policy.cpp: the adaptive degradation of the delay
-- buffer. The `double` arithmetic is a parameter; SIZE_MAX, `Sample::kSameRung`, is `none`. BuildLadder,
-- whose loop rounds doubles, is not modelled: a ladder is any list of rungs.
pub mod Evaluate
pub mod Steps
pub mod Causes
mod Tests
use obs_trigglow_dynamic_del.Prelude.{
  ℕ, ◌+◌, ◌-◌, ◌/◌, min, Bool, true, false, not, ◌&&◌, ◌||◌, Option, some, List, [], ◌∷◌, ltb, leb,
  ◌==◌, if◌then◌else◌, sub_u64, length, get_or, is_empty,
}
use obs_trigglow_dynamic_del.Prelude.Double.{Double}

pub record Rung : Type 0 where
  pub width : ℕ
  pub height : ℕ
  pub capture_divisor : ℕ

abbrev pub no_rung : Rung
no_rung = record { width = 0; height = 0; capture_divisor = 1 }

pub record Parallelism : Type 0 where
  pub contexts : ℕ
  pub slices : ℕ

abbrev pub one_context : Parallelism
one_context = record { contexts = 1; slices = 1 }

-- BuildParallelismSteps.
pub build_parallelism_steps : Bool → Bool → List Parallelism
build_parallelism_steps threaded inter =
    if inter
    then one_context ∷ []
    else if threaded
    then one_context
      ∷ record { contexts = 2; slices = 1 }
      ∷ record { contexts = 2; slices = 2 }
      ∷ []
    else one_context ∷ record { contexts = 1; slices = 2 } ∷ []

pub data Action : Type 0 where
  none more_parallelism less_parallelism lower_quality raise_quality : Action

pub data Cause : Type 0 where
  no_cause graphics encode decode recovered : Cause

module _ (d : Double) where
  open d use {Real, of_nat, decimal, mul, div, add, maximum, lt, le, pow, log2}

  -- PredictEncodeP95Ms.
  pub predict_encode_p95_ms : ℕ → ℕ → Real
  predict_encode_p95_ms width height =
      let megapixels = div (mul (of_nat width) (of_nat height)) (of_nat 1000000) in
      mul (decimal 11 1) (add (decimal 3 1) (mul (decimal 23 1) megapixels))

  -- SliceSpeedup.
  pub slice_speedup : ℕ → Real
  slice_speedup slices =
      if leb slices 1 then of_nat 1 else pow (decimal 16 1) (log2 (of_nat slices))

  -- The loop of InitialParallelism without worker threads: the last step with few enough slices.
  pub last_with_slices : ℕ → ℕ → ℕ → List Parallelism → ℕ
  last_with_slices preferred i best [] = best
  last_with_slices preferred i best (p ∷ ps) =
      last_with_slices preferred (i + 1) (if leb p.slices preferred then i else best) ps

  -- The loop with them: the first step whose predicted load is low enough, or `count - 1`.
  pub first_under_load : Real → Real → ℕ → ℕ → List Parallelism → ℕ
  unfolding slice_speedup
  first_under_load per_frame interval count i [] = count - 1
  first_under_load per_frame interval count i (p ∷ ps) =
      let load = div (div per_frame (slice_speedup p.slices)) (mul interval (of_nat p.contexts)) in
      let rest = first_under_load per_frame interval count (i + 1) ps in
      if le load (decimal 70 2) then i else rest

  -- InitialParallelism.
  pub initial_parallelism : List Parallelism → Bool → ℕ → ℕ → ℕ → ℕ → ℕ
  unfolding predict_encode_p95_ms last_with_slices first_under_load
  initial_parallelism steps threaded width height capture_interval_ns preferred =
      let interval = div (of_nat capture_interval_ns) (of_nat 1000000) in
      let per_frame = predict_encode_p95_ms width height in
      if is_empty steps
      then 0
      else if not threaded
      then last_with_slices preferred 0 0 steps
      else first_under_load per_frame interval (length steps) 0 steps

  pub record Thresholds : Type 0 where
    pub graphics_target : Real
    pub graphics_down : Real
    pub graphics_immediate : Real
    pub worker_down : Real
    pub worker_up : Real
    pub drop_rate_down : Real
    pub miss_rate_down : Real
    pub prediction_margin : Real
    pub cooldown_ns : ℕ
    pub immediate_settle_ns : ℕ
    pub up_hold_ns : ℕ
    pub min_samples : ℕ

  pub record Sample : Type 0 where
    pub now_ns : ℕ
    pub frame_interval_ns : ℕ
    pub graphics_samples : ℕ
    pub graphics_p95_ms : Real
    pub graphics_short_samples : ℕ
    pub graphics_short_p50_ms : Real
    pub encode_samples : ℕ
    pub encode_p95_ms : Real
    pub decode_samples : ℕ
    pub decode_p95_ms : Real
    pub captures : ℕ
    pub encode_drops : ℕ
    pub due_frames : ℕ
    pub decode_misses : ℕ
    pub obs_lagged_frames : ℕ
    pub decode_rung : Option ℕ
    pub block_up : Bool

  pub record Decision : Type 0 where
    pub action : Action
    pub cause : Cause
    pub load : Real

  pub record Policy : Type 0 where
    pub ladder : List Rung
    pub steps : List Parallelism
    pub rung : ℕ
    pub step : ℕ
    pub initial_step : ℕ
    pub threaded : Bool
    pub thresholds : Thresholds
    pub last_change_ns : ℕ
    pub up_since_ns : ℕ

  abbrev pub Result : Type 0
  Result = Decision × Policy

  abbrev pub no_decision : Decision
  no_decision = record { action = none; cause = no_cause; load = of_nat 0 }

  abbrev pub or_one_context : List Parallelism → List Parallelism
  or_one_context steps = if is_empty steps then one_context ∷ [] else steps

  abbrev pub or_no_rung : List Rung → List Rung
  or_no_rung ladder = if is_empty ladder then no_rung ∷ [] else ladder

  -- The constructor.
  pub make : List Rung → List Parallelism → ℕ → Bool → Thresholds → Policy
  make ladder steps initial threaded t =
      let start = min initial (length (or_one_context steps) - 1) in
      record {
        ladder = or_no_rung ladder;
        steps = or_one_context steps;
        rung = 0;
        step = start;
        initial_step = start;
        threaded = threaded;
        thresholds = t;
        last_change_ns = 0;
        up_since_ns = 0;
      }

  -- Apply.
  abbrev pub moved : Action → Policy → Policy
  moved none p = p
  moved more_parallelism p = record p { step = p.step + 1 }
  moved less_parallelism p = record p { step = p.step - 1 }
  moved lower_quality p = record p { rung = p.rung + 1 }
  moved raise_quality p = record p { rung = p.rung - 1 }

  abbrev pub apply : Policy → Action → Cause → Real → ℕ → Result
  apply p action cause load now = (
    record { action = action; cause = cause; load = load },
    record (moved action p) { last_change_ns = now; up_since_ns = 0 },
  )

  abbrev pub is_set_up : Policy → Bool
  is_set_up p = not (is_empty p.ladder) && not (is_empty p.steps)

  -- ForceLower.
  pub force_lower : Policy → Cause → Real → ℕ → Result
  force_lower p cause load now =
      if not (is_set_up p) || leb (length p.ladder) (p.rung + 1)
      then (no_decision, p)
      else apply p lower_quality cause load now

  -- SetParallelism.
  pub set_parallelism : Policy → List Parallelism → ℕ → Policy
  set_parallelism p steps initial =
      let start = min initial (length (or_one_context steps) - 1) in
      record p {
        steps = or_one_context steps;
        step = start;
        initial_step = start;
        up_since_ns = 0;
        last_change_ns = 0;
      }

  -- Rebase.
  pub rebase : Policy → List Rung → ℕ → Policy
  rebase p ladder rung = record p {
    ladder = or_no_rung ladder;
    rung = min rung (length (or_no_rung ladder) - 1);
    up_since_ns = 0;
    last_change_ns = 0;
  }
