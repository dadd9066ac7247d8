-- ===== src/Degradation/Tests.antt =====
-- The degradation policy of src/degradation-policy.cpp at concrete samples.
use obs_trigglow_dynamic_del.Prelude.{ℕ, ◌≡◌, refl, true, false, none, some, List, [], ◌∷◌}
use obs_trigglow_dynamic_del.Prelude.Milli.{milli}
use obs_trigglow_dynamic_del.Degradation.{
  Rung, Parallelism, one_context, Action, Cause, Thresholds, Sample, Policy, make,
}
use obs_trigglow_dynamic_del.Degradation.Evaluate.{
  evaluate, evaluate_started, go_down, go_up, predict, graphics_at_once, encode_down, decode_down,
  graphics_down, graphics_slow, predict_rung, predict_parallelism, may_go_up,
}
use obs_trigglow_dynamic_del.Degradation.Steps.{
  IsInRange, sampled, forced, rebased, after, calls-IsInRange,
}
use obs_trigglow_dynamic_del.Degradation.Causes.{is_down, is_up}

abbrev thresholds : Thresholds milli
thresholds = record {
  graphics_target = 650;
  graphics_down = 800;
  graphics_immediate = 1000;
  worker_down = 850;
  worker_up = 500;
  drop_rate_down = 20;
  miss_rate_down = 20;
  prediction_margin = 1200;
  cooldown_ns = 2000;
  immediate_settle_ns = 500;
  up_hold_ns = 3000;
  min_samples = 4;
}

abbrev ladder : List Rung
ladder =
    record { width = 1920; height = 1080; capture_divisor = 1 }
    ∷ record { width = 1280; height = 720; capture_divisor = 1 }
    ∷ []

abbrev two_steps : List Parallelism
two_steps = one_context ∷ record { contexts = 2; slices = 1 } ∷ []

abbrev fresh : Policy milli
fresh = make milli ladder two_steps 0 true thresholds

-- One rung down and settled; going up has looked good since 5000.
abbrev lowered : Policy milli
lowered = record {
  ladder = ladder;
  steps = two_steps;
  rung = 1;
  step = 1;
  initial_step = 0;
  threaded = true;
  thresholds = thresholds;
  last_change_ns = 1000;
  up_since_ns = 5000;
}

-- At the best rung, with a step more than at first.
abbrev widened : Policy milli
widened = record lowered { rung = 0 }

-- A sample in which every load is low.
abbrev calm : ℕ → Sample milli
calm now = record {
  now_ns = now;
  frame_interval_ns = 16000000;
  graphics_samples = 10;
  graphics_p95_ms = 1000;
  graphics_short_samples = 10;
  graphics_short_p50_ms = 1000;
  encode_samples = 10;
  encode_p95_ms = 1000;
  decode_samples = 10;
  decode_p95_ms = 1000;
  captures = 10;
  encode_drops = 0;
  due_frames = 10;
  decode_misses = 0;
  obs_lagged_frames = 0;
  decode_rung = none;
  block_up = false;
}

abbrev encoder_late : ℕ → Sample milli
encoder_late now = record (calm now) { encode_p95_ms = 40000 }

abbrev other_rung : ℕ → Sample milli
other_rung now = record (calm now) { decode_p95_ms = 40000; decode_rung = some 0 }

abbrev graphics_late : ℕ → Sample milli
graphics_late now = record (calm now) { graphics_short_p50_ms = 20000 }

IsInRange-after_calls : IsInRange (
    after
      (make milli ladder two_steps 5 true thresholds)
      (sampled (encoder_late 9000) ∷ forced Cause.graphics 0 9500 ∷ rebased [] 7 ∷ []))
IsInRange-after_calls =
    calls-IsInRange ladder two_steps 5 true thresholds
      (sampled (encoder_late 9000) ∷ forced Cause.graphics 0 9500 ∷ rebased [] 7 ∷ [])

raises : is_up (evaluate milli lowered (calm 9000)).0.action ≡ true
unfolding evaluate evaluate_started go_down go_up predict predict_rung encode_down decode_down
    graphics_down graphics_slow graphics_at_once may_go_up
raises = refl

narrows : (evaluate milli widened (calm 9000)).0.action ≡ Action.less_parallelism
unfolding evaluate evaluate_started go_down go_up predict predict_parallelism encode_down
    decode_down graphics_down graphics_slow graphics_at_once may_go_up
narrows = refl

lowers : (evaluate milli widened (encoder_late 9000)).0.action ≡ Action.lower_quality
unfolding evaluate evaluate_started go_down go_up encode_down
lowers = refl

lowers_for_encode : (evaluate milli widened (encoder_late 9000)).0.cause ≡ Cause.encode
unfolding evaluate evaluate_started go_down go_up encode_down
lowers_for_encode = refl

lowers_at_once : is_down (evaluate milli widened (graphics_late 1800)).0.action ≡ true
unfolding evaluate evaluate_started go_down go_up encode_down decode_down graphics_down
    graphics_slow graphics_at_once
lowers_at_once = refl
