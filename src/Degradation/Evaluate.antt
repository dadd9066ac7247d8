-- ===== src/Degradation/Evaluate.antt =====
-- src/degradation-policy.cpp, Policy::Evaluate.
use obs_trigglow_dynamic_del.Prelude.{
  ℕ, ◌+◌, ◌-◌, ◌/◌, Bool, true, false, not, ◌&&◌, ◌||◌, none, some, ltb, leb, ◌==◌, if◌then◌else◌,
  sub_u64, length, get_or,
}
use obs_trigglow_dynamic_del.Prelude.Double.{Double}
use obs_trigglow_dynamic_del.Degradation.{
  Rung, no_rung, Parallelism, one_context, Action, Cause, slice_speedup, Sample, Policy, Result,
  no_decision, apply, is_set_up,
}

module _ (d : Double) where
  open d use {Real, of_nat, mul, div, maximum, lt, le}

  abbrev pub current_rung : Policy d → Rung
  current_rung p = get_or p.ladder p.rung no_rung

  abbrev pub current_parallelism : Policy d → Parallelism
  current_parallelism p = get_or p.steps p.step one_context

  abbrev pub since_change : Policy d → Sample d → ℕ
  since_change p s = if leb p.last_change_ns s.now_ns then s.now_ns - p.last_change_ns else 0

  abbrev pub settled : Policy d → Sample d → Bool
  settled p s = leb p.thresholds.cooldown_ns (since_change p s)

  abbrev pub can_lower : Policy d → Bool
  can_lower p = ltb (p.rung + 1) (length p.ladder)

  abbrev pub can_parallelize : Policy d → Bool
  can_parallelize p = ltb (p.step + 1) (length p.steps)

  abbrev pub interval_ms : Sample d → Real
  interval_ms s = div (of_nat s.frame_interval_ns) (of_nat 1000000)

  abbrev pub capture_ms : Policy d → Sample d → Real
  capture_ms p s = mul (interval_ms s) (of_nat (current_rung p).capture_divisor)

  abbrev pub graphics_load : Sample d → Real
  graphics_load s = div s.graphics_p95_ms (interval_ms s)

  abbrev pub graphics_short : Sample d → Real
  graphics_short s = div s.graphics_short_p50_ms (interval_ms s)

  -- `graphicsDown` before and after the short window's rule.
  unfoldable pub graphics_slow : Policy d → Sample d → Bool
  graphics_slow p s =
      settled p s
      && leb p.thresholds.min_samples s.graphics_samples
      && (lt p.thresholds.graphics_down (graphics_load s)
          || (lt p.thresholds.graphics_target (graphics_load s) && ltb 0 s.obs_lagged_frames))

  unfoldable pub graphics_at_once : Policy d → Sample d → Bool
  unfolding graphics_slow
  graphics_at_once p s =
      not (graphics_slow p s)
      && leb p.thresholds.immediate_settle_ns (since_change p s)
      && leb (p.thresholds.min_samples / 2) s.graphics_short_samples
      && lt p.thresholds.graphics_immediate (graphics_short s)

  unfoldable pub graphics_down : Policy d → Sample d → Bool
  graphics_down p s = graphics_slow p s || graphics_at_once p s

  unfoldable pub graphics_trigger : Policy d → Sample d → Real
  graphics_trigger p s = if graphics_at_once p s then graphics_short s else graphics_load s

  -- Only decode metrics of frames captured at the current rung count.
  abbrev pub decode_current : Policy d → Sample d → Bool
  decode_current p s = elim s.decode_rung [ none ↦ true | some rung ↦ rung == p.rung ]

  abbrev pub decode_samples : Policy d → Sample d → ℕ
  decode_samples p s = if decode_current p s then s.decode_samples else 0

  abbrev pub due_frames : Policy d → Sample d → ℕ
  due_frames p s = if decode_current p s then s.due_frames else 0

  abbrev pub encode_load : Policy d → Sample d → Real
  encode_load p s =
      div s.encode_p95_ms (mul (capture_ms p s) (of_nat (current_parallelism p).contexts))

  abbrev pub decode_load : Policy d → Sample d → Real
  decode_load p s = div s.decode_p95_ms (capture_ms p s)

  abbrev pub drop_rate : Sample d → Real
  drop_rate s =
      if ltb 0 s.captures then div (of_nat s.encode_drops) (of_nat s.captures) else of_nat 0

  abbrev pub miss_rate : Policy d → Sample d → Real
  miss_rate p s =
      if ltb 0 (due_frames p s)
      then div (of_nat s.decode_misses) (of_nat (due_frames p s))
      else of_nat 0

  unfoldable pub encode_down : Policy d → Sample d → Bool
  encode_down p s =
      p.threaded
      && settled p s
      && ((leb p.thresholds.min_samples s.encode_samples
            && lt p.thresholds.worker_down (encode_load p s))
          || (leb p.thresholds.min_samples s.captures
              && lt p.thresholds.drop_rate_down (drop_rate s)))

  unfoldable pub decode_down : Policy d → Sample d → Bool
  decode_down p s =
      p.threaded
      && settled p s
      && ((leb p.thresholds.min_samples (decode_samples p s)
            && lt p.thresholds.worker_down (decode_load p s))
          || (leb p.thresholds.min_samples (due_frames p s)
              && lt p.thresholds.miss_rate_down (miss_rate p s)))

  -- What triggered the step, as reported.
  unfoldable pub encode_trigger : Policy d → Sample d → Real
  encode_trigger p s =
      if le (encode_load p s) p.thresholds.worker_down then drop_rate s else encode_load p s

  unfoldable pub decode_trigger : Policy d → Sample d → Real
  decode_trigger p s =
      if le (decode_load p s) p.thresholds.worker_down then miss_rate p s else decode_load p s

  abbrev pub overloaded : Policy d → Sample d → Bool
  overloaded p s = encode_down p s || decode_down p s || graphics_down p s

  abbrev pub end_streak : Policy d → Policy d
  end_streak p = record p { up_since_ns = 0 }

  -- The "Down" part, for an overloaded policy.
  unfoldable pub go_down : Policy d → Sample d → Result d
  go_down p s =
      if encode_down p s && can_parallelize p
      then apply d p Action.more_parallelism Cause.encode (encode_trigger p s) s.now_ns
      else if encode_down p s && can_lower p
      then apply d p Action.lower_quality Cause.encode (encode_trigger p s) s.now_ns
      else if decode_down p s && can_lower p
      then apply d p Action.lower_quality Cause.decode (decode_trigger p s) s.now_ns
      else if graphics_down p s && not p.threaded && can_parallelize p
      then apply d p Action.more_parallelism Cause.graphics (graphics_trigger p s) s.now_ns
      else if graphics_down p s && can_lower p
      then apply d p Action.lower_quality Cause.graphics (graphics_trigger p s) s.now_ns
      else (no_decision d, end_streak p)

  -- Whether going up may be considered at all.
  unfoldable pub may_go_up : Policy d → Sample d → Bool
  may_go_up p s =
      not s.block_up
      && settled p s
      && leb p.thresholds.min_samples s.graphics_samples
      && (not p.threaded
          || (leb p.thresholds.min_samples s.encode_samples
              && leb p.thresholds.min_samples (decode_samples p s)))

  abbrev pub area : Rung → Real
  area r = mul (of_nat r.width) (of_nat r.height)

  -- A step up: its action, its predicted load, and whether that is low enough.
  pub record Prediction : Type 0 where
    pub action : Action
    pub load : Real
    pub fits : Bool

  -- One rung up.
  unfoldable pub predict_rung : Policy d → Sample d → Prediction
  predict_rung p s =
      let t = p.thresholds in
      let next = get_or p.ladder (p.rung - 1) no_rung in
      let pixels = div (area next) (maximum (of_nat 1) (area (current_rung p))) in
      let next_capture_ms = mul (interval_ms s) (of_nat next.capture_divisor) in
      let graphics_next = mul (mul (graphics_load s) pixels) t.prediction_margin in
      let encode_next =
        div (mul (mul s.encode_p95_ms pixels) t.prediction_margin)
          (mul next_capture_ms (of_nat (current_parallelism p).contexts)) in
      let decode_next =
        div (mul (mul s.decode_p95_ms pixels) t.prediction_margin) next_capture_ms in
      let graphics_fits = le graphics_next t.graphics_target in
      if p.threaded
      then record {
        action = Action.raise_quality;
        load = maximum graphics_next (maximum encode_next decode_next);
        fits = graphics_fits && le encode_next t.worker_up && le decode_next t.worker_up;
      }
      else record { action = Action.raise_quality; load = graphics_next; fits = graphics_fits }

  -- One step of parallelism less.
  unfoldable pub predict_parallelism : Policy d → Sample d → Prediction
  unfolding slice_speedup
  predict_parallelism p s =
      let t = p.thresholds in
      let next = get_or p.steps (p.step - 1) one_context in
      let slower =
        div (slice_speedup d (current_parallelism p).slices) (slice_speedup d next.slices) in
      let encode_next =
        div (mul (mul s.encode_p95_ms slower) t.prediction_margin)
          (mul (capture_ms p s) (of_nat next.contexts)) in
      let graphics_next = mul (mul (graphics_load s) slower) t.prediction_margin in
      if p.threaded
      then record {
        action = Action.less_parallelism;
        load = encode_next;
        fits = le encode_next t.worker_up;
      }
      else record {
        action = Action.less_parallelism;
        load = graphics_next;
        fits = le graphics_next t.graphics_target;
      }

  unfoldable pub predict : Policy d → Sample d → Prediction
  unfolding predict_rung predict_parallelism
  predict p s =
      if ltb 0 p.rung
      then predict_rung p s
      else if ltb p.initial_step p.step
      then predict_parallelism p s
      else record { action = Action.none; load = of_nat 0; fits = false }

  -- The "Up" part: a step only after its prediction has been good for the hold time.
  unfoldable pub go_up : Policy d → Sample d → Result d
  go_up p s =
      let up = predict p s in
      if not (may_go_up p s) || not up.fits
      then (no_decision d, end_streak p)
      else if p.up_since_ns == 0
      then (no_decision d, record p { up_since_ns = s.now_ns })
      else if ltb (sub_u64 s.now_ns p.up_since_ns) p.thresholds.up_hold_ns
      then (no_decision d, p)
      else apply d p up.action Cause.recovered up.load s.now_ns

  -- Evaluate, once the cycle has started.
  unfoldable pub evaluate_started : Policy d → Sample d → Result d
  evaluate_started p s =
      let down = go_down p s in let up = go_up p s in if overloaded p s then down else up

  abbrev pub start_cycle : Policy d → ℕ → Policy d
  start_cycle p now = record p {
    last_change_ns = if p.last_change_ns == 0 then now else p.last_change_ns;
  }

  -- Evaluate.
  unfoldable pub evaluate : Policy d → Sample d → Result d
  evaluate p s =
      if not (is_set_up d p) || s.frame_interval_ns == 0
      then (no_decision d, p)
      else evaluate_started (start_cycle p s.now_ns) s
