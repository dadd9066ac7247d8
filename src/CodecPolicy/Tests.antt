-- ===== src/CodecPolicy/Tests.antt =====
-- The codec policy of src/storage-codec-policy.cpp at concrete samples.
use obs_trigglow_dynamic_del.Prelude.{ℕ, ◌≤◌, true, false, List, [], ◌∷◌}
use obs_trigglow_dynamic_del.Prelude.Milli.{milli}
use obs_trigglow_dynamic_del.CodecPolicy.{hw, hw_guarded, Thresholds, Sample, Policy, make, run}
use obs_trigglow_dynamic_del.CodecPolicy.Moves.{evacuations, evacuates_once}

abbrev thresholds : Thresholds milli
thresholds = record {
  cooldown_ns = 100;
  latency_factor = 1500;
  warn_hold_ns = 50;
  min_latency_samples = 3;
  in_flight_warn = 6;
  skipped_frames = 4;
  veto_ns = 1000;
}

-- A quiet sample: hardware in use, nothing wrong.
abbrev quiet : ℕ → Sample milli
quiet now = record {
  now_ns = now;
  capture_interval_ns = 16000000;
  inter_active = true;
  setup_failed = false;
  hard_errors = 0;
  is_yielded = false;
  engine_shared = false;
  obs_skipped_frames = 0;
  obs_error = false;
  latency_samples = 0;
  latency_p95_ms = 0;
  in_flight_max = 0;
  can_lower_rung = true;
}

abbrev queued_up : ℕ → Sample milli
queued_up now = record (quiet now) { engine_shared = true; in_flight_max = 8 }

abbrev failing : ℕ → Sample milli
failing now = record (quiet now) { hard_errors = 1 }

-- In use since 1000, with a warning on record since 1100.
abbrev warned : Policy milli
warned = record (make milli true thresholds) {
  state = hw;
  last_transition_ns = 1000;
  warn_since_ns = 1100;
}

abbrev guarded : Policy milli
guarded = record (make milli true thresholds) {
  state = hw_guarded;
  last_transition_ns = 2000;
  veto_until_ns = 3000;
}

one_evacuation : evacuations milli (run milli warned (failing 1200 ∷ failing 1300 ∷ [])).0 ≤ 1
one_evacuation = evacuates_once milli warned (failing 1200 ∷ failing 1300 ∷ [])

-- Adopted at 1000; every sample from 1100 on warns.
abbrev warning : List (Sample milli)
warning = queued_up 1140 ∷ queued_up 1120 ∷ queued_up 1100 ∷ quiet 1050 ∷ quiet 1000 ∷ []

abbrev adopting : Policy milli
adopting = make milli true thresholds
