-- ===== src/CodecPolicy/Guard.antt =====
-- The early warning of src/storage-codec-policy.cpp: when it may act, and its veto on going back up.
use native.Mathlib.Omega.{arith}
use obs_trigglow_dynamic_del.Prelude.{
  ◌+◌, ◌<◌, ◌≡◌, ◌≢◌, Bool, true, false, add_u64, u64_mod, if◌then◌else◌,
}
use obs_trigglow_dynamic_del.Prelude.Double.{Double}
use obs_trigglow_dynamic_del.CodecPolicy.{
  hw_guarded, Action, none, lower_rung, evacuate, veto_lifted, Policy, Sample, evaluate, block_up,
}

abbrev pub is_transition : Action → Bool
is_transition none = false
is_transition veto_lifted = false
is_transition _ = true

module _ (d : Double) where
  -- While the engine is not shared with OBS the policy neither lowers a rung nor evacuates, but for
  -- the hardware codec's own hard errors and a setup that found no encoder.
  pub unshared_engine_runs :
      (p : Policy d) (s : Sample d)
      → s.engine_shared ≡ false
      → s.hard_errors ≡ 0
      → s.setup_failed ≡ false
      → ((evaluate d p s).0.action ≢ lower_rung) × ((evaluate d p s).0.action ≢ evacuate)
  unfolding evaluate
  unshared_engine_runs p s a b c = (λ e. ground arith, λ e. ground arith)

  -- In state HwGuarded the veto runs until `veto_ns` after the last transition, which lowered a rung.
  abbrev pub IsGuarded : Policy d → Type 0
  IsGuarded p =
      p.state ≡ hw_guarded → p.veto_until_ns ≡ add_u64 p.last_transition_ns p.thresholds.veto_ns

  -- Every evaluation keeps the veto of the guarded state at `veto_ns` after the last transition.
  pub evaluate-IsGuarded :
      (p : Policy d) (s : Sample d) → IsGuarded p → IsGuarded (evaluate d p s).1
  unfolding evaluate
  evaluate-IsGuarded p s v h = ground arith

  -- Until `veto_ns` after a rung was lowered the guarded policy blocks going up, and does not lift
  -- its veto. (The end of the veto does not wrap.)
  pub guarded_blocks_up :
      (p : Policy d) (s : Sample d)
      → IsGuarded p
      → p.state ≡ hw_guarded
      → p.last_transition_ns + p.thresholds.veto_ns < u64_mod
      → s.now_ns < p.last_transition_ns + p.thresholds.veto_ns
      → (block_up d p s.now_ns ≡ true) × ((evaluate d p s).0.action ≢ veto_lifted)
  unfolding evaluate block_up
  guarded_blocks_up p s v h b t = (ground arith, λ e. ground arith)

  -- Transitions() counts the decisions that change what the pipeline does: all but None and
  -- VetoLifted.
  pub transitions-evaluate :
      (p : Policy d) (s : Sample d)
      → (evaluate d p s).1.transitions ≡ (
          if is_transition (evaluate d p s).0.action
          then add_u64 p.transitions 1
          else p.transitions)
  unfolding evaluate
  transitions-evaluate p s = ground arith
