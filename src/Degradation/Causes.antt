-- ===== src/Degradation/Causes.antt =====
-- src/degradation-policy.cpp, Policy::Evaluate: what each action needs.
use obs_trigglow_dynamic_del.Prelude.{
  ℕ, ◌+◌, ◌≤◌, ◌<◌, ◌≡◌, ◌≢◌, Bool, true, false, some, length, not, ◌||◌, ◌==◌, Bool-cases, inl,
  inr, sub_u64, arith,
}
use obs_trigglow_dynamic_del.Prelude.Double.{Double}
use obs_trigglow_dynamic_del.Degradation.{
  Action, Cause, Sample, Policy, Result, is_set_up, no_decision,
}
use obs_trigglow_dynamic_del.Degradation.Evaluate.{
  evaluate, evaluate_started, go_down, go_up, settled, start_cycle, may_go_up, overloaded,
  encode_down, decode_down, graphics_down, graphics_at_once, graphics_slow, predict, predict_rung,
  predict_parallelism,
}

-- A step that spends more or shows less.
abbrev pub is_down : Action → Bool
is_down Action.more_parallelism = true
is_down Action.lower_quality = true
is_down _ = false

-- A step back.
abbrev pub is_up : Action → Bool
is_up Action.less_parallelism = true
is_up Action.raise_quality = true
is_up _ = false

module _ {d : Double} where
  -- What `predict` proposes: a step back at the index that is not at its start.
  pub predict_lem :
      (p : Policy d)
      → (s : Sample d)
      → (is_down (predict d p s).action ≡ false)
        × ((predict d p s).action ≡ Action.less_parallelism
            → (p.rung ≡ 0) × (p.initial_step < p.step))
        × ((predict d p s).action ≡ Action.raise_quality → 0 < p.rung)
  unfolding predict predict_rung predict_parallelism
  predict_lem p s = ((ground arith), (λ e. (ground arith, ground arith)), (λ e. ground arith))

  -- While the cooldown runs, only the graphics short window counts.
  unsettled_lem :
      (p : Policy d) (s : Sample d)
      → settled d p s ≡ false
      → (encode_down d p s ≡ false)
        × (decode_down d p s ≡ false)
        × (graphics_down d p s ≡ graphics_at_once d p s)
  unfolding encode_down decode_down graphics_down graphics_slow
  unsettled_lem p s e = ((ground arith), (ground arith), (ground arith))

  -- Evaluate, branch by branch: a policy that is not set up, an overload, and the rest.
  pub evaluate_branches :
      (P : Result d → Type 0) (p : Policy d) (s : Sample d)
      → P (no_decision d, p)
      → (overloaded d (start_cycle d p s.now_ns) s ≡ true
          → P (go_down d (start_cycle d p s.now_ns) s))
      → (overloaded d (start_cycle d p s.now_ns) s ≡ false
          → P (go_up d (start_cycle d p s.now_ns) s))
      → P (evaluate d p s)
  unfolding evaluate evaluate_started
  evaluate_branches P p s idle down up =
      elim (Bool-cases (not (is_set_up d p) || s.frame_interval_ns == 0)) [
        | inl h ↦ rw h idle
        | inr h ↦ rw h (elim (Bool-cases (overloaded d (start_cycle d p s.now_ns) s)) [
          | inl o ↦ rw o (down o)
          | inr o ↦ rw o (up o)
        ])
      ]

  -- What a step back needs of the state and the sample.
  abbrev pub UpNeeds : Policy d → Sample d → Type 0
  UpNeeds p s =
      (s.block_up ≡ false)
      × (overloaded d (start_cycle d p s.now_ns) s ≡ false)
      × (settled d (start_cycle d p s.now_ns) s ≡ true)
      × (p.thresholds.min_samples ≤ s.graphics_samples)
      × ((predict d (start_cycle d p s.now_ns) s).fits ≡ true)
      × (0 < p.up_since_ns)
      × (p.thresholds.up_hold_ns ≤ sub_u64 s.now_ns p.up_since_ns)

  -- A step back needs an external block to be off, no overload, the cooldown and enough samples, and
  -- a prediction that fits now and has been good since an earlier sample at least the hold time ago.
  up_step_needs :
      (p : Policy d) (s : Sample d) → is_up (evaluate d p s).0.action ≡ true → UpNeeds p s
  unfolding go_down go_up may_go_up
  up_step_needs p s =
      evaluate_branches (λ r. is_up r.0.action ≡ true → UpNeeds p s) p s (λ e. absurd (cc))
        (λ o e. absurd (ground arith)) (λ o e. ground arith)

  -- Quality comes back first: parallelism is given back only at the best rung, and only above the
  -- initial step.
  pub quality_back_first :
      (p : Policy d) (s : Sample d)
      → (evaluate d p s).0.action ≡ Action.less_parallelism
      → (p.rung ≡ 0) × (p.initial_step < p.step)
  unfolding go_down go_up
  quality_back_first p s =
      evaluate_branches
        (λ r. r.0.action ≡ Action.less_parallelism → (p.rung ≡ 0) × (p.initial_step < p.step)) p s
        (λ e. absurd (cc)) (λ o e. ground arith)
        (λ o e. ground (arith, predict_lem (start_cycle d p s.now_ns) s))

  -- Quality is lowered because of the encoder only when no parallelism step is left, and only to a
  -- rung of the ladder.
  pub quality_lost_last :
      (p : Policy d) (s : Sample d)
      → (evaluate d p s).0.action ≡ Action.lower_quality
      → (evaluate d p s).0.cause ≡ Cause.encode
      → (p.rung + 1 < length p.ladder) × (length p.steps ≤ p.step + 1)
  unfolding go_down go_up
  quality_lost_last p s =
      evaluate_branches
        (λ r.
          r.0.action ≡ Action.lower_quality
          → r.0.cause ≡ Cause.encode
          → (p.rung + 1 < length p.ladder) × (length p.steps ≤ p.step + 1))
        p s (λ e c. absurd (cc)) (λ o e c. ground arith)
        (λ o e c. ground (arith, predict_lem (start_cycle d p s.now_ns) s))

  -- Metrics of frames captured at another rung never count: no step then has Decode as its cause.
  pub other_rung_ignored :
      (p : Policy d) (s : Sample d) (rung : ℕ)
      → s.decode_rung ≡ some rung
      → rung ≢ p.rung
      → 0 < p.thresholds.min_samples
      → (evaluate d p s).0.cause ≢ Cause.decode
  unfolding go_down go_up decode_down
  other_rung_ignored p s rung e n m =
      evaluate_branches (λ r. r.0.cause ≢ Cause.decode) p s (λ c. absurd (cc)) (λ o c. ground arith)
        (λ o c. ground arith)

  -- While the cooldown after the last step runs, the only step down is the one that the graphics
  -- thread's short window asks for.
  pub down_in_cooldown :
      (p : Policy d) (s : Sample d)
      → settled d (start_cycle d p s.now_ns) s ≡ false
      → is_down (evaluate d p s).0.action ≡ true
      → (graphics_at_once d (start_cycle d p s.now_ns) s ≡ true)
        × ((evaluate d p s).0.cause ≡ Cause.graphics)
  unfolding go_down go_up
  down_in_cooldown p s c =
      let q = start_cycle d p s.now_ns in
      evaluate_branches
        (λ r.
          is_down r.0.action ≡ true
          → (graphics_at_once d q s ≡ true) × (r.0.cause ≡ Cause.graphics))
        p s (λ e. absurd (cc)) (λ o e. ground (arith, unsettled_lem q s c))
        (λ o e. absurd (ground (arith, predict_lem q s)))
