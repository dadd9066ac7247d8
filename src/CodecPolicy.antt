-- ===== src/CodecPolicy.antt =====
-- src/storage-codec-policy.hpp and src/storage-codec-policy.cpp: when the delay buffer's hardware
-- codec may run, and when the buffer goes back to MJPEG.
pub mod Moves
pub mod Guard
pub mod Warning
mod Tests
use obs_trigglow_dynamic_del.Prelude.{
  ℕ, ◌+◌, Bool, true, false, not, ◌&&◌, ◌||◌, ltb, leb, ◌==◌, List, [], ◌∷◌, if◌then◌else◌, add_u64,
}
use obs_trigglow_dynamic_del.Prelude.Double.{Double}

pub data State : Type 0 where
  mjpeg probing hw hw_guarded yielded evacuated : State

pub data Action : Type 0 where
  none adopted no_hardware lower_rung evacuate yield resume veto_lifted : Action

pub data Reason : Type 0 where
  no_reason hard_error obs_skipped latency in_flight latency_at_floor no_encoder obs_encode_error :
      Reason

abbrev pub is_veto_lifted : Action → Bool
is_veto_lifted veto_lifted = true
is_veto_lifted _ = false

abbrev pub is_guarded : State → Bool
is_guarded hw_guarded = true
is_guarded _ = false

-- The states in which there is nothing left to decide.
abbrev pub is_over : State → Bool
is_over mjpeg = true
is_over evacuated = true
is_over _ = false

module _ (d : Double) where
  open d use {Real, of_nat, mul, div, lt}

  pub record Thresholds : Type 0 where
    pub cooldown_ns : ℕ
    pub latency_factor : Real
    pub warn_hold_ns : ℕ
    pub min_latency_samples : ℕ
    pub in_flight_warn : ℕ
    pub skipped_frames : ℕ
    pub veto_ns : ℕ

  pub record Sample : Type 0 where
    pub now_ns : ℕ
    pub capture_interval_ns : ℕ
    pub inter_active : Bool
    pub setup_failed : Bool
    pub hard_errors : ℕ
    pub is_yielded : Bool
    pub engine_shared : Bool
    pub obs_skipped_frames : ℕ
    pub obs_error : Bool
    pub latency_samples : ℕ
    pub latency_p95_ms : Real
    pub in_flight_max : ℕ
    pub can_lower_rung : Bool

  pub record Decision : Type 0 where
    pub action : Action
    pub reason : Reason
    pub value : Real

  pub record Policy : Type 0 where
    pub state : State
    pub thresholds : Thresholds
    pub last_transition_ns : ℕ
    pub warn_since_ns : ℕ
    pub veto_until_ns : ℕ
    pub transitions : ℕ
    pub obs_error_pending : Bool

  -- The constructor with `hardwareAllowed`.
  pub make : Bool → Thresholds → Policy
  make hardware_allowed t = record {
    state = if hardware_allowed then probing else mjpeg;
    thresholds = t;
    last_transition_ns = 0;
    warn_since_ns = 0;
    veto_until_ns = 0;
    transitions = 0;
    obs_error_pending = false;
  }

  -- What Evaluate returns, with the policy after it.
  abbrev pub Result : Type 0
  Result = Decision × Policy

  abbrev pub no_decision : Decision
  no_decision = record { action = none; reason = no_reason; value = of_nat 0 }

  -- Go.
  abbrev pub go : Policy → State → Action → Reason → Real → ℕ → Result
  go p state action reason value now = (
    record { action = action; reason = reason; value = value },
    record p {
      state = state;
      last_transition_ns = now;
      warn_since_ns = 0;
      transitions = if is_veto_lifted action then p.transitions else add_u64 p.transitions 1;
    },
  )

  abbrev pub lift_veto : Policy → Policy
  lift_veto p = record p { veto_until_ns = 0 }

  -- The case State::Probing.
  pub evaluate_probing : Policy → Sample → Result
  evaluate_probing p s =
      if s.is_yielded
      then go p yielded yield no_reason (of_nat 0) s.now_ns
      else if s.inter_active
      then go p hw adopted no_reason (of_nat 0) s.now_ns
      else if s.setup_failed
      then go p mjpeg no_hardware no_encoder (of_nat 0) s.now_ns
      else (no_decision, p)

  -- The case State::Yielded.
  pub evaluate_yielded : Policy → Sample → Result
  evaluate_yielded p s =
      if not s.is_yielded
      then go p probing resume no_reason (of_nat 0) s.now_ns
      else (no_decision, p)

  abbrev pub interval_ms : Sample → Real
  interval_ms s = div (of_nat s.capture_interval_ns) (of_nat 1000000)

  -- The early warning's two signs.
  abbrev pub latency_high : Policy → Sample → Bool
  latency_high p s =
      leb p.thresholds.min_latency_samples s.latency_samples
      && lt (of_nat 0) (interval_ms s)
      && lt (mul p.thresholds.latency_factor (interval_ms s)) s.latency_p95_ms

  abbrev pub queued : Policy → Sample → Bool
  queued p s = leb p.thresholds.in_flight_warn s.in_flight_max

  abbrev pub warns : Policy → Sample → Bool
  warns p s = s.engine_shared && (latency_high p s || queued p s)

  -- The end of Evaluate, from the early warning on.
  pub evaluate_warning : Policy → Sample → Result
  evaluate_warning p s =
      let settled = leb (add_u64 p.last_transition_ns p.thresholds.cooldown_ns) s.now_ns in
      let since =
        if not (warns p s) then 0 else if p.warn_since_ns == 0 then s.now_ns else p.warn_since_ns in
      let q = record p { warn_since_ns = since } in
      let why = if latency_high p s then latency else in_flight in
      let value = if latency_high p s then s.latency_p95_ms else of_nat s.in_flight_max in
      let lowered = record q { veto_until_ns = add_u64 s.now_ns p.thresholds.veto_ns } in
      if warns p s && settled && leb (add_u64 since p.thresholds.warn_hold_ns) s.now_ns
      then if s.can_lower_rung
        then go lowered hw_guarded lower_rung why value s.now_ns
        else go (lift_veto q) evacuated evacuate latency_at_floor value s.now_ns
      else if is_guarded p.state && not (warns p s) && leb p.veto_until_ns s.now_ns
      then go (lift_veto q) hw veto_lifted no_reason (of_nat 0) s.now_ns
      else (no_decision, q)

  -- States Hw and HwGuarded, after the switch.
  pub evaluate_storing : Policy → Sample → Result
  unfolding evaluate_warning
  evaluate_storing p s =
      let q = record p { obs_error_pending = false } in
      let rest = evaluate_warning q s in
      if p.obs_error_pending && s.engine_shared
      then go (lift_veto q) evacuated evacuate obs_encode_error (of_nat 0) s.now_ns
      else if s.is_yielded
      then go q yielded yield no_reason (of_nat 0) s.now_ns
      else if s.setup_failed
      then go (lift_veto q) evacuated evacuate no_encoder (of_nat 0) s.now_ns
      else if s.engine_shared && leb p.thresholds.skipped_frames s.obs_skipped_frames
      then go (lift_veto q) evacuated evacuate obs_skipped (of_nat s.obs_skipped_frames) s.now_ns
      else rest

  -- Evaluate.
  pub evaluate : Policy → Sample → Result
  unfolding evaluate_probing evaluate_yielded evaluate_storing
  evaluate p s =
      let noted = record p { obs_error_pending = p.obs_error_pending || s.obs_error } in
      if is_over p.state
      then (no_decision, record p { obs_error_pending = false })
      else if ltb 0 s.hard_errors
      then go (lift_veto noted) evacuated evacuate hard_error (of_nat s.hard_errors) s.now_ns
      else elim p.state [
        | probing ↦ evaluate_probing noted s
        | yielded ↦ evaluate_yielded noted s
        | hw ↦ evaluate_storing noted s
        | hw_guarded ↦ evaluate_storing noted s
        | mjpeg ↦ (no_decision, noted)
        | evacuated ↦ (no_decision, noted)
      ]

  -- BlockUp.
  pub block_up : Policy → ℕ → Bool
  block_up p now = not (p.veto_until_ns == 0) && ltb now p.veto_until_ns

  -- The evaluations of a cycle, in order: the decisions and the policy after them.
  pub run : Policy → List Sample → List Decision × Policy
  run p [] = ([], p)
  run p (s ∷ ss) =
      let (decision, q) = evaluate p s in
      let (decisions, last) = run q ss in (decision ∷ decisions, last)
