-- ===== src/Degradation/Steps.antt =====
-- src/degradation-policy.cpp: the state of a Policy over its calls, and how a call moves it.
use obs_trigglow_dynamic_del.Prelude.{ℕ, ◌≤◌, ◌<◌, ◌≡◌, refl, Bool, List, [], ◌∷◌, length, arith}
use obs_trigglow_dynamic_del.Prelude.Double.{Double}
use obs_trigglow_dynamic_del.Degradation.{
  Rung, Parallelism, Cause, Thresholds, Sample, Policy, Result, no_decision, make, moved,
  force_lower, set_parallelism, rebase,
}
use obs_trigglow_dynamic_del.Degradation.Evaluate.{go_down, go_up, evaluate, start_cycle}
use obs_trigglow_dynamic_del.Degradation.Causes.{predict_lem, evaluate_branches}

-- The indices of a policy lie in its tables; the step never falls under the initial one.
pub record IsInRange {d : Double} (p : Policy d) : Type 0 where
  pub rung_fits : p.rung < length p.ladder
  pub step_fits : p.step < length p.steps
  pub initial_fits : p.initial_step ≤ p.step

-- The calls of a Policy that change it.
pub data Call (d : Double) : Type 0 where
  sampled : Sample d → Call d
  forced : Cause → d.Real → ℕ → Call d
  regrouped : List Parallelism → ℕ → Call d
  rebased : List Rung → ℕ → Call d

module _ {d : Double} where
  pub called : Policy d → Call d → Policy d
  called p (sampled s) = (evaluate d p s).1
  called p (forced cause load now) = (force_lower d p cause load now).1
  called p (regrouped steps initial) = set_parallelism d p steps initial
  called p (rebased ladder rung) = rebase d p ladder rung

  pub after : Policy d → List (Call d) → Policy d
  after p [] = p
  after p (c ∷ cs) = after (called p c) cs

  pub make-IsInRange :
      (ladder : List Rung)
      → (steps : List Parallelism) → (initial : ℕ) → (threaded : Bool) → (t : Thresholds d)
      → IsInRange (make d ladder steps initial threaded t)
  unfolding make
  make-IsInRange ladder steps initial threaded t = ground arith

  evaluate-IsInRange : (p : Policy d) (s : Sample d) → IsInRange p → IsInRange (evaluate d p s).1
  unfolding go_down go_up
  evaluate-IsInRange p s inside =
      evaluate_branches (λ r. IsInRange r.1) p s inside (λ o. ground (arith, inside))
        (λ o. ground (arith, inside, predict_lem (start_cycle d p s.now_ns) s))

  called-IsInRange : (p : Policy d) → (c : Call d) → IsInRange p → IsInRange (called p c)
  unfolding called force_lower set_parallelism rebase
  called-IsInRange p (sampled s) inside = evaluate-IsInRange p s inside
  called-IsInRange p (forced cause load now) inside = ground arith
  called-IsInRange p (regrouped steps initial) inside = ground arith
  called-IsInRange p (rebased ladder rung) inside = ground arith

  after-IsInRange : (p : Policy d) → (cs : List (Call d)) → IsInRange p → IsInRange (after p cs)
  unfolding after
  after-IsInRange p [] inside = inside
  after-IsInRange p (c ∷ cs) inside = after-IsInRange (called p c) cs (called-IsInRange p c inside)

  -- After any sequence of calls on a new policy, whatever tables and indices they pass, the rung and
  -- the parallelism step lie in their tables and the step is not under the initial one.
  pub calls-IsInRange :
      (ladder : List Rung)
      → (steps : List Parallelism) → (initial : ℕ) → (threaded : Bool) → (t : Thresholds d)
      → (cs : List (Call d)) → IsInRange (after (make d ladder steps initial threaded t) cs)
  calls-IsInRange ladder steps initial threaded t cs =
      after-IsInRange (make d ladder steps initial threaded t) cs
        (make-IsInRange ladder steps initial threaded t)

  -- The action of a result is the move from `p` to its policy.
  record IsMove (p : Policy d) (r : Result d) : Type 0 where
    same_rung : r.1.rung ≡ (moved d r.0.action p).rung
    same_step : r.1.step ≡ (moved d r.0.action p).step
    same_ladder : r.1.ladder ≡ p.ladder
    same_steps : r.1.steps ≡ p.steps
    same_initial : r.1.initial_step ≡ p.initial_step
    same_thresholds : r.1.thresholds ≡ p.thresholds

  -- The start of a cycle changes nothing that a move tells of.
  down-IsMove : (p : Policy d) (s : Sample d) → IsMove p (go_down d (start_cycle d p s.now_ns) s)
  unfolding go_down
  down-IsMove p s = ground arith

  up-IsMove : (p : Policy d) (s : Sample d) → IsMove p (go_up d (start_cycle d p s.now_ns) s)
  unfolding go_up
  up-IsMove p s = ground (arith, predict_lem (start_cycle d p s.now_ns) s)

  idle-IsMove : (p : Policy d) → IsMove p (no_decision d, p)
  idle-IsMove p = record {
    same_rung = refl;
    same_step = refl;
    same_ladder = refl;
    same_steps = refl;
    same_initial = refl;
    same_thresholds = refl;
  }

  -- The action that Evaluate() reports is the move it makes: the rung and the parallelism step
  -- are those of `moved`, one up or down for the action's index and unchanged for the other, and the
  -- tables, the initial step and the thresholds stay.
  pub evaluate-moved :
      (p : Policy d)
      → (s : Sample d)
      → ((evaluate d p s).1.rung ≡ (moved d (evaluate d p s).0.action p).rung)
        × ((evaluate d p s).1.step ≡ (moved d (evaluate d p s).0.action p).step)
        × ((evaluate d p s).1.ladder ≡ p.ladder)
        × ((evaluate d p s).1.steps ≡ p.steps)
        × ((evaluate d p s).1.initial_step ≡ p.initial_step)
        × ((evaluate d p s).1.thresholds ≡ p.thresholds)
  evaluate-moved p s =
      let m : IsMove p (evaluate d p s) =
        evaluate_branches (IsMove p) p s (idle-IsMove p) (λ o. down-IsMove p s)
          (λ o. up-IsMove p s) in
      (m.same_rung, m.same_step, m.same_ladder, m.same_steps, m.same_initial, m.same_thresholds)
