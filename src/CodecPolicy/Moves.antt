-- ===== src/CodecPolicy/Moves.antt =====
-- The states of src/storage-codec-policy.cpp's Policy, and the moves that Evaluate makes.
use native.Mathlib.Omega.{arith}
use obs_trigglow_dynamic_del.Prelude.{
  ℕ, ◌+◌, ◌≤◌, ◌≡◌, refl, ◌∙◌, Bool-cases, inl, inr, Bool, true, false, if◌then◌else◌, List, [],
  ◌∷◌,
}
use obs_trigglow_dynamic_del.Prelude.Double.{Double}
use obs_trigglow_dynamic_del.CodecPolicy.{
  State, mjpeg, probing, hw, hw_guarded, yielded, evacuated, Action, none, adopted, no_hardware,
  lower_rung, evacuate, yield, resume, veto_lifted, Policy, Sample, Decision, is_over, evaluate,
  run,
}

-- The arrows of the header comment: from state, by action, to state.
abbrev pub can_go : State → Action → State → Bool
can_go mjpeg none mjpeg = true
can_go evacuated none evacuated = true
can_go probing none probing = true
can_go probing adopted hw = true
can_go probing no_hardware mjpeg = true
can_go probing yield yielded = true
can_go probing evacuate evacuated = true
can_go yielded none yielded = true
can_go yielded resume probing = true
can_go yielded evacuate evacuated = true
can_go hw none hw = true
can_go hw lower_rung hw_guarded = true
can_go hw yield yielded = true
can_go hw evacuate evacuated = true
can_go hw_guarded none hw_guarded = true
can_go hw_guarded lower_rung hw_guarded = true
can_go hw_guarded veto_lifted hw = true
can_go hw_guarded yield yielded = true
can_go hw_guarded evacuate evacuated = true
can_go _ _ _ = false

abbrev pub is_evacuate : Action → Bool
is_evacuate evacuate = true
is_evacuate _ = false

module _ (d : Double) where
  -- Every evaluation takes one of the arrows of the state machine, named by its action.
  pub evaluate_goes :
      (p : Policy d) (s : Sample d)
      → let (decision, q) = evaluate d p s in can_go p.state decision.action q.state ≡ true
  unfolding evaluate
  evaluate_goes p s = ground arith

  -- The evacuations among the decisions.
  abbrev pub evacuations : List (Decision d) → ℕ
  evacuations [] = 0
  evacuations (x ∷ xs) = (if is_evacuate x.action then 1 else 0) + evacuations xs

  over_decides_nothing :
      (p : Policy d) (s : Sample d)
      → is_over p.state ≡ true
      → let (decision, q) = evaluate d p s in (decision.action ≡ none) × (q.state ≡ p.state)
  unfolding evaluate
  over_decides_nothing p s o = ground arith

  over_stays :
      (p : Policy d) (ss : List (Sample d))
      → is_over p.state ≡ true
      → (evacuations (run d p ss).0 ≡ 0) × ((run d p ss).1.state ≡ p.state)
  unfolding run
  over_stays p [] o = (refl, refl)
  over_stays p (s ∷ ss) o =
      let (a, b) = over_decides_nothing p s o in
      let (e, f) = over_stays (evaluate d p s).1 ss (ground arith) in (ground arith, f ∙ b)

  evacuated_after :
      (p : Policy d) (s : Sample d)
      → is_evacuate (evaluate d p s).0.action ≡ true
      → is_over (evaluate d p s).1.state ≡ true
  evacuated_after p s e = ground (arith, evaluate_goes p s)

  -- In a whole cycle, whatever the samples, the buffer is evacuated at most once: there is no second
  -- try with the hardware in the same cycle.
  pub evacuates_once : (p : Policy d) (ss : List (Sample d)) → evacuations (run d p ss).0 ≤ 1
  unfolding run
  evacuates_once p [] = omega arith
  evacuates_once p (s ∷ ss) = elim (Bool-cases (is_evacuate (evaluate d p s).0.action)) [
    | inl e ↦ let (n, _) = over_stays (evaluate d p s).1 ss (evacuated_after p s e) in ground arith
    | inr e ↦ ground (arith, evacuates_once (evaluate d p s).1 ss)
  ]
