-- ===== src/CodecPolicy/Warning.antt =====
-- The early warning of src/storage-codec-policy.cpp over the evaluations of a cycle: a rung is lowered
-- only after a warning that held.
use obs_trigglow_dynamic_del.Prelude.{
  ℕ, ◌≡◌, ◌⊎◌, Bool, true, false, ◌&&◌, ◌||◌, List, [], ◌∷◌, ◌==◌,
}
use obs_trigglow_dynamic_del.Prelude.Double.{Double}
use obs_trigglow_dynamic_del.CodecPolicy.{State, hw, hw_guarded, Policy, Sample, evaluate, warns}

abbrev pub is_storing : State → Bool
is_storing hw = true
is_storing hw_guarded = true
is_storing _ = false

module _ (d : Double) where
  -- The policy after the evaluations of these samples, the newest first.
  abbrev pub after : Policy d → List (Sample d) → Policy d
  after p [] = p
  after p (s ∷ earlier) = (evaluate d (after p earlier) s).1

  -- The latest samples, back to one that was taken at `since`, all warn.
  abbrev pub warned_from : ℕ → Policy d → List (Sample d) → Bool
  warned_from since p [] = false
  warned_from since p (s ∷ earlier) =
      let more = warned_from since p earlier in warns d p s && (s.now_ns == since || more)

  -- The warning on record, if any, is of the latest samples.
  record IsWarned (p : Policy d) (samples : List (Sample d)) (q : Policy d) : Type 0 where
    same : q.thresholds ≡ p.thresholds
    held :
        (q.warn_since_ns ≡ 0)
        ⊎ ((is_storing q.state ≡ true) × (warned_from q.warn_since_ns p samples ≡ true))
