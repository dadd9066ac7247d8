-- ===== src/Tasks/Parts.antt =====
-- The operations of src/background-tasks.cpp that leave the queue and its flags alone.
use obs_trigglow_dynamic_del.Prelude.{
  ℕ, ◌≡◌, refl, sym, ap, ◌∙◌, ◌⊎◌, Bool, true, false, Option, none, some, List, [], ◌∷◌, ltb,
  is_empty, if◌then◌else◌, Bool-cases, inl, inr, Option-cases,
}
use obs_trigglow_dynamic_del.Tasks.{
  Turn, woke, RegistryState, QueuedResult, change_group, is_closed, count_in, count_out, add_job,
  start_job, end_job, note_failure, drop_job, job_at, call, deliver_first, cancel_groups,
}
use obs_trigglow_dynamic_del.Tasks.Ops.{on_made, on_owner}

-- What this is about, of a state.
abbrev pub parts : RegistryState → List QueuedResult × Bool × Bool × Bool × List Turn
parts st = (st.queue, st.wake_pending, st.has_waker, st.shut_down, st.turns)

-- The waker was called, and no Drain since.
abbrev pub is_awaited : List Turn → Bool
is_awaited (woke ∷ turns) = true
is_awaited _ = false

-- A result that waits has a call of the waker that Drain has not answered, as the flag says, and none
-- waits after Shutdown.
pub record IsAwake (st : RegistryState) : Type 0 where
  pub waker : st.has_waker ≡ true
  pub waiting : (is_empty st.queue ≡ true) ⊎ (st.wake_pending ≡ true)
  pub called : st.wake_pending ≡ true → is_awaited st.turns ≡ true
  pub dropped : st.shut_down ≡ true → is_empty st.queue ≡ true

pub IsAwake-parts : (st after : RegistryState) → parts after ≡ parts st → IsAwake st → IsAwake after
IsAwake-parts st after e a =
    let queue = ap (λ p. p.0) e in
    let wake = ap (λ p. p.1) e in
    let has = ap (λ p. p.2) e in
    let shut = ap (λ p. p.3) e in
    let turns = ap (λ p. p.4) e in
    record {
      waker = has ∙ a.waker;
      waiting = elim a.waiting [ inl h ↦ inl (ap is_empty queue ∙ h) | inr h ↦ inr (wake ∙ h) ];
      called = λ h. ap is_awaited turns ∙ a.called (sym wake ∙ h);
      dropped = λ h. ap is_empty queue ∙ a.dropped (sym shut ∙ h);
    }

pub parts-if :
    (b : Bool) (st x y : RegistryState)
    → parts x ≡ parts st
    → parts y ≡ parts st
    → parts (if b then x else y) ≡ parts st
parts-if true st x y h k = h
parts-if false st x y h k = k

pub parts-count_in : (owner : Option ℕ) (st : RegistryState) → parts (count_in owner st) ≡ parts st
unfolding count_in change_group
parts-count_in none st = refl
parts-count_in (some g) st = refl

pub parts-count_out :
    (owner : Option ℕ) (st : RegistryState) → parts (count_out owner st) ≡ parts st
unfolding count_out change_group
parts-count_out none st = refl
parts-count_out (some g) st = refl

pub parts-start_job :
    (owner : Option ℕ) (work thread : Bool) (st : RegistryState)
    → parts (start_job owner work thread st).1 ≡ parts st
unfolding start_job add_job
parts-start_job owner false thread st = refl
parts-start_job owner true thread st = elim (Bool-cases (is_closed owner st)) [
  | inl h ↦ rw h refl
  | inr h ↦ rw h (elim (Bool-cases thread) [
    | inl t ↦ rw t (parts-count_in owner st)
    | inr t ↦ rw t (parts-count_out owner (count_in owner st) ∙ parts-count_in owner st)
  ])
]

pub parts-end_job :
    (k : ℕ) (threw : Bool) (st : RegistryState) → parts (end_job k threw st) ≡ parts st
unfolding end_job note_failure drop_job
parts-end_job k threw st = elim (Option-cases (job_at k st.jobs)) [
  | inl h ↦ rw (end_job, h) refl
  | inr (owner, h) ↦ rw (end_job, h) (parts-count_out owner (note_failure threw st))
]

pub parts-deliver_first :
    (threw : Bool) (items : List QueuedResult) (st : RegistryState)
    → parts (deliver_first threw items st) ≡ parts st
unfolding deliver_first call note_failure
parts-deliver_first threw [] st = refl
parts-deliver_first threw (item ∷ rest) st =
    parts-if (is_closed item.group st) st (record st { draining = rest }) _ refl refl

pub parts-cancel_groups :
    (gs : List ℕ) (st : RegistryState) → parts (cancel_groups gs st) ≡ parts st
unfolding cancel_groups change_group
parts-cancel_groups [] st = refl
parts-cancel_groups (g ∷ gs) st = parts-cancel_groups gs _

pub parts-on_made :
    (g : ℕ) (op : RegistryState → RegistryState) (st : RegistryState)
    → parts (op st) ≡ parts st
    → parts (on_made g op st) ≡ parts st
unfolding on_made
parts-on_made g op st h = parts-if (ltb g st.made) st (op st) st h refl

pub parts-on_owner :
    (owner : Option ℕ) (op : RegistryState → RegistryState) (st : RegistryState)
    → parts (op st) ≡ parts st
    → parts (on_owner owner op st) ≡ parts st
unfolding on_owner
parts-on_owner none op st h = h
parts-on_owner (some g) op st h = parts-on_made g op st h
